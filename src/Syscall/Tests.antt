-- ===== src/Syscall/Tests.antt =====
-- One task at address 16, which forks.
use neodymium.Base.{ℕ, ◌+◌, true, false, some, [], ◌∷◌}
use neodymium.Ps2.{Keyboard}
use neodymium.Sched.{Sched}
use neodymium.Sched.Memory.{Regs, Memory, user_regs}
use neodymium.Syscall.{Machine}
use neodymium.Syscall.Keeps.{Keeps}

abbrev upwards : Memory ℕ
upwards = record {
  malloc = λ m size. (m, m + size);
  free = λ m a. m;
  create_space = λ m. (m, m + 4096);
  clone_space = λ m a. (m, m + 4096);
  destroy_space = λ m a. m;
  switch_space = λ m a. m;
  kernel_space = λ m. 4096;
  alloc_page = λ m virt flags. (virt, m);
  zero_page = λ m a. m;
  is_elf = λ m a. some true;
  load_elf = λ m a. some (some (0x400000, 0xB0001000), m);
  read_string = λ m a. some (b'h' ∷ b'i' ∷ []);
}

abbrev alone : Sched
alone = record {
  task = λ a. record {
    stack = 0;
    stack_top = 8192;
    next = 16;
    parent = 0;
    pid = 1;
    exit_code = 0;
    state = 0;
    wakeup_tick = 0;
    page_dir = 0x8000;
  };
  task_list = 16;
  current_task = 16;
  tick = 3;
  next_pid = 2;
}

abbrev keys : Keyboard
keys = record {
  keybuf = λ i. 0;
  keybuf_head = 0;
  keybuf_tail = 0;
  extended = false;
  shift_pressed = false;
  ctrl_pressed = false;
  alt_pressed = false;
  caps_pressed = false;
}

abbrev machine : Machine ℕ
machine = record {
  kernel = record { sched = alone; frame = λ a. user_regs 0 0; memory = 0x10000 };
  keyboard = keys;
  printed = [];
}

abbrev fork_regs : Regs
fork_regs = record (user_regs 0x400000 0xB0000F00) { eax = 5 }
