-- ===== src/Sched/Kernel/Tests.antt =====
-- A memory that hands out addresses upwards, and short runs of the scheduler on it.
use neodymium.Base.{
  ℕ, zero, suc, ◌+◌, ◌≡◌, refl, true, Option, none, some, [], ◌∷◌, arith, ◌==◌, if◌then◌else◌,
}
use neodymium.Sched.{Task, Sched, init, sched_tick, mark_exit, mark_sleep, add_task}
use neodymium.Sched.Ring.{IsRing}
use neodymium.Sched.Memory.{Memory, user_regs}
use neodymium.Sched.Kernel.{
  Kernel, task_create_elf, task_create_fork, sched_exit_with, sched_wait, yield_round,
}
use neodymium.Sched.Kernel.Find.{first_zombie}
use neodymium.Sched.Kernel.Reach
use neodymium.Sched.Kernel.Reach.{IsScheduled, IsFresh, Reach, here, next, walk}
use neodymium.Sched.Kernel.Reach.Invariant.{Reach-IsScheduled}
use neodymium.Sched.Kernel.Reach.Result.{exit_of, sched_wait-first}

abbrev bump : Memory ℕ
bump = record {
  malloc = λ m size. (m, m + size);
  free = λ m a. m;
  create_space = λ m. (m, m + 4096);
  clone_space = λ m a. (m, m + 4096);
  destroy_space = λ m a. m;
  switch_space = λ m a. m;
  kernel_space = λ m. 4096;
  alloc_page = λ m virt flags. (virt, m);
  zero_page = λ m a. m;
  is_elf = λ m a. some true;
  load_elf = λ m a. some (some (0x400000, 0xB0001000), m);
  read_string = λ m a. some (b'h' ∷ b'i' ∷ []);
}

abbrev no_task : Task
no_task = record {
  stack = 0;
  stack_top = 0;
  next = 0;
  parent = 0;
  pid = 0;
  exit_code = 0;
  state = 0;
  wakeup_tick = 0;
  page_dir = 0;
}

abbrev off : Sched
off = record { task = λ a. no_task; task_list = 0; current_task = 0; tick = 0; next_pid = 0 }

abbrev started : Kernel ℕ
started = record { sched = init off; frame = λ a. user_regs 0 0; memory = 0x10000 }

abbrev shell : Kernel ℕ
shell = (task_create_elf bump started 0x400000 0xB0001000 0x8000).1

abbrev ticked : Option Sched → Kernel ℕ → Kernel ℕ
ticked none k = k
ticked (some s) k = record k { sched = s }

abbrev running : Kernel ℕ
running = ticked (sched_tick 2 0x9000 shell.sched) shell

walk-alone : (task : ℕ → Task) (a n : ℕ) → (task a).next ≡ a → walk task n a ≡ a
unfolding walk
walk-alone task a zero e = refl
walk-alone task a (suc n) e = rw e (walk-alone task a n e)

shell_alone : (n : ℕ) → walk running.sched.task n 0x10000 ≡ 0x10000
unfolding task_create_elf sched_tick init neodymium.Sched.Kernel.create_elf_at
    neodymium.Sched.Kernel.alloc_task neodymium.Sched.Kernel.start_task add_task
    neodymium.Sched.tick_awake neodymium.Sched.wake_loop neodymium.Sched.wake
    neodymium.Sched.switch_to neodymium.Sched.pick_next_task neodymium.Sched.save_stack
    neodymium.Sched.pick_loop
shell_alone n = walk-alone running.sched.task 0x10000 n refl

-- The shell starts and forks.
abbrev forked : Kernel ℕ
forked = (task_create_fork bump running (user_regs 0x400010 0xB0000F00)).1

Reach-IsScheduled_example : IsScheduled forked.sched
unfolding task_create_elf sched_tick init neodymium.Sched.Kernel.create_elf_at
    neodymium.Sched.Kernel.alloc_task neodymium.Sched.Kernel.start_task add_task
    neodymium.Sched.tick_awake neodymium.Sched.wake_loop neodymium.Sched.wake
    neodymium.Sched.switch_to neodymium.Sched.pick_next_task neodymium.Sched.save_stack
    neodymium.Sched.pick_loop
Reach-IsScheduled_example = Reach-IsScheduled bump off started forked refl (
    next
      (next
        (next here
          (Reach.create_elf 0x400000 0xB0001000 0x8000 (λ ne. (ne, λ h. absurd (h refl))) refl))
        (Reach.tick 2 0x9000 running.sched refl refl))
      (Reach.fork (user_regs 0x400010 0xB0000F00)
        (λ ne. (ne, λ h n e. omega (arith, shell_alone n, e))) refl))

-- A parent at 16 with a sleeping child at 32 and an ended one at 48.
abbrev family_task : (behind parent state : ℕ) → Task
family_task behind parent state = record no_task {
  next = behind;
  parent = parent;
  state = state;
  stack_top = 8192;
  exit_code = 7;
}

abbrev family_tasks : ℕ → Task
family_tasks a =
    if a == 16
    then family_task 32 0 0
    else if a == 32
    then family_task 48 16 2
    else family_task 16 16 1

abbrev family : Kernel ℕ
family = record {
  sched = record { task = family_tasks; task_list = 16; current_task = 16; tick = 8; next_pid = 4 };
  frame = λ a. user_regs 0 0;
  memory = 0x10000;
}

family-IsRing : IsRing family_tasks 16 (32 ∷ 48 ∷ [])
family-IsRing = (
  λ e. omega arith,
  (
    refl,
    (λ e. omega arith, (λ e. omega arith, (refl, (λ e. omega arith, (λ e. omega arith, refl))))),
  ),
)

sched_wait-first_example :
    (k' : Kernel ℕ) × (sched_wait bump 3 family
      ≡ some (exit_of family_tasks (first_zombie family_tasks 16 (16 ∷ 32 ∷ 48 ∷ [])), k'))
sched_wait-first_example =
    sched_wait-first bump family (32 ∷ 48 ∷ []) 3 (λ e. omega arith) family-IsRing
      ((λ e. omega arith, _), (_, _)) (omega arith)

-- The parent gets the exit code of the child at 48, which leaves the ring.
sched_wait_run : (exit_of family_tasks (first_zombie family_tasks 16 (16 ∷ 32 ∷ 48 ∷ []))) ≡ some 7
sched_wait_run = refl
