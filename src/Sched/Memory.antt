-- ===== src/Sched/Memory.antt =====
-- The memory that the scheduler works with: the operations of the heap, the address spaces and the ELF
-- loader that src/kernel/sched.c calls, as an interface, and the registers that it saves on a task's
-- kernel stack.
use neodymium.Base.{ℕ, ◌+◌, ◌-◌, Bool, Option, List}

-- `struct regs` of src/kernel/idt.h.
pub record Regs : Type 0 where
  pub gs : ℕ
  pub fs : ℕ
  pub es : ℕ
  pub ds : ℕ
  pub edi : ℕ
  pub esi : ℕ
  pub ebp : ℕ
  pub esp : ℕ
  pub ebx : ℕ
  pub edx : ℕ
  pub ecx : ℕ
  pub eax : ℕ
  pub int_no : ℕ
  pub err_code : ℕ
  pub eip : ℕ
  pub cs : ℕ
  pub eflags : ℕ
  pub user_esp : ℕ
  pub user_ss : ℕ

-- The calls of the heap, of src/kernel/vmm.c and of src/kernel/elf.c, with address 0 for failure.
-- `load_elf` has the entry and the stack top, with a `none` inside for its failure, `is_elf` reads the
-- magic number, and `read_string` the bytes of a C string. For these three the address may come from
-- a task, and the outer `none` is a page fault, whose handler ends in `panic_regs`.
pub record Memory (M : Type 0) : Type 0 where
  pub malloc : M → ℕ → ℕ × M
  pub free : M → ℕ → M
  pub create_space : M → ℕ × M
  pub clone_space : M → ℕ → ℕ × M
  pub destroy_space : M → ℕ → M
  pub switch_space : M → ℕ → M
  pub kernel_space : M → ℕ
  pub alloc_page : M → (virt flags : ℕ) → ℕ × M
  pub zero_page : M → ℕ → M
  pub is_elf : M → ℕ → Option Bool
  pub load_elf : M → ℕ → Option (Option (ℕ × ℕ) × M)
  pub read_string : M → ℕ → Option (List ℕ)

abbrev pub stack_size : ℕ
stack_size = 4096

abbrev pub sizeof_task : ℕ
sizeof_task = 36

abbrev pub sizeof_regs : ℕ
sizeof_regs = 76

-- The address of the saved registers on a kernel stack.
abbrev pub regs_at : ℕ → ℕ
regs_at stack = stack + stack_size - sizeof_regs

-- The registers that start a program in user mode: 0x23 and 0x1B are the user segments.
pub user_regs : (entry user_esp : ℕ) → Regs
user_regs entry user_esp = record {
  gs = 0x23;
  fs = 0x23;
  es = 0x23;
  ds = 0x23;
  edi = 0;
  esi = 0;
  ebp = 0;
  esp = 0;
  ebx = 0;
  edx = 0;
  ecx = 0;
  eax = 0;
  int_no = 0;
  err_code = 0;
  eip = entry;
  cs = 0x1B;
  eflags = 0x202;
  user_esp = user_esp;
  user_ss = 0x23;
}
