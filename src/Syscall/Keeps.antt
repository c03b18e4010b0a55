-- ===== src/Syscall/Keeps.antt =====
-- A system call keeps the ring of tasks.
use neodymium.Base.{◌≡◌, ◌⊎◌, none}
use neodymium.Sched.{Sched}
use neodymium.Sched.Memory.{Regs, Memory}
use neodymium.Sched.Kernel.{Kernel, sched_exec}
use neodymium.Sched.Kernel.Reach.{IsScheduled}
use neodymium.Syscall.{Machine, Outcome, returns, yields, panics, hangs, sys_writestr, sys_exec}

-- An outcome with a ring of tasks, where only `Bad` ends in the panic and only `Late` keeps the call
-- from ending.
abbrev pub Keeps : {M : Type 0} → (Late Bad : Type 0) → Outcome M → Type 0
Keeps Late Bad (returns r m) = IsScheduled m.kernel.sched
Keeps Late Bad (yields m) = IsScheduled m.kernel.sched
Keeps Late Bad panics = Bad
Keeps Late Bad hangs = Late

-- The string that a task writes, or the program that it executes, is where a page fault comes.
abbrev pub Faults : {M : Type 0} → Memory M → Regs → Machine M → Type 0
Faults mem r m =
    ((r.eax ≡ sys_writestr) × (mem.read_string m.kernel.memory r.ebx ≡ none))
    ⊎ ((r.eax ≡ sys_exec) × (sched_exec mem m.kernel r r.ebx ≡ none))
