-- ===== src/Sched/Kernel/Reach.antt =====
-- The states that the scheduler reaches: a relation of the steps that change it, and the shape of the
-- ring that they keep.
mod Keep
pub mod Moves
pub mod Wait
pub mod Created
pub mod Invariant
pub mod Result
use neodymium.Base.{Bool, ℕ, zero, suc, ◌≡◌, ◌≢◌, ◌⊎◌, Option, some, List, ◌∷◌}
use neodymium.Sched.{Task, Sched, task_running, sched_tick}
use neodymium.Sched.Memory.{Regs, Memory, sizeof_task}
use neodymium.Sched.Kernel.{
  Kernel, yield_round, sched_exit_with, sched_sleep, task_create, task_create_elf, task_create_fork,
  sched_wait, sched_exec,
}
use neodymium.Sched.Ring.{IsRing}
use neodymium.Sched.Kernel.Unlink.{In, Distinct}

-- No task, or a ring of tasks at different addresses, where the current task is one of them if there
-- is one.
pub data IsScheduled (s : Sched) : Type 0 where
  empty : s.task_list ≡ 0 → s.current_task ≡ 0 → IsScheduled s
  ring :
      (ts : List ℕ)
      → IsRing s.task s.task_list ts
      → Distinct ts
      → (s.current_task ≡ 0) ⊎ In s.current_task (s.task_list ∷ ts)
      → IsScheduled s

-- `n` times the `next` field, from `a`.
unfoldable pub walk : (ℕ → Task) → (n a : ℕ) → ℕ
walk task zero a = a
walk task (suc n) a = walk task n (task a).next

-- The address `t` is not null, and no task of the ring is at it.
abbrev pub IsFresh : Sched → (t : ℕ) → Type 0
IsFresh s t = (t ≢ 0) × (s.task_list ≢ 0 → (n : ℕ) → walk s.task n s.task_list ≢ t)

module _ {M : Type 0} (mem : Memory M) where
  -- What the heap promises: memory for a task is not the memory of another one.
  abbrev pub Allocates : Kernel M → Type 0
  Allocates k = let t = (mem.malloc k.memory sizeof_task).0 in (t ≢ 0) → IsFresh k.sched t

  -- The steps. A task waits while it runs; a step that is not of the scheduler changes the memory.
  pub data Step (k k' : Kernel M) : Type 0 where
    create : (entry : ℕ) → Allocates k → k' ≡ (task_create mem k entry).1 → Step k k'
    create_elf :
        (entry user_esp pd : ℕ)
        → Allocates k
        → k' ≡ (task_create_elf mem k entry user_esp pd).1
        → Step k k'
    fork : (r : Regs) → Allocates k → k' ≡ (task_create_fork mem k r).1 → Step k k'
    tick :
        (fuel regs : ℕ) (s : Sched)
        → sched_tick fuel regs k.sched ≡ some s
        → k' ≡ record k { sched = s }
        → Step k k'
    exit :
        (regs code : ℕ) (s : Sched)
        → sched_exit_with regs code k.sched ≡ some s
        → k' ≡ record k { sched = s }
        → Step k k'
    sleep : (regs ticks : ℕ) → k' ≡ record k { sched = sched_sleep regs ticks k.sched } → Step k k'
    yield :
        (fuel : ℕ) (s : Sched)
        → yield_round fuel k.sched ≡ some s
        → k' ≡ record k { sched = s }
        → Step k k'
    wait :
        (fuel : ℕ) (code : Option ℕ)
        → (k.sched.task k.sched.current_task).state ≡ task_running
        → sched_wait mem fuel k ≡ some (code, k')
        → Step k k'
    exec :
        (r : Regs) (elf : ℕ) (done : Bool) (r' : Regs)
        → sched_exec mem k r elf ≡ some (done, r', k')
        → Step k k'
    other : (m : M) → k' ≡ record k { memory = m } → Step k k'

  pub data Reach (k : Kernel M) : Kernel M → Type 0 where
    here : Reach k k
    next : {j l : Kernel M} → Reach k j → Step j l → Reach k l
