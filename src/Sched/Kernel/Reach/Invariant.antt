-- ===== src/Sched/Kernel/Reach/Invariant.antt =====
-- The ring is an invariant of the scheduler.
use mathlib.Core.Path.{subst}
use neodymium.Base.{◌≡◌, refl, sym}
use neodymium.Sched.{Sched, init}
use neodymium.Sched.Memory.{Memory}
use neodymium.Sched.Kernel.{Kernel}
use neodymium.Sched.Kernel.Reach
use neodymium.Sched.Kernel.Reach.{IsScheduled, empty, Step, Reach, here, next}
use neodymium.Sched.Kernel.Reach.Moves.{
  sched_tick-keeps, yield_round-keeps, sched_exit_with-keeps, sched_sleep-keeps,
}
use neodymium.Sched.Kernel.Reach.Wait.{sched_wait-keeps}
use neodymium.Sched.Kernel.Reach.Created.{
  task_create-keeps, task_create_elf-keeps, task_create_fork-keeps, sched_exec-keeps, Ran,
}

init-IsScheduled : (s : Sched) → IsScheduled (init s)
unfolding init
init-IsScheduled s = empty refl refl

module _ {M : Type 0} (mem : Memory M) where
  abbrev IsOrderly : Kernel M → Type 0
  IsOrderly k = IsScheduled k.sched

  Step-keeps : (k k' : Kernel M) → Step mem k k' → IsOrderly k → IsOrderly k'
  Step-keeps k k' (Reach.create entry h e) i =
      subst IsOrderly (sym e) (task_create-keeps mem k entry h i)
  Step-keeps k k' (Reach.create_elf entry esp pd h e) i =
      subst IsOrderly (sym e) (task_create_elf-keeps mem k entry esp pd h i)
  Step-keeps k k' (Reach.fork r h e) i =
      subst IsOrderly (sym e) (task_create_fork-keeps mem k r h i)
  Step-keeps k k' (Reach.tick fuel regs s t e) i =
      subst IsOrderly (sym e) (sched_tick-keeps fuel regs k.sched s t i)
  Step-keeps k k' (Reach.exit regs code s t e) i =
      subst IsOrderly (sym e) (sched_exit_with-keeps regs code k.sched s t i)
  Step-keeps k k' (Reach.sleep regs ticks e) i =
      subst IsOrderly (sym e) (sched_sleep-keeps regs ticks k.sched i)
  Step-keeps k k' (Reach.yield fuel s t e) i =
      subst IsOrderly (sym e) (yield_round-keeps fuel k.sched s t i)
  Step-keeps k k' (Reach.wait fuel code run e) i = sched_wait-keeps mem fuel k k' code run e i
  Step-keeps k k' (Reach.exec r elf done r' e) i =
      subst (Ran mem) e (sched_exec-keeps mem k r elf i)
  Step-keeps k k' (Reach.other m e) i = subst IsOrderly (sym e) i

  Reach-keeps : (k k' : Kernel M) → Reach mem k k' → IsOrderly k → IsOrderly k'
  Reach-keeps k _ here i = i
  Reach-keeps k k' (next {j = j} r st) i = Step-keeps j k' st (Reach-keeps k j r i)

  -- Every state that the scheduler reaches from `sched_init` has no task and no current task, or its
  -- tasks form one ring of different addresses, none of them null, with the current task, if there is
  -- one, in the ring. The memory for a new task is not that of a task in the ring, and a task that
  -- waits is running.
  pub Reach-IsScheduled :
      (old : Sched) (k k' : Kernel M) → k.sched ≡ init old → Reach mem k k' → IsScheduled k'.sched
  Reach-IsScheduled old k k' e r =
      Reach-keeps k k' r (subst IsScheduled (sym e) (init-IsScheduled old))
