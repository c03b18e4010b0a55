-- ===== src/Sched/Fair.antt =====
-- Every task that can run gets its turn: `sched_tick` goes round the ring of tasks.
mod Rotate
mod Tick
pub mod Turn
use neodymium.Base.{ℕ, zero, suc, Option, none, some}
use neodymium.Sched.{Sched, sched_tick}

pub tick_some : (fuel regs : ℕ) → Option Sched → Option Sched
tick_some fuel regs none = none
tick_some fuel regs (some s) = sched_tick fuel regs s

-- `n` ticks; `regs i` is the address of the registers that tick `i` saves.
pub ticks : (fuel : ℕ) (regs : ℕ → ℕ) (n : ℕ) → Option Sched → Option Sched
ticks fuel regs zero o = o
ticks fuel regs (suc n) o = ticks fuel (λ i. regs (suc i)) n (tick_some fuel (regs 0) o)
