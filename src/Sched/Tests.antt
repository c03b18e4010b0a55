-- ===== src/Sched/Tests.antt =====
-- Three tasks at addresses 16, 32 and 48.
use neodymium.Base.{ℕ, ◌≡◌, refl, arith, if◌then◌else◌, ◌==◌, some, [], ◌∷◌, ◌++◌, ◌≤◌, inl}
use neodymium.Sched.{Task, Sched, pick_next_task}
use neodymium.Sched.Fair.{ticks}
use neodymium.Sched.Fair.Turn.{ticks-turn}
use neodymium.Sched.Ring.{IsRing}
use neodymium.Sched.Order.{first_running, pick_next_task-first}

abbrev task_at : (next state wakeup : ℕ) → Task
task_at next state wakeup = record {
  stack = 0;
  stack_top = 8192;
  next = next;
  parent = 0;
  pid = 1;
  exit_code = 0;
  state = state;
  wakeup_tick = wakeup;
  page_dir = 0;
}

-- The first runs, the second sleeps until tick 9, the third is a zombie.
abbrev tasks : ℕ → Task
tasks a = if a == 16 then task_at 32 0 0 else if a == 32 then task_at 48 2 9 else task_at 16 1 0

abbrev three : Sched
three = record { task = tasks; task_list = 16; current_task = 16; tick = 8; next_pid = 4 }

three-IsRing : IsRing tasks 16 (32 ∷ 48 ∷ [])
three-IsRing = (
  λ e. omega arith,
  (
    refl,
    (λ e. omega arith, (λ e. omega arith, (refl, (λ e. omega arith, (λ e. omega arith, refl))))),
  ),
)

pick_next_task-first_example :
    pick_next_task 3 three ≡ some (first_running tasks ((32 ∷ 48 ∷ []) ++ (16 ∷ [])))
pick_next_task-first_example =
    pick_next_task-first three (32 ∷ 48 ∷ []) 3 (λ e. omega arith) three-IsRing (omega arith)

-- Three tasks that run: the one at 48 has its turn after two ticks.
abbrev busy_tasks : ℕ → Task
busy_tasks a =
    if a == 16 then task_at 32 0 0 else if a == 32 then task_at 48 0 0 else task_at 16 0 0

abbrev busy : Sched
busy = record { task = busy_tasks; task_list = 16; current_task = 16; tick = 8; next_pid = 4 }

busy-IsRing : IsRing busy_tasks 16 (32 ∷ 48 ∷ [])
busy-IsRing = (
  λ e. omega arith,
  (
    refl,
    (λ e. omega arith, (λ e. omega arith, (refl, (λ e. omega arith, (λ e. omega arith, refl))))),
  ),
)

ticks-turn_example :
    (n : ℕ) × (s' : Sched) × (n ≤ 2)
    × (ticks 3 (λ i. 0x9000) n (some busy) ≡ some s')
    × (s'.current_task ≡ 48)
ticks-turn_example =
    ticks-turn 3 (λ i. 0x9000) busy 48 (32 ∷ []) [] (λ e. omega arith) busy-IsRing
      ((λ e. omega arith, (λ e. omega arith, _)), ((λ e. omega arith, _), (_, _))) (inl refl)
      (omega arith) refl
