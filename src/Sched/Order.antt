-- ===== src/Sched/Order.antt =====
-- `pick_next_task` is round robin: it takes the first running task behind the current one.
use neodymium.Base.{
  ℕ, zero, suc, ◌<◌, ◌≡◌, ◌≢◌, refl, ◌∙◌, ap, Bool, true, false, ◌||◌, some, List, [], ◌∷◌, ◌++◌,
  arith, ◌==◌, ==_refl, ==_ne, if◌then◌else◌, update, length,
}
use neodymium.Sched.{Task, Sched, task_running, pick_loop, pick_next_task, wake, wake_loop}
use neodymium.Sched.Ring.{PathOf, IsRing}

-- The first running task of a list, 0 if there is none.
abbrev pub first_running : (ℕ → Task) → List ℕ → ℕ
first_running task [] = 0
first_running task (t ∷ ts) = if (task t).state == task_running then t else first_running task ts

pick_loop-first :
    (task : ℕ → Task) (start t : ℕ) (ts : List ℕ) (fuel : ℕ)
    → PathOf task t ts start
    → length ts < fuel
    → pick_loop fuel task start t ≡ some (first_running task (ts ++ (start ∷ [])))
unfolding pick_loop
pick_loop-first task start t [] zero p h = absurd (omega arith)
pick_loop-first task start t [] (suc fuel) p h = rw p (ground arith)
pick_loop-first task start t (x ∷ xs) zero p h = absurd (omega arith)
pick_loop-first task start t (x ∷ xs) (suc fuel) p h =
    rw (p.0, ==_ne x start p.1.0, pick_loop-first task start x xs fuel p.1.1.1 (omega arith))
      (ground arith)

-- With a task current in a ring, `pick_next_task` ends within as many rounds as the ring has tasks.
-- It returns the first running task behind the current one, the current one as the last resort,
-- and the null pointer if no task runs.
pub pick_next_task-first :
    (s : Sched) (ts : List ℕ) (fuel : ℕ)
    → s.task_list ≢ 0
    → IsRing s.task s.current_task ts
    → length ts < fuel
    → pick_next_task fuel s ≡ some (first_running s.task (ts ++ (s.current_task ∷ [])))
unfolding pick_next_task
pick_next_task-first s ts fuel some_task ring h =
    rw (==_ne s.task_list 0 some_task, ==_ne s.current_task 0 ring.0)
      (pick_loop-first s.task s.current_task s.current_task ts fuel ring.1 h)

abbrev pub member : ℕ → List ℕ → Bool
member a [] = false
member a (x ∷ xs) = x == a || member a xs

-- The tasks of a list woken one after the other.
pub wake_all : (now : ℕ) → List ℕ → (ℕ → Task) → ℕ → Task
wake_all now [] task = task
wake_all now (t ∷ ts) task = wake_all now ts (update task t (wake now (task t)))

wake_twice : (now : ℕ) (t : Task) → wake now (wake now t) ≡ wake now t
unfolding wake
wake_twice now t = ground arith

pub wake-next : (now : ℕ) (t : Task) → (wake now t).next ≡ t.next
unfolding wake
wake-next now t = ground arith

-- Waking the tasks of a list wakes these and no others.
pub wake_all_lem :
    (now : ℕ) (ts : List ℕ) (task : ℕ → Task) (a : ℕ)
    → wake_all now ts task a ≡ (if member a ts then wake now (task a) else task a)
unfolding wake_all
wake_all_lem now [] task a = refl
wake_all_lem now (t ∷ ts) task a =
    ground
      (arith, wake_all_lem now ts (update task t (wake now (task t))) a, wake_twice now (task a))

pub PathOf-same_next :
    (task task' : ℕ → Task) (a b : ℕ) (ts : List ℕ)
    → ((x : ℕ) → (task' x).next ≡ (task x).next)
    → PathOf task a ts b
    → PathOf task' a ts b
PathOf-same_next task task' a b [] same p = same a ∙ p
PathOf-same_next task task' a b (t ∷ ts) same p =
    (same a ∙ p.0, (p.1.0, (p.1.1.0, PathOf-same_next task task' t b ts same p.1.1.1)))

woken_next :
    (now : ℕ) (task : ℕ → Task) (t x : ℕ)
    → (update task t (wake now (task t)) x).next ≡ (task x).next
woken_next now task t x = ground (arith, wake-next now (task t))

wake_loop-all :
    (now first t : ℕ) (ts : List ℕ) (task : ℕ → Task) (fuel : ℕ)
    → PathOf task t ts first
    → length ts < fuel
    → wake_loop fuel now first t task ≡ some (wake_all now (t ∷ ts) task)
unfolding wake_loop wake_all
wake_loop-all now first t ts task zero p h = absurd (omega arith)
wake_loop-all now first t [] task (suc fuel) p h =
    let e : (update task t (wake now (task t)) t).next ≡ first = woken_next now task t t ∙ p in
    let stop : ((update task t (wake now (task t)) t).next == first) ≡ true =
      ap (λ n. n == first) e ∙ ==_refl first in
    rw stop refl
wake_loop-all now first t (x ∷ xs) task (suc fuel) p h =
    let woken = update task t (wake now (task t)) in
    let e : (woken t).next ≡ x = woken_next now task t t ∙ p.0 in
    let more : ((woken t).next == first) ≡ false = ap (λ n. n == first) e ∙ ==_ne x first p.1.0 in
    let rest =
      wake_loop-all now first x xs woken fuel
        (PathOf-same_next task woken x first xs (woken_next now task t) p.1.1.1) (omega arith) in
    rw more (ap (λ n. wake_loop fuel now first n woken) e ∙ rest)

-- The waking loop of `sched_tick` ends within as many rounds as the ring has tasks. It wakes the
-- sleeping tasks whose time has come, and changes no other task.
pub wake_loop-wakes :
    (now first : ℕ) (ts : List ℕ) (task : ℕ → Task) (fuel : ℕ)
    → IsRing task first ts
    → length ts < fuel
    → (task' : ℕ → Task) × (wake_loop fuel now first first task ≡ some task')
      × ((a : ℕ) → task' a ≡ (if member a (first ∷ ts) then wake now (task a) else task a))
wake_loop-wakes now first ts task fuel ring h = (
  wake_all now (first ∷ ts) task,
  wake_loop-all now first first ts task fuel ring.1 h,
  λ a. wake_all_lem now (first ∷ ts) task a,
)
