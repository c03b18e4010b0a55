-- ===== src/Sched/Fair/Tick.antt =====
-- One `sched_tick` in a ring with a current task.
use mathlib.Core.Path.{subst}
use neodymium.Base.{
  ℕ, ◌<◌, ◌≡◌, ◌≢◌, refl, sym, ap, ◌∙◌, inl, inr, Bool, true, false, List, [], ◌∷◌, ◌++◌, some,
  arith, ◌==◌, ==_ne, if◌then◌else◌, length, length-append, add32,
}
use neodymium.Sched.{Task, Sched, task_running, wake, save_stack, switch_to, tick_awake, sched_tick}
use neodymium.Sched.Ring.{IsRing}
use neodymium.Sched.Order.{
  first_running, member, pick_next_task-first, wake_loop-wakes, PathOf-same_next, wake-next,
}
use neodymium.Sched.Kernel.Unlink.{In, In-split}
use neodymium.Sched.Fair.Rotate.{Cycle, rotate}

-- The ring is as before, and no task stopped.
abbrev pub IsKept : (task task' : ℕ → Task) → Type 0
IsKept task task' =
    ((x : ℕ) → (task' x).next ≡ (task x).next)
    × ((x : ℕ) → (task x).state ≡ task_running → (task' x).state ≡ task_running)

wake-running : (now : ℕ) (t : Task) → t.state ≡ task_running → (wake now t).state ≡ task_running
unfolding wake
wake-running now t e = ground (arith, e)

woken-IsKept :
    (now : ℕ) (ts : List ℕ) (task task' : ℕ → Task)
    → ((a : ℕ) → task' a ≡ (if member a ts then wake now (task a) else task a))
    → IsKept task task'
woken-IsKept now ts task task' h = (
  λ x. ap (λ (t : Task). t.next) (h x) ∙ next_of (member x ts) (task x),
  λ x e. ap (λ (t : Task). t.state) (h x) ∙ state_of (member x ts) (task x) e,
)
  where
    next_of : (b : Bool) (t : Task) → (if b then wake now t else t).next ≡ t.next
    next_of true t = wake-next now t
    next_of false t = refl

    state_of :
        (b : Bool) (t : Task)
        → t.state ≡ task_running
        → (if b then wake now t else t).state ≡ task_running
    state_of true t e = wake-running now t e
    state_of false t e = e

save_stack-IsKept :
    (regs : ℕ) (s : Sched)
    → let s1 = save_stack regs s in
      IsKept s.task s1.task × (s1.task_list ≡ s.task_list) × (s1.current_task ≡ s.current_task)
unfolding save_stack
save_stack-IsKept regs s =
    ((λ x. ground arith, λ x e. ground (arith, e)), ground arith, ground arith)

-- The ring from the first task of the list on, as long as from the current task on.
pub from_list :
    (task : ℕ → Task) (c l : ℕ) (ts : List ℕ)
    → Cycle task c ts
    → In l (c ∷ ts)
    → (ws : List ℕ) × IsRing task l ws × (length ws ≡ length ts)
from_list task c l ts (r, d) (inl e) = (ts, subst (λ n. IsRing task n ts) e r, refl)
from_list task c l ts cyc (inr i) =
    let (us, vs, e) = In-split l ts i in
    (
      vs ++ (c ∷ us),
      (rotate task c l us vs (subst (Cycle task c) e cyc)).0,
      omega (arith, ap (length {A = ℕ}) e, length-append us (l ∷ vs), length-append vs (c ∷ us)),
    )

-- The state that runs `n`.
abbrev pub running_next : Sched → ℕ → Sched
running_next s n = if n == 0 then s else record s { current_task = n }

-- The tick wakes the tasks whose time has come, and runs the first running one behind the current one.
pub sched_tick-first :
    (fuel regs : ℕ) (s : Sched) (ts : List ℕ)
    → s.task_list ≢ 0
    → Cycle s.task s.current_task ts
    → In s.task_list (s.current_task ∷ ts)
    → length ts < fuel
    → (s1 : Sched) × (sched_tick fuel regs s
        ≡ some (running_next s1 (first_running s1.task (ts ++ (s.current_task ∷ [])))))
      × IsKept s.task s1.task
      × (s1.task_list ≡ s.task_list)
      × (s1.current_task ≡ s.current_task)
unfolding sched_tick tick_awake switch_to
sched_tick-first fuel regs s ts ne cyc i h =
    let now = add32 s.tick 1 in
    let (ws, ring, len) = from_list s.task s.current_task s.task_list ts cyc i in
    let (task', woke, is) =
      wake_loop-wakes now s.task_list ws s.task fuel ring (omega (arith, len, h)) in
    let kept = woken-IsKept now (s.task_list ∷ ws) s.task task' is in
    let awake = record s { tick = now; task = task' } in
    let s1 = save_stack regs awake in
    let (saved, same_list, same_current) = save_stack-IsKept regs awake in
    let same : (x : ℕ) → (s1.task x).next ≡ (s.task x).next = λ x. saved.0 x ∙ kept.0 x in
    let path = PathOf-same_next s.task s1.task s.current_task s.current_task ts same cyc.0.1 in
    let ring1 : IsRing s1.task s1.current_task ts =
      subst (λ n. IsRing s1.task n ts) (sym same_current) (cyc.0.0, path) in
    let pick = pick_next_task-first s1 ts fuel (λ e. ne (sym same_list ∙ e)) ring1 h in
    (
      s1,
      rw (==_ne s.task_list 0 ne, woke, pick, same_current) refl,
      (same, λ x e. saved.1 x (kept.1 x e)),
      same_list,
      same_current,
    )
