-- ===== src/Sched/Kernel/Reach/Moves.antt =====
-- The tick, `yield`, the exit and the sleep keep the ring.
use mathlib.Core.Path.{subst}
use neodymium.Base.{
  if_keeps, unless_some, if_some, some-injective, ◌||◌, ◌&&◌, not, add32, ℕ, zero, suc, ◌≡◌, refl,
  sym, ap, ◌∙◌, ◌⊎◌, inl, inr, Option, none, some, List, ◌∷◌, arith, ◌==◌, if◌then◌else◌, update,
}
use neodymium.Sched.{
  Task, Sched, wake, wake_loop, save_stack, switch_to, tick_awake, sched_tick, pick_next_task,
  mark_exit, mark_sleep,
}
use neodymium.Sched.Ring.{PathOf}
use neodymium.Sched.Order.{wake-next}
use neodymium.Sched.Kernel.{yield_round, yield_save, sched_exit_with, sched_sleep}
use neodymium.Sched.Kernel.Unlink.{In}
use neodymium.Sched.Kernel.Reach.{IsScheduled, empty, ring}
use neodymium.Sched.Kernel.Reach.Keep.{same_next-keeps, pick_loop-In}

pick_next_task-In :
    (fuel : ℕ) (s : Sched) (p : ℕ) (ts : List ℕ)
    → PathOf s.task s.task_list ts s.task_list
    → (s.current_task ≡ 0) ⊎ In s.current_task (s.task_list ∷ ts)
    → pick_next_task fuel s ≡ some p
    → (p ≡ 0) ⊎ In p (s.task_list ∷ ts)
unfolding pick_next_task
pick_next_task-In fuel s p ts path (inl c) e =
    ground (
      arith,
      e,
      c,
      pick_loop-In fuel s.task s.task_list s.task_list s.task_list p ts path (inl refl),
    )
pick_next_task-In fuel s p ts path (inr i) e = ground (
  arith,
  e,
  i,
  pick_loop-In fuel s.task s.task_list s.current_task s.current_task p ts path i,
  pick_loop-In fuel s.task s.task_list s.task_list s.task_list p ts path (inl refl),
)

pick-empty :
    (fuel : ℕ) (s : Sched) (p : ℕ) → s.task_list ≡ 0 → pick_next_task fuel s ≡ some p → p ≡ 0
unfolding pick_next_task
pick-empty fuel s p e k = ground (arith, e, k)

pick-IsScheduled :
    (fuel : ℕ) (s : Sched) (p : ℕ)
    → IsScheduled s
    → pick_next_task fuel s ≡ some p
    → (p ≡ 0) ⊎ IsScheduled (record s { current_task = p })
pick-IsScheduled fuel s p (empty e c) k = inl (pick-empty fuel s p e k)
pick-IsScheduled fuel s p (ring ts r d c) k = picked (pick_next_task-In fuel s p ts r.1 c k)
  where
    picked :
        (p ≡ 0) ⊎ In p (s.task_list ∷ ts) → (p ≡ 0) ⊎ IsScheduled (record s { current_task = p })
    picked (inl z) = inl z
    picked (inr i) = inr (ring ts r d (inr i))

runs_next :
    (s : Sched) (p : ℕ)
    → IsScheduled s
    → (p ≡ 0) ⊎ IsScheduled (record s { current_task = p })
    → IsScheduled (if p == 0 then s else record s { current_task = p })
runs_next s p i (inl z) =
    subst (λ n. IsScheduled (if n == 0 then s else record s { current_task = n })) (sym z) i
runs_next s p i (inr q) = if_keeps IsScheduled (p == 0) i q

switch_to-keeps :
    (s s' : Sched) (o : Option ℕ)
    → ((p : ℕ) → o ≡ some p → (p ≡ 0) ⊎ IsScheduled (record s { current_task = p }))
    → switch_to s o ≡ some s'
    → IsScheduled s
    → IsScheduled s'
unfolding switch_to
switch_to-keeps s s' none h e i = ground (arith, e)
switch_to-keeps s s' (some p) h e i =
    subst IsScheduled (some-injective (if p == 0 then s else record s { current_task = p }) s' e)
      (runs_next s p i (h p refl))

pub yield_round-keeps :
    (fuel : ℕ) (s s' : Sched) → yield_round fuel s ≡ some s' → IsScheduled s → IsScheduled s'
unfolding yield_round
yield_round-keeps fuel s s' e i =
    switch_to-keeps s s' (pick_next_task fuel s) (λ p k. pick-IsScheduled fuel s p i k) e i

wake_loop-next :
    (fuel now first t : ℕ) (task task' : ℕ → Task)
    → wake_loop fuel now first t task ≡ some task'
    → (x : ℕ) → (task' x).next ≡ (task x).next
unfolding wake_loop
wake_loop-next zero now first t task task' e x = ground (arith, e)
wake_loop-next (suc n) now first t task task' e x =
    let woken = update task t (wake now (task t)) in
    let same : (woken x).next ≡ (task x).next = ground (arith, wake-next now (task t)) in
    let rest = wake_loop n now first (woken t).next woken in
    elim (if_some ((woken t).next == first) woken task' rest e) [
      | inl p ↦ ap (λ (f : ℕ → Task). (f x).next) (sym p) ∙ same
      | inr q ↦ wake_loop-next n now first (woken t).next woken task' q x ∙ same
    ]

save_stack-keeps : (regs : ℕ) (s : Sched) → IsScheduled s → IsScheduled (save_stack regs s)
unfolding save_stack
save_stack-keeps regs s i =
    let t = s.task s.current_task in
    let saved = record s { task = update s.task s.current_task (record t { stack = regs }) } in
    if_keeps IsScheduled (not (s.current_task == 0) && t.state == 0)
      (same_next-keeps s saved refl refl (λ x. ground arith) i) i

tick_awake-keeps :
    (fuel regs : ℕ) (s s' : Sched) (o : Option (ℕ → Task))
    → ((task : ℕ → Task) → o ≡ some task → (x : ℕ) → (task x).next ≡ (s.task x).next)
    → tick_awake fuel regs s o ≡ some s'
    → IsScheduled s
    → IsScheduled s'
unfolding tick_awake yield_round
tick_awake-keeps fuel regs s s' none h e i = ground (arith, e)
tick_awake-keeps fuel regs s s' (some task) h e i =
    let awake = record s { task = task } in
    yield_round-keeps fuel (save_stack regs awake) s' e
      (save_stack-keeps regs awake (same_next-keeps s awake refl refl (h task refl) i))

pub sched_tick-keeps :
    (fuel regs : ℕ) (s s' : Sched)
    → sched_tick fuel regs s ≡ some s'
    → IsScheduled s
    → IsScheduled s'
unfolding sched_tick
sched_tick-keeps fuel regs s s' e i =
    let s1 = record s { tick = add32 s.tick 1 } in
    let j = same_next-keeps s s1 refl refl (λ x. refl) i in
    let awake = wake_loop fuel s1.tick s.task_list s.task_list s.task in
    elim (if_some (s.task_list == 0) s1 s' (tick_awake fuel regs s1 awake) e) [
      | inl p ↦ subst IsScheduled p j
      | inr q ↦
          tick_awake-keeps fuel regs s1 s' awake
            (wake_loop-next fuel s1.tick s.task_list s.task_list s.task) q j
    ]

yield_save-keeps : (regs : ℕ) (s : Sched) → IsScheduled s → IsScheduled (yield_save regs s)
unfolding yield_save
yield_save-keeps regs s i =
    let saved = record s {
      task = update s.task s.current_task (record (s.task s.current_task) { stack = regs });
    } in
    if_keeps IsScheduled (s.current_task == 0) i
      (same_next-keeps s saved refl refl (λ x. ground arith) i)

mark_exit-keeps : (s : Sched) (code : ℕ) → IsScheduled s → IsScheduled (mark_exit s code)
unfolding mark_exit
mark_exit-keeps s code i = same_next-keeps s (mark_exit s code) refl refl (λ x. ground arith) i

mark_sleep-keeps : (s : Sched) (ticks : ℕ) → IsScheduled s → IsScheduled (mark_sleep s ticks)
unfolding mark_sleep
mark_sleep-keeps s ticks i =
    same_next-keeps s (mark_sleep s ticks) (ground arith) (ground arith) (λ x. ground arith) i

pub sched_exit_with-keeps :
    (regs code : ℕ) (s s' : Sched)
    → sched_exit_with regs code s ≡ some s'
    → IsScheduled s
    → IsScheduled s'
unfolding sched_exit_with
sched_exit_with-keeps regs code s s' e i =
    let exited = yield_save regs (mark_exit s code) in
    subst IsScheduled (unless_some (s.task_list == 0 || s.current_task == 0) exited s' e)
      (yield_save-keeps regs (mark_exit s code) (mark_exit-keeps s code i))

pub sched_sleep-keeps :
    (regs ticks : ℕ) (s : Sched) → IsScheduled s → IsScheduled (sched_sleep regs ticks s)
unfolding sched_sleep
sched_sleep-keeps regs ticks s i =
    if_keeps IsScheduled (s.task_list == 0 || s.current_task == 0) i
      (yield_save-keeps regs (mark_sleep s ticks) (mark_sleep-keeps s ticks i))
