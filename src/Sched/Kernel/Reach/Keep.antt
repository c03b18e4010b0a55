-- ===== src/Sched/Kernel/Reach/Keep.antt =====
-- Each operation of the scheduler keeps the ring.
use mathlib.Core.Path.{subst}
use neodymium.Base.{
  ℕ, zero, suc, ◌≡◌, ◌≢◌, refl, sym, ◌∙◌, ◌⊎◌, inl, inr, some, List, [], ◌∷◌, arith, ==_refl,
}
use neodymium.Sched.{Task, Sched, add_task, pick_loop}
use neodymium.Sched.Ring.{PathOf, IsRing, NotIn, add_task-IsRing}
use neodymium.Sched.Order.{PathOf-same_next}
use neodymium.Sched.Kernel.Unlink.{In, Distinct}
use neodymium.Sched.Kernel.Reach.{IsScheduled, empty, ring, walk, IsFresh}

-- A task of the ring is met on the way.
walk-NotIn :
    (task : ℕ → Task) (a t b : ℕ) (ts : List ℕ)
    → ((n : ℕ) → walk task n a ≢ t)
    → PathOf task a ts b
    → NotIn t ts
unfolding walk
walk-NotIn task a t b [] h p = _
walk-NotIn task a t b (x ∷ xs) h p =
    let onward : (n : ℕ) → walk task n x ≢ t =
      λ n. subst (λ y. walk task n y ≢ t) p.0 (h (suc n)) in
    (onward 0, walk-NotIn task x t b xs onward p.1.1.1)

In-weaken : (c a t : ℕ) (ts : List ℕ) → In c (a ∷ ts) → In c (a ∷ t ∷ ts)
In-weaken c a t ts (inl e) = inl e
In-weaken c a t ts (inr i) = inr (inr i)

-- A state whose first task is `l`.
pub at_first :
    (s : Sched) (l : ℕ) (ts : List ℕ)
    → s.task_list ≡ l
    → IsRing s.task l ts
    → Distinct ts
    → (s.current_task ≡ 0) ⊎ In s.current_task (l ∷ ts)
    → IsScheduled s
at_first s l ts e r d c =
    ring ts (subst (λ a. IsRing s.task a ts) (sym e) r) d
      (subst (λ a. (s.current_task ≡ 0) ⊎ In s.current_task (a ∷ ts)) (sym e) c)

add_task-current :
    (s : Sched) (t stack regs parent pd : ℕ)
    → (add_task s t stack regs parent pd).current_task ≡ s.current_task
unfolding add_task
add_task-current s t stack regs parent pd = ground arith

add_task-first :
    (s : Sched) (t stack regs parent pd : ℕ)
    → s.task_list ≡ 0
    → let s1 = add_task s t stack regs parent pd in (s1.task_list ≡ t) × ((s1.task t).next ≡ t)
unfolding add_task
add_task-first s t stack regs parent pd e = rw e (refl, ground (arith, ==_refl t))

current_weaken : (c a t : ℕ) (ts : List ℕ) → (c ≡ 0) ⊎ In c (a ∷ ts) → (c ≡ 0) ⊎ In c (a ∷ t ∷ ts)
current_weaken c a t ts (inl e) = inl e
current_weaken c a t ts (inr i) = inr (In-weaken c a t ts i)

-- A created task joins the ring.
pub add_task-keeps :
    (s : Sched) (t stack regs parent pd : ℕ)
    → IsScheduled s
    → IsFresh s t
    → IsScheduled (add_task s t stack regs parent pd)
unfolding walk
add_task-keeps s t stack regs parent pd (empty e c) fresh =
    let first = add_task-first s t stack regs parent pd e in
    at_first (add_task s t stack regs parent pd) t [] first.0 (fresh.0, first.1) _
      (inl (add_task-current s t stack regs parent pd ∙ c))
add_task-keeps s t stack regs parent pd (ring ts r d c) fresh =
    let other = fresh.1 r.0 in
    let out = walk-NotIn s.task s.task_list t s.task_list ts other r.1 in
    let joined = add_task-IsRing s ts t stack regs parent pd r fresh.0 (other 0) out in
    at_first (add_task s t stack regs parent pd) s.task_list (t ∷ ts) joined.0 joined.1 (out, d)
      (subst (λ n. (n ≡ 0) ⊎ In n (s.task_list ∷ t ∷ ts))
        (sym (add_task-current s t stack regs parent pd))
        (current_weaken s.current_task s.task_list t ts c))

-- The behaviour of the ring does not depend on the other fields of a task.
pub same_next-keeps :
    (s s' : Sched)
    → s'.task_list ≡ s.task_list
    → s'.current_task ≡ s.current_task
    → ((x : ℕ) → (s'.task x).next ≡ (s.task x).next)
    → IsScheduled s
    → IsScheduled s'
same_next-keeps s s' e c same (empty l n) = empty (e ∙ l) (c ∙ n)
same_next-keeps s s' e c same (ring ts r d n) =
    at_first s' s.task_list ts e
      (r.0, PathOf-same_next s.task s'.task s.task_list s.task_list ts same r.1) d
      (subst (λ a. (a ≡ 0) ⊎ In a (s.task_list ∷ ts)) (sym c) n)

-- The `next` field of a task of the ring leads to a task of the ring.
next-In :
    (task : ℕ → Task) (a b c : ℕ) (ts : List ℕ)
    → PathOf task a ts b
    → In c (a ∷ ts)
    → ((task c).next ≡ b) ⊎ In (task c).next ts
next-In task a b c [] p (inl e) = inl (subst (λ x. (task x).next ≡ b) e p)
next-In task a b c [] p (inr i) = absurd i
next-In task a b c (t ∷ ts) p (inl e) = inr (inl (subst (λ x. t ≡ (task x).next) e (sym p.0)))
next-In task a b c (t ∷ ts) p (inr i) = in_front (next-In task t b c ts p.1.1.1 i)
  where
    in_front :
        ((task c).next ≡ b) ⊎ In (task c).next ts → ((task c).next ≡ b) ⊎ In (task c).next (t ∷ ts)
    in_front (inl e) = inl e
    in_front (inr i) = inr (inr i)

next-InRing :
    (task : ℕ → Task) (first c : ℕ) (ts : List ℕ)
    → PathOf task first ts first
    → In c (first ∷ ts)
    → In (task c).next (first ∷ ts)
next-InRing task first c ts p i = closed (next-In task first first c ts p i)
  where
    closed : ((task c).next ≡ first) ⊎ In (task c).next ts → In (task c).next (first ∷ ts)
    closed (inl e) = inl (sym e)
    closed (inr j) = inr j

-- The task that `pick_loop` returns is one of the ring.
pub pick_loop-In :
    (fuel : ℕ) (task : ℕ → Task) (first start t p : ℕ) (ts : List ℕ)
    → PathOf task first ts first
    → In t (first ∷ ts)
    → pick_loop fuel task start t ≡ some p
    → (p ≡ 0) ⊎ In p (first ∷ ts)
unfolding pick_loop
pick_loop-In zero task first start t p ts path i e = ground (arith, e)
pick_loop-In (suc n) task first start t p ts path i e =
    let j = next-InRing task first t ts path i in
    ground (arith, e, j, pick_loop-In n task first start (task t).next p ts path j)
