-- ===== src/Sched/Fair/Rotate.antt =====
-- The ring of tasks from any of its tasks on.
use mathlib.Core.Path.{subst}
use neodymium.Base.{ℕ, ◌≡◌, ◌≢◌, refl, sym, ap, ◌⊎◌, inl, inr, List, [], ◌∷◌, ◌++◌}
use neodymium.Sched.{Task}
use neodymium.Sched.Ring.{PathOf, IsRing, NotIn}
use neodymium.Sched.Kernel.Unlink.{In, Distinct, NotIn-append, append-NotIn, front}

-- A ring of different tasks.
abbrev pub Cycle : (ℕ → Task) → ℕ → List ℕ → Type 0
Cycle task c ts = IsRing task c ts × Distinct (c ∷ ts)

-- The part of a path behind a task on it.
pub back :
    (task : ℕ → Task) (a t b : ℕ) (xs ys : List ℕ)
    → PathOf task a (xs ++ (t ∷ ys)) b
    → (t ≢ b) × (t ≢ 0) × PathOf task t ys b
back task a t b [] ys p = (p.1.0, p.1.1.0, p.1.1.1)
back task a t b (x ∷ xs) ys p = back task x t b xs ys p.1.1.1

join :
    (task : ℕ → Task) (a m b : ℕ) (xs ys : List ℕ)
    → PathOf task a xs m
    → NotIn b xs
    → m ≢ b
    → m ≢ 0
    → PathOf task m ys b
    → PathOf task a (xs ++ (m ∷ ys)) b
join task a m b [] ys p out ne some_task q = (p, (ne, (some_task, q)))
join task a m b (x ∷ xs) ys p out ne some_task q =
    (p.0, (out.0, (p.1.1.0, join task x m b xs ys p.1.1.1 out.1 ne some_task q)))

Distinct-insert :
    (x : ℕ) (xs ys : List ℕ) → Distinct (ys ++ xs) → NotIn x (ys ++ xs) → Distinct (ys ++ (x ∷ xs))
Distinct-insert x xs [] d out = (out, d)
Distinct-insert x xs (y ∷ ys) d out =
    let (p, q) = NotIn-append y ys xs d.0 in
    (append-NotIn y ys (x ∷ xs) p ((λ e. out.0 (sym e)), q), Distinct-insert x xs ys d.1 out.1)

NotIn-swap : (t : ℕ) (xs ys : List ℕ) → NotIn t (xs ++ ys) → NotIn t (ys ++ xs)
NotIn-swap t xs ys out = let (p, q) = NotIn-append t xs ys out in append-NotIn t ys xs q p

append_nil : (xs : List ℕ) → xs ++ [] ≡ xs
append_nil [] = refl
append_nil (x ∷ xs) = ap (λ l. x ∷ l) (append_nil xs)

Distinct-swap : (xs ys : List ℕ) → Distinct (xs ++ ys) → Distinct (ys ++ xs)
Distinct-swap [] ys d = subst Distinct (sym (append_nil ys)) d
Distinct-swap (x ∷ xs) ys d =
    Distinct-insert x xs ys (Distinct-swap xs ys d.1) (NotIn-swap x xs ys d.0)

In-append : (t : ℕ) (xs ys : List ℕ) → In t (xs ++ ys) → In t xs ⊎ In t ys
In-append t [] ys i = inr i
In-append t (x ∷ xs) ys (inl e) = inl (inl e)
In-append t (x ∷ xs) ys (inr i) = elim (In-append t xs ys i) [ inl j ↦ inl (inr j) | inr j ↦ inr j ]

In-left : (t : ℕ) (xs ys : List ℕ) → In t xs → In t (xs ++ ys)
In-left t [] ys i = absurd i
In-left t (x ∷ xs) ys (inl e) = inl e
In-left t (x ∷ xs) ys (inr i) = inr (In-left t xs ys i)

In-right : (t : ℕ) (xs ys : List ℕ) → In t ys → In t (xs ++ ys)
In-right t [] ys i = i
In-right t (x ∷ xs) ys i = inr (In-right t xs ys i)

pub In-swap : (t : ℕ) (xs ys : List ℕ) → In t (xs ++ ys) → In t (ys ++ xs)
In-swap t xs ys i = elim (In-append t xs ys i) [
  | inl j ↦ In-right t ys xs j
  | inr j ↦ In-left t ys xs j
]

pub rotate :
    (task : ℕ → Task) (c x : ℕ) (us vs : List ℕ)
    → Cycle task c (us ++ (x ∷ vs))
    → Cycle task x (vs ++ (c ∷ us))
rotate task c x us vs (r, d) =
    let (ne, some_task, behind) = back task c x c us vs r.1 in
    let turned = Distinct-swap (c ∷ us) (x ∷ vs) d in
    let (out_vs, out_us) = NotIn-append x vs (c ∷ us) turned.0 in
    let ahead = front task c x c us vs out_us.1 r.1 in
    ((some_task, join task x c x vs us behind out_vs (λ e. ne (sym e)) r.0 ahead), turned)
