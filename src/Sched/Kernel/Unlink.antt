-- ===== src/Sched/Kernel/Unlink.antt =====
-- A task leaves the ring: the write of `unlink` to the `next` field in front of it.
use neodymium.Base.{
  ℕ, ◌≡◌, ◌≢◌, refl, sym, ap, ◌∙◌, ◌⊎◌, inl, inr, List, [], ◌∷◌, ◌++◌, arith, update, ==_refl,
  ==_ne,
}
use neodymium.Sched.{Task}
use neodymium.Sched.Ring.{PathOf, NotIn, PathOf-update}

abbrev pub In : ℕ → List ℕ → Type 0
In t [] = ⊥
In t (x ∷ xs) = (x ≡ t) ⊎ In t xs

abbrev pub Distinct : List ℕ → Type 0
Distinct [] = Unit
Distinct (x ∷ xs) = NotIn x xs × Distinct xs

-- The last of `a` and the list behind it.
abbrev pub last : ℕ → List ℕ → ℕ
last a [] = a
last a (x ∷ xs) = last x xs

pub NotIn-append : (t : ℕ) (xs ys : List ℕ) → NotIn t (xs ++ ys) → NotIn t xs × NotIn t ys
NotIn-append t [] ys h = (_, h)
NotIn-append t (x ∷ xs) ys h = let rest = NotIn-append t xs ys h.1 in ((h.0, rest.0), rest.1)

pub append-NotIn : (t : ℕ) (xs ys : List ℕ) → NotIn t xs → NotIn t ys → NotIn t (xs ++ ys)
append-NotIn t [] ys p q = q
append-NotIn t (x ∷ xs) ys p q = (p.0, append-NotIn t xs ys p.1 q)

pub last-NotIn : (t a : ℕ) (xs : List ℕ) → a ≢ t → NotIn t xs → last a xs ≢ t
last-NotIn t a [] ne out = ne
last-NotIn t a (x ∷ xs) ne out = last-NotIn t x xs out.0 out.1

-- The path from `a` where its `next` field is changed to what `t` had.
skip :
    (task : ℕ → Task) (a t b : ℕ) (linked : Task) (ys : List ℕ)
    → linked.next ≡ (task t).next
    → NotIn a ys
    → PathOf task t ys b
    → PathOf (update task a linked) a ys b
skip task a t b linked [] e out p = ground (arith, e, p, ==_refl a)
skip task a t b linked (y ∷ ys) e out p = (
  ground (arith, e, p.0, ==_refl a),
  (p.1.0, (p.1.1.0, PathOf-update task y b a linked ys out.0 out.1 p.1.1.1)),
)

update-other : (task : ℕ → Task) (a b : ℕ) (x : Task) → a ≢ b → update task a x b ≡ task b
update-other task a b x ne = rw (==_ne a b ne) refl

-- A path without a task `t` on it, behind the write in front of `t`.
pub cut :
    (task : ℕ → Task) (a t b : ℕ) (linked : Task) (xs ys : List ℕ)
    → linked.next ≡ (task t).next
    → NotIn a (xs ++ (t ∷ ys))
    → Distinct (xs ++ (t ∷ ys))
    → PathOf task a (xs ++ (t ∷ ys)) b
    → PathOf (update task (last a xs) linked) a (xs ++ ys) b
cut task a t b linked [] ys e out dis p = skip task a t b linked ys e out.1 p.1.1.1
cut task a t b linked (x ∷ xs) ys e out dis p =
    let apart = last-NotIn a x xs out.0 (NotIn-append a xs (t ∷ ys) out.1).0 in
    (
      ap (λ (r : Task). r.next) (update-other task (last x xs) a linked apart) ∙ p.0,
      (p.1.0, (p.1.1.0, cut task x t b linked xs ys e dis.0 dis.1 p.1.1.1)),
    )

-- A path whose last `next` field is changed to `c`.
pub retarget :
    (task : ℕ → Task) (a b c : ℕ) (linked : Task) (ys : List ℕ)
    → linked.next ≡ c
    → NotIn a ys
    → NotIn c ys
    → Distinct ys
    → PathOf task a ys b
    → PathOf (update task (last a ys) linked) a ys c
retarget task a b c linked [] e out outc dis p = ground (arith, e, ==_refl a)
retarget task a b c linked (y ∷ ys) e out outc dis p =
    let apart = last-NotIn a y ys out.0 out.1 in
    (
      ap (λ (r : Task). r.next) (update-other task (last y ys) a linked apart) ∙ p.0,
      (outc.0, (p.1.1.0, retarget task y b c linked ys e dis.0 outc.1 dis.1 p.1.1.1)),
    )

-- The part of a path in front of a task on it.
pub front :
    (task : ℕ → Task) (a t b : ℕ) (xs ys : List ℕ)
    → NotIn t xs
    → PathOf task a (xs ++ (t ∷ ys)) b
    → PathOf task a xs t
front task a t b [] ys out p = p.0
front task a t b (x ∷ xs) ys out p = (p.0, (out.0, (p.1.1.0, front task x t b xs ys out.1 p.1.1.1)))

pub Distinct-split :
    (xs : List ℕ) (t : ℕ) (ys : List ℕ)
    → Distinct (xs ++ (t ∷ ys))
    → NotIn t xs × Distinct (xs ++ ys)
Distinct-split [] t ys d = (_, d.1)
Distinct-split (x ∷ xs) t ys d =
    let rest = Distinct-split xs t ys d.1 in
    let out = NotIn-append x xs (t ∷ ys) d.0 in
    (((λ e. out.1.0 (sym e)), rest.0), (append-NotIn x xs ys out.0 out.1.1, rest.1))

pub In-split : (t : ℕ) (ts : List ℕ) → In t ts → (xs ys : List ℕ) × (ts ≡ xs ++ (t ∷ ys))
In-split t [] i = absurd i
In-split t (x ∷ xs) (inl e) = ([], xs, ap (λ n. n ∷ xs) e)
In-split t (x ∷ xs) (inr i) = let (us, vs, e) = In-split t xs i in (x ∷ us, vs, ap (λ l. x ∷ l) e)

pub In-other : (c t : ℕ) (xs ys : List ℕ) → c ≢ t → In c (xs ++ (t ∷ ys)) → In c (xs ++ ys)
In-other c t [] ys ne (inl e) = absurd (ne (sym e))
In-other c t [] ys ne (inr i) = i
In-other c t (x ∷ xs) ys ne (inl e) = inl e
In-other c t (x ∷ xs) ys ne (inr i) = inr (In-other c t xs ys ne i)
