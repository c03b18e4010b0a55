-- ===== src/Sched/Kernel/Find.antt =====
-- The two loops of `sched_wait` round the ring.
use neodymium.Base.{
  ℕ, zero, suc, ◌<◌, ◌≡◌, refl, ◌⊎◌, inl, inr, ◌&&◌, List, [], ◌∷◌, arith, ◌==◌, ==_refl, ==_ne,
  if◌then◌else◌, length, Option, none, some, Bool,
}
use neodymium.Sched.{Task, task_zombie}
use neodymium.Sched.Kernel.{find_prev, find_zombie}
use neodymium.Sched.Ring.{PathOf}
use neodymium.Sched.Kernel.Unlink.{In, last}

abbrev pub is_child : (ℕ → Task) → (parent t : ℕ) → Bool
is_child task parent t = (task t).parent == parent && (task t).state == task_zombie

-- The first zombie child of a list.
abbrev pub first_zombie : (ℕ → Task) → (parent : ℕ) → List ℕ → Option ℕ
first_zombie task parent [] = none
first_zombie task parent (t ∷ ts) =
    if is_child task parent t then some t else first_zombie task parent ts

pub find_zombie-first :
    (task : ℕ → Task) (parent start t : ℕ) (ts : List ℕ) (fuel : ℕ)
    → PathOf task t ts start
    → length ts < fuel
    → find_zombie fuel task parent start t ≡ some (first_zombie task parent (t ∷ ts))
unfolding find_zombie
find_zombie-first task parent start t [] zero p h = absurd (omega arith)
find_zombie-first task parent start t [] (suc fuel) p h = rw (p, ==_refl start) (ground arith)
find_zombie-first task parent start t (x ∷ xs) zero p h = absurd (omega arith)
find_zombie-first task parent start t (x ∷ xs) (suc fuel) p h =
    rw
      (
        p.0,
        ==_ne x start p.1.0,
        find_zombie-first task parent start x xs fuel p.1.1.1 (omega arith),
      )
      (ground arith)

pub find_prev-last :
    (task : ℕ → Task) (a t : ℕ) (xs : List ℕ) (fuel : ℕ)
    → PathOf task a xs t
    → length xs < fuel
    → find_prev fuel task t a ≡ some (last a xs)
unfolding find_prev
find_prev-last task a t [] zero p h = absurd (omega arith)
find_prev-last task a t [] (suc fuel) p h = rw (p, ==_refl t) refl
find_prev-last task a t (x ∷ xs) zero p h = absurd (omega arith)
find_prev-last task a t (x ∷ xs) (suc fuel) p h =
    rw (p.0, ==_ne x t p.1.0) (find_prev-last task x t xs fuel p.1.1.1 (omega arith))

-- On any fuel, a loop that ends has the same result.
pub find_zombie-any :
    (task : ℕ → Task) (parent start t : ℕ) (ts : List ℕ) (fuel : ℕ)
    → PathOf task t ts start
    → (find_zombie fuel task parent start t ≡ none)
      ⊎ (find_zombie fuel task parent start t ≡ some (first_zombie task parent (t ∷ ts)))
unfolding find_zombie
find_zombie-any task parent start t ts zero p = inl refl
find_zombie-any task parent start t [] (suc fuel) p = rw (p, ==_refl start) (ground arith)
find_zombie-any task parent start t (x ∷ xs) (suc fuel) p =
    rw (p.0, ==_ne x start p.1.0)
      (ground (arith, find_zombie-any task parent start x xs fuel p.1.1.1))

pub find_prev-any :
    (task : ℕ → Task) (a t : ℕ) (xs : List ℕ) (fuel : ℕ)
    → PathOf task a xs t
    → (find_prev fuel task t a ≡ none) ⊎ (find_prev fuel task t a ≡ some (last a xs))
unfolding find_prev
find_prev-any task a t xs zero p = inl refl
find_prev-any task a t [] (suc fuel) p = inr (rw (p, ==_refl t) refl)
find_prev-any task a t (x ∷ xs) (suc fuel) p =
    rw (p.0, ==_ne x t p.1.0) (find_prev-any task x t xs fuel p.1.1.1)

-- What the first zombie child of a list is.
pub first_zombie_lem :
    (task : ℕ → Task) (parent z : ℕ) (ts : List ℕ)
    → first_zombie task parent ts ≡ some z
    → In z ts × (((task z).parent ≡ parent) × ((task z).state ≡ task_zombie))
first_zombie_lem task parent z [] e = ground (arith, e)
first_zombie_lem task parent z (t ∷ ts) e = ground (arith, e, first_zombie_lem task parent z ts)
