-- ===== src/Sched/Kernel/Reach/Wait.antt =====
-- `sched_wait` keeps the ring: the child that it takes away is not the current task.
use mathlib.Core.Path.{subst}
use neodymium.Base.{
  ℕ, ◌≡◌, ◌≢◌, refl, sym, ◌∙◌, ◌⊎◌, inl, inr, true, Option, none, some, List, [], ◌∷◌, ◌++◌, arith,
  ◌==◌, ==_refl, ==_ne, if_some, if_holds, some-injective, ◌||◌,
}
use neodymium.Sched.{Sched, task_running}
use neodymium.Sched.Ring.{IsRing, PathOf-NotIn}
use neodymium.Sched.Memory.{Memory}
use neodymium.Sched.Kernel.{
  Kernel, unlink, find_prev, find_zombie, wait_found, wait_at, sched_wait, reap,
}
use neodymium.Sched.Kernel.Unlink.{
  NotIn-append, In, Distinct, last, cut, retarget, front, Distinct-split, In-split, In-other,
  last-NotIn,
}
use neodymium.Sched.Kernel.Find.{first_zombie, find_zombie-any, find_prev-any, first_zombie_lem}
use neodymium.Sched.Kernel.Reach.{IsScheduled, empty, ring}
use neodymium.Sched.Kernel.Reach.Keep.{at_first}

-- A task behind the first leaves the ring.
unlink-behind :
    (s : Sched) (t : ℕ) (xs ys : List ℕ)
    → IsRing s.task s.task_list (xs ++ (t ∷ ys))
    → Distinct (xs ++ (t ∷ ys))
    → s.task_list ≢ t
    → (s.current_task ≡ 0) ⊎ In s.current_task (s.task_list ∷ (xs ++ ys))
    → IsScheduled (unlink s (last s.task_list xs) t)
unfolding unlink
unlink-behind s t xs ys r d ne c =
    let prev = last s.task_list xs in
    let linked = record (s.task prev) { next = (s.task t).next } in
    let path =
      cut s.task s.task_list t s.task_list linked xs ys refl
        (PathOf-NotIn s.task s.task_list s.task_list (xs ++ (t ∷ ys)) r.1) d r.1 in
    at_first (unlink s prev t) s.task_list (xs ++ ys)
      (rw (==_ne s.task_list t ne, ==_ne s.task_list t ne) refl) (r.0, path)
      (Distinct-split xs t ys d).1 c

-- The first task leaves a ring of two or more tasks, and the second is the first.
unlink-first :
    (s : Sched) (y : ℕ) (ys : List ℕ)
    → IsRing s.task s.task_list (y ∷ ys)
    → Distinct (y ∷ ys)
    → (s.current_task ≡ 0) ⊎ In s.current_task (y ∷ ys)
    → IsScheduled (unlink s (last y ys) s.task_list)
unfolding unlink
unlink-first s y ys r d c =
    let prev = last y ys in
    let first = s.task_list in
    let linked = record (s.task prev) { next = (s.task first).next } in
    let out = PathOf-NotIn s.task y first ys r.1.1.1.1 in
    let apart = last-NotIn first y ys r.1.1.0 out in
    let path = retarget s.task y first y linked ys r.1.0 d.0 d.0 d.1 r.1.1.1.1 in
    at_first (unlink s prev first) y ys
      (rw (==_refl first, ==_ne prev first apart, r.1.0, ==_ne y first r.1.1.0) refl)
      (r.1.1.1.0, path) d.1 c

In-tail : (c t : ℕ) (ts : List ℕ) → c ≢ t → In c (t ∷ ts) → In c ts
In-tail c t ts ne i = In-other c t [] ts ne i

agree : {A : Type 0} (o : Option A) (p q : A) → (o ≡ none) ⊎ (o ≡ some q) → o ≡ some p → q ≡ p
agree o p q (inl n) e = ground (arith, n, e)
agree o p q (inr m) e = some-injective q p (sym m ∙ e)

unlink_found-first :
    (fuel : ℕ) (s : Sched) (p : ℕ) (ts : List ℕ)
    → IsRing s.task s.task_list ts
    → Distinct ts
    → In s.current_task ts
    → find_prev fuel s.task s.task_list s.task_list ≡ some p
    → IsScheduled (unlink s p s.task_list)
unlink_found-first fuel s p [] r d c f = absurd c
unlink_found-first fuel s p (y ∷ ys) r d c f =
    let first = s.task_list in
    let q =
      agree (find_prev fuel s.task first first) p (last y ys)
        (find_prev-any s.task first first (y ∷ ys) fuel r.1) f in
    subst (λ n. IsScheduled (unlink s n first)) q (unlink-first s y ys r d (inr c))

unlink_found-behind :
    (fuel : ℕ) (s : Sched) (t p : ℕ) (xs ys : List ℕ)
    → IsRing s.task s.task_list (xs ++ (t ∷ ys))
    → Distinct (xs ++ (t ∷ ys))
    → In s.current_task (s.task_list ∷ (xs ++ ys))
    → find_prev fuel s.task t s.task_list ≡ some p
    → IsScheduled (unlink s p t)
unlink_found-behind fuel s t p xs ys r d c f =
    let first = s.task_list in
    let out = PathOf-NotIn s.task first first (xs ++ (t ∷ ys)) r.1 in
    let ne = (NotIn-append first xs (t ∷ ys) out).1.0 in
    let path = front s.task first t first xs ys (Distinct-split xs t ys d).0 r.1 in
    let q =
      agree (find_prev fuel s.task t first) p (last first xs)
        (find_prev-any s.task first t xs fuel path) f in
    subst (λ n. IsScheduled (unlink s n t)) q
      (unlink-behind s t xs ys r d (λ e. ne (sym e)) (inr c))

-- A task of the ring other than the current one leaves it.
unlink-keeps :
    (fuel : ℕ) (s : Sched) (t p : ℕ) (ts : List ℕ)
    → IsRing s.task s.task_list ts
    → Distinct ts
    → In t (s.task_list ∷ ts)
    → In s.current_task (s.task_list ∷ ts)
    → s.current_task ≢ t
    → find_prev fuel s.task t s.task_list ≡ some p
    → IsScheduled (unlink s p t)
unlink-keeps fuel s t p ts r d (inl e) c ne f =
    let first = s.task_list in
    subst (λ n. IsScheduled (unlink s p n)) e
      (unlink_found-first fuel s p ts r d (In-other s.current_task first [] ts (λ x. ne (x ∙ e)) c)
        (subst (λ n. find_prev fuel s.task n first ≡ some p) (sym e) f))
unlink-keeps fuel s t p ts r d (inr i) c ne f =
    let first = s.task_list in
    let (xs, ys, e) = In-split t ts i in
    unlink_found-behind fuel s t p xs ys (subst (IsRing s.task first) e r) (subst Distinct e d)
      (In-other s.current_task t (first ∷ xs) ys ne
        (subst (λ l. In s.current_task (first ∷ l)) e c))
      f

module _ {M : Type 0} (mem : Memory M) where
  wait_found-keeps :
      (k k' : Kernel M) (t : ℕ) (code : Option ℕ) (o : Option ℕ)
      → ((p : ℕ) → o ≡ some p → IsScheduled (unlink k.sched p t))
      → wait_found mem k t o ≡ some (code, k')
      → IsScheduled k'.sched
  unfolding wait_found
  wait_found-keeps k k' t code none h e = ground (arith, e)
  wait_found-keeps k k' t code (some p) h e =
      let s = unlink k.sched p t in
      let waited = record k { sched = s; memory = reap mem (s.task t) t k.memory } in
      let result : Option ℕ × Kernel M = (some (k.sched.task t).exit_code, waited) in
      subst (λ (r : Option ℕ × Kernel M). IsScheduled r.1.sched)
        (some-injective {A = Option ℕ × Kernel M} result (code, k') e) (h p refl)

  wait_at-keeps :
      (fuel : ℕ) (k k' : Kernel M) (code : Option ℕ) (o : Option (Option ℕ))
      → ((t p : ℕ)
          → o ≡ some (some t)
          → find_prev fuel k.sched.task t k.sched.task_list ≡ some p
          → IsScheduled (unlink k.sched p t))
      → wait_at mem fuel k o ≡ some (code, k')
      → IsScheduled k.sched
      → IsScheduled k'.sched
  unfolding wait_at
  wait_at-keeps fuel k k' code none h e i = ground (arith, e)
  wait_at-keeps fuel k k' code (some none) h e i =
      subst (λ (r : Option ℕ × Kernel M). IsScheduled r.1.sched)
        (some-injective {A = Option ℕ × Kernel M} (none, k) (code, k') e) i
  wait_at-keeps fuel k k' code (some (some t)) h e i =
      wait_found-keeps k k' t code (find_prev fuel k.sched.task t k.sched.task_list)
        (λ p f. h t p refl f) e

  wait_idle :
      (fuel : ℕ) (k k' : Kernel M) (code : Option ℕ)
      → (k.sched.task_list == 0 || k.sched.current_task == 0) ≡ true
      → sched_wait mem fuel k ≡ some (code, k')
      → IsScheduled k.sched
      → IsScheduled k'.sched
  unfolding sched_wait
  wait_idle fuel k k' code idle e i =
      let s = k.sched in
      let rest =
        wait_at mem fuel k (find_zombie fuel s.task s.current_task s.task_list s.task_list) in
      subst (λ (r : Option ℕ × Kernel M). IsScheduled r.1.sched)
        (if_holds {A = Option ℕ × Kernel M} (s.task_list == 0 || s.current_task == 0) (none, k)
          (code, k') rest idle e)
        i

  pub sched_wait-keeps :
      (fuel : ℕ) (k k' : Kernel M) (code : Option ℕ)
      → (k.sched.task k.sched.current_task).state ≡ task_running
      → sched_wait mem fuel k ≡ some (code, k')
      → IsScheduled k.sched
      → IsScheduled k'.sched
  unfolding sched_wait
  sched_wait-keeps fuel k k' code run e (empty l c) =
      wait_idle fuel k k' code (ground (arith, l)) e (empty l c)
  sched_wait-keeps fuel k k' code run e (ring ts r d (inl c)) =
      wait_idle fuel k k' code (ground (arith, c)) e (ring ts r d (inl c))
  sched_wait-keeps fuel k k' code run e (ring ts r d (inr c)) =
      let s = k.sched in
      let found = find_zombie fuel s.task s.current_task s.task_list s.task_list in
      elim (if_some {A = Option ℕ × Kernel M} (s.task_list == 0 || s.current_task == 0) (none, k)
        (code, k') (wait_at mem fuel k found) e) [
          | inl p ↦
              subst (λ (r : Option ℕ × Kernel M). IsScheduled r.1.sched) p (ring ts r d (inr c))
          | inr q ↦
              wait_at-keeps fuel k k' code found
                (λ t p z f.
                  let child = first_zombie_lem s.task s.current_task t (s.task_list ∷ ts) (
                    agree found (some t) (first_zombie s.task s.current_task (s.task_list ∷ ts))
                      (find_zombie-any s.task s.current_task s.task_list s.task_list ts fuel r.1)
                      z) in
                  unlink-keeps fuel s t p ts r d child.0 c
                    (λ (m : s.current_task ≡ t). ground (
                      arith,
                      child.1.1,
                      run,
                      subst (λ n. (s.task s.current_task).state ≡ (s.task n).state) m refl,
                    ))
                    f)
                q (ring ts r d (inr c))
        ]
