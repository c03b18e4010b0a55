-- ===== src/Sched/Fair/Turn.antt =====
-- The turn of a running task comes after those of the running tasks in front of it.
use mathlib.Core.Path.{subst}
use neodymium.Base.{
  append_assoc, ℕ, zero, suc, ◌<◌, ◌≤◌, ◌≡◌, ◌≢◌, refl, sym, ap, ◌∙◌, ◌⊎◌, inl, inr, List, [], ◌∷◌,
  ◌++◌, some, arith, ◌==◌, ==_ne, length, length-append, Bool-cases,
}
use neodymium.Sched.{Task, Sched, task_running, sched_tick}
use neodymium.Sched.Ring.{PathOf, IsRing}
use neodymium.Sched.Order.{first_running, PathOf-same_next}
use neodymium.Sched.Kernel.Unlink.{In, Distinct}
use neodymium.Sched.Fair.{ticks, tick_some}
use neodymium.Sched.Fair.Rotate.{Cycle, rotate, back, In-swap}
use neodymium.Sched.Fair.Tick.{IsKept, sched_tick-first}

-- The first running task of a list with a running task `t` is `t`, or one in front of it.
abbrev InFront : (ℕ → Task) → (n t : ℕ) → List ℕ → Type 0
InFront task n t xs = (n ≡ t) ⊎ ((us : List ℕ) × (vs : List ℕ) × (xs ≡ us ++ (n ∷ vs)))

InFront-cons :
    (task : ℕ → Task) (n t x : ℕ) (xs : List ℕ) → InFront task n t xs → InFront task n t (x ∷ xs)
InFront-cons task n t x xs (inl e) = inl e
InFront-cons task n t x xs (inr (us, vs, e)) = inr (x ∷ us, vs, ap (λ l. x ∷ l) e)

first_running-front :
    (task : ℕ → Task) (t : ℕ) (xs ys zs : List ℕ)
    → (task t).state ≡ task_running
    → InFront task (first_running task ((xs ++ (t ∷ ys)) ++ zs)) t xs
first_running-front task t [] ys zs run = inl (rw run refl)
first_running-front task t (x ∷ xs) ys zs run = elim (Bool-cases ((task x).state == task_running)) [
  | inl b ↦ rw b (inr ([], xs, refl))
  | inr b ↦ rw b (
      InFront-cons task (first_running task ((xs ++ (t ∷ ys)) ++ zs)) t x xs
        (first_running-front task t xs ys zs run))
]

-- The ring is that of a state whose next task is `n`.
abbrev IsTurning : Sched → List ℕ → (fuel : ℕ) → Type 0
IsTurning s ts fuel =
    (s.task_list ≢ 0)
    × Cycle s.task s.current_task ts
    × In s.task_list (s.current_task ∷ ts)
    × (length ts < fuel)

-- The ring from the task that the tick chose.
turn_to :
    (s s1 : Sched) (n t fuel : ℕ) (us vs ys : List ℕ)
    → IsTurning s ((us ++ (n ∷ vs)) ++ (t ∷ ys)) fuel
    → IsKept s.task s1.task
    → s1.task_list ≡ s.task_list
    → IsTurning (record s1 { current_task = n }) (vs ++ (t ∷ (ys ++ (s.current_task ∷ us)))) fuel
turn_to s s1 n t fuel us vs ys (ne, cyc, i, h) kept same =
    let c = s.current_task in
    let before = append_assoc us (n ∷ vs) (t ∷ ys) in
    let after = append_assoc vs (t ∷ ys) (c ∷ us) in
    let ((some_task, path), d) =
      rotate s.task c n us (vs ++ (t ∷ ys)) (subst (Cycle s.task c) before cyc) in
    let path1 = PathOf-same_next s.task s1.task n n ((vs ++ (t ∷ ys)) ++ (c ∷ us)) kept.0 path in
    let j =
      In-swap s.task_list (c ∷ us) (n ∷ (vs ++ (t ∷ ys)))
        (subst (λ l. In s.task_list (c ∷ l)) before i) in
    let len : length ((vs ++ (t ∷ ys)) ++ (c ∷ us)) < fuel = omega (
      arith,
      h,
      length-append (us ++ (n ∷ vs)) (t ∷ ys),
      length-append us (n ∷ vs),
      length-append (vs ++ (t ∷ ys)) (c ∷ us),
      length-append vs (t ∷ ys),
    ) in
    (
      λ e. ne (sym same ∙ e),
      subst (Cycle s1.task n) after ((some_task, path1), d),
      subst (λ l. In l (n ∷ (vs ++ (t ∷ (ys ++ (c ∷ us)))))) (sym same)
          (subst (λ l. In s.task_list (n ∷ l)) after j),
      subst (λ l. length l < fuel) after len,
    )

-- The first running task of a ring is not null.
front-some :
    (s : Sched) (n t fuel : ℕ) (xs ys : List ℕ)
    → IsTurning s (xs ++ (t ∷ ys)) fuel
    → InFront s.task n t xs
    → n ≢ 0
front-some s n t fuel xs ys (ne, cyc, i, h) (inl e) =
    subst (λ m. m ≢ 0) (sym e) (back s.task s.current_task t s.current_task xs ys cyc.0.1).1
front-some s n t fuel xs ys (ne, cyc, i, h) (inr (us, vs, e)) =
    let whole = ap (λ l. l ++ (t ∷ ys)) e ∙ append_assoc us (n ∷ vs) (t ∷ ys) in
    (back s.task s.current_task n s.current_task us (vs ++ (t ∷ ys))
      (subst (λ l. PathOf s.task s.current_task l s.current_task) whole cyc.0.1)).1

-- The result: `t` is current after at most `m` ticks.
abbrev Turn : Sched → (t m fuel : ℕ) → (ℕ → ℕ) → Type 0
Turn s t m fuel regs =
    (n : ℕ) × (s' : Sched) × (n ≤ m)
    × (ticks fuel regs n (some s) ≡ some s')
    × (s'.current_task ≡ t)

Turn-within :
    (m fuel : ℕ) (regs : ℕ → ℕ) (s : Sched) (t : ℕ) (xs ys : List ℕ)
    → length xs < m
    → IsTurning s (xs ++ (t ∷ ys)) fuel
    → (s.task t).state ≡ task_running
    → Turn s t m fuel regs
unfolding ticks tick_some
Turn-within zero fuel regs s t xs ys l turning run = absurd (omega arith)
Turn-within (suc m) fuel regs s t xs ys l turning run =
    let (s1, tick, kept, same, current) =
      sched_tick-first fuel (regs 0) s (xs ++ (t ∷ ys)) turning.0 turning.1 turning.2 turning.3 in
    let n = first_running s1.task ((xs ++ (t ∷ ys)) ++ (s.current_task ∷ [])) in
    let chosen = first_running-front s1.task t xs ys (s.current_task ∷ []) (kept.1 t run) in
    let some_task = front-some s n t fuel xs ys turning chosen in
    let s2 = record s1 { current_task = n } in
    let runs : sched_tick fuel (regs 0) s ≡ some s2 = tick ∙ rw (==_ne n 0 some_task) refl in
    elim chosen [
      | inl e ↦ (1, s2, omega arith, runs, e)
      | inr (us, vs, e) ↦
          let (n', s', short, done, is) =
            Turn-within m fuel (λ i. regs (suc i)) s2 t vs (ys ++ (s.current_task ∷ us))
              (omega (arith, l, ap (length {A = ℕ}) e, length-append us (n ∷ vs)))
              (turn_to s s1 n t fuel us vs ys
                (subst (λ k. IsTurning s (k ++ (t ∷ ys)) fuel) e turning) kept same)
              (kept.1 t run) in
          (suc n', s', omega (arith, short), ap (ticks fuel (λ i. regs (suc i)) n') runs ∙ done, is)
    ]

-- In a ring with a current task, a running task `t` is current after at most as many ticks as it has
-- tasks in front of it, and one more. Each of these ticks returns, on fuel above the number of tasks
-- behind the current one.
pub ticks-turn :
    (fuel : ℕ) (regs : ℕ → ℕ) (s : Sched) (t : ℕ) (xs ys : List ℕ)
    → s.task_list ≢ 0
    → IsRing s.task s.current_task (xs ++ (t ∷ ys))
    → Distinct (s.current_task ∷ (xs ++ (t ∷ ys)))
    → In s.task_list (s.current_task ∷ (xs ++ (t ∷ ys)))
    → length (xs ++ (t ∷ ys)) < fuel
    → (s.task t).state ≡ task_running
    → (n : ℕ) × (s' : Sched) × (n ≤ suc (length xs))
      × (ticks fuel regs n (some s) ≡ some s')
      × (s'.current_task ≡ t)
ticks-turn fuel regs s t xs ys ne r d i h run =
    Turn-within (suc (length xs)) fuel regs s t xs ys (omega arith) (ne, (r, d), i, h) run
