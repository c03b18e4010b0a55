-- ===== src/Sched/Kernel/Reach/Result.antt =====
-- What `sched_wait` returns.
use mathlib.Core.Path.{subst}
use neodymium.Base.{
  ℕ, ◌<◌, ◌≡◌, ◌≢◌, refl, ap, inl, inr, Option, none, some, List, ◌∷◌, arith, ==_ne, length,
  length-append,
}
use neodymium.Sched.{Task}
use neodymium.Sched.Ring.{IsRing, PathOf}
use neodymium.Sched.Memory.{Memory}
use neodymium.Sched.Kernel.{Kernel, unlink, find_prev, wait_found, wait_at, sched_wait, reap}
use neodymium.Sched.Kernel.Unlink.{In, Distinct, last, front, Distinct-split, In-split}
use neodymium.Sched.Kernel.Find.{first_zombie, first_zombie_lem, find_zombie-first, find_prev-last}

-- The task in front of one of the ring is found.
find_prev-found :
    (task : ℕ → Task) (first t : ℕ) (ts : List ℕ) (fuel : ℕ)
    → PathOf task first ts first
    → Distinct ts
    → In t (first ∷ ts)
    → length ts < fuel
    → (p : ℕ) × (find_prev fuel task t first ≡ some p)
find_prev-found task first t ts fuel path d (inl e) h =
    (last first ts, find_prev-last task first t ts fuel (subst (PathOf task first ts) e path) h)
find_prev-found task first t ts fuel path d (inr i) h =
    let (xs, ys, e) = In-split t ts i in
    let out = (Distinct-split xs t ys (subst Distinct e d)).0 in
    let onto = front task first t first xs ys out (subst (λ l. PathOf task first l first) e path) in
    let short : length xs < fuel =
      omega (arith, ap (length {A = ℕ}) e, length-append xs (t ∷ ys), h) in
    (last first xs, find_prev-last task first t xs fuel onto short)

-- The exit code of a task, `none` without one.
abbrev pub exit_of : (ℕ → Task) → Option ℕ → Option ℕ
exit_of task none = none
exit_of task (some t) = some (task t).exit_code

module _ {M : Type 0} (mem : Memory M) where
  wait_at-result :
      (fuel : ℕ) (k : Kernel M) (z : Option ℕ)
      → ((t : ℕ)
          → z ≡ some t
          → (p : ℕ) × (find_prev fuel k.sched.task t k.sched.task_list ≡ some p))
      → (k' : Kernel M) × (wait_at mem fuel k (some z) ≡ some (exit_of k.sched.task z, k'))
  unfolding wait_at wait_found
  wait_at-result fuel k none h = (k, refl)
  wait_at-result fuel k (some t) h =
      let (p, e) = h t refl in
      let s = unlink k.sched p t in
      (record k { sched = s; memory = reap mem (s.task t) t k.memory }, rw e refl)

  -- In a ring with the current task in it, `sched_wait` ends within as many rounds of its two loops as
  -- the ring has tasks. It returns the exit code of the first child of the current task, in the order
  -- of the ring, that is a zombie, and -1 if none is.
  pub sched_wait-first :
      (k : Kernel M) (ts : List ℕ) (fuel : ℕ)
      → k.sched.current_task ≢ 0
      → IsRing k.sched.task k.sched.task_list ts
      → Distinct ts
      → length ts < fuel
      → (k' : Kernel M) × (sched_wait mem fuel k
          ≡ some (
            exit_of k.sched.task
                (first_zombie k.sched.task k.sched.current_task (k.sched.task_list ∷ ts)),
            k',
          ))
  unfolding sched_wait
  sched_wait-first k ts fuel ne r d h =
      let s = k.sched in
      let all = s.task_list ∷ ts in
      let z = first_zombie s.task s.current_task all in
      let result = wait_at-result fuel k z (λ t e.
        find_prev-found s.task s.task_list t ts fuel r.1 d
          (first_zombie_lem s.task s.current_task t all e).0 h) in
      (
        result.0,
        rw
            (
              ==_ne s.task_list 0 r.0,
              ==_ne s.current_task 0 ne,
              find_zombie-first s.task s.current_task s.task_list s.task_list ts fuel r.1 h,
            )
            result.1,
      )
