-- ===== src/Sched/Ring.antt =====
-- The ring of tasks: the addresses that the `next` fields lead through, and how a new task joins it.
use mathlib.Core.Path.{subst}
use neodymium.Base.{
  ℕ, ◌+◌, ◌≡◌, ◌≢◌, refl, sym, ap, Bool, List, [], ◌∷◌, arith, ==_refl, ==_ne, if◌then◌else◌,
  update,
}
use neodymium.Sched.{Task, Sched, fresh_task, link_task, add_task}

-- From `a` the `next` fields lead through `ts` to `b`, where `ts` stops at the first `b`.
abbrev pub PathOf : (task : ℕ → Task) (a : ℕ) → List ℕ → (b : ℕ) → Type 0
PathOf task a [] b = (task a).next ≡ b
PathOf task a (t ∷ ts) b = ((task a).next ≡ t) × ((t ≢ b) × ((t ≢ 0) × PathOf task t ts b))

-- The tasks form a ring: `first`, and the others in the order of the `next` fields.
abbrev pub IsRing : (task : ℕ → Task) (first : ℕ) → List ℕ → Type 0
IsRing task first ts = (first ≢ 0) × PathOf task first ts first

abbrev pub NotIn : ℕ → List ℕ → Type 0
NotIn t [] = Unit
NotIn t (x ∷ xs) = (x ≢ t) × NotIn t xs

-- A write to a task that a path does not pass leaves the path.
pub PathOf-update :
    (task : ℕ → Task) (a b t : ℕ) (x : Task) (ts : List ℕ)
    → a ≢ t
    → NotIn t ts
    → PathOf task a ts b
    → PathOf (update task t x) a ts b
PathOf-update task a b t x [] ne out p = ground arith
PathOf-update task a b t x (y ∷ ys) ne out p =
    (ground (arith, p.0), (p.1.0, (p.1.1.0, PathOf-update task y b t x ys out.0 out.1 p.1.1.1)))

pub PathOf-NotIn : (task : ℕ → Task) (a b : ℕ) (ts : List ℕ) → PathOf task a ts b → NotIn b ts
PathOf-NotIn task a b [] p = _
PathOf-NotIn task a b (t ∷ ts) p = (p.1.0, PathOf-NotIn task t b ts p.1.1.1)

-- The path behind a new task `t` that points where `first` pointed.
behind_new :
    (task : ℕ → Task) (first t : ℕ) (fresh linked : Task) (ts : List ℕ)
    → fresh.next ≡ (task first).next
    → first ≢ t
    → NotIn t ts
    → PathOf task first ts first
    → PathOf (update (update task t fresh) first linked) t ts first
behind_new task first t fresh linked [] e ne out p = ground (arith, e, p)
behind_new task first t fresh linked (y ∷ ys) e ne out p = (
  ground (arith, e, p.0),
  (
    p.1.0,
    (
      p.1.1.0,
      PathOf-update (update task t fresh) y first first linked ys p.1.0
          (PathOf-NotIn task y first ys p.1.1.1)
          (PathOf-update task y first t fresh ys out.0 out.1 p.1.1.1),
    ),
  ),
)

link_task-ring :
    (task : ℕ → Task) (first t : ℕ) (fresh : Task) (ts : List ℕ)
    → t ≢ 0
    → first ≢ t
    → NotIn t ts
    → PathOf task first ts first
    → PathOf (link_task task first t fresh) first (t ∷ ts) first
link_task-ring task first t fresh ts ne other out p =
    let linked = update task t (record fresh { next = (task first).next }) in
    (
      ap (λ (b : Bool). (if b then record (linked first) { next = t } else linked first).next)
          (==_refl first),
      (
        λ e. other (sym e),
        (
          ne,
          behind_new task first t (record fresh { next = (task first).next })
              (record (linked first) { next = t }) ts refl other out p,
        ),
      ),
    )

-- A task that is created at an address that is not null and not in the ring joins the ring behind the
-- first one: the others keep their order.
pub add_task-IsRing :
    (s : Sched) (ts : List ℕ) (t stack regs parent pd : ℕ)
    → IsRing s.task s.task_list ts
    → t ≢ 0
    → s.task_list ≢ t
    → NotIn t ts
    → let s1 = add_task s t stack regs parent pd in
      (s1.task_list ≡ s.task_list) × IsRing s1.task s.task_list (t ∷ ts)
unfolding add_task
add_task-IsRing s ts t stack regs parent pd ring ne other out =
    let fresh = fresh_task s stack regs parent pd in
    let joined = record s {
      next_pid = s.next_pid + 1;
      task = link_task s.task s.task_list t fresh;
    } in
    let e : add_task s t stack regs parent pd ≡ joined = rw (==_ne s.task_list 0 ring.0) refl in
    subst (λ r. (r.task_list ≡ s.task_list) × IsRing r.task s.task_list (t ∷ ts)) (sym e)
      (refl, (ring.0, link_task-ring s.task s.task_list t fresh ts ne other out ring.1))
