-- ===== src/Sched/Kernel/Reach/Created.antt =====
-- The functions that create a task, and `sched_exec`, keep the ring on every branch.
use mathlib.Core.Path.{subst}
use neodymium.Base.{
  true, false, ℕ, ◌≡◌, ◌≢◌, refl, Bool, ◌||◌, Option, none, some, arith, ◌==◌, update, if_keeps,
}
use neodymium.Sched.Memory.{Regs, Memory, sizeof_task, regs_at, user_regs}
use neodymium.Sched.Kernel.{
  Kernel, start_task, alloc_task, create_at, task_create, create_elf_at, task_create_elf, fork_at,
  task_create_fork, exec_loaded, exec_into, exec_checked, sched_exec,
}
use neodymium.Sched.Kernel.Reach.{IsScheduled, IsFresh, Allocates}
use neodymium.Sched.Kernel.Reach.Keep.{add_task-keeps, same_next-keeps}

module _ {M : Type 0} (mem : Memory M) where
  -- The address that is allocated for a task is not null.
  alloc_task-IsFresh :
      (k : Kernel M) (t stack : ℕ)
      → Allocates mem k
      → (alloc_task mem k.memory).0 ≡ some (t, stack)
      → IsFresh k.sched t
  unfolding alloc_task
  alloc_task-IsFresh k t stack h e =
      let t' = (mem.malloc k.memory sizeof_task).0 in
      let same : (t' ≡ t) × (t' ≢ 0) = ground (arith, e) in
      subst (IsFresh k.sched) same.0 (h same.1)

  abbrev Started : Kernel M → Option (ℕ × ℕ) → Type 0
  Started k o = (t stack : ℕ) → o ≡ some (t, stack) → IsFresh k.sched t

  start_task-keeps :
      (k : Kernel M) (m : M) (t stack : ℕ) (regs : Regs) (parent pd : ℕ)
      → IsScheduled k.sched
      → Started k (some (t, stack))
      → IsScheduled (start_task mem k m t stack regs parent pd).sched
  unfolding start_task
  start_task-keeps k m t stack regs parent pd i h =
      add_task-keeps k.sched t stack (regs_at stack) parent pd i (h t stack refl)

  abbrev Kept : Bool × Kernel M → Type 0
  Kept r = IsScheduled r.1.sched

  create_at-keeps :
      (k : Kernel M) (entry : ℕ) (a : Option (ℕ × ℕ)) (m : M)
      → IsScheduled k.sched
      → Started k a
      → Kept (create_at mem k entry (a, m))
  unfolding create_at
  create_at-keeps k entry none m i h = i
  create_at-keeps k entry (some (t, stack)) m i h =
      let (pd, m1) = mem.create_space m in
      let (page, m2) = mem.alloc_page (mem.switch_space m1 pd) 0xB0000000 6 in
      let m3 = mem.zero_page m2 0xB0000000 in
      if_keeps Kept (pd == 0) i (
        if_keeps Kept (page == 0) i (
          start_task-keeps k (mem.switch_space m3 (mem.kernel_space m3)) t stack
            (user_regs entry 0xB0001000) 0 pd i h))

  create_elf_at-keeps :
      (k : Kernel M) (entry user_esp pd : ℕ) (a : Option (ℕ × ℕ)) (m : M)
      → IsScheduled k.sched
      → Started k a
      → Kept (create_elf_at mem k entry user_esp pd (a, m))
  unfolding create_elf_at
  create_elf_at-keeps k entry user_esp pd none m i h = i
  create_elf_at-keeps k entry user_esp pd (some (t, stack)) m i h =
      start_task-keeps k m t stack (user_regs entry user_esp) 0 pd i h

  fork_at-keeps :
      (k : Kernel M) (r : Regs) (a : Option (ℕ × ℕ)) (m : M)
      → IsScheduled k.sched
      → Started k a
      → Kept (fork_at mem k r (a, m))
  unfolding fork_at
  fork_at-keeps k r none m i h = i
  fork_at-keeps k r (some (t, stack)) m i h =
      let current = k.sched.current_task in
      let dir = (k.sched.task current).page_dir in
      let child = record r { eax = 0 } in
      let (pd, m1) = mem.clone_space m dir in
      if_keeps Kept (current == 0 || dir == 0) (start_task-keeps k m t stack child current 0 i h)
        (if_keeps Kept (pd == 0) i (start_task-keeps k m1 t stack child current pd i h))

  pub task_create-keeps :
      (k : Kernel M) (entry : ℕ)
      → Allocates mem k
      → IsScheduled k.sched
      → Kept (task_create mem k entry)
  unfolding task_create
  task_create-keeps k entry h i =
      let (a, m) = alloc_task mem k.memory in
      create_at-keeps k entry a m i (λ t stack e. alloc_task-IsFresh k t stack h e)

  pub task_create_elf-keeps :
      (k : Kernel M) (entry user_esp pd : ℕ)
      → Allocates mem k
      → IsScheduled k.sched
      → Kept (task_create_elf mem k entry user_esp pd)
  unfolding task_create_elf
  task_create_elf-keeps k entry user_esp pd h i =
      let (a, m) = alloc_task mem k.memory in
      create_elf_at-keeps k entry user_esp pd a m i (λ t stack e. alloc_task-IsFresh k t stack h e)

  pub task_create_fork-keeps :
      (k : Kernel M) (r : Regs)
      → Allocates mem k
      → IsScheduled k.sched
      → Kept (task_create_fork mem k r)
  unfolding task_create_fork
  task_create_fork-keeps k r h i =
      let (a, m) = alloc_task mem k.memory in
      fork_at-keeps k r a m i (λ t stack e. alloc_task-IsFresh k t stack h e)

  exec_loaded-keeps :
      (k : Kernel M) (pd old : ℕ) (r : Regs) (l : Option (ℕ × ℕ)) (m : M)
      → IsScheduled k.sched
      → IsScheduled (exec_loaded mem k pd old r (l, m)).2.sched
  unfolding exec_loaded
  exec_loaded-keeps k pd old r none m i = i
  exec_loaded-keeps k pd old r (some (entry, top)) m i =
      let s = k.sched in
      let t = record (s.task s.current_task) { page_dir = pd } in
      same_next-keeps s (record s { task = update s.task s.current_task t }) refl refl
        (λ x. ground arith) i

  -- A run that does not fault has a ring.
  abbrev pub Ran : Option (Bool × Regs × Kernel M) → Type 0
  Ran none = Unit
  Ran (some r) = IsScheduled r.2.sched

  exec_into-keeps :
      (k : Kernel M) (pd old : ℕ) (r : Regs) (l : Option (Option (ℕ × ℕ) × M))
      → IsScheduled k.sched
      → Ran (exec_into mem k pd old r l)
  unfolding exec_into
  exec_into-keeps k pd old r none i = tt
  exec_into-keeps k pd old r (some (l, m)) i = exec_loaded-keeps k pd old r l m i

  exec_checked-keeps :
      (k : Kernel M) (r : Regs) (elf : ℕ) (is : Option Bool)
      → IsScheduled k.sched
      → Ran (exec_checked mem k r elf is)
  unfolding exec_checked
  exec_checked-keeps k r elf none i = tt
  exec_checked-keeps k r elf (some false) i = i
  exec_checked-keeps k r elf (some true) i =
      let s = k.sched in
      let (pd, m1) = mem.create_space k.memory in
      if_keeps Ran (pd == 0) i (
        exec_into-keeps k pd (s.task s.current_task).page_dir r
          (mem.load_elf (mem.switch_space m1 pd) elf) i)

  pub sched_exec-keeps :
      (k : Kernel M) (r : Regs) (elf : ℕ) → IsScheduled k.sched → Ran (sched_exec mem k r elf)
  unfolding sched_exec
  sched_exec-keeps k r elf i =
      if_keeps Ran (k.sched.current_task == 0) i
        (exec_checked-keeps k r elf (mem.is_elf k.memory elf) i)
