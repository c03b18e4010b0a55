-- ===== src/Sched/Kernel.antt =====
-- The rest of src/kernel/sched.c, which needs memory: the three functions that create a task,
-- `sched_wait`, `sched_exec` and the switch of `yield`. The memory is the interface of
-- Sched/Memory. A result -1 is false or `none`. The registers that are saved on a task's kernel
-- stack are `frame`, by their address.
mod Find
pub mod Unlink
pub mod Reach
mod Tests
use neodymium.Base.{
  ℕ, zero, suc, ◌+◌, ◌-◌, Bool, true, false, not, ◌&&◌, ◌||◌, Option, none, some, ◌==◌,
  if◌then◌else◌, update,
}
use neodymium.Sched.Memory.{Regs, Memory, stack_size, sizeof_task, sizeof_regs, regs_at, user_regs}
use neodymium.Sched.{
  Task, Sched, add_task, task_running, task_zombie, pick_next_task, switch_to, sched_tick,
  mark_exit, mark_sleep,
}

pub record Kernel (M : Type 0) : Type 0 where
  pub sched : Sched
  pub frame : ℕ → Regs
  pub memory : M

-- The loop of `sched_wait` at task `t`: the first zombie child of `parent`, `none` inside if there is
-- none round the ring.
pub find_zombie : (fuel : ℕ) (task : ℕ → Task) (parent start t : ℕ) → Option (Option ℕ)
find_zombie zero task parent start t = none
find_zombie (suc n) task parent start t =
    let rest = find_zombie n task parent start (task t).next in
    if (task t).parent == parent && (task t).state == task_zombie
    then some (some t)
    else if (task t).next == start
    then some none
    else rest

-- `while (prev->next != t) prev = prev->next`.
pub find_prev : (fuel : ℕ) (task : ℕ → Task) (t prev : ℕ) → Option ℕ
find_prev zero task t prev = none
find_prev (suc n) task t prev =
    let rest = find_prev n task t (task prev).next in
    if (task prev).next == t then some prev else rest

-- The task `t` leaves the ring, where `prev` points to it.
pub unlink : Sched → (prev t : ℕ) → Sched
unlink s prev t =
    let task = update s.task prev (record (s.task prev) { next = (s.task t).next }) in
    let list = if s.task_list == t then (task t).next else s.task_list in
    record s { task = task; task_list = if list == t then 0 else list }

-- The start of `yield`, which saves the registers, and one round of its loop, which switches to the
-- task that runs next; a round without one polls the keyboard (Echo).
pub yield_save : (regs : ℕ) → Sched → Sched
yield_save regs s = if s.current_task == 0 then s else record s {
  task = update s.task s.current_task (record (s.task s.current_task) { stack = regs });
}

pub yield_round : (fuel : ℕ) → Sched → Option Sched
yield_round fuel s = switch_to s (pick_next_task fuel s)

-- `sched_exit_with` up to the loop of `yield`; `none` is the panic.
unfoldable pub sched_exit_with : (regs code : ℕ) → Sched → Option Sched
sched_exit_with regs code s =
    if s.task_list == 0 || s.current_task == 0
    then none
    else some (yield_save regs (mark_exit s code))

-- `sched_sleep` up to the loop of `yield`.
pub sched_sleep : (regs ticks : ℕ) → Sched → Sched
sched_sleep regs ticks s =
    if s.task_list == 0 || s.current_task == 0 then s else yield_save regs (mark_sleep s ticks)

module _ {M : Type 0} (mem : Memory M) where
  -- The kernel's tail of a creation: the registers, the fields and the ring.
  pub start_task : Kernel M → M → (t stack : ℕ) → Regs → (parent pd : ℕ) → Kernel M
  start_task k m t stack regs parent pd = record {
    sched = add_task k.sched t stack (regs_at stack) parent pd;
    frame = update k.frame (regs_at stack) regs;
    memory = m;
  }

  -- The start of each of the three: the task and its kernel stack; `none` is a failure.
  pub alloc_task : M → Option (ℕ × ℕ) × M
  alloc_task m =
      let (t, m1) = mem.malloc m sizeof_task in
      if t == 0
      then (none, m1)
      else (let (stack, m2) = mem.malloc m1 stack_size in
          if stack == 0 then (none, mem.free m2 t) else (some (t, stack), m2))

  -- `free(stack); free(t)`.
  pub drop_task : M → (t stack : ℕ) → M
  drop_task m t stack = mem.free (mem.free m stack) t

  -- `task_create` behind the kernel stack: the address space with one page of user stack.
  pub create_at : Kernel M → (entry : ℕ) → Option (ℕ × ℕ) × M → Bool × Kernel M
  create_at k entry (none, m) = (false, record k { memory = m })
  create_at k entry (some (t, stack), m) =
      let (pd, m1) = mem.create_space m in
      if pd == 0
      then (false, record k { memory = drop_task m1 t stack })
      else (let (page, m2) = mem.alloc_page (mem.switch_space m1 pd) 0xB0000000 6 in
          if page == 0
          then (
            false,
            record k {
              memory =
                  drop_task (mem.destroy_space (mem.switch_space m2 (mem.kernel_space m2)) pd) t
                    stack;
            },
          )
          else (let m3 = mem.zero_page m2 0xB0000000 in
              (
                true,
                start_task k (mem.switch_space m3 (mem.kernel_space m3)) t stack
                    (user_regs entry 0xB0001000) 0 pd,
              )))

  pub task_create : Kernel M → (entry : ℕ) → Bool × Kernel M
  task_create k entry = create_at k entry (alloc_task k.memory)

  pub create_elf_at : Kernel M → (entry user_esp pd : ℕ) → Option (ℕ × ℕ) × M → Bool × Kernel M
  create_elf_at k entry user_esp pd (none, m) = (false, record k { memory = m })
  create_elf_at k entry user_esp pd (some (t, stack), m) =
      (true, start_task k m t stack (user_regs entry user_esp) 0 pd)

  pub task_create_elf : Kernel M → (entry user_esp pd : ℕ) → Bool × Kernel M
  task_create_elf k entry user_esp pd = create_elf_at k entry user_esp pd (alloc_task k.memory)

  -- The registers `r` are the parent's; the child sees 0 in eax.
  pub fork_at : Kernel M → Regs → Option (ℕ × ℕ) × M → Bool × Kernel M
  fork_at k r (none, m) = (false, record k { memory = m })
  fork_at k r (some (t, stack), m) =
      let current = k.sched.current_task in
      let dir = (k.sched.task current).page_dir in
      let child = record r { eax = 0 } in
      if current == 0 || dir == 0
      then (true, start_task k m t stack child current 0)
      else (let (pd, m1) = mem.clone_space m dir in
          if pd == 0
          then (false, record k { memory = drop_task m1 t stack })
          else (true, start_task k m1 t stack child current pd))

  pub task_create_fork : Kernel M → Regs → Bool × Kernel M
  task_create_fork k r = fork_at k r (alloc_task k.memory)

  -- What `sched_wait` gives back of a task: its address space, its kernel stack, and itself.
  pub reap : Task → ℕ → M → M
  reap task t m =
      let m1 = if task.page_dir == 0 then m else mem.destroy_space m task.page_dir in
      let m2 = if task.stack_top == 0 then m1 else mem.free m1 (task.stack_top - stack_size) in
      mem.free m2 t

  pub wait_found : Kernel M → ℕ → Option ℕ → Option (Option ℕ × Kernel M)
  wait_found k t none = none
  wait_found k t (some prev) =
      let s = unlink k.sched prev t in
      some (
        some (k.sched.task t).exit_code,
        record k { sched = s; memory = reap (s.task t) t k.memory },
      )

  pub wait_at : (fuel : ℕ) → Kernel M → Option (Option ℕ) → Option (Option ℕ × Kernel M)
  wait_at fuel k none = none
  wait_at fuel k (some none) = some (none, k)
  wait_at fuel k (some (some t)) = wait_found k t (find_prev fuel k.sched.task t k.sched.task_list)

  -- `sched_wait`, with the exit code of the child; the outer `none` is a run out of fuel.
  pub sched_wait : (fuel : ℕ) → Kernel M → Option (Option ℕ × Kernel M)
  sched_wait fuel k =
      let s = k.sched in
      if s.task_list == 0 || s.current_task == 0
      then some (none, k)
      else wait_at fuel k (find_zombie fuel s.task s.current_task s.task_list s.task_list)

  pub exec_loaded : Kernel M → (pd old : ℕ) → Regs → Option (ℕ × ℕ) × M → Bool × Regs × Kernel M
  exec_loaded k pd old r (none, m) = (
    false,
    r,
    record k { memory = mem.destroy_space (mem.switch_space m (mem.kernel_space m)) pd },
  )
  exec_loaded k pd old r (some (entry, top), m) =
      let s = k.sched in
      let m1 = if old == 0 then m else mem.destroy_space m old in
      (
        true,
        record r { eip = entry; user_esp = top; eax = 0 },
        record k {
          memory = m1;
          sched = record s {
            task = update s.task s.current_task (record (s.task s.current_task) { page_dir = pd });
          };
        },
      )

  pub exec_into :
      Kernel M → (pd old : ℕ) → Regs → Option (Option (ℕ × ℕ) × M) → Option (Bool × Regs × Kernel M)
  exec_into k pd old r none = none
  exec_into k pd old r (some l) = some (exec_loaded k pd old r l)

  pub exec_checked : Kernel M → Regs → (elf : ℕ) → Option Bool → Option (Bool × Regs × Kernel M)
  exec_checked k r elf none = none
  exec_checked k r elf (some false) = some (false, r, k)
  exec_checked k r elf (some true) =
      let s = k.sched in
      let (pd, m1) = mem.create_space k.memory in
      if pd == 0
      then some (false, r, record k { memory = m1 })
      else exec_into k pd (s.task s.current_task).page_dir r
          (mem.load_elf (mem.switch_space m1 pd) elf)

  -- `sched_exec` of the program at `elf`, with the registers that the caller returns to; `none` is a
  -- page fault.
  pub sched_exec : Kernel M → Regs → (elf : ℕ) → Option (Bool × Regs × Kernel M)
  sched_exec k r elf =
      if k.sched.current_task == 0
      then some (false, r, k)
      else exec_checked k r elf (mem.is_elf k.memory elf)
