-- ===== src/Sched.antt =====
-- The scheduler's tasks, src/kernel/sched.c: a ring of tasks linked by their `next` fields, the task
-- that runs, and the tick. `task a` is the `struct task` at address `a`; address 0 is null. A loop
-- round the ring is on fuel, and `none` is a run that is out of it. A switch of tasks is the change of
-- `current_task`; the reload of the registers and of the address space is left out.
pub mod Ring
pub mod Order
pub mod Fair
pub mod Memory
pub mod Kernel
mod Tests
use neodymium.Base.{
  ℕ, zero, suc, ◌+◌, Bool, true, false, not, ◌&&◌, ◌||◌, Option, none, some, ltb, leb, ◌==◌,
  if◌then◌else◌, update, add32,
}

abbrev pub task_running : ℕ
task_running = 0

abbrev pub task_zombie : ℕ
task_zombie = 1

abbrev pub task_sleeping : ℕ
task_sleeping = 2

pub record Task : Type 0 where
  pub stack : ℕ
  pub stack_top : ℕ
  pub next : ℕ
  pub parent : ℕ
  pub pid : ℕ
  pub exit_code : ℕ
  pub state : ℕ
  pub wakeup_tick : ℕ
  pub page_dir : ℕ

pub record Sched : Type 0 where
  pub task : ℕ → Task
  pub task_list : ℕ
  pub current_task : ℕ
  pub tick : ℕ
  pub next_pid : ℕ

-- The loop of `pick_next_task` behind task `t`. Address 0 is the null result.
pub pick_loop : (fuel : ℕ) (task : ℕ → Task) (start t : ℕ) → Option ℕ
pick_loop zero task start t = none
pick_loop (suc n) task start t =
    let t1 = (task t).next in
    let rest = pick_loop n task start t1 in
    if (task t1).state == task_running then some t1 else if t1 == start then some 0 else rest

pub pick_next_task : (fuel : ℕ) → Sched → Option ℕ
pick_next_task fuel s =
    if s.task_list == 0
    then some 0
    else (let start = if s.current_task == 0 then s.task_list else s.current_task in
        pick_loop fuel s.task start start)

-- `sched_init`; `old` is the state before it.
pub init : Sched → Sched
init old = record old { task_list = 0; current_task = 0; tick = 0; next_pid = 1 }

-- The fields that the functions creating a task set. `stack` is what `malloc` returned for the kernel
-- stack, and `pd` the address space.
abbrev pub fresh_task : Sched → (stack regs parent pd : ℕ) → Task
fresh_task s stack regs parent pd = record {
  stack = regs;
  stack_top = stack + 4096;
  next = 0;
  parent = parent;
  pid = s.next_pid;
  exit_code = 0;
  state = task_running;
  wakeup_tick = 0;
  page_dir = pd;
}

-- The place of the task at `t` behind the first of the ring.
abbrev pub link_task : (ℕ → Task) → (first t : ℕ) → Task → ℕ → Task
link_task task first t fresh =
    let linked = update task t (record fresh { next = (task first).next }) in
    update linked first (record (linked first) { next = t })

pub add_task : Sched → (t stack regs parent pd : ℕ) → Sched
add_task s t stack regs parent pd =
    let fresh = fresh_task s stack regs parent pd in
    let s1 = record s { next_pid = s.next_pid + 1 } in
    if s.task_list == 0
    then record s1 { task = update s.task t (record fresh { next = t }); task_list = t }
    else record s1 { task = link_task s.task s.task_list t fresh }

-- The body of the waking loop of `sched_tick`.
pub wake : (now : ℕ) → Task → Task
wake now t =
    if t.state == task_sleeping && leb t.wakeup_tick now
    then record t { state = task_running }
    else t

-- The waking loop, at task `t`.
pub wake_loop : (fuel now : ℕ) (first t : ℕ) → (ℕ → Task) → Option (ℕ → Task)
wake_loop zero now first t task = none
wake_loop (suc n) now first t task =
    let woken = update task t (wake now (task t)) in
    let rest = wake_loop n now first (woken t).next woken in
    if (woken t).next == first then some woken else rest

-- The stack of a running task is saved before the switch.
pub save_stack : (regs : ℕ) → Sched → Sched
save_stack regs s =
    let t = s.task s.current_task in
    if not (s.current_task == 0) && t.state == task_running
    then record s { task = update s.task s.current_task (record t { stack = regs }) }
    else s

pub switch_to : Sched → Option ℕ → Option Sched
switch_to s none = none
switch_to s (some next) = some (if next == 0 then s else record s { current_task = next })

pub tick_awake : (fuel regs : ℕ) → Sched → Option (ℕ → Task) → Option Sched
tick_awake fuel regs s none = none
tick_awake fuel regs s (some task) =
    let s1 = save_stack regs (record s { task = task }) in switch_to s1 (pick_next_task fuel s1)

-- `sched_tick`; `regs` is the address of the saved registers.
pub sched_tick : (fuel regs : ℕ) → Sched → Option Sched
sched_tick fuel regs s =
    let s1 = record s { tick = add32 s.tick 1 } in
    if s1.task_list == 0
    then some s1
    else tick_awake fuel regs s1 (wake_loop fuel s1.tick s1.task_list s1.task_list s1.task)

-- The changes of `sched_exit_with` and `sched_sleep` before they yield.
pub mark_exit : Sched → (code : ℕ) → Sched
mark_exit s code = record s {
  task =
      update s.task s.current_task
        (record (s.task s.current_task) { exit_code = code; state = task_zombie });
}

pub mark_sleep : Sched → (ticks : ℕ) → Sched
mark_sleep s ticks = if s.task_list == 0 || s.current_task == 0 then s else record s {
  task =
      update s.task s.current_task (record (s.task s.current_task) {
        wakeup_tick = add32 s.tick ticks;
        state = task_sleeping;
      });
}

-- `sched_getpid`; `none` is the result -1.
pub getpid : Sched → Option ℕ
getpid s = if s.current_task == 0 then none else some (s.task s.current_task).pid
