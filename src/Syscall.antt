-- ===== src/Syscall.antt =====
-- The system calls, src/kernel/syscall.c, over the scheduler and the keyboard. The number of the call is
-- in eax and its argument in ebx. Each `printf` is recorded in `printed`, newest first. A call that
-- yields does not come back: the loop of `yield` takes over.
pub mod Keeps
mod Tests
use neodymium.Base.{
  ℕ, zero, suc, ◌-◌, ◌^◌, Bool, true, false, ◌&&◌, ◌||◌, Option, none, some, List, [], ◌∷◌, ltb,
  ◌==◌, if◌then◌else◌, update,
}
use neodymium.Ps2.{Keyboard, poll, keyboard_handler}
use neodymium.Sched.{Sched, getpid}
use neodymium.Sched.Memory.{Regs, Memory}
use neodymium.Sched.Kernel.{
  Kernel, sched_exit_with, sched_sleep, task_create_fork, sched_wait, sched_exec,
}

abbrev pub sys_exit : ℕ
sys_exit = 0

abbrev pub sys_write : ℕ
sys_write = 1

abbrev pub sys_writestr : ℕ
sys_writestr = 2

abbrev pub sys_gettick : ℕ
sys_gettick = 3

abbrev pub sys_read : ℕ
sys_read = 4

abbrev pub sys_fork : ℕ
sys_fork = 5

abbrev pub sys_getpid : ℕ
sys_getpid = 6

abbrev pub sys_wait : ℕ
sys_wait = 7

abbrev pub sys_sleep : ℕ
sys_sleep = 8

abbrev pub sys_exec : ℕ
sys_exec = 9

-- `(unsigned int)-1`.
abbrev pub minus_one : ℕ
minus_one = 2 ^ 32 - 1

-- The calls of `printf`: a message of the kernel with its number, a character, a string.
pub data Message : Type 0 where
  exit_code : ℕ → Message
  char : ℕ → Message
  string : List ℕ → Message
  waited : ℕ → Message
  unknown : ℕ → Message

pub record Machine (M : Type 0) : Type 0 where
  pub kernel : Kernel M
  pub keyboard : Keyboard
  pub printed : List Message

-- How a call ends: back in the task with its registers, in the loop of `yield`, in the panic (that of
-- a page fault too), or not at all (out of fuel, or in the `hlt` of `handle_read`: the handler runs
-- with interrupts off, so that it does not wake).
pub data Outcome (M : Type 0) : Type 0 where
  returns : Regs → Machine M → Outcome M
  yields : Machine M → Outcome M
  panics : Outcome M
  hangs : Outcome M

module _ {M : Type 0} (mem : Memory M) where
  pub print : Message → Machine M → Machine M
  print message m = record m { printed = message ∷ m.printed }

  -- The registers of a task that yields stay at their address `regs`.
  pub yield_with : (regs : ℕ) → Regs → Sched → Machine M → Outcome M
  yield_with regs r s m =
      yields
        (record m { kernel = record m.kernel { sched = s; frame = update m.kernel.frame regs r } })

  pub exited : (regs : ℕ) → Regs → Machine M → Option Sched → Outcome M
  exited regs r m none = panics
  exited regs r m (some s) = yield_with regs r s m

  pub handle_exit : (regs : ℕ) → Regs → Machine M → Outcome M
  handle_exit regs r m =
      exited regs r (print (exit_code r.ebx) m) (sched_exit_with regs r.ebx m.kernel.sched)

  pub handle_write : Regs → Machine M → Outcome M
  handle_write r m = returns r (if ltb r.ebx 256 then print (char r.ebx) m else m)

  pub written : Regs → Machine M → Option (List ℕ) → Outcome M
  written r m none = panics
  written r m (some s) = returns r (print (string s) m)

  pub handle_writestr : Regs → Machine M → Outcome M
  handle_writestr r m =
      if r.ebx == 0 then returns r m else written r m (mem.read_string m.kernel.memory r.ebx)

  pub handle_gettick : Regs → Machine M → Outcome M
  handle_gettick r m = returns (record r { eax = m.kernel.sched.tick }) m

  -- The loop of `handle_read`: the key that `ps2_poll` gives, or the `hlt` behind its -1.
  pub read_loop : Regs → Machine M → Option ℕ × Keyboard → Outcome M
  read_loop r m (some c, k) = returns (record r { eax = c }) (record m { keyboard = k })
  read_loop r m (none, k) = hangs

  pub handle_read : Regs → Machine M → Outcome M
  handle_read r m = read_loop r m (poll m.keyboard)

  pub handle_fork : Regs → Machine M → Outcome M
  handle_fork r m =
      let (done, k) = task_create_fork mem m.kernel r in
      returns (record r { eax = if done then 1 else minus_one }) (record m { kernel = k })

  pub pid_or : Option ℕ → ℕ
  pid_or none = minus_one
  pid_or (some pid) = pid

  pub handle_getpid : Regs → Machine M → Outcome M
  handle_getpid r m = returns (record r { eax = pid_or (getpid m.kernel.sched) }) m

  -- A code from 2 ^ 31 on is a negative `int`.
  pub has_waited : Regs → Machine M → Option (Option ℕ × Kernel M) → Outcome M
  has_waited r m none = hangs
  has_waited r m (some (none, k)) = returns (record r { eax = minus_one }) (record m { kernel = k })
  has_waited r m (some (some code, k)) =
      let m1 = record m { kernel = k } in
      returns (record r { eax = code }) (if ltb code 0x80000000 then print (waited code) m1 else m1)

  pub handle_wait : (fuel : ℕ) → Regs → Machine M → Outcome M
  handle_wait fuel r m = has_waited r m (sched_wait mem fuel m.kernel)

  pub handle_sleep : (regs : ℕ) → Regs → Machine M → Outcome M
  handle_sleep regs r m =
      let s = m.kernel.sched in
      let r1 = record r { eax = 0 } in
      if s.task_list == 0 || s.current_task == 0
      then returns r1 m
      else yield_with regs r1 (sched_sleep regs r.ebx s) m

  pub execed : Machine M → Option (Bool × Regs × Kernel M) → Outcome M
  execed m none = panics
  execed m (some (done, r1, k)) =
      returns (if done then r1 else record r1 { eax = minus_one }) (record m { kernel = k })

  pub handle_exec : Regs → Machine M → Outcome M
  handle_exec r m = execed m (sched_exec mem m.kernel r r.ebx)

  -- `syscall_handler`; `regs` is the address of the registers `r`.
  pub syscall_handler : (fuel regs : ℕ) → Regs → Machine M → Outcome M
  syscall_handler fuel regs r m =
      if r.eax == sys_exit
      then handle_exit regs r m
      else if r.eax == sys_write
      then handle_write r m
      else if r.eax == sys_writestr
      then handle_writestr r m
      else if r.eax == sys_gettick
      then handle_gettick r m
      else if r.eax == sys_read
      then handle_read r m
      else if r.eax == sys_fork
      then handle_fork r m
      else if r.eax == sys_getpid
      then handle_getpid r m
      else if r.eax == sys_wait
      then handle_wait fuel r m
      else if r.eax == sys_sleep
      then handle_sleep regs r m
      else if r.eax == sys_exec
      then handle_exec r m
      else returns r (print (unknown r.eax) m)
