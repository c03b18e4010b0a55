-- ===== src/Panic/Report.antt =====
-- The two functions that stop the kernel, `panic` and `panic_regs`, up to the loop of `hlt`. The
-- capture of the registers in assembly is an argument, and `mem` reads a word of the stack, where
-- `none` is a page fault.
pub mod Sent
use neodymium.Base.{ℕ, Option, none, some, List, [], ◌∷◌, codes}
use neodymium.Printf.{Arg, word, string}
use neodymium.Sched.Memory.{Regs}
use neodymium.Framebuffer.{Screen}
use neodymium.Echo.{Terminal, printf}
use neodymium.Panic.{fmt_msg, walk_frames}
use neodymium.Panic.Screen.{cstring, draw_screen}

pub and_print : Option Terminal → (Terminal → Option Terminal) → Option Terminal
and_print none print = none
and_print (some t) print = print t

pub print_frames : (now : ℕ) → List ℕ → Terminal → Option Terminal
print_frames now [] t = some t
print_frames now (f ∷ fs) t =
    and_print (printf now (codes "  [0x%x]\n") (word f ∷ []) t) (print_frames now fs)

-- The calls of `printf` behind the screen.
pub print_report : (now : ℕ) (msg : List ℕ) → Regs → (frames : List ℕ) → Terminal → Option Terminal
print_report now msg r frames t =
    and_print (printf now (codes "\n[neodymium]\nKERNEL PANIC\n%s\n") (string (cstring msg) ∷ []) t)
      (λ t1.
        and_print
          (printf now (codes "eax=0x%x ebx=0x%x ecx=0x%x edx=0x%x\n")
            (word r.eax ∷ word r.ebx ∷ word r.ecx ∷ word r.edx ∷ []) t1)
          (λ t2.
            and_print
              (printf now (codes "esi=0x%x edi=0x%x ebp=0x%x esp=0x%x\n")
                (word r.esi ∷ word r.edi ∷ word r.ebp ∷ word r.esp ∷ []) t2)
              (λ t3.
                and_print
                  (printf now (codes "eip=0x%x cs=0x%x eflags=0x%x err=%u\n")
                    (word r.eip ∷ word r.cs ∷ word r.eflags ∷ word r.err_code ∷ []) t3)
                  (λ t4.
                    and_print (printf now (codes "backtrace:\n") [] t4)
                      (print_frames now frames)))))

pub drawn_on : Option Screen → Terminal → Option Terminal
drawn_on none t = none
drawn_on (some s) t = some (record t { screen = s })

pub report_frames : (now : ℕ) (msg : List ℕ) → Regs → Option (List ℕ) → Terminal → Option Terminal
report_frames now msg r none t = none
report_frames now msg r (some frames) t =
    and_print (drawn_on (draw_screen msg r frames t.screen) t) (print_report now msg r frames)

pub report : (now : ℕ) (mem : ℕ → Option ℕ) → Regs → Option (List ℕ) → Terminal → Option Terminal
report now mem r none t = none
report now mem r (some msg) t = report_frames now msg r (walk_frames mem 16 r.ebp) t

pub panic_regs :
    (now : ℕ) (mem : ℕ → Option ℕ) → Regs → (fmt : List ℕ) → List Arg → Terminal → Option Terminal
panic_regs now mem r fmt args t = report now mem r (fmt_msg fmt args) t

-- `panic` fills in what the capture leaves.
pub panic :
    (now : ℕ) (mem : ℕ → Option ℕ) (captured : Regs) (return_address : ℕ) (fmt : List ℕ)
    → List Arg
    → Terminal
    → Option Terminal
panic now mem captured return_address fmt args t =
    let r = record captured { eip = return_address; cs = 0x8; eflags = 0; err_code = 0 } in
    report now mem r (fmt_msg fmt args) t
