-- ===== src/Panic/Report/Sent.antt =====
-- A panic gets to its end, and the serial port gets the whole report.
use neodymium.Base.{
  ℕ, zero, suc, ◌+◌, ◌^◌, ◌<◌, ◌≤◌, ◌≡◌, refl, sym, ap, ◌∙◌, Option, some, List, [], ◌∷◌, ◌++◌,
  codes, arith, append_nil, append_assoc, length, ◌==◌, ==_ne, ◌≢◌, false,
}
use neodymium.Printf.{Arg, append}
use neodymium.Printf.Pieces.{
  Piece, literal, text, unsigned, hex, format_of, args_of, ArePieces, vprintf_lem,
  output_of-AllShow, output_of, join,
}
use neodymium.Framebuffer.{Screen}
use neodymium.Sched.Memory.{Regs}
use neodymium.Echo.{Terminal, putchar, put_all, printf, on_console}
use neodymium.Panic.{fmt_msg, walk_frames, frame_read}
use neodymium.Panic.Screen.{cstring}
use neodymium.Panic.Screen.Total.{AreWords, RegsAreWords, Shows, draw_screen-Shows}
use neodymium.Panic.Report.{
  and_print, print_frames, print_report, drawn_on, report, report_frames, panic_regs,
}

-- The report as pieces: its lines, with the conversions that stand in them.
label : List ℕ → List Piece → List Piece
label [] ps = ps
label (c ∷ cs) ps = literal c ∷ label cs ps

-- What the calls of `printf` for a list of formats print, one after the other.
pub outputs : List (List Piece) → Option (List ℕ)
outputs [] = some []
outputs (ps ∷ rest) = join (output_of ps) (outputs rest)

-- `u` is where the calls get to from `t`, with the text on the serial port.
pub record Sends (t : Terminal) (pss : List (List Piece)) (o : Option Terminal) : Type 0 where
  pub end : Terminal
  pub reached : o ≡ some end
  pub sent : List ℕ
  pub printed : outputs pss ≡ some sent
  pub serial : end.serial ≡ t.serial ++ sent

put_all-serial : (now : ℕ) (cs : List ℕ) (t : Terminal) → (put_all now cs t).serial ≡ t.serial ++ cs
unfolding put_all putchar on_console
put_all-serial now [] t = sym (append_nil t.serial)
put_all-serial now (c ∷ cs) t =
    put_all-serial now cs (putchar now c t) ∙ append_assoc t.serial (c ∷ []) cs

-- One call, and the calls behind it.
printf-Sends :
    (now : ℕ) (ps : List Piece) (pss : List (List Piece)) (t : Terminal)
    (next : Terminal → Option Terminal)
    → ArePieces ps
    → ((u : Terminal) → Sends u pss (next u))
    → Sends t (ps ∷ pss) (and_print (printf now (format_of ps) (args_of ps) t) next)
unfolding outputs join append and_print printf
printf-Sends now ps pss t next h later =
    let (out, e, _) = output_of-AllShow ps h in
    let rest = later (put_all now out t) in
    record {
      end = rest.end;
      reached = rw (vprintf_lem ps h ∙ e, and_print, printf) rest.reached;
      sent = out ++ rest.sent;
      printed = rw (e, rest.printed) refl;
      serial =
          rest.serial
          ∙ ap (λ l. l ++ rest.sent) (put_all-serial now out t)
          ∙ append_assoc t.serial out rest.sent;
    }

frame_line : ℕ → List Piece
frame_line f = label (codes "  [0x") (hex f ∷ label (codes "]\n") [])

frame_lines : List ℕ → List (List Piece)
frame_lines [] = []
frame_lines (f ∷ fs) = frame_line f ∷ frame_lines fs

print_frames-Sends :
    (now : ℕ) (fs : List ℕ) (t : Terminal)
    → AreWords fs
    → Sends t (frame_lines fs) (print_frames now fs t)
unfolding print_frames frame_lines frame_line label format_of args_of
print_frames-Sends now [] t h = record {
  end = t;
  reached = refl;
  sent = [];
  printed = unfold outputs in refl;
  serial = sym (append_nil t.serial);
}
print_frames-Sends now (f ∷ fs) t h =
    printf-Sends now (frame_line f) (frame_lines fs) t (print_frames now fs) (ground (arith, h))
      (λ u. print_frames-Sends now fs u h.1)

-- A line with four values.
four_words : (a b c d : List ℕ) → (p q r s : Piece) → List Piece
four_words a b c d p q r s =
    label a (p ∷ label b (q ∷ label c (r ∷ label d (s ∷ literal b'\n' ∷ []))))

pub report_lines : (msg : List ℕ) → Regs → (frames : List ℕ) → List (List Piece)
report_lines msg r frames =
    label (codes "\n[neodymium]\nKERNEL PANIC\n") (text (cstring msg) ∷ literal b'\n' ∷ [])
    ∷ four_words (codes "eax=0x") (codes " ebx=0x") (codes " ecx=0x") (codes " edx=0x") (hex r.eax)
        (hex r.ebx) (hex r.ecx) (hex r.edx)
    ∷ four_words (codes "esi=0x") (codes " edi=0x") (codes " ebp=0x") (codes " esp=0x") (hex r.esi)
        (hex r.edi) (hex r.ebp) (hex r.esp)
    ∷ four_words (codes "eip=0x") (codes " cs=0x") (codes " eflags=0x") (codes " err=") (hex r.eip)
        (hex r.cs) (hex r.eflags) (unsigned r.err_code)
    ∷ label (codes "backtrace:\n") []
    ∷ frame_lines frames

print_report-Sends :
    (now : ℕ) (msg : List ℕ) (r : Regs) (frames : List ℕ) (t : Terminal)
    → RegsAreWords r
    → AreWords frames
    → Sends t (report_lines msg r frames) (print_report now msg r frames t)
unfolding print_report report_lines four_words label format_of args_of
print_report-Sends now msg r frames t h hf = printf-Sends now _ _ t _ (ground arith) (λ t1.
    printf-Sends now _ _ t1 _ (ground (arith, h.first)) (λ t2.
      printf-Sends now _ _ t2 _ (ground (arith, h.second)) (λ t3.
        printf-Sends now _ _ t3 _ (ground (arith, h.third)) (λ t4.
          printf-Sends now _ _ t4 _ (ground arith) (λ t5. print_frames-Sends now frames t5 hf)))))

-- The frames from the frame pointer `fp` on, of which `n` are noted at most: each has the return address
-- at offset 4 and the pointer to the next one at offset 0, both in readable memory, and the last
-- pointer is null.
abbrev pub IsChain : (mem : ℕ → Option ℕ) (n fp : ℕ) → List ℕ → Type 0
IsChain mem zero fp [] = Unit
IsChain mem zero fp (f ∷ fs) = ⊥
IsChain mem (suc n) fp [] = fp ≡ 0
IsChain mem (suc n) fp (f ∷ fs) =
    (fp ≢ 0) × (mem (fp + 4) ≡ some f) × ((next : ℕ) × (mem fp ≡ some next) × IsChain mem n next fs)

walk_frames-IsChain :
    (mem : ℕ → Option ℕ) (n fp : ℕ) (fs : List ℕ)
    → ((a w : ℕ) → mem a ≡ some w → w < 2 ^ 32)
    → IsChain mem n fp fs
    → (walk_frames mem n fp ≡ some fs) × AreWords fs × (length fs ≤ n)
unfolding walk_frames frame_read
walk_frames-IsChain mem zero fp [] h c = (refl, tt, omega arith)
walk_frames-IsChain mem zero fp (f ∷ fs) h c = absurd c
walk_frames-IsChain mem (suc n) fp [] h c = (rw c refl, tt, omega arith)
walk_frames-IsChain mem (suc n) fp (f ∷ fs) h (ne, ret, (next, link, c)) =
    let (e, words, short) = walk_frames-IsChain mem n next fs h c in
    let off : (fp == 0) ≡ false = ==_ne fp 0 ne in
    (rw (off, ret, link, e) refl, (h (fp + 4) f ret, words), omega arith)

-- How a report ends: the screen is drawn, and the serial port gets the lines.
pub record Reported (now : ℕ) (msg : List ℕ) (r : Regs) (frames : List ℕ) (t : Terminal)
    (o : Option Terminal) : Type 0 where
  pub screen : Screen
  pub drawn : Shows msg r frames t.screen screen
  pub printed : o ≡ print_report now msg r frames (record t { screen = screen })
  pub sends : Sends t (report_lines msg r frames) o

-- Where the message fits its format, registers and memory are words, and the frames from ebp on are a
-- chain in readable memory, `panic_regs` gets to its end: at most 16 frames are noted, the screen,
-- if there is one, is cleared to red and gets the titles, the message, the registers and the frames
-- at their places, and behind it the serial port gets the message, the registers and the frames,
-- line by line.
pub panic_regs-Sends :
    (now : ℕ) (mem : ℕ → Option ℕ) (r : Regs) (fmt : List ℕ) (args : List Arg) (msg : List ℕ)
    (frames : List ℕ) (t : Terminal)
    → fmt_msg fmt args ≡ some msg
    → RegsAreWords r
    → ((a w : ℕ) → mem a ≡ some w → w < 2 ^ 32)
    → IsChain mem 16 r.ebp frames
    → (length frames ≤ 16) × Reported now msg r frames t (panic_regs now mem r fmt args t)
unfolding panic_regs report report_frames drawn_on and_print
panic_regs-Sends now mem r fmt args msg frames t e h hm c =
    let (walked, words, short) = walk_frames-IsChain mem 16 r.ebp frames hm c in
    let (s, drawn, shows) = draw_screen-Shows msg r frames t.screen h words in
    let rest = print_report-Sends now msg r frames (record t { screen = s }) h words in
    let run : panic_regs now mem r fmt args t
        ≡ print_report now msg r frames (record t { screen = s }) =
      ap (λ m. report now mem r m t) e
      ∙ ap (λ fs. report_frames now msg r fs t) walked
      ∙ ap (λ o. and_print (drawn_on o t) (print_report now msg r frames)) drawn in
    (
      short,
      record {
        screen = s;
        drawn = shows;
        printed = run;
        sends = record {
          end = rest.end;
          reached = run ∙ rest.reached;
          sent = rest.sent;
          printed = rest.printed;
          serial = rest.serial;
        };
      },
    )
