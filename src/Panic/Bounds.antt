-- ===== src/Panic/Bounds.antt =====
-- The message fits its buffer of 256 bytes.
use neodymium.Base.{
  ℕ, ◌+◌, ◌%◌, ◌^◌, ◌≤◌, ◌<◌, ◌≡◌, refl, Bool, true, false, Option, none, some, List, [], ◌∷◌,
  arith, ltb, ◌==◌, if◌then◌else◌, length, length-append, sub32, Bool-cases, inl, inr, max,
}
use neodymium.Printf.{Arg, word, string, with_args}
use neodymium.Panic.{
  put, put_all, put_digits, dec_digits, hex_string, put_int, directive_word, directive_string,
  directive, then_format, fmt_loop, terminate, fmt_msg,
}

-- A result, if there is one, has at most 251 bytes.
abbrev Short : Option (List ℕ) → Type 0
Short none = Unit
Short (some msg) = length msg ≤ 251

abbrev ShortWith : Option (List ℕ × List Arg) → Type 0
ShortWith none = Unit
ShortWith (some (msg, args)) = length msg ≤ 251

length-put : (msg : List ℕ) (c : ℕ) → length (put msg c) ≡ length msg + 1
length-put msg c = length-append msg (c ∷ [])

length-put_all : (msg cs : List ℕ) → length (put_all msg cs) ≤ max (length msg) 250
unfolding put_all
length-put_all msg [] = ground arith
length-put_all msg (c ∷ cs) = ground (arith, length-put_all (put msg c) cs, length-put msg c)

put_digits-Short :
    (msg : List ℕ) (ds : Option (List ℕ)) → length msg ≤ 251 → Short (put_digits msg ds)
unfolding put_digits
put_digits-Short msg none h = _
put_digits-Short msg (some ds) h = ground (arith, length-put_all msg ds)

put_int-Short : (msg : List ℕ) (w : ℕ) → length msg < 250 → Short (put_int msg w)
unfolding put_int
put_int-Short msg w h = elim (Bool-cases (ltb w (2 ^ 31))) [
  | inl plus ↦ rw plus (put_digits-Short msg (dec_digits w) (omega arith))
  | inr minus ↦ rw minus (
      put_digits-Short (put msg b'-')
        (if ltb (sub32 0 w) (2 ^ 31) then dec_digits (sub32 0 w) else some [])
        (omega (arith, length-put msg b'-')))
]

with_args-ShortWith :
    (r : Option (List ℕ)) (args : List Arg) → Short r → ShortWith (with_args r args)
unfolding with_args
with_args-ShortWith none args h = _
with_args-ShortWith (some msg) args h = h

directive_word-ShortWith :
    (step : List ℕ → ℕ → Option (List ℕ)) (msg : List ℕ) (args : List Arg)
    → ((w : ℕ) → Short (step msg w))
    → ShortWith (directive_word step msg args)
unfolding directive_word
directive_word-ShortWith step msg [] h = _
directive_word-ShortWith step msg (string s ∷ args) h = _
directive_word-ShortWith step msg (word w ∷ args) h = with_args-ShortWith (step msg w) args (h w)

directive_string-ShortWith :
    (msg : List ℕ) (args : List Arg) → length msg < 250 → ShortWith (directive_string msg args)
unfolding directive_string
directive_string-ShortWith msg [] h = _
directive_string-ShortWith msg (string s ∷ args) h = omega (arith, length-put_all msg s)
directive_string-ShortWith msg (word w ∷ args) h = _

directive-ShortWith :
    (d : ℕ) (msg : List ℕ) (args : List Arg) → length msg < 250 → ShortWith (directive d msg args)
unfolding directive
directive-ShortWith d msg args h = ground (
  arith,
  directive_string-ShortWith msg args h,
  directive_word-ShortWith put_int msg args (λ w. put_int-Short msg w h),
  directive_word-ShortWith (λ m w. put_digits m (dec_digits w)) msg args
      (λ w. put_digits-Short msg (dec_digits w) (omega arith)),
  directive_word-ShortWith (λ m w. put_digits (put (put m b'0') b'x') (hex_string w)) msg args
      (λ w.
        put_digits-Short (put (put msg b'0') b'x') (hex_string w)
          (omega (arith, length-put (put msg b'0') b'x', length-put msg b'0'))),
  directive_word-ShortWith (λ m w. some (put m (w % 2 ^ 8))) msg args
      (λ w. omega (arith, length-put msg (w % 2 ^ 8))),
  length-put (put msg b'%') d,
  length-put msg b'%',
)

branch-Short :
    (x y : Option (List ℕ)) (b : Bool)
    → (b ≡ true → Short x)
    → (b ≡ false → Short y)
    → Short (elim b [ false ↦ y | true ↦ x ])
branch-Short x y true hx hy = hx refl
branch-Short x y false hx hy = hy refl

then_format-Short :
    (r : Option (List ℕ × List Arg)) (go : List ℕ → List Arg → Option (List ℕ))
    → ShortWith r
    → ((msg : List ℕ) (args : List Arg) → length msg ≤ 251 → Short (go msg args))
    → Short (then_format r go)
unfolding then_format
then_format-Short none go h hgo = _
then_format-Short (some (msg, args)) go h hgo = hgo msg args h

fmt_loop-Short :
    (fmt msg : List ℕ) (args : List Arg) → length msg ≤ 251 → Short (fmt_loop fmt msg args)
unfolding fmt_loop
fmt_loop-Short [] msg args h = h
fmt_loop-Short (c ∷ []) msg args h = ground (arith, length-put msg c)
fmt_loop-Short (c ∷ d ∷ fmt) msg args h =
    branch-Short _ _ (ltb (length msg) 250)
      (λ room.
        branch-Short _ _ (c == b'%')
          (λ percent.
            then_format-Short (directive d msg args) (fmt_loop fmt)
              (directive-ShortWith d msg args (ground arith)) (λ m a hm. fmt_loop-Short fmt m a hm))
          (λ other. fmt_loop-Short (d ∷ fmt) (put msg c) args (ground (arith, length-put msg c))))
      (λ full. h)

terminate-fits :
    (r : Option (List ℕ)) (out : List ℕ) → Short r → terminate r ≡ some out → length out ≤ 252
unfolding terminate
terminate-fits none out h e = ground (arith, e)
terminate-fits (some msg) out h e = ground (arith, e, length-put msg 0)

-- Whatever the format and the arguments are, if the formatting is defined, the message with its terminating zero takes at most 252
-- of the 256 bytes of the buffer.
pub fmt_msg-fits :
    (fmt : List ℕ) (args : List Arg) (out : List ℕ) → fmt_msg fmt args ≡ some out → length out ≤ 252
unfolding fmt_msg
fmt_msg-fits fmt args out e =
    terminate-fits (fmt_loop fmt [] args) out (fmt_loop-Short fmt [] args (omega arith)) e
