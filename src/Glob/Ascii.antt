-- ===== src/Glob/Ascii.antt =====
-- The items that `glob_compile` of app/glob.c makes of a pattern of ASCII characters.
use graceful_music.Common.{
  ℕ, zero, suc, ◌<◌, inl, inr, List, [], ◌∷◌, ◌++◌, arith, ltb, ◌==◌, Bool-cases, length, replicate,
  length-append, if_same,
}
use graceful_music.Glob.{
  GlobItem, glob_star, glob_qmark, glob_text, flush, simplify_from, simplify, Place, outside,
  inside, escaped, close, so_far, is_escaped, compile_from,
}
use graceful_music.Glob.Reference.{AllAscii, AsciiItems}

AllAscii-append : (s t : List ℕ) → AllAscii s → AllAscii t → AllAscii (s ++ t)
AllAscii-append [] t h h' = h'
AllAscii-append (c ∷ s) t h h' = (h.0, h.1, AllAscii-append s t h.2 h')

AsciiItems-append : (l m : List GlobItem) → AsciiItems l → AsciiItems m → AsciiItems (l ++ m)
AsciiItems-append [] m h h' = h'
AsciiItems-append (glob_star ∷ l) m h h' = AsciiItems-append l m h h'
AsciiItems-append (glob_qmark ∷ l) m h h' = AsciiItems-append l m h h'
AsciiItems-append (glob_text t ∷ l) m h h' = (h.0, h.1, AsciiItems-append l m h.2 h')

qmarks-AsciiItems : (n : ℕ) → AsciiItems (replicate n glob_qmark)
qmarks-AsciiItems zero = tt
qmarks-AsciiItems (suc n) = qmarks-AsciiItems n

flush-AsciiItems : (q s : ℕ) → AsciiItems (flush q s)
unfolding flush
flush-AsciiItems q s = elim (Bool-cases (ltb 0 s)) [
  | inl t ↦
      rw t (AsciiItems-append (replicate q glob_qmark) (glob_star ∷ []) (qmarks-AsciiItems q) tt)
  | inr f ↦ rw f (AsciiItems-append (replicate q glob_qmark) [] (qmarks-AsciiItems q) tt)
]

simplify_from-AsciiItems :
    (q s : ℕ) (items : List GlobItem) → AsciiItems items → AsciiItems (simplify_from q s items)
unfolding simplify_from
simplify_from-AsciiItems q s [] h = flush-AsciiItems q s
simplify_from-AsciiItems q s (glob_star ∷ items) h = simplify_from-AsciiItems q (suc s) items h
simplify_from-AsciiItems q s (glob_qmark ∷ items) h = simplify_from-AsciiItems (suc q) s items h
simplify_from-AsciiItems q s (glob_text t ∷ items) h =
    AsciiItems-append (flush q s) (glob_text t ∷ simplify_from 0 0 items) (flush-AsciiItems q s)
      (h.0, h.1, simplify_from-AsciiItems 0 0 items h.2)

pub simplify-AsciiItems : (items : List GlobItem) → AsciiItems items → AsciiItems (simplify items)
unfolding simplify
simplify-AsciiItems = simplify_from-AsciiItems 0 0

-- A text that is being read.
abbrev pub AsciiPlace : Place → Type 0
AsciiPlace outside = Unit
AsciiPlace (inside t) = (0 < length t) × AllAscii t
AsciiPlace (escaped t) = AllAscii t

close-AsciiItems : (p : Place) → AsciiPlace p → AsciiItems (close p)
unfolding close
close-AsciiItems outside h = tt
close-AsciiItems (inside t) h = (h.0, h.1, tt)
close-AsciiItems (escaped t) h = (
  omega (arith, length-append t (92 ∷ [])),
  AllAscii-append t (92 ∷ []) h (omega arith, omega arith, tt),
  tt,
)

so_far-AllAscii : (p : Place) → AsciiPlace p → AllAscii (so_far p)
unfolding so_far
so_far-AllAscii outside h = tt
so_far-AllAscii (inside t) h = h.1
so_far-AllAscii (escaped t) h = h

-- The text with one more byte.
more-AsciiPlace :
    (p : Place) (c : ℕ) → AsciiPlace p → 0 < c → c < 128 → AsciiPlace (inside (so_far p ++ c ∷ []))
more-AsciiPlace p c h low high = (
  omega (arith, length-append (so_far p) (c ∷ [])),
  AllAscii-append (so_far p) (c ∷ []) (so_far-AllAscii p h) (low, high, tt),
)

pub compile-AsciiItems :
    (p : Place) (pattern : List ℕ)
    → AsciiPlace p
    → AllAscii pattern
    → AsciiItems (compile_from p pattern)
unfolding compile_from
compile-AsciiItems p [] h a = close-AsciiItems p h
compile-AsciiItems p (c ∷ pattern) h a =
    let more =
      compile-AsciiItems (inside (so_far p ++ c ∷ [])) pattern (more-AsciiPlace p c h a.0 a.1)
        a.2 in
    let esc = compile-AsciiItems (escaped (so_far p)) pattern (so_far-AllAscii p h) a.2 in
    let next = compile-AsciiItems outside pattern tt a.2 in
    let star =
      AsciiItems-append (close p) (glob_star ∷ compile_from outside pattern) (close-AsciiItems p h)
        next in
    let qmark =
      AsciiItems-append (close p) (glob_qmark ∷ compile_from outside pattern) (close-AsciiItems p h)
        next in
    if_same AsciiItems (is_escaped p) (λ _. more)
      (λ _.
        if_same AsciiItems (c == 92) (λ _. esc)
          (λ _.
            if_same AsciiItems (c == 42) (λ _. star)
              (λ _. if_same AsciiItems (c == 63) (λ _. qmark) (λ _. more))))
