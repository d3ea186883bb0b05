-- ===== src/Uchar/Print.antt =====
-- The lengths of UTF-8 strings, in characters and in the bytes that app/uchar.c writes to print them.
use graceful_music.Common.{
  ℕ, zero, suc, ◌+◌, ◌≤◌, ◌<◌, ◌≡◌, refl, inl, inr, true, false, ◌||◌, some, List, [], ◌∷◌, ◌++◌,
  arith, ltb, ◌==◌, if◌then◌else◌, Bool-cases, length, drop, length-append, length-drop,
}
use graceful_music.Uchar.{
  get_sequence, u_get_char, to_utf8_loop, u_to_utf8, print_size_loop, u_str_print_size, utf8_skip,
  strlen_from, u_strlen, set_invalid, u_set_char_raw, u_set_char, u_char_size, u_print_size,
}
use graceful_music.Uchar.Valid.{encode, AllUnicode}

-- `u_next_char` steps over one character, whatever follows.
strlen-set_char :
    (u : ℕ) (s : List ℕ) (len : ℕ)
    → u ≤ 1114111
    → strlen_from 0 s ≡ some len
    → strlen_from 0 (u_set_char_raw u ++ s) ≡ some (suc len)
unfolding strlen_from u_set_char_raw utf8_skip
strlen-set_char u s len h e = ground arith

-- `u_strlen` counts the characters of a string that was written by `u_set_char_raw`, and never steps
-- over its end.
pub u_strlen-encode : (us : List ℕ) → AllUnicode us → u_strlen (encode us) ≡ some (length us)
unfolding u_strlen encode strlen_from
u_strlen-encode [] h = refl
u_strlen-encode (u ∷ us) h = strlen-set_char u (encode us) (length us) h.0 (u_strlen-encode us h.1)

-- `u_print_size` is the number of bytes that `u_set_char` writes, except for the control character 31
-- and for anything above 0x10ffff, such as an invalid byte: there three bytes more are written.
pub length-u_set_char :
    (u : ℕ) → length (u_set_char u) ≡ u_print_size u + (if u == 31 || ltb 1114111 u then 3 else 0)
unfolding u_set_char u_set_char_raw set_invalid u_print_size u_char_size
length-u_set_char u = ground arith

-- `u_char_size` is the number of bytes that `u_set_char_raw` writes.
pub length-u_set_char_raw : (u : ℕ) → length (u_set_char_raw u) ≡ u_char_size u
unfolding u_set_char_raw u_char_size
length-u_set_char_raw u = ground arith

-- The size that `u_print_size` gives too little for a character.
abbrev missing : ℕ → ℕ
missing u = if u == 31 || ltb 1114111 u then 3 else 0

-- The same for the characters that the loops of `u_to_utf8` and `u_str_print_size` read.
unfoldable pub missing_loop : (fuel : ℕ) → List ℕ → ℕ
missing_loop zero s = 0
missing_loop (suc fuel) s =
    let u = (u_get_char s).0 in
    let rest = missing_loop fuel (drop (u_get_char s).1 s) in if u == 0 then 0 else missing u + rest

-- `u_get_char` moves on.
get_char-moves : (ch : ℕ) (s : List ℕ) → 0 < (u_get_char (ch ∷ s)).1
unfolding u_get_char get_sequence
get_char-moves ch s = ground arith

-- What the two loops return.
abbrev Sizes : ℕ → List ℕ → Type 0
Sizes fuel s =
    (out : List ℕ) × (size : ℕ) × (to_utf8_loop fuel s ≡ some out)
    × (print_size_loop fuel s ≡ some size)
    × (length out ≡ size + missing_loop fuel s)

nil-Sizes : (fuel : ℕ) → Sizes (suc fuel) []
unfolding to_utf8_loop print_size_loop missing_loop u_get_char u_set_char set_invalid u_print_size
    u_char_size
nil-Sizes fuel = (0 ∷ [], 1, refl, refl, refl)

-- The last round of the loops, and a round before it.
last-Sizes : (fuel : ℕ) (s : List ℕ) → ((u_get_char s).0 == 0) ≡ true → Sizes (suc fuel) s
unfolding to_utf8_loop print_size_loop missing_loop
last-Sizes fuel s t =
    let u = (u_get_char s).0 in
    (u_set_char u, u_print_size u, rw t refl, rw t refl, rw t (ground (arith, length-u_set_char u)))

next-Sizes :
    (fuel : ℕ) (s : List ℕ)
    → ((u_get_char s).0 == 0) ≡ false
    → Sizes fuel (drop (u_get_char s).1 s)
    → Sizes (suc fuel) s
unfolding to_utf8_loop print_size_loop missing_loop
next-Sizes fuel s f rest =
    let u = (u_get_char s).0 in
    let (out, size, e, e', eq) = rest in
    (
      u_set_char u ++ out,
      u_print_size u + size,
      rw (f, e) refl,
      rw (f, e') refl,
      rw f (ground (arith, length-append (u_set_char u) out, length-u_set_char u, eq)),
    )

loop-Sizes : (fuel : ℕ) (s : List ℕ) → length s < fuel → Sizes fuel s
loop-Sizes zero s h = absurd (omega arith)
loop-Sizes (suc fuel) [] h = nil-Sizes fuel
loop-Sizes (suc fuel) (ch ∷ s) h =
    let k = (u_get_char (ch ∷ s)).1 in
    let rest =
      loop-Sizes fuel (drop k (ch ∷ s))
        (omega (arith, get_char-moves ch s, length-drop k (ch ∷ s), h)) in
    elim (Bool-cases ((u_get_char (ch ∷ s)).0 == 0)) [
      | inl t ↦ last-Sizes fuel (ch ∷ s) t
      | inr f ↦ next-Sizes fuel (ch ∷ s) f rest
    ]

-- `u_to_utf8` and `u_str_print_size` of any bytes end, and `u_to_utf8` writes as many bytes as
-- `u_str_print_size` returns and three more for each character 31, each invalid byte and each character
-- above 0x10ffff, up to the first character 0.
pub length-u_to_utf8 :
    (s : List ℕ)
    → (out : List ℕ) × (size : ℕ) × (u_to_utf8 s ≡ some out)
      × (u_str_print_size s ≡ some size)
      × (length out ≡ size + missing_loop (suc (length s)) s)
unfolding u_to_utf8 u_str_print_size
length-u_to_utf8 s = loop-Sizes (suc (length s)) s (omega arith)
