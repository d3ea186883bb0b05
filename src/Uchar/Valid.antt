-- ===== src/Uchar/Valid.antt =====
-- The strings that `u_is_valid` of app/uchar.c accepts are those that `u_set_char_raw` writes, one
-- character after another.
use graceful_music.Common.{
  ℕ, zero, suc, ◌+◌, ◌*◌, ◌/◌, ◌%◌, ◌≤◌, ◌<◌, ◌≡◌, refl, ap, ◌∙◌, ◌↔◌, ◌⊎◌, inl, inr, true, List,
  [], ◌∷◌, ◌++◌, arith, length, length-append,
}
use graceful_music.Uchar.{
  len_tab, is_tail, min_val, max_val, between, inside, first_byte, in_range, next_byte, valid_from,
  u_is_valid, u_set_char_raw,
}
use graceful_music.Uchar.Accept.{valid-set_char}

-- The bytes of characters that are written one after another.
unfoldable pub encode : List ℕ → List ℕ
encode [] = []
encode (u ∷ us) = u_set_char_raw u ++ encode us

-- All of them are at most 0x10ffff.
abbrev pub AllUnicode : List ℕ → Type 0
AllUnicode [] = Unit
AllUnicode (u ∷ us) = (u ≤ 1114111) × AllUnicode us

-- `u_is_valid` accepts whatever `u_set_char_raw` wrote.
valid-encode : (us : List ℕ) → AllUnicode us → u_is_valid (encode us) ≡ true
unfolding encode u_is_valid valid_from
valid-encode [] h = refl
valid-encode (u ∷ us) h = valid-set_char u (encode us) h.0 ∙ valid-encode us h.1

-- A byte behind the first of a valid string, not the last one.
more-inv :
    (c len u : ℕ) (s : List ℕ)
    → valid_from (inside (suc (suc c)) len u) s ≡ true
    → (x : ℕ) × (s' : List ℕ) × (s ≡ x ∷ s')
      × (128 ≤ x)
      × (x < 192)
      × (valid_from (inside (suc c) len (u * 64 + x % 64)) s' ≡ true)
unfolding valid_from next_byte is_tail len_tab
more-inv c len u [] h = absurd (cc)
more-inv c len u (x ∷ s') h = (x, s', refl, ground arith, ground arith, ground arith)

-- The last one.
last-inv :
    (len u : ℕ) (s : List ℕ)
    → valid_from (inside 1 len u) s ≡ true
    → (x : ℕ) × (s' : List ℕ) × (s ≡ x ∷ s')
      × (128 ≤ x)
      × (x < 192)
      × (min_val len ≤ u * 64 + x % 64)
      × (u * 64 + x % 64 ≤ max_val len)
      × (valid_from between s' ≡ true)
unfolding valid_from next_byte in_range is_tail len_tab
last-inv len u [] h = absurd (cc)
last-inv len u (x ∷ s') h =
    (x, s', refl, ground arith, ground arith, ground arith, ground arith, ground arith)

-- The first byte.
first-inv :
    (ch : ℕ) (s : List ℕ)
    → valid_from between (ch ∷ s) ≡ true
    → ((ch < 128) × (valid_from between s ≡ true))
      ⊎ ((192 ≤ ch) × (ch < 224) × (valid_from (inside 1 1 (ch % 32)) s ≡ true))
      ⊎ ((224 ≤ ch) × (ch < 240) × (valid_from (inside 2 2 (ch % 16)) s ≡ true))
      ⊎ ((240 ≤ ch) × (ch < 245) × (valid_from (inside 3 3 (ch % 8)) s ≡ true))
unfolding valid_from first_byte len_tab
first-inv ch s h = ground arith

-- The first character of a string that is valid.
abbrev First : List ℕ → Type 0
First s =
    (u : ℕ) × (rest : List ℕ) × (u ≤ 1114111)
    × (s ≡ u_set_char_raw u ++ rest)
    × (u_is_valid rest ≡ true)

First-two :
    (ch : ℕ) (s : List ℕ)
    → 192 ≤ ch
    → ch < 224
    → valid_from (inside 1 1 (ch % 32)) s ≡ true
    → First (ch ∷ s)
unfolding u_is_valid u_set_char_raw
First-two ch s low high h =
    let (x, rest, e, xl, xh, ul, uh, v) = last-inv 1 (ch % 32) s h in
    let u = ch % 32 * 64 + x % 64 in
    let bytes : (u / 64 + 192 ≡ ch) × (u % 64 + 128 ≡ x) = (omega arith, omega arith) in
    (u, rest, omega arith, ground (arith, e, bytes), v)

First-three :
    (ch : ℕ) (s : List ℕ)
    → 224 ≤ ch
    → ch < 240
    → valid_from (inside 2 2 (ch % 16)) s ≡ true
    → First (ch ∷ s)
unfolding u_is_valid u_set_char_raw
First-three ch s low high h =
    let (x, s', e, xl, xh, v) = more-inv 0 2 (ch % 16) s h in
    let (y, rest, e', yl, yh, ul, uh, v') = last-inv 2 (ch % 16 * 64 + x % 64) s' v in
    let u = (ch % 16 * 64 + x % 64) * 64 + y % 64 in
    let bytes : (u / 64 / 64 + 224 ≡ ch) × (u / 64 % 64 + 128 ≡ x) × (u % 64 + 128 ≡ y) =
      (omega arith, omega arith, omega arith) in
    (u, rest, omega arith, ground (arith, e, e', bytes), v')

First-four :
    (ch : ℕ) (s : List ℕ)
    → 240 ≤ ch
    → ch < 245
    → valid_from (inside 3 3 (ch % 8)) s ≡ true
    → First (ch ∷ s)
unfolding u_is_valid u_set_char_raw
First-four ch s low high h =
    let (x, s', e, xl, xh, v) = more-inv 1 3 (ch % 8) s h in
    let (y, s'', e', yl, yh, v') = more-inv 0 3 (ch % 8 * 64 + x % 64) s' v in
    let (z, rest, e'', zl, zh, ul, uh, v'') =
      last-inv 3 ((ch % 8 * 64 + x % 64) * 64 + y % 64) s'' v' in
    let u = ((ch % 8 * 64 + x % 64) * 64 + y % 64) * 64 + z % 64 in
    let bytes : (u / 64 / 64 / 64 + 240 ≡ ch)
        × (u / 64 / 64 % 64 + 128 ≡ x)
        × (u / 64 % 64 + 128 ≡ y)
        × (u % 64 + 128 ≡ z) =
      (omega arith, omega arith, omega arith, omega arith) in
    (u, rest, omega arith, ground (arith, e, e', e'', bytes), v'')

valid-First : (ch : ℕ) (s : List ℕ) → u_is_valid (ch ∷ s) ≡ true → First (ch ∷ s)
unfolding u_is_valid u_set_char_raw
valid-First ch s h = elim (first-inv ch s h) [
  | inl (low, v) ↦ (ch, s, omega arith, ground arith, v)
  | inr (inl (low, high, v)) ↦ First-two ch s low high v
  | inr (inr (inl (low, high, v))) ↦ First-three ch s low high v
  | inr (inr (inr (low, high, v))) ↦ First-four ch s low high v
]

-- A character has a byte at least.
pub length-set_char : (u : ℕ) → 0 < length (u_set_char_raw u)
unfolding u_set_char_raw
length-set_char u = ground arith

decode :
    (fuel : ℕ) (s : List ℕ)
    → length s ≤ fuel
    → u_is_valid s ≡ true
    → (us : List ℕ) × AllUnicode us × (s ≡ encode us)
unfolding encode
decode fuel [] enough h = ([], tt, refl)
decode zero (ch ∷ s) enough h = absurd (omega arith)
decode (suc fuel) (ch ∷ s) enough h =
    let (u, rest, small, e, v) = valid-First ch s h in
    let shorter : length rest ≤ fuel = omega (
      arith,
      ap (λ (l : List ℕ). length l) e,
      length-append (u_set_char_raw u) rest,
      length-set_char u,
      enough,
    ) in
    let (us, all, e') = decode fuel rest shorter v in
    (u ∷ us, (small, all), e ∙ ap (λ (l : List ℕ). u_set_char_raw u ++ l) e')

-- The strings that `u_is_valid` accepts are just those that `u_set_char_raw` writes, one character up to
-- 0x10ffff after another.
pub u_is_valid_iff :
    (s : List ℕ) → (u_is_valid s ≡ true) ↔ ((us : List ℕ) × AllUnicode us × (s ≡ encode us))
u_is_valid_iff s = (
  λ h. decode (length s) s (omega arith) h,
  λ t. let (us, all, e) = t in ap u_is_valid e ∙ valid-encode us all,
)
