-- ===== src/Uchar/Accept.antt =====
-- `u_is_valid` of app/uchar.c goes over a character that `u_set_char_raw` wrote.
use graceful_music.Common.{
  ℕ, suc, ◌+◌, ◌*◌, ◌/◌, ◌%◌, ◌≤◌, ◌<◌, ◌≡◌, refl, sym, ◌∙◌, false, some, List, ◌∷◌, ◌++◌, arith,
  ltb,
}
use graceful_music.Uchar.{
  len_tab, min_val, max_val, first_bits, Scan, between, inside, first_byte, in_range, next_byte,
  scan_byte, valid_from, u_set_char_raw,
}
use graceful_music.Uchar.Char.{tail_bits}

-- One byte of `u_is_valid`.
valid-step :
    (sc : Scan) (ch : ℕ) (s : List ℕ) {sc' : Scan}
    → scan_byte sc ch ≡ some sc'
    → valid_from sc (ch ∷ s) ≡ valid_from sc' s
unfolding valid_from
valid-step sc ch s e = ground arith

-- A byte behind the first that is not the last one.
next_byte-more :
    (c len u x : ℕ)
    → next_byte (suc (suc c)) len u (x % 64 + 128) ≡ some (inside (suc c) len (u * 64 + x % 64))
unfolding next_byte
next_byte-more c len u x = let (t, b) = tail_bits x in rw (t, b) refl

-- The last one, if the character is in the range of its length.
next_byte-last :
    (len u x v : ℕ)
    → v ≡ u * 64 + x % 64
    → min_val len ≤ v
    → v ≤ max_val len
    → next_byte 1 len u (x % 64 + 128) ≡ some between
unfolding next_byte in_range
next_byte-last len u x v e low high =
    let (t, b) = tail_bits x in
    let above : ltb v (min_val len) ≡ false = ground arith in
    let below : ltb (max_val len) v ≡ false = ground arith in rw (t, b, sym e, above, below) refl

first_byte-of :
    (ch len : ℕ)
    → len_tab ch ≡ some (suc (suc len))
    → first_byte ch ≡ some (inside (suc len) (suc len) (first_bits (suc len) ch))
unfolding first_byte
first_byte-of ch len e = ground arith

-- A character in front changes nothing.
module _ (u : ℕ) (s : List ℕ) where
  valid-one : u ≤ 127 → valid_from between (u ∷ s) ≡ valid_from between s
  unfolding first_byte len_tab
  valid-one h = valid-step between u s (ground arith)

  valid-two :
      127 < u
      → u ≤ 2047
      → valid_from between ((u / 64 + 192) ∷ (u % 64 + 128) ∷ s) ≡ valid_from between s
  unfolding len_tab
  valid-two low high =
      valid-step between (u / 64 + 192) _ (first_byte-of (u / 64 + 192) 0 (ground arith))
      ∙ valid-step _ (u % 64 + 128) s
          (next_byte-last 1 ((u / 64 + 192) % 32) u u (omega arith) (omega arith) high)

  valid-three :
      2047 < u
      → u ≤ 65535
      → valid_from between ((u / 64 / 64 + 224) ∷ (u / 64 % 64 + 128) ∷ (u % 64 + 128) ∷ s)
        ≡ valid_from between s
  unfolding len_tab
  valid-three low high =
      valid-step between (u / 64 / 64 + 224) _ (first_byte-of (u / 64 / 64 + 224) 1 (ground arith))
      ∙ valid-step _ (u / 64 % 64 + 128) _ (next_byte-more 0 2 ((u / 64 / 64 + 224) % 16) (u / 64))
      ∙ valid-step _ (u % 64 + 128) s (
          next_byte-last 2 ((u / 64 / 64 + 224) % 16 * 64 + u / 64 % 64) u u (omega arith)
            (omega arith) high)

  valid-four :
      65535 < u
      → u ≤ 1114111
      → valid_from between (
          (u / 64 / 64 / 64 + 240)
          ∷ (u / 64 / 64 % 64 + 128)
          ∷ (u / 64 % 64 + 128)
          ∷ (u % 64 + 128)
          ∷ s)
        ≡ valid_from between s
  unfolding len_tab
  valid-four low high =
      let lead = u / 64 / 64 / 64 + 240 in
      valid-step between lead _ (first_byte-of lead 2 (ground arith))
      ∙ valid-step _ (u / 64 / 64 % 64 + 128) _ (next_byte-more 1 3 (lead % 8) (u / 64 / 64))
      ∙ valid-step _ (u / 64 % 64 + 128) _
          (next_byte-more 0 3 (lead % 8 * 64 + u / 64 / 64 % 64) (u / 64))
      ∙ valid-step _ (u % 64 + 128) s (
          next_byte-last 3 ((lead % 8 * 64 + u / 64 / 64 % 64) * 64 + u / 64 % 64) u u (omega arith)
            (omega arith) high)

pub valid-set_char :
    (u : ℕ) (s : List ℕ)
    → u ≤ 1114111
    → valid_from between (u_set_char_raw u ++ s) ≡ valid_from between s
unfolding u_set_char_raw
valid-set_char u s h = ground (arith, valid-one u s, valid-two u s, valid-three u s, valid-four u s)
