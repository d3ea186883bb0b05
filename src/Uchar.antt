-- ===== src/Uchar.antt =====
-- UTF-8 strings: app/uchar.c and app/uchar.h. A string is the list of its bytes in front of the 0 that
-- ends it, so a byte behind the end of the list is 0. A pointer into a string is the rest of it. The
-- operators on bits are written as arithmetic: `& 63` is `% 64`, `>> 6` is `/ 64`, and `|` of numbers
-- with no bit in common is `+`.
pub mod Char
pub mod Accept
pub mod Valid
pub mod Print
mod Tests
use graceful_music.Common.{
  ℕ, zero, suc, ◌+◌, ◌-◌, ◌*◌, ◌/◌, ◌%◌, ◌^◌, ◌≤◌, ◌<◌, min, max, ◌≡◌, refl, sym, ap, ◌∙◌, subst,
  fun_ext, ◌≢◌, ◌↔◌, ◌⊎◌, inl, inr, Bool, true, false, ◌&&◌, ◌||◌, not, Option, none, some, List,
  [], ◌∷◌, ◌++◌, map, append-nil, append_assoc, arith, ltb, leb, ◌==◌, if◌then◌else◌, ltb→lt,
  lt→ltb, ltb→ge, leb→le, ==_iff, ==_refl, Bool-cases, Option-cases, length, get_elem?, get_or,
  take, drop, replicate, length-append, take-append-drop, length-take, length-drop,
  length-replicate, take-all, drop-drop, take-nil, drop-nil, beq_of_ne, ltb_of_ge, if_same,
  some_inj,
}

-- U_INVALID_MASK
abbrev pub u_invalid_mask : ℕ
u_invalid_mask = 268435456

-- `len_tab`, by its groups; `none` is -1.
unfoldable pub len_tab : ℕ → Option ℕ
len_tab ch =
    if ltb ch 128
    then some 1
    else if ltb ch 192
    then some 0
    else if ltb ch 224
    then some 2
    else if ltb ch 240
    then some 3
    else if ltb ch 245
    then some 4
    else none

-- `len_tab[ch] == 0`: the byte is 10xxxxxx.
unfoldable pub is_tail : ℕ → Bool
is_tail ch = elim (len_tab ch) [ none ↦ false | some len ↦ len == 0 ]

-- `utf8_skip_data`, by its groups
unfoldable pub utf8_skip : ℕ → ℕ
utf8_skip ch =
    if ltb ch 192
    then 1
    else if ltb ch 224
    then 2
    else if ltb ch 240
    then 3
    else if ltb ch 248
    then 4
    else if ltb ch 252
    then 5
    else if ltb ch 254
    then 6
    else 1

-- `min_val`, at the length of the sequence less 1
abbrev pub min_val : ℕ → ℕ
min_val zero = 0
min_val (suc zero) = 128
min_val (suc (suc zero)) = 2048
min_val _ = 65536

-- `max_val`
abbrev pub max_val : ℕ → ℕ
max_val zero = 127
max_val (suc zero) = 2047
max_val (suc (suc zero)) = 65535
max_val _ = 1114111

-- `ch & first_byte_mask[len]`
abbrev pub first_bits : ℕ → ℕ → ℕ
first_bits zero ch = ch % 128
first_bits (suc zero) ch = ch % 32
first_bits (suc (suc zero)) ch = ch % 16
first_bits _ ch = ch % 8

-- Where `u_is_valid` stands: at the start of a character, or in the loop for the bytes behind the first,
-- with `c`, `len` and `u`.
pub data Scan : Type 0 where
  between : Scan
  inside : (c len u : ℕ) → Scan

-- What `u_is_valid` does with the first byte of a character; `none` is the result 0.
unfoldable pub first_byte : ℕ → Option Scan
first_byte ch = elim (len_tab ch) [
  | none ↦ none
  | some zero ↦ none
  | some (suc zero) ↦ some between
  | some (suc (suc len)) ↦ some (inside (suc len) (suc len) (first_bits (suc len) ch))
]

-- The range test behind the last byte.
unfoldable pub in_range : (len u : ℕ) → Option Scan
in_range len u = if ltb u (min_val len) || ltb (max_val len) u then none else some between

-- The body of the loop over the bytes behind the first, in which `c` is at least 1.
unfoldable pub next_byte : (c len u ch : ℕ) → Option Scan
next_byte zero len u ch = none
next_byte (suc zero) len u ch = if is_tail ch then in_range len (u * 64 + ch % 64) else none
next_byte (suc (suc c)) len u ch =
    if is_tail ch then some (inside (suc c) len (u * 64 + ch % 64)) else none

abbrev pub scan_byte : Scan → ℕ → Option Scan
scan_byte between ch = first_byte ch
scan_byte (inside c len u) ch = next_byte c len u ch

-- The end of the string: it is reached at the start of a character, or it is no 10xxxxxx.
abbrev pub scan_end : Scan → Bool
scan_end between = true
scan_end (inside c len u) = false

-- The loops of `u_is_valid`, one byte at a time.
unfoldable pub valid_from : Scan → List ℕ → Bool
valid_from sc [] = scan_end sc
valid_from sc (ch ∷ s) = elim (scan_byte sc ch) [ none ↦ false | some sc' ↦ valid_from sc' s ]

-- `u_is_valid`
unfoldable pub u_is_valid : List ℕ → Bool
u_is_valid = valid_from between

-- The loop of `u_strlen`, with the bytes that `u_next_char` has yet to step over. `none` is a step over
-- the end of the string.
unfoldable pub strlen_from : ℕ → List ℕ → Option ℕ
strlen_from zero [] = some 0
strlen_from (suc k) [] = none
strlen_from zero (ch ∷ s) = elim (strlen_from (utf8_skip ch - 1) s) [
  | none ↦ none
  | some len ↦ some (suc len)
]
strlen_from (suc k) (ch ∷ s) = strlen_from k s

-- `u_strlen`
unfoldable pub u_strlen : List ℕ → Option ℕ
u_strlen = strlen_from 0

-- The loop of `u_get_char` over the bytes behind the first.
unfoldable pub more_bytes : ℕ → ℕ → List ℕ → Option ℕ
more_bytes zero u s = some u
more_bytes (suc k) u [] = none
more_bytes (suc k) u (ch ∷ s) =
    let rest = more_bytes k (u * 64 + ch % 64) s in if is_tail ch then rest else none

-- What `u_get_char` does with a byte from 128 on: the character and by how much `*idx` grows.
unfoldable pub get_sequence : ℕ → List ℕ → ℕ × ℕ
get_sequence ch s =
    let invalid : ℕ × ℕ = (ch + u_invalid_mask, 1) in
    elim (len_tab ch) [
      | none ↦ invalid
      | some zero ↦ invalid
      | some (suc len) ↦ elim (more_bytes len (first_bits len ch) s) [
        | none ↦ invalid
        | some u ↦ (u, suc len)
      ]
    ]

-- `u_get_char`
unfoldable pub u_get_char : List ℕ → ℕ × ℕ
u_get_char [] = (0, 1)
u_get_char (ch ∷ s) = if ltb ch 128 then (ch, 1) else get_sequence ch s

-- The bytes that `u_set_char_raw` writes at `*idx`, which it moves behind them.
unfoldable pub u_set_char_raw : ℕ → List ℕ
u_set_char_raw uch =
    if leb uch 127
    then uch ∷ []
    else if leb uch 2047
    then (uch / 64 + 192) ∷ (uch % 64 + 128) ∷ []
    else if leb uch 65535
    then (uch / 64 / 64 + 224) ∷ (uch / 64 % 64 + 128) ∷ (uch % 64 + 128) ∷ []
    else if leb uch 1114111
    then (uch / 64 / 64 / 64 + 240)
      ∷ (uch / 64 / 64 % 64 + 128)
      ∷ (uch / 64 % 64 + 128)
      ∷ (uch % 64 + 128)
      ∷ []
    else (uch % 256) ∷ []

-- `hex_tab`, whose characters are "0123456789abcdef"
abbrev pub hex_tab : ℕ → ℕ
hex_tab d = if ltb d 10 then 48 + d else 87 + d

-- The end of `u_set_char`, for control characters and invalid bytes: "<xx>", or a byte 0.
unfoldable pub set_invalid : ℕ → List ℕ
set_invalid uch =
    if uch == 0 then 0 ∷ [] else 60 ∷ hex_tab (uch / 16 % 16) ∷ hex_tab (uch % 16) ∷ 62 ∷ []

-- The bytes that `u_set_char` writes.
unfoldable pub u_set_char : ℕ → List ℕ
u_set_char uch =
    if leb uch 31
    then set_invalid uch
    else if leb uch 1114111
    then u_set_char_raw uch
    else set_invalid uch

-- `u_char_size`
unfoldable pub u_char_size : ℕ → ℕ
u_char_size uch =
    if leb uch 127
    then 1
    else if leb uch 2047
    then 2
    else if leb uch 65535
    then 3
    else if leb uch 1114111
    then 4
    else 1

-- `u_print_size`
unfoldable pub u_print_size : ℕ → ℕ
u_print_size uch = if ltb uch 31 && not (uch == 0) then 4 else u_char_size uch

-- The loop of `u_to_utf8`, with the bytes that it writes. Each round reads a byte or more, and the loop
-- ends at the 0 behind the string; `none` is that `fuel` rounds were too few.
unfoldable pub to_utf8_loop : (fuel : ℕ) → List ℕ → Option (List ℕ)
to_utf8_loop zero s = none
to_utf8_loop (suc fuel) s =
    let u = (u_get_char s).0 in
    let rest = to_utf8_loop fuel (drop (u_get_char s).1 s) in
    if u == 0
    then some (u_set_char u)
    else elim rest [ none ↦ none | some out ↦ some (u_set_char u ++ out) ]

-- `u_to_utf8`
unfoldable pub u_to_utf8 : List ℕ → Option (List ℕ)
u_to_utf8 s = to_utf8_loop (suc (length s)) s

-- The loop of `u_str_print_size`.
unfoldable pub print_size_loop : (fuel : ℕ) → List ℕ → Option ℕ
print_size_loop zero s = none
print_size_loop (suc fuel) s =
    let u = (u_get_char s).0 in
    let rest = print_size_loop fuel (drop (u_get_char s).1 s) in
    if u == 0
    then some (u_print_size u)
    else elim rest [ none ↦ none | some l ↦ some (u_print_size u + l) ]

-- `u_str_print_size`
unfoldable pub u_str_print_size : List ℕ → Option ℕ
u_str_print_size s = print_size_loop (suc (length s)) s
