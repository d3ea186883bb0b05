-- ===== src/Common/Chars.antt =====
-- Characters and strings of C as bytes: the tests of <ctype.h> in a UTF-8 locale, `strcmp` and `strtol`.
use Prim.Native.Nat.{ℕ, ◌+◌, ◌-◌, ◌*◌, ◌^◌}
use Prim.Native.Char.{code}
use Prim.Native.String.{String}
use mathlib.Core.Path.{◌≡◌, refl}
use mathlib.Core.Logic.{◌⊎◌, inl, inr}
use mathlib.Core.Bool.{Bool, true, false, ◌&&◌, ◌||◌}
use mathlib.Core.List.{List, [], ◌∷◌}
use native.Mathlib.Omega.{arith}
use graceful_music.Common.Tests.{leb, ltb, ◌==◌, if◌then◌else◌}
use graceful_music.Common.Ints.{ℤ, pos, negsuc, ◌==ℤ◌}

-- The bytes of an ASCII text.
abbrev pub codes : String → List ℕ
codes String.[] = []
codes (String.◌∷◌ c s) = code c ∷ codes s

abbrev pub isspace : ℕ → Bool
isspace c = c == 32 || (leb 9 c && leb c 13)

abbrev pub isdigit : ℕ → Bool
isdigit c = leb b'0' c && leb c b'9'

abbrev pub isalpha : ℕ → Bool
isalpha c = (leb b'A' c && leb c b'Z') || (leb b'a' c && leb c b'z')

-- `strcmp`, by the sign of what it returns.
unfoldable pub strcmp : List ℕ → List ℕ → ℤ
strcmp [] [] = pos 0
strcmp [] (d ∷ b) = negsuc 0
strcmp (c ∷ a) [] = pos 1
strcmp (c ∷ a) (d ∷ b) =
    let rest = strcmp a b in if ltb c d then negsuc 0 else if ltb d c then pos 1 else rest

pub strcmp_refl : (a : List ℕ) → strcmp a a ≡ pos 0
unfolding strcmp
strcmp_refl [] = refl
strcmp_refl (c ∷ a) = ground (arith, strcmp_refl a)

pub strcmp_eq : (a b : List ℕ) → strcmp a b ≡ pos 0 → a ≡ b
unfolding strcmp
strcmp_eq [] [] h = refl
strcmp_eq [] (d ∷ b) h = cc
strcmp_eq (c ∷ a) [] h = ground arith
strcmp_eq (c ∷ a) (d ∷ b) h = ground (arith, strcmp_eq a b)

-- The digits at the front of a string, as a number behind `n`, and what follows them.
unfoldable pub digits_from : ℕ → List ℕ → ℕ × List ℕ
digits_from n [] = (n, [])
digits_from n (c ∷ s) =
    let rest = digits_from (n * 10 + (c - b'0')) s in if isdigit c then rest else (n, c ∷ s)

-- A `long` that is clamped to its range, as `strtol` clamps.
unfoldable pub clamp_long : Bool → ℕ → ℤ
clamp_long true n =
    if n == 0 then pos 0 else if leb n (2 ^ 63) then negsuc (n - 1) else negsuc (2 ^ 63 - 1)
clamp_long false n = if ltb n (2 ^ 63) then pos n else pos (2 ^ 63 - 1)

unfoldable pub skip_spaces : List ℕ → List ℕ
skip_spaces [] = []
skip_spaces (c ∷ s) = let rest = skip_spaces s in if isspace c then rest else c ∷ s

-- Whether a string begins with a digit.
unfoldable pub starts_digit : List ℕ → Bool
starts_digit [] = false
starts_digit (c ∷ s) = isdigit c

-- `strtol(str, &end, 10)` behind the white space: the value, and the string at `end`, which is `whole` when
-- there is no number.
unfoldable pub strtol_from : (whole s : List ℕ) → ℤ × List ℕ
strtol_from whole [] = (pos 0, whole)
strtol_from whole (c ∷ s) =
    let minus = c == b'-' in
    let sign = minus || (c == b'+') in
    let digits = if sign then s else c ∷ s in
    let r = digits_from 0 digits in
    if starts_digit digits then (clamp_long minus r.0, r.1) else (pos 0, whole)

-- `strtol(str, &end, 10)`
unfoldable pub strtol : List ℕ → ℤ × List ℕ
strtol s = strtol_from s (skip_spaces s)

-- `strcmp(a, b) == 0`
abbrev pub is_str : List ℕ → List ℕ → Bool
is_str a b = strcmp a b ==ℤ pos 0

pub strcmp_cases :
    (a b : List ℕ) → (strcmp a b ≡ negsuc 0) ⊎ (strcmp a b ≡ pos 0) ⊎ (strcmp a b ≡ pos 1)
unfolding strcmp
strcmp_cases [] [] = inr (inl refl)
strcmp_cases [] (d ∷ b) = inl refl
strcmp_cases (c ∷ a) [] = inr (inr refl)
strcmp_cases (c ∷ a) (d ∷ b) = ground (arith, strcmp_cases a b)

pub strcmp_gt : (a b : List ℕ) → strcmp a b ≡ pos 1 → strcmp b a ≡ negsuc 0
unfolding strcmp
strcmp_gt [] [] h = cc
strcmp_gt [] (d ∷ b) h = cc
strcmp_gt (c ∷ a) [] h = refl
strcmp_gt (c ∷ a) (d ∷ b) h = ground (arith, strcmp_gt a b)
