-- ===== src/Glob/Reference.antt =====
-- What a pattern of app/glob.c is to match, as a test that tries all ways, for strings of ASCII
-- characters.
use graceful_music.Common.{
  ℕ, ◌<◌, Bool, true, false, ◌&&◌, ◌||◌, List, [], ◌∷◌, ◌==◌, if◌then◌else◌, length, drop,
}
use graceful_music.Glob.{GlobItem, glob_star, glob_qmark, glob_text}

-- Bytes from 1 to 127.
abbrev pub AllAscii : List ℕ → Type 0
AllAscii [] = Unit
AllAscii (c ∷ s) = (0 < c) × (c < 128) × AllAscii s

-- The texts of a pattern are not empty and of such bytes.
abbrev pub AsciiItems : List GlobItem → Type 0
AsciiItems [] = Unit
AsciiItems (glob_text t ∷ items) = (0 < length t) × AllAscii t × AsciiItems items
AsciiItems (_ ∷ items) = AsciiItems items

-- A test of the string or of one of its ends.
unfoldable pub any_suffix : (List ℕ → Bool) → List ℕ → Bool
any_suffix f [] = f []
any_suffix f (c ∷ s) = f (c ∷ s) || any_suffix f s

-- The string without its first character passes.
unfoldable pub behind_one : (List ℕ → Bool) → List ℕ → Bool
behind_one f [] = false
behind_one f (c ∷ s) = f s

-- `fold` makes the characters alike that count as the same.
module _ (fold : ℕ → ℕ) where
  -- The string begins with the text.
  unfoldable pub begins : List ℕ → List ℕ → Bool
  begins [] s = true
  begins (c ∷ t) [] = false
  begins (c ∷ t) (d ∷ s) = if fold c == fold d then begins t s else false

  -- The string begins with the text, and the rest passes.
  unfoldable pub behind_text : List ℕ → (List ℕ → Bool) → List ℕ → Bool
  behind_text t f s = begins t s && f (drop (length t) s)

  unfoldable pub matches : List GlobItem → List ℕ → Bool
  matches [] s = length s == 0
  matches (glob_star ∷ items) s = any_suffix (matches items) s
  matches (glob_qmark ∷ items) s = behind_one (matches items) s
  matches (glob_text t ∷ items) s = behind_text t (matches items) s
