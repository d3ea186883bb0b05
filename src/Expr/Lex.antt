-- ===== src/Expr/Lex.antt =====
-- The tokenizer of app/expr.c: each token takes a character or more, and tokens that are written out
-- are read back.
use graceful_music.Common.{
  ℕ, zero, suc, ◌≤◌, ◌≡◌, refl, inl, inr, Bool, true, false, ◌&&◌, ◌||◌, List, [], ◌∷◌, ◌++◌, arith,
  ◌==◌, Option-cases, length, isspace, isdigit, isalpha, Yields, yields, fails, Yields-if,
  Yields-bind, Yields-map,
}
use graceful_music.Expr.{Token}
use graceful_music.Expr.Tokens.{
  special, is_special, str_from, get_str, word_from, get_int_or_key, combine, get_token,
  tokenize_from, tokenize,
}

-- What is left is no longer than a string.
abbrev pub Leaves {ℓ} : {B : Type ℓ} → List ℕ → B × List ℕ → Type 0
Leaves s r = length r.1 ≤ length s

str_from-Yields : (escaped : Bool) (s : List ℕ) → Yields (Leaves s) (str_from escaped s)
unfolding str_from
str_from-Yields escaped [] = fails
str_from-Yields true (c ∷ s) = Yields-bind (str_from-Yields false s) λ r h. yields (omega arith)
str_from-Yields false (c ∷ s) =
    Yields-if (c == b'"') (λ _. yields (omega arith))
      λ _. Yields-bind (str_from-Yields (c == b'\\') s) λ r h. yields (omega arith)

word_from-Yields : (word : List ℕ) (d : Bool) (s : List ℕ) → Yields (Leaves s) (word_from word d s)
unfolding word_from
word_from-Yields word d [] = yields (omega arith)
word_from-Yields word d (c ∷ s) =
    Yields-if (isspace c || is_special c) (λ _. yields (omega arith))
      λ _.
        Yields-if (isdigit c || isalpha c || c == b'_' || c == b'-')
          (λ _.
            Yields-map (λ r h. omega arith) (word_from-Yields (word ++ c ∷ []) (d && isdigit c) s))
          λ _. fails

combine-le : (t : Token) (s : List ℕ) → Leaves s (combine t s)
unfolding combine
combine-le t [] = omega arith
combine-le t (c ∷ s) = ground arith

-- The first character of a word goes to the word.
word_from-first :
    (c : ℕ) (s : List ℕ)
    → isspace c ≡ false
    → is_special c ≡ false
    → Yields (Leaves s) (word_from [] true (c ∷ s))
unfolding word_from
word_from-first c s h k =
    rw (h, k)
      (Yields-if (isdigit c || isalpha c || c == b'_' || c == b'-')
        (λ _. word_from-Yields (c ∷ []) (isdigit c) s) λ _. fails)

pub get_token-Yields : (c : ℕ) (s : List ℕ) → isspace c ≡ false → Yields (Leaves s) (get_token c s)
unfolding get_token get_str get_int_or_key
get_token-Yields c s h = elim (Option-cases (special c)) [
  | inr (t, e) ↦ rw (get_token, e) (yields (combine-le t s))
  | inl e ↦
      rw (get_token, e)
        (Yields-if (c == b'"') (λ _. Yields-bind (str_from-Yields false s) λ r l. yields l)
          λ _.
            Yields-if (c == b'-') (λ _. word_from-Yields (c ∷ []) true s)
              λ _. word_from-first c s h (rw (is_special, e) refl))
]

tokenize_from-Yields :
    (fuel : ℕ) (s : List ℕ)
    → length s ≤ fuel
    → Yields (λ ts. length ts ≤ length s) (tokenize_from fuel s)
unfolding tokenize_from
tokenize_from-Yields fuel [] h = yields (omega arith)
tokenize_from-Yields zero (c ∷ s) h = absurd (omega arith)
tokenize_from-Yields (suc fuel) (c ∷ s) h =
    Yields-if (isspace c)
      (λ _. Yields-map (λ ts l. omega arith) (tokenize_from-Yields fuel s (omega arith)))
      λ e. Yields-bind (get_token-Yields c s e) λ r l.
        Yields-bind (tokenize_from-Yields fuel r.1 (omega arith)) λ ts k. yields (omega arith)

-- The loop of `tokenize` ends on every string, and gives no more tokens than there are characters.
pub tokenize_total : (s : List ℕ) → Yields (λ ts. length ts ≤ length s) (tokenize s)
unfolding tokenize
tokenize_total s = tokenize_from-Yields (length s) s (omega arith)
