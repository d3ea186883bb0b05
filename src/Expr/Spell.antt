-- ===== src/Expr/Spell.antt =====
-- Tokens that are written out, and the tokenizer of app/expr.c on them.
use graceful_music.Common.{
  ℕ, suc, ◌-◌, ◌≤◌, ◌≡◌, refl, ap, ◌∙◌, subst, Bool, true, false, ◌&&◌, ◌||◌, not, none, List, [],
  ◌∷◌, ◌++◌, append-nil, append_assoc, arith, ◌==◌, if◌then◌else◌, length, isspace, isdigit,
  isalpha, ok, Yields-ok, and_true,
}
use graceful_music.Expr.{
  Token, tok_not, tok_lt, tok_gt, tok_eq, tok_and, tok_or, tok_lparen, tok_rparen, tok_ne, tok_le,
  tok_ge, tok_key, tok_int_or_key, tok_str,
}
use graceful_music.Expr.Tokens.{
  special, is_special, combined, str_from, get_str, word_token, word_from, get_int_or_key, combine,
  get_token, tokenize_from, tokenize,
}
use graceful_music.Expr.Lex.{get_token-Yields}

-- The characters of words, of numbers behind their sign, and the texts between quotes.
abbrev is_word_char : ℕ → Bool
is_word_char c = isdigit c || isalpha c || c == b'_' || c == b'-'

abbrev pub all {ℓ} : {A : Type ℓ} → (A → Bool) → List A → Bool
all p [] = true
all p (x ∷ xs) = p x && all p xs

unfoldable pub digits_only : List ℕ → Bool
digits_only [] = true
digits_only (c ∷ s) = if c == b'-' then all isdigit s else all isdigit (c ∷ s)

abbrev closed : (escaped : Bool) → List ℕ → Bool
closed escaped [] = not escaped
closed true (c ∷ s) = closed false s
closed false (c ∷ s) = not (c == b'"') && closed (c == b'\\') s

-- The tokens that can be written.
unfoldable pub is_spellable : Token → Bool
is_spellable (tok_key w) = not (digits_only w) && all is_word_char w
is_spellable (tok_int_or_key w) = digits_only w && all is_word_char w && not (length w == 0)
is_spellable (tok_str t) = closed false t
is_spellable _ = true

-- A token written out, with a space behind it, in front of `rest`.
unfoldable pub spell : Token → List ℕ → List ℕ
spell tok_not rest = b'!' ∷ b' ' ∷ rest
spell tok_lt rest = b'<' ∷ b' ' ∷ rest
spell tok_gt rest = b'>' ∷ b' ' ∷ rest
spell tok_eq rest = b'=' ∷ b' ' ∷ rest
spell tok_and rest = b'&' ∷ b' ' ∷ rest
spell tok_or rest = b'|' ∷ b' ' ∷ rest
spell tok_lparen rest = b'(' ∷ b' ' ∷ rest
spell tok_rparen rest = b')' ∷ b' ' ∷ rest
spell tok_ne rest = b'!' ∷ b'=' ∷ b' ' ∷ rest
spell tok_le rest = b'<' ∷ b'=' ∷ b' ' ∷ rest
spell tok_ge rest = b'>' ∷ b'=' ∷ b' ' ∷ rest
spell (tok_key w) rest = w ++ b' ' ∷ rest
spell (tok_int_or_key w) rest = w ++ b' ' ∷ rest
spell (tok_str t) rest = b'"' ∷ (t ++ b'"' ∷ b' ' ∷ rest)

unfoldable pub spell_all : List Token → List ℕ
spell_all [] = []
spell_all (t ∷ ts) = spell t (spell_all ts)

is_word_char-plain :
    (c : ℕ)
    → is_word_char c ≡ true
    → (isspace c ≡ false) × (special c ≡ none) × ((c == b'"') ≡ false)
unfolding special
is_word_char-plain c h = ground arith

str_from-closed :
    (escaped : Bool) (t rest : List ℕ)
    → closed escaped t ≡ true
    → str_from escaped (t ++ b'"' ∷ rest) ≡ ok (t, rest)
unfolding str_from
str_from-closed true [] rest h = absurd (cc)
str_from-closed false [] rest h = refl
str_from-closed true (c ∷ t) rest h = rw (str_from-closed false t rest h)
str_from-closed false (c ∷ t) rest h = ground (arith, str_from-closed (c == b'\\') t rest)

and_assoc : (a b c : Bool) → ((a && b) && c) ≡ (a && (b && c))
and_assoc true b c = refl
and_assoc false b c = refl

not-true : {a : Bool} → not a ≡ true → a ≡ false
not-true {a} h = ground arith

word_from-step :
    (word : List ℕ) (d : Bool) (c : ℕ) (s : List ℕ)
    → is_word_char c ≡ true
    → word_from word d (c ∷ s) ≡ word_from (word ++ c ∷ []) (d && isdigit c) s
unfolding word_from
word_from-step word d c s h = let p = is_word_char-plain c h in rw (p.0, is_special, p.1, h)

word_from-word :
    (word : List ℕ) (d : Bool) (v rest : List ℕ)
    → all is_word_char v ≡ true
    → word_from word d (v ++ b' ' ∷ rest)
      ≡ ok (word_token (d && all isdigit v) (word ++ v), b' ' ∷ rest)
unfolding word_from
word_from-word word true [] rest h = rw (append-nil word)
word_from-word word false [] rest h = rw (append-nil word)
word_from-word word d (c ∷ v) rest h =
    let p = and_true (is_word_char c) (all is_word_char v) h in
    word_from-step word d c (v ++ b' ' ∷ rest) p.0
    ∙ word_from-word (word ++ c ∷ []) (d && isdigit c) v rest p.1
    ∙ rw (append_assoc word (c ∷ []) v, and_assoc d (isdigit c) (all isdigit v))

-- What is written begins with a character, behind which the token is read.
abbrev IsRead : Token → List ℕ → List ℕ → Type 0
IsRead t rest all =
    (c : ℕ) × (s : List ℕ) × (all ≡ c ∷ s)
    × (isspace c ≡ false)
    × (get_token c s ≡ ok (t, b' ' ∷ rest))

get_int_or_key-word :
    (c : ℕ) (w rest : List ℕ)
    → all is_word_char (c ∷ w) ≡ true
    → get_int_or_key (c ∷ (w ++ b' ' ∷ rest))
      ≡ ok (word_token (digits_only (c ∷ w)) (c ∷ w), b' ' ∷ rest)
unfolding get_int_or_key digits_only
get_int_or_key-word c w rest h = ground (
  arith,
  word_from-word (c ∷ []) true w rest (and_true (is_word_char c) (all is_word_char w) h).1,
  word_from-word [] true (c ∷ w) rest h,
)

word-IsRead :
    (c : ℕ) (w rest : List ℕ)
    → all is_word_char (c ∷ w) ≡ true
    → IsRead (word_token (digits_only (c ∷ w)) (c ∷ w)) rest (c ∷ (w ++ b' ' ∷ rest))
unfolding get_token digits_only
word-IsRead c w rest h =
    let p = is_word_char-plain c (and_true (is_word_char c) (all is_word_char w) h).0 in
    (c, w ++ b' ' ∷ rest, refl, p.0, rw (get_token, p.1, p.2) (get_int_or_key-word c w rest h))

spell-IsRead : (t : Token) (rest : List ℕ) → is_spellable t ≡ true → IsRead t rest (spell t rest)
unfolding spell is_spellable get_token special combine combined get_str
spell-IsRead tok_not rest h = (_, _, refl, refl, refl)
spell-IsRead tok_lt rest h = (_, _, refl, refl, refl)
spell-IsRead tok_gt rest h = (_, _, refl, refl, refl)
spell-IsRead tok_eq rest h = (_, _, refl, refl, refl)
spell-IsRead tok_and rest h = (_, _, refl, refl, refl)
spell-IsRead tok_or rest h = (_, _, refl, refl, refl)
spell-IsRead tok_lparen rest h = (_, _, refl, refl, refl)
spell-IsRead tok_rparen rest h = (_, _, refl, refl, refl)
spell-IsRead tok_ne rest h = (_, _, refl, refl, refl)
spell-IsRead tok_le rest h = (_, _, refl, refl, refl)
spell-IsRead tok_ge rest h = (_, _, refl, refl, refl)
spell-IsRead (tok_str t) rest h = (_, _, refl, refl, rw (str_from-closed false t (b' ' ∷ rest) h))
spell-IsRead (tok_key []) rest h = absurd (unfold digits_only in cc)
spell-IsRead (tok_key (c ∷ w)) rest h =
    let p = and_true (not (digits_only (c ∷ w))) (all is_word_char (c ∷ w)) h in
    let d : digits_only (c ∷ w) ≡ false = not-true p.0 in
    subst (λ b. IsRead (word_token b (c ∷ w)) rest (c ∷ (w ++ b' ' ∷ rest))) d
      (word-IsRead c w rest p.1)
spell-IsRead (tok_int_or_key []) rest h = absurd (unfold digits_only in cc)
spell-IsRead (tok_int_or_key (c ∷ w)) rest h =
    let p =
      and_true (digits_only (c ∷ w) && all is_word_char (c ∷ w)) (not (length (c ∷ w) == 0)) h in
    let q = and_true (digits_only (c ∷ w)) (all is_word_char (c ∷ w)) p.0 in
    subst (λ b. IsRead (word_token b (c ∷ w)) rest (c ∷ (w ++ b' ' ∷ rest))) q.0
      (word-IsRead c w rest q.1)

tokenize_from-token :
    (fuel c : ℕ) (s : List ℕ) (t : Token) (rest : List ℕ) (ts : List Token)
    → isspace c ≡ false
    → get_token c s ≡ ok (t, b' ' ∷ rest)
    → tokenize_from fuel rest ≡ ok ts
    → tokenize_from (suc (suc fuel)) (c ∷ s) ≡ ok (t ∷ ts)
unfolding tokenize_from
tokenize_from-token fuel c s t rest ts b e h = rw (b, e, h)

tokenize_from-spell :
    (fuel : ℕ) (ts : List Token)
    → all is_spellable ts ≡ true
    → length (spell_all ts) ≤ fuel
    → tokenize_from fuel (spell_all ts) ≡ ok ts
unfolding spell_all tokenize_from
tokenize_from-spell fuel [] h l = refl
tokenize_from-spell fuel (t ∷ ts) h l =
    let p = and_true (is_spellable t) (all is_spellable ts) h in
    let (c, s, e, b, r) = spell-IsRead t (spell_all ts) p.0 in
    let k = Yields-ok (get_token-Yields c s b) r in
    let more =
      tokenize_from-token (fuel - 2) c s t (spell_all ts) ts b r
        (tokenize_from-spell (fuel - 2) ts p.1 (omega (arith, ap length e))) in
    let f : suc (suc (fuel - 2)) ≡ fuel = omega (arith, ap length e) in
    rw e (subst (λ n. tokenize_from n (c ∷ s) ≡ ok (t ∷ ts)) f more)

-- Tokens that can be written are read back: words of letters, digits, _ and -, of which those that are
-- numbers are numbers, and texts without a bare quote.
pub tokenize-spell_all :
    (ts : List Token) → all is_spellable ts ≡ true → tokenize (spell_all ts) ≡ ok ts
unfolding tokenize
tokenize-spell_all ts h = tokenize_from-spell (length (spell_all ts)) ts h (omega arith)
