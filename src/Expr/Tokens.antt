-- ===== src/Expr/Tokens.antt =====
-- The tokens of a filter expression: `get_str`, `get_int_or_key`, `get_token` and `tokenize` of
-- app/expr.c. The string from the index on is a list; the index behind a token is the rest of it.
use graceful_music.Common.{
  ℕ, zero, suc, Bool, true, false, ◌&&◌, ◌||◌, Option, none, some, List, [], ◌∷◌, ◌++◌, ◌==◌,
  if◌then◌else◌, length, isspace, isdigit, isalpha, Result, ok, failed, out_of_fuel, bind,
}
use graceful_music.Common.{isspace, isdigit, isalpha, Result, ok, failed, out_of_fuel, bind}
use graceful_music.Expr.{
  Token, tok_not, tok_lt, tok_gt, tok_eq, tok_and, tok_or, tok_lparen, tok_rparen, tok_ne, tok_le,
  tok_ge, tok_key, tok_int_or_key, tok_str, Error, end_in_string, unexpected,
}
use graceful_music.Expr.{
  Token, tok_not, tok_lt, tok_gt, tok_eq, tok_and, tok_or, tok_lparen, tok_rparen, tok_ne, tok_le,
  tok_ge, tok_key, tok_int_or_key, tok_str, Error, end_in_string, unexpected,
}

-- `specials`, with the type of the token for each
unfoldable pub special : ℕ → Option Token
special c =
    if c == b'!'
    then some tok_not
    else if c == b'<'
    then some tok_lt
    else if c == b'>'
    then some tok_gt
    else if c == b'='
    then some tok_eq
    else if c == b'&'
    then some tok_and
    else if c == b'|'
    then some tok_or
    else if c == b'('
    then some tok_lparen
    else if c == b')'
    then some tok_rparen
    else none

-- The loop over `specials` that only looks
abbrev pub is_special : ℕ → Bool
is_special c = elim (special c) [ none ↦ false | some t ↦ true ]

-- COMB_BASE + i, for i < NR_COMBINATIONS
unfoldable pub combined : Token → Option Token
combined tok_not = some tok_ne
combined tok_lt = some tok_le
combined tok_gt = some tok_ge
combined _ = none

abbrev pub push {ℓ} : {B : Type ℓ} → ℕ → Result Error (List ℕ × B) → Result Error (List ℕ × B)
push c r = bind r λ p. ok (c ∷ p.0, p.1)

-- The loop of `get_str`, with whether the character is behind a backslash: the text up to the quote,
-- backslashes included, and what follows it.
unfoldable pub str_from : (escaped : Bool) → List ℕ → Result Error (List ℕ × List ℕ)
str_from escaped [] = failed end_in_string
str_from true (c ∷ s) = push c (str_from false s)
str_from false (c ∷ s) =
    let rest = str_from (c == b'\\') s in if c == b'"' then ok ([], s) else push c rest

-- `get_str`, from behind the quote
unfoldable pub get_str : List ℕ → Result Error (Token × List ℕ)
get_str s = bind (str_from false s) λ p. ok (tok_str p.0, p.1)

abbrev pub word_token : (digits_only : Bool) → List ℕ → Token
word_token true word = tok_int_or_key word
word_token false word = tok_key word

-- The loop of `get_int_or_key`, with the characters so far
unfoldable pub word_from :
    (word : List ℕ) (digits_only : Bool) → List ℕ → Result Error (Token × List ℕ)
word_from word digits_only [] = ok (word_token digits_only word, [])
word_from word digits_only (c ∷ s) =
    let rest = word_from (word ++ c ∷ []) (digits_only && isdigit c) s in
    if isspace c || is_special c
    then ok (word_token digits_only word, c ∷ s)
    else if isdigit c || isalpha c || c == b'_' || c == b'-'
    then rest
    else failed (unexpected c)

-- `get_int_or_key`
unfoldable pub get_int_or_key : List ℕ → Result Error (Token × List ℕ)
get_int_or_key [] = word_from [] true []
get_int_or_key (c ∷ s) = if c == b'-' then word_from (c ∷ []) true s else word_from [] true (c ∷ s)

-- A special token, with the = behind it if the two make one
unfoldable pub combine : Token → List ℕ → Token × List ℕ
combine t [] = (t, [])
combine t (c ∷ s) =
    if c == b'=' then elim (combined t) [ none ↦ (t, c ∷ s) | some u ↦ (u, s) ] else (t, c ∷ s)

-- `get_token`
unfoldable pub get_token : ℕ → List ℕ → Result Error (Token × List ℕ)
get_token c s = elim (special c) [
  | some t ↦ ok (combine t s)
  | none ↦ if c == b'"' then get_str s else get_int_or_key (c ∷ s)
]

-- `tokenize`. A round takes a character or more.
unfoldable pub tokenize_from : (fuel : ℕ) → List ℕ → Result Error (List Token)
tokenize_from fuel [] = ok []
tokenize_from zero (c ∷ s) = out_of_fuel
tokenize_from (suc fuel) (c ∷ s) =
    let blank = tokenize_from fuel s in
    let next = bind (get_token c s) λ p. bind (tokenize_from fuel p.1) λ ts. ok (p.0 ∷ ts) in
    if isspace c then blank else next

unfoldable pub tokenize : List ℕ → Result Error (List Token)
tokenize s = tokenize_from (length s) s
