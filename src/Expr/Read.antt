-- ===== src/Expr/Read.antt =====
-- From a string to a tree: `expr_parse_i` and `expr_parse` of app/expr.c.
use graceful_music.Common.{
  ℕ, Bool, true, false, ◌&&◌, List, [], ◌∷◌, ltb, if◌then◌else◌, Result, failed, bind,
}
use graceful_music.Uchar.{u_is_valid}
use graceful_music.Expr.{Expr, Error, control_characters, invalid_utf8}
use graceful_music.Expr.Tokens.{tokenize}
use graceful_music.Expr.Parse.{parse_tokens}
use graceful_music.Expr.Short.{expr_is_short, expand_short_expr}

-- The loop that looks for control characters
unfoldable pub has_control : List ℕ → Bool
has_control [] = false
has_control (c ∷ str) = let rest = has_control str in if ltb c 32 then true else rest

-- `expr_parse_i` behind the expansion
unfoldable pub parse_long : List ℕ → Result Error Expr
parse_long str = bind (tokenize str) parse_tokens

-- `expr_parse_i` behind the conversion
unfoldable pub parse_utf8 : (check_short : Bool) → List ℕ → Result Error Expr
parse_utf8 check_short str =
    let short = bind (expand_short_expr str) parse_long in
    if u_is_valid str
    then (if check_short && expr_is_short str then short else parse_long str)
    else failed invalid_utf8

-- `to_utf8` stands for the conversion from the character set of the terminal by `utf8_encode`: it gives the
-- string as it is where that is UTF-8, or where the conversion fails.
module _ (to_utf8 : List ℕ → List ℕ) where
  -- `expr_parse_i`, with what it leaves in `error_buf`
  unfoldable pub expr_parse_i : (check_short : Bool) → List ℕ → Result Error Expr
  expr_parse_i check_short str =
      if has_control str then failed control_characters else parse_utf8 check_short (to_utf8 str)

  -- `expr_parse`
  unfoldable pub expr_parse : List ℕ → Result Error Expr
  expr_parse str = expr_parse_i true str
