-- ===== src/Expr/Parse.antt =====
-- The parser of filter expressions: `parse_one`, `add` and `parse` of app/expr.c. The tokens from the
-- item on are a list; `head` is its end.
use graceful_music.Common.{
  ℕ, zero, suc, ◌*◌, Bool, true, false, none, some, List, [], ◌∷◌, ltb, ◌==◌, if◌then◌else◌, length,
  ℤ, to_int32, strtol, Result, ok, failed, bug, out_of_fuel, bind,
}
use graceful_music.Glob.{glob_compile}
use graceful_music.Expr.{
  Op, Token, tok_not, tok_and, tok_or, tok_lparen, tok_rparen, tok_key, tok_int_or_key, tok_str,
  Expr, null, expr_and, expr_or, expr_not, expr_str, expr_int, expr_id, expr_bool, is_null, Error,
  expression_expected, right_side_expected, integer_or_string_expected, integer_expected,
  key_expected, rparen_expected, unexpected_rparen, operator_expected, invalid_string_operator,
  tok_to_op, is_eq_or_ne,
}

-- tmp->type <= EXPR_OR, for the last node that the loop over `right` reaches
unfoldable pub is_incomplete : Expr → Bool
is_incomplete (expr_and left null) = true
is_incomplete (expr_and left right) = is_incomplete right
is_incomplete (expr_or left null) = true
is_incomplete (expr_or left right) = is_incomplete right
is_incomplete _ = false

-- tmp->right = expr, for that node
unfoldable pub set_right : (expr root : Expr) → Expr
set_right expr (expr_and left null) = expr_and left expr
set_right expr (expr_and left right) = expr_and left (set_right expr right)
set_right expr (expr_or left null) = expr_or left expr
set_right expr (expr_or left right) = expr_or left (set_right expr right)
set_right expr root = root

-- expr->left = root, behind BUG_ON(expr->type > EXPR_OR)
unfoldable pub set_left : (root expr : Expr) → Result Error Expr
set_left root (expr_and left right) = ok (expr_and root right)
set_left root (expr_or left right) = ok (expr_or root right)
set_left root _ = bug

-- `add`, with the root that it leaves
unfoldable pub add : (root expr : Expr) → Result Error Expr
add root expr =
    if is_null root
    then ok expr
    else if is_incomplete root
    then ok (set_right expr root)
    else set_left root expr

-- The value of an integer in an expression: what `strtol` makes of it, kept in an `int`. What
-- `str_to_int` returns is not looked at.
unfoldable pub int_value : List ℕ → ℤ
int_value str = to_int32 (strtol str).0

-- `parse_one` behind the key and its operator, with the rest of the tokens
unfoldable pub right_side : (key : List ℕ) (op : Op) → List Token → Result Error (Expr × List Token)
right_side key op [] = failed right_side_expected
right_side key op (tok_str str ∷ ts) =
    if is_eq_or_ne op
    then ok (expr_str key (glob_compile str) op, ts)
    else failed (invalid_string_operator op)
right_side key op (tok_int_or_key str ∷ ts) = ok (expr_int key (int_value str) op, ts)
right_side key op (tok_key str ∷ ts) = ok (expr_id key str op, ts)
right_side key op (_ ∷ ts) =
    if is_eq_or_ne op then failed integer_or_string_expected else failed integer_expected

-- `parse_one` behind the key
unfoldable pub behind_key : (key : List ℕ) → List Token → Result Error (Expr × List Token)
behind_key key [] = ok (expr_bool key, [])
behind_key key (t ∷ ts) = elim (tok_to_op t) [
  | none ↦ ok (expr_bool key, t ∷ ts)
  | some op ↦ right_side key op ts
]

abbrev pub Again : Type 0
Again = (root : Expr) → List Token → Result Error (Expr × List Token)

-- A round of the loop of `parse` from the operand on; `again` is the next round.
unfoldable pub after_operand : (again : Again) (level : ℕ) → Again
after_operand again level root [] = if ltb 0 level then failed rparen_expected else ok (root, [])
after_operand again level root (tok_rparen ∷ ts) =
    if level == 0 then failed unexpected_rparen else ok (root, ts)
after_operand again level root (tok_and ∷ ts) =
    bind (add root (expr_and null null)) λ tree. again tree ts
after_operand again level root (tok_or ∷ ts) =
    bind (add root (expr_or null null)) λ tree. again tree ts
after_operand again level root (_ ∷ ts) = failed operator_expected

-- The depth of the calls and rounds is bounded by the number of tokens.
unfoldable mutual
  -- `parse_one`
  pub parse_one : (fuel : ℕ) → List Token → Result Error (Expr × List Token)
  parse_one fuel [] = failed expression_expected
  parse_one zero (t ∷ ts) = out_of_fuel
  parse_one (suc fuel) (tok_not ∷ ts) = bind (parse_one fuel ts) λ p. ok (expr_not p.0, p.1)
  parse_one (suc fuel) (tok_lparen ∷ ts) = parse fuel 1 null ts
  parse_one (suc fuel) (tok_key key ∷ ts) = behind_key key ts
  parse_one (suc fuel) (tok_int_or_key key ∷ ts) = behind_key key ts
  parse_one (suc fuel) (_ ∷ ts) = failed key_expected

  -- `parse`, with the tree so far
  pub parse : (fuel level : ℕ) → Again
  parse zero level root ts = out_of_fuel
  parse (suc fuel) level root ts =
      bind (parse_one fuel ts)
        λ p. bind (add root p.0) λ tree. after_operand (parse fuel level) level tree p.1

-- The call of `parse` by `expr_parse_i`; the rest of the tokens is not looked at.
unfoldable pub parse_tokens : List Token → Result Error Expr
parse_tokens ts = bind (parse (suc (2 * length ts)) 0 null ts) λ p. ok p.0
