-- ===== src/Expr/Grammar.antt =====
-- The language of filter expressions, described apart from the parser of app/expr.c: operands joined by
-- & and | from left to right, neither of which binds closer, and the tree of each.
use graceful_music.Common.{ℕ, ◌<◌, ◌≡◌, refl, Bool, true, false, List, ◌∷◌, arith, length}
use graceful_music.Glob.{glob_compile}
use graceful_music.Expr.{
  Op, op_lt, op_le, op_eq, op_ge, op_gt, op_ne, Token, tok_not, tok_lt, tok_gt, tok_eq, tok_and,
  tok_or, tok_lparen, tok_rparen, tok_ne, tok_le, tok_ge, tok_key, tok_int_or_key, tok_str, Expr,
  null, expr_and, expr_or, expr_not, expr_str, expr_int, expr_id, expr_bool,
}
use graceful_music.Expr.Parse.{int_value}

pub data Conn : Type 0 where
  both either : Conn

-- A key is a word, which may be a number.
pub data Key : Type 0 where
  name number_name : List ℕ → Key

mutual
  pub data Sum : Type 0 where
    one : Operand → Sum
    join : Sum → Conn → Operand → Sum

  pub data Operand : Type 0 where
    negated : Operand → Operand
    group : Sum → Operand
    flag : Key → Operand
    text : Key → (equal : Bool) → List ℕ → Operand
    number other : Key → Op → List ℕ → Operand

abbrev pub conn_token : Conn → Token
conn_token both = tok_and
conn_token either = tok_or

abbrev pub conn_tree : Conn → Expr → Expr → Expr
conn_tree both l r = expr_and l r
conn_tree either l r = expr_or l r

abbrev pub key_token : Key → Token
key_token (name k) = tok_key k
key_token (number_name k) = tok_int_or_key k

abbrev pub key_text : Key → List ℕ
key_text (name k) = k
key_text (number_name k) = k

abbrev pub op_token : Op → Token
op_token op_lt = tok_lt
op_token op_le = tok_le
op_token op_eq = tok_eq
op_token op_ge = tok_ge
op_token op_gt = tok_gt
op_token op_ne = tok_ne

abbrev pub text_op : Bool → Op
text_op true = op_eq
text_op false = op_ne

-- The tokens in front of `rest`.
unfoldable mutual
  pub emit_sum : Sum → List Token → List Token
  emit_sum (one o) rest = emit_operand o rest
  emit_sum (join s c o) rest = emit_sum s (conn_token c ∷ emit_operand o rest)

  pub emit_operand : Operand → List Token → List Token
  emit_operand (negated o) rest = tok_not ∷ emit_operand o rest
  emit_operand (group s) rest = tok_lparen ∷ emit_sum s (tok_rparen ∷ rest)
  emit_operand (flag k) rest = key_token k ∷ rest
  emit_operand (text k e str) rest = key_token k ∷ op_token (text_op e) ∷ tok_str str ∷ rest
  emit_operand (number k op str) rest = key_token k ∷ op_token op ∷ tok_int_or_key str ∷ rest
  emit_operand (other k op str) rest = key_token k ∷ op_token op ∷ tok_key str ∷ rest

-- The tree.
unfoldable mutual
  pub build_sum : Sum → Expr
  build_sum (one o) = build_operand o
  build_sum (join s c o) = conn_tree c (build_sum s) (build_operand o)

  pub build_operand : Operand → Expr
  build_operand (negated o) = expr_not (build_operand o)
  build_operand (group s) = build_sum s
  build_operand (flag k) = expr_bool (key_text k)
  build_operand (text k e str) = expr_str (key_text k) (glob_compile str) (text_op e)
  build_operand (number k op str) = expr_int (key_text k) (int_value str) op
  build_operand (other k op str) = expr_id (key_text k) str op

-- What `parse` has read when it comes to an operand.
pub data Pending : Type 0 where
  start : Pending
  after : Sum → Conn → Pending

abbrev pub root_of : Pending → Expr
root_of start = null
root_of (after s c) = conn_tree c (build_sum s) null

abbrev pub extend : Pending → Operand → Sum
extend start o = one o
extend (after s c) o = join s c o

abbrev pub emit_pending : Pending → List Token → List Token
emit_pending start ts = ts
emit_pending (after s c) ts = emit_sum s (conn_token c ∷ ts)

pub emit-extend :
    (p : Pending) (o : Operand) (rest : List Token)
    → emit_sum (extend p o) rest ≡ emit_pending p (emit_operand o rest)
unfolding emit_sum emit_operand
emit-extend start o rest = refl
emit-extend (after s c) o rest = refl

mutual
  unfolding emit_sum emit_operand

  length-emit_sum : (s : Sum) (rest : List Token) → length rest < length (emit_sum s rest)
  length-emit_sum (one o) rest = length-emit_operand o rest
  length-emit_sum (join s c o) rest =
      omega
        (arith, length-emit_sum s (conn_token c ∷ emit_operand o rest), length-emit_operand o rest)

  pub length-emit_operand :
      (o : Operand) (rest : List Token) → length rest < length (emit_operand o rest)
  length-emit_operand (negated o) rest = omega (arith, length-emit_operand o rest)
  length-emit_operand (group s) rest = omega (arith, length-emit_sum s (tok_rparen ∷ rest))
  length-emit_operand (flag k) rest = omega arith
  length-emit_operand (text k e str) rest = omega arith
  length-emit_operand (number k op str) rest = omega arith
  length-emit_operand (other k op str) rest = omega arith
