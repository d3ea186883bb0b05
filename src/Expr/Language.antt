-- ===== src/Expr/Language.antt =====
-- The parser of app/expr.c reads every expression of the language of Expr/Grammar: the other half of
-- the description, and the theorem on both.
use graceful_music.Common.{
  ℕ, zero, suc, ◌+◌, ◌-◌, ◌*◌, ◌≤◌, ◌<◌, max, ◌≡◌, refl, ◌∙◌, ◌≢◌, ◌↔◌, Bool, true, false, none,
  some, List, [], ◌∷◌, arith, length, ok, bug, out_of_fuel, Yields, yields, Yields-ok, Yields-bug,
  Yields-out_of_fuel, Yields-bind,
}
use graceful_music.Glob.{glob_compile}
use graceful_music.Expr.{
  Op, op_lt, op_le, op_eq, op_ge, op_gt, op_ne, Token, tok_rparen, tok_key, tok_int_or_key, tok_str,
  Expr, null, expr_str, expr_int, expr_id, expr_bool, tok_to_op,
}
use graceful_music.Expr.Parse.{
  int_value, right_side, behind_key, Again, after_operand, parse_one, parse, parse_tokens,
}
use graceful_music.Expr.Grammar.{
  Conn, both, either, Key, name, number_name, Sum, one, join, Operand, negated, group, flag, text,
  number, other, conn_token, key_token, key_text, op_token, text_op, emit_sum, emit_operand,
  build_sum, build_operand, start, after, root_of,
}
use graceful_music.Expr.Trees.{add-operand, add-conn}
use graceful_music.Expr.Accepts.{parse-Yields}

-- The rounds of the loop of `parse` for a sum, and the fuel that its operands and an operand need.
unfoldable rounds : Sum → ℕ
rounds (one o) = 1
rounds (join s c o) = suc (rounds s)

unfoldable mutual
  need_sum : Sum → ℕ
  need_sum (one o) = need_operand o
  need_sum (join s c o) = max (need_sum s) (need_operand o)

  need_operand : Operand → ℕ
  need_operand (negated o) = suc (need_operand o)
  need_operand (group s) = suc (rounds s + need_sum s)
  need_operand _ = 1

mutual
  unfolding emit_sum emit_operand rounds need_sum need_operand

  need_sum-le :
      (s : Sum) (rest : List Token)
      → rounds s + need_sum s + 2 * length rest ≤ 2 * length (emit_sum s rest)
  need_sum-le (one o) rest = omega (arith, need_operand-lt o rest)
  need_sum-le (join s c o) rest =
      omega (arith, need_sum-le s (conn_token c ∷ emit_operand o rest), need_operand-lt o rest)

  need_operand-lt :
      (o : Operand) (rest : List Token)
      → need_operand o + 2 * length rest < 2 * length (emit_operand o rest)
  need_operand-lt (negated o) rest = omega (arith, need_operand-lt o rest)
  need_operand-lt (group s) rest = omega (arith, need_sum-le s (tok_rparen ∷ rest))
  need_operand-lt (flag k) rest = omega arith
  need_operand-lt (text k e str) rest = omega arith
  need_operand-lt (number k op str) rest = omega arith
  need_operand-lt (other k op str) rest = omega arith

-- No comparison goes on in the tokens.
abbrev no_op : List Token → Bool
no_op [] = true
no_op (t ∷ ts) = elim (tok_to_op t) [ none ↦ true | some op ↦ false ]

behind_key-flag :
    (key : List ℕ) (rest : List Token)
    → no_op rest ≡ true
    → behind_key key rest ≡ ok (expr_bool key, rest)
unfolding behind_key
behind_key-flag key [] h = refl
behind_key-flag key (t ∷ rest) h = ground arith

behind_key-op :
    (key : List ℕ) (op : Op) (ts : List Token)
    → behind_key key (op_token op ∷ ts) ≡ right_side key op ts
unfolding behind_key tok_to_op
behind_key-op key op_lt ts = refl
behind_key-op key op_le ts = refl
behind_key-op key op_eq ts = refl
behind_key-op key op_ge ts = refl
behind_key-op key op_gt ts = refl
behind_key-op key op_ne ts = refl

parse_one-key :
    (fuel : ℕ) (k : Key) (ts : List Token)
    → parse_one (suc fuel) (key_token k ∷ ts) ≡ behind_key (key_text k) ts
unfolding parse_one
parse_one-key fuel (name k) ts = refl
parse_one-key fuel (number_name k) ts = refl

right_side-text :
    (key : List ℕ) (e : Bool) (str : List ℕ) (rest : List Token)
    → right_side key (text_op e) (tok_str str ∷ rest)
      ≡ ok (expr_str key (glob_compile str) (text_op e), rest)
unfolding right_side
right_side-text key true str rest = refl
right_side-text key false str rest = refl

right_side-number :
    (key : List ℕ) (op : Op) (str : List ℕ) (rest : List Token)
    → right_side key op (tok_int_or_key str ∷ rest) ≡ ok (expr_int key (int_value str) op, rest)
unfolding right_side
right_side-number key op str rest = refl

right_side-other :
    (key : List ℕ) (op : Op) (str : List ℕ) (rest : List Token)
    → right_side key op (tok_key str ∷ rest) ≡ ok (expr_id key str op, rest)
unfolding right_side
right_side-other key op str rest = refl

no_op-rparen : (ts : List Token) → no_op (tok_rparen ∷ ts) ≡ true
unfolding tok_to_op
no_op-rparen ts = refl

after_operand-rparen :
    (again : Again) (root : Expr) (ts : List Token)
    → after_operand again 1 root (tok_rparen ∷ ts) ≡ ok (root, ts)
unfolding after_operand
after_operand-rparen again root ts = refl

after_operand-conn :
    (again : Again) (level : ℕ) (s : Sum) (c : Conn) (ts : List Token)
    → after_operand again level (build_sum s) (conn_token c ∷ ts) ≡ again (root_of (after s c)) ts
unfolding after_operand
after_operand-conn again level s both ts = rw (add-conn s both)
after_operand-conn again level s either ts = rw (add-conn s either)

no_op-conn : (c : Conn) (ts : List Token) → no_op (conn_token c ∷ ts) ≡ true
unfolding tok_to_op
no_op-conn both ts = refl
no_op-conn either ts = refl

mutual
  unfolding parse parse_one emit_sum emit_operand build_sum build_operand rounds need_sum
      need_operand

  parse-emit_sum :
      (s : Sum) (fuel k level : ℕ) (rest : List Token)
      → fuel ≡ rounds s + k
      → need_sum s ≤ k
      → no_op rest ≡ true
      → parse fuel level null (emit_sum s rest)
        ≡ after_operand (parse k level) level (build_sum s) rest
  parse-emit_sum (one o) zero k level rest e h n = absurd (omega arith)
  parse-emit_sum (one o) (suc fuel) k level rest e h n =
      let f : fuel ≡ k = omega arith in
      rw (f, parse_one-emit_operand o k rest h n, add-operand start o)
  parse-emit_sum (join s c o) fuel k level rest e h n =
      parse-emit_sum s fuel (suc k) level (conn_token c ∷ emit_operand o rest) (omega arith)
        (omega arith) (no_op-conn c (emit_operand o rest))
      ∙ after_operand-conn (parse (suc k) level) level s c (emit_operand o rest)
      ∙ rw (parse_one-emit_operand o k rest (omega arith) n, add-operand (after s c) o)

  parse_one-emit_operand :
      (o : Operand) (fuel : ℕ) (rest : List Token)
      → need_operand o ≤ fuel
      → no_op rest ≡ true
      → parse_one fuel (emit_operand o rest) ≡ ok (build_operand o, rest)
  parse_one-emit_operand (negated o) zero rest h n = absurd (omega arith)
  parse_one-emit_operand (negated o) (suc fuel) rest h n =
      rw (parse_one-emit_operand o fuel rest (omega arith) n)
  parse_one-emit_operand (group s) zero rest h n = absurd (omega arith)
  parse_one-emit_operand (group s) (suc fuel) rest h n =
      parse-emit_sum s fuel (fuel - rounds s) 1 (tok_rparen ∷ rest) (omega arith) (omega arith)
        (no_op-rparen rest)
      ∙ after_operand-rparen (parse (fuel - rounds s) 1) (build_sum s) rest
  parse_one-emit_operand (flag k) zero rest h n = absurd (omega arith)
  parse_one-emit_operand (flag k) (suc fuel) rest h n =
      parse_one-key fuel k rest ∙ behind_key-flag (key_text k) rest n
  parse_one-emit_operand (text k e str) zero rest h n = absurd (omega arith)
  parse_one-emit_operand (text k e str) (suc fuel) rest h n =
      parse_one-key fuel k (op_token (text_op e) ∷ tok_str str ∷ rest)
      ∙ behind_key-op (key_text k) (text_op e) (tok_str str ∷ rest)
      ∙ right_side-text (key_text k) e str rest
  parse_one-emit_operand (number k op str) zero rest h n = absurd (omega arith)
  parse_one-emit_operand (number k op str) (suc fuel) rest h n =
      parse_one-key fuel k (op_token op ∷ tok_int_or_key str ∷ rest)
      ∙ behind_key-op (key_text k) op (tok_int_or_key str ∷ rest)
      ∙ right_side-number (key_text k) op str rest
  parse_one-emit_operand (other k op str) zero rest h n = absurd (omega arith)
  parse_one-emit_operand (other k op str) (suc fuel) rest h n =
      parse_one-key fuel k (op_token op ∷ tok_key str ∷ rest)
      ∙ behind_key-op (key_text k) op (tok_key str ∷ rest)
      ∙ right_side-other (key_text k) op str rest

pub parse_tokens-Yields :
    (ts : List Token)
    → Yields (λ e. (s : Sum) × (ts ≡ emit_sum s []) × (e ≡ build_sum s)) (parse_tokens ts)
unfolding parse_tokens
parse_tokens-Yields ts =
    Yields-bind (parse-Yields (suc (2 * length ts)) 0 start ts (omega arith)) λ r h. yields h

-- The call of the parser for a whole filter comes to no failed BUG_ON, and the model's fuel is enough for
-- every list of tokens.
pub parse_tokens-total :
    (ts : List Token) → (parse_tokens ts ≢ bug) × (parse_tokens ts ≢ out_of_fuel)
parse_tokens-total ts =
    (Yields-bug (parse_tokens-Yields ts), Yields-out_of_fuel (parse_tokens-Yields ts))

pub parse_tokens-emit_sum : (s : Sum) → parse_tokens (emit_sum s []) ≡ ok (build_sum s)
unfolding parse_tokens after_operand
parse_tokens-emit_sum s =
    let n = suc (2 * length (emit_sum s [])) in
    let b = need_sum-le s [] in
    rw (parse-emit_sum s n (n - rounds s) 0 [] (omega arith) (omega arith) refl)

-- The parser accepts a list of tokens and returns a tree exactly when the list is an expression of the
-- language and the tree is its tree: operands from left to right, with neither & nor | binding closer.
pub parse_tokens_iff :
    (ts : List Token) (e : Expr)
    → (parse_tokens ts ≡ ok e) ↔ ((s : Sum) × (ts ≡ emit_sum s []) × (e ≡ build_sum s))
parse_tokens_iff ts e =
    (Yields-ok (parse_tokens-Yields ts), λ (s, p, q). rw (p, q) (parse_tokens-emit_sum s))
