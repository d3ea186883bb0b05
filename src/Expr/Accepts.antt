-- ===== src/Expr/Accepts.antt =====
-- What the parser of app/expr.c accepts is the language of Expr/Grammar: it never meets the BUG_ON of
-- `add`, the fuel is enough, and the tree is that of the grammar.
use graceful_music.Common.{
  ℕ, zero, suc, ◌*◌, ◌≤◌, ◌<◌, ◌≡◌, refl, ap, true, false, some, List, [], ◌∷◌, arith, ltb, ◌==◌,
  length, Yields, yields, fails, Yields-bind, Yields-map,
}
use graceful_music.Expr.{
  Op, op_lt, op_le, op_eq, op_ge, op_gt, op_ne, Token, tok_not, tok_lt, tok_gt, tok_eq, tok_and,
  tok_or, tok_lparen, tok_rparen, tok_ne, tok_le, tok_ge, tok_key, tok_int_or_key, tok_str, Expr,
  tok_to_op,
}
use graceful_music.Expr.Parse.{right_side, behind_key, Again, after_operand, parse_one, parse}
use graceful_music.Expr.Grammar.{
  both, either, Key, name, number_name, Sum, Operand, negated, group, flag, text, number, other,
  key_token, key_text, op_token, emit_sum, emit_operand, build_sum, build_operand, Pending, start,
  after, root_of, extend, emit_pending, emit-extend, length-emit_operand,
}
use graceful_music.Expr.Trees.{add-operand, add-conn}

-- What follows the tokens of a call of `parse`.
abbrev pub closing : (level : ℕ) → List Token → List Token
closing zero rest = []
closing (suc level) rest = tok_rparen ∷ rest

-- An operand was read off the front of the tokens.
abbrev ReadsOperand : List Token → Expr × List Token → Type 0
ReadsOperand ts r = (o : Operand) × (ts ≡ emit_operand o r.1) × (r.0 ≡ build_operand o)

abbrev pub ReadsSum : (level : ℕ) → List Token → Expr × List Token → Type 0
ReadsSum level ts r = (s : Sum) × (ts ≡ emit_sum s (closing level r.1)) × (r.0 ≡ build_sum s)

right_side-Yields :
    (k : Key) (op : Op) (t : Token) (ts : List Token)
    → tok_to_op t ≡ some op
    → t ≡ op_token op
    → Yields (ReadsOperand (key_token k ∷ t ∷ ts)) (right_side (key_text k) op ts)
unfolding right_side emit_operand build_operand
right_side-Yields k op t [] h e = fails
right_side-Yields k op_eq t (tok_str str ∷ ts) h e = yields (text k true str, rw e, refl)
right_side-Yields k op_ne t (tok_str str ∷ ts) h e = yields (text k false str, rw e, refl)
right_side-Yields k op t (tok_str str ∷ ts) h e = fails
right_side-Yields k op t (tok_int_or_key str ∷ ts) h e = yields (number k op str, rw e, refl)
right_side-Yields k op t (tok_key str ∷ ts) h e = yields (other k op str, rw e, refl)
right_side-Yields k op t (_ ∷ ts) h e = fails

behind_key-Yields :
    (k : Key) (ts : List Token)
    → Yields (ReadsOperand (key_token k ∷ ts)) (behind_key (key_text k) ts)
unfolding behind_key emit_operand build_operand tok_to_op
behind_key-Yields k [] = yields (flag k, refl, refl)
behind_key-Yields k (tok_lt ∷ ts) = right_side-Yields k op_lt tok_lt ts refl refl
behind_key-Yields k (tok_gt ∷ ts) = right_side-Yields k op_gt tok_gt ts refl refl
behind_key-Yields k (tok_eq ∷ ts) = right_side-Yields k op_eq tok_eq ts refl refl
behind_key-Yields k (tok_ne ∷ ts) = right_side-Yields k op_ne tok_ne ts refl refl
behind_key-Yields k (tok_le ∷ ts) = right_side-Yields k op_le tok_le ts refl refl
behind_key-Yields k (tok_ge ∷ ts) = right_side-Yields k op_ge tok_ge ts refl refl
behind_key-Yields k (_ ∷ ts) = yields (flag k, refl, refl)

after_operand-Yields :
    (again : Again) (level : ℕ) (all : List Token) (s : Sum) (rest : List Token)
    → all ≡ emit_sum s rest
    → ((p : Pending) (ts : List Token)
        → length ts < length rest
        → Yields (ReadsSum level (emit_pending p ts)) (again (root_of p) ts))
    → Yields (ReadsSum level all) (after_operand again level (build_sum s) rest)
unfolding after_operand
after_operand-Yields again zero all s [] e h = yields (s, e, refl)
after_operand-Yields again (suc level) all s [] e h =
    let t : ltb 0 (suc level) ≡ true = ground arith in rw t fails
after_operand-Yields again zero all s (tok_rparen ∷ ts) e h = fails
after_operand-Yields again (suc level) all s (tok_rparen ∷ ts) e h =
    let t : (suc level == 0) ≡ false = ground arith in rw t (yields (s, e, refl))
after_operand-Yields again level all s (tok_and ∷ ts) e h =
    rw (add-conn s both, e) (h (after s both) ts (omega arith))
after_operand-Yields again level all s (tok_or ∷ ts) e h =
    rw (add-conn s either, e) (h (after s either) ts (omega arith))
after_operand-Yields again level all s (_ ∷ ts) e h = fails

mutual
  unfolding parse_one parse emit_operand build_operand

  parse_one-Yields :
      (fuel : ℕ) (ts : List Token)
      → 2 * length ts ≤ fuel
      → Yields (ReadsOperand ts) (parse_one fuel ts)
  parse_one-Yields fuel [] h = fails
  parse_one-Yields zero (t ∷ ts) h = absurd (omega arith)
  parse_one-Yields (suc fuel) (tok_not ∷ ts) h =
      Yields-bind (parse_one-Yields fuel ts (omega arith))
        λ r (o, e, b). yields (negated o, rw e, rw b)
  parse_one-Yields (suc fuel) (tok_lparen ∷ ts) h =
      Yields-map (λ r (s, e, b). (group s, ap (◌∷◌ tok_lparen) e, b))
        (parse-Yields fuel 1 start ts (omega arith))
  parse_one-Yields (suc fuel) (tok_key key ∷ ts) h = behind_key-Yields (name key) ts
  parse_one-Yields (suc fuel) (tok_int_or_key key ∷ ts) h = behind_key-Yields (number_name key) ts
  parse_one-Yields (suc fuel) (_ ∷ ts) h = fails

  pub parse-Yields :
      (fuel level : ℕ) (p : Pending) (ts : List Token)
      → 2 * length ts < fuel
      → Yields (ReadsSum level (emit_pending p ts)) (parse fuel level (root_of p) ts)
  parse-Yields zero level p ts h = absurd (omega arith)
  parse-Yields (suc fuel) level p ts h =
      Yields-bind (parse_one-Yields fuel ts (omega arith)) λ (tree, rest) (o, e, b).
        rw (b, add-operand p o)
          (after_operand-Yields (parse fuel level) level (emit_pending p ts) (extend p o) rest
            (rw (e, emit-extend p o rest))
            λ q us lt.
              parse-Yields fuel level q us (omega (arith, ap length e, length-emit_operand o rest)))
