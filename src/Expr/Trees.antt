-- ===== src/Expr/Trees.antt =====
-- What `add` of app/expr.c does to the trees of the parser: they are complete between two rounds, and
-- lack the right operand of their root behind an operator.
use graceful_music.Common.{◌≡◌, refl, false, ok}
use graceful_music.Expr.{Expr, null, is_null}
use graceful_music.Expr.Parse.{is_incomplete, set_right, set_left, add}
use graceful_music.Expr.Grammar.{
  Conn, both, either, Sum, one, join, Operand, negated, group, flag, text, number, other, conn_tree,
  build_sum, build_operand, Pending, start, after, root_of, extend,
}

-- No null pointer, and no last node without its right operand.
abbrev IsComplete : Expr → Type 0
IsComplete e = (is_null e ≡ false) × (is_incomplete e ≡ false)

is_incomplete-conn_tree : (c : Conn) (l r : Expr) → IsComplete r → IsComplete (conn_tree c l r)
unfolding is_incomplete
is_incomplete-conn_tree both l null h = absurd (cc)
is_incomplete-conn_tree either l null h = absurd (cc)
is_incomplete-conn_tree both l _ h = (refl, h.1)
is_incomplete-conn_tree either l _ h = (refl, h.1)

mutual
  unfolding is_incomplete build_sum build_operand

  pub build_sum-IsComplete : (s : Sum) → IsComplete (build_sum s)
  build_sum-IsComplete (one o) = build_operand-IsComplete o
  build_sum-IsComplete (join s c o) =
      is_incomplete-conn_tree c (build_sum s) (build_operand o) (build_operand-IsComplete o)

  build_operand-IsComplete : (o : Operand) → IsComplete (build_operand o)
  build_operand-IsComplete (group s) = build_sum-IsComplete s
  build_operand-IsComplete (negated o) = (refl, refl)
  build_operand-IsComplete (flag k) = (refl, refl)
  build_operand-IsComplete (text k e str) = (refl, refl)
  build_operand-IsComplete (number k op str) = (refl, refl)
  build_operand-IsComplete (other k op str) = (refl, refl)

-- An operand goes to the place that is free.
pub add-operand :
    (p : Pending) (o : Operand) → add (root_of p) (build_operand o) ≡ ok (build_sum (extend p o))
unfolding add is_incomplete set_right build_sum
add-operand start o = refl
add-operand (after s both) o = refl
add-operand (after s either) o = refl

-- An operator becomes the root.
pub add-conn :
    (s : Sum) (c : Conn) → add (build_sum s) (conn_tree c null null) ≡ ok (root_of (after s c))
unfolding add set_left
add-conn s both = let h = build_sum-IsComplete s in rw (h.0, h.1)
add-conn s either = let h = build_sum-IsComplete s in rw (h.0, h.1)
