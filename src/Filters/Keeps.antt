-- ===== src/Filters/Keeps.antt =====
-- What each call of `get_filter` of app/filters.c keeps, `expr_check_leaves` of app/expr.c keeps.
use graceful_music.Common.{
  ℕ, zero, suc, inl, inr, Bool, Option, none, some, List, Option-cases, if_same, Result, ok, failed,
  bug, out_of_fuel,
}
use graceful_music.Expr.{
  ExprType, type_and, type_or, type_not, type_str, type_int, type_id, type_bool, Expr, null,
  expr_and, expr_or, expr_not, expr_str, expr_int, expr_id, expr_bool, is_null, Error,
}
use graceful_music.Expr.Keys.{lookup_key_type}
use graceful_music.Filters.{
  Filters, get_filter, Outcome, and_then, same_type, check_leaf, check_both, check_tree,
}
use graceful_music.Filters.Check.{replace_by, expr_check_leaves}

module _ (P : Filters → Type 0) where
  pub and_then-keeps :
      (o : Outcome) (f : Expr → Filters → Outcome)
      → P o.1
      → ((e : Expr) (fs : Filters) → P fs → P (f e fs).1)
      → P (and_then o f).1
  unfolding and_then
  and_then-keeps (ok e, fs) f h k = k e fs h
  and_then-keeps (failed err, fs) f h k = h
  and_then-keeps (bug, fs) f h k = h
  and_then-keeps (out_of_fuel, fs) f h k = h

  check_leaf-keeps :
      (type : ExprType) (key : List ℕ) (leaf : Expr) (t : Option ExprType)
      (replace : Filters → Outcome) (fs : Filters)
      → P fs
      → P (replace fs).1
      → P (check_leaf type key leaf t replace fs).1
  unfolding check_leaf
  check_leaf-keeps type key leaf (some t) replace fs h r =
      if_same {A = Outcome} (λ o. P o.1) (same_type t type) (λ _. h) (λ _. h)
  check_leaf-keeps type_bool key leaf none replace fs h r = r
  check_leaf-keeps type_and key leaf none replace fs h r = h
  check_leaf-keeps type_or key leaf none replace fs h r = h
  check_leaf-keeps type_not key leaf none replace fs h r = h
  check_leaf-keeps type_str key leaf none replace fs h r = h
  check_leaf-keeps type_int key leaf none replace fs h r = h
  check_leaf-keeps type_id key leaf none replace fs h r = h

  check_both-keeps :
      (make : Expr → Expr → Expr) (no_right : Bool) (left : Outcome) (right : Filters → Outcome)
      → P left.1
      → ((fs : Filters) → P fs → P (right fs).1)
      → P (check_both make no_right left right).1
  unfolding check_both
  check_both-keeps make no_right left right h k = and_then-keeps left _ h λ l gs g.
      if_same {A = Outcome} (λ o. P o.1) no_right (λ _. g)
        λ _. and_then-keeps (right gs) _ (k gs g) λ r hs b. b

  module _ (lookup : List ℕ → Option ExprType) (replace : List ℕ → Filters → Outcome)
      (r : (key : List ℕ) (fs : Filters) → P fs → P (replace key fs).1) where
    check_tree-keeps : (e : Expr) (fs : Filters) → P fs → P (check_tree lookup replace e fs).1
    unfolding check_tree
    check_tree-keeps null fs h = h
    check_tree-keeps (expr_and left right) fs h =
        check_both-keeps expr_and (is_null right) _ (check_tree lookup replace right)
          (check_tree-keeps left fs h) (check_tree-keeps right)
    check_tree-keeps (expr_or left right) fs h =
        check_both-keeps expr_or (is_null right) _ (check_tree lookup replace right)
          (check_tree-keeps left fs h) (check_tree-keeps right)
    check_tree-keeps (expr_not left) fs h =
        and_then-keeps (check_tree lookup replace left fs) _ (check_tree-keeps left fs h)
          λ e gs k. k
    check_tree-keeps (expr_str key glob_head op) fs h =
        check_leaf-keeps type_str key _ (lookup key) (replace key) fs h (r key fs h)
    check_tree-keeps (expr_int key val op) fs h =
        check_leaf-keeps type_int key _ (lookup key) (replace key) fs h (r key fs h)
    check_tree-keeps (expr_id key other op) fs h =
        check_leaf-keeps type_id key _ (lookup key) (replace key) fs h (r key fs h)
    check_tree-keeps (expr_bool key) fs h =
        check_leaf-keeps type_bool key _ (lookup key) (replace key) fs h (r key fs h)

  module _ (parse : List ℕ → Result Error Expr)
      (g : (key : List ℕ) (fs : Filters) → P fs → P (get_filter key fs).1) where
    pub replace_by-keeps :
        (check : Expr → Filters → Outcome)
        → ((e : Expr) (fs : Filters) → P fs → P (check e fs).1)
        → (key : List ℕ) (fs : Filters) → P fs
        → P (replace_by parse check key fs).1
    unfolding replace_by
    replace_by-keeps check k key fs h = elim (Option-cases (get_filter key fs).0) [
      | inl e ↦ rw (replace_by, e) (g key fs h)
      | inr (filter, e) ↦
          rw (replace_by, e)
            (and_then-keeps (parse filter, (get_filter key fs).1) check (g key fs h) k)
    ]

    pub expr_check_leaves-keeps :
        (fuel : ℕ) (e : Expr) (fs : Filters) → P fs → P (expr_check_leaves parse fuel e fs).1
    unfolding expr_check_leaves
    expr_check_leaves-keeps zero e fs h = h
    expr_check_leaves-keeps (suc fuel) e fs h =
        check_tree-keeps lookup_key_type (replace_by parse (expr_check_leaves parse fuel))
          (replace_by-keeps (expr_check_leaves parse fuel) (expr_check_leaves-keeps fuel)) e fs h
