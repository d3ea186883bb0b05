-- ===== src/Filters/Check.antt =====
-- Named filters in an expression: the recursion of `expr_check_leaves` of app/expr.c through the filters
-- that it looks up.
use graceful_music.Common.{ℕ, zero, suc, none, some, List, Result, failed, out_of_fuel}
use graceful_music.Expr.{Expr, Error, unknown_filter}
use graceful_music.Expr.Keys.{lookup_key_type}
use graceful_music.Filters.{Filters, get_filter, Outcome, and_then, check_tree}

-- `parse` stands for `expr_parse`.
module _ (parse : List ℕ → Result Error Expr) where
  -- The end of `expr_check_leaves` for a filter's tree: `check` is the call for it.
  unfoldable pub replace_by : (check : Expr → Filters → Outcome) → List ℕ → Filters → Outcome
  replace_by check key fs =
      let g = get_filter key fs in
      elim g.0 [
        | none ↦ (failed (unknown_filter key), g.1)
        | some filter ↦ and_then (parse filter, g.1) check
      ]

  -- `expr_check_leaves`. Each filter that is put in is marked as visited, so the fuel is one more than the
  -- filters that are not.
  unfoldable pub expr_check_leaves : (fuel : ℕ) → Expr → Filters → Outcome
  expr_check_leaves zero e fs = (out_of_fuel, fs)
  expr_check_leaves (suc fuel) e fs =
      check_tree lookup_key_type (replace_by (expr_check_leaves fuel)) e fs
