-- ===== src/Expr/Compare.antt =====
-- Comparisons of numbers in filter expressions of app/expr.c, against those of integers.
use graceful_music.Common.{
  ℕ, suc, ◌+◌, ◌<◌, ◌≡◌, Bool, true, false, ◌&&◌, not, some, List, arith, if◌then◌else◌, ℤ, negsuc,
  pos_part, neg_part, ◌-ℤ◌, ltb_ℤ, ◌==ℤ◌, -ℤ_parts, IsInt32, of_bits32, to_int32, to_int32_id,
  codes, strcmp,
}
use graceful_music.Expr.{
  Op, op_lt, op_le, op_eq, op_ge, op_gt, op_ne, expr_int, is_eq_or_ne, expr_op_to_bool,
}
use graceful_music.Expr.Eval.{
  TrackInfo, is_http_url, int_val, int_sub, is_unset, eval_int, expr_eval,
}

-- a op b, for integers
unfoldable pub compare_ints : ℤ → Op → ℤ → Bool
compare_ints a op_lt b = ltb_ℤ a b
compare_ints a op_le b = not (ltb_ℤ b a)
compare_ints a op_eq b = a ==ℤ b
compare_ints a op_ge b = not (ltb_ℤ a b)
compare_ints a op_gt b = ltb_ℤ b a
compare_ints a op_ne b = not (a ==ℤ b)

op_to_bool-diff :
    (a b d : ℤ) (op : Op)
    → pos_part d + neg_part a + pos_part b ≡ neg_part d + pos_part a + neg_part b
    → expr_op_to_bool d op ≡ compare_ints a op b
unfolding expr_op_to_bool compare_ints
op_to_bool-diff a b d op_lt h = ground arith
op_to_bool-diff a b d op_le h = ground arith
op_to_bool-diff a b d op_eq h = ground arith
op_to_bool-diff a b d op_ge h = ground arith
op_to_bool-diff a b d op_gt h = ground arith
op_to_bool-diff a b d op_ne h = ground arith

-- Where the difference fits in an `int`, its sign is the comparison.
op_to_bool-int_sub :
    (a b : ℤ) (op : Op) → IsInt32 (a -ℤ b) → expr_op_to_bool (int_sub a b) op ≡ compare_ints a op b
unfolding int_sub
op_to_bool-int_sub a b op h =
    rw (to_int32_id (a -ℤ b) h) (op_to_bool-diff a b (a -ℤ b) op (-ℤ_parts a b))

-- A number in an expression that is not -1 holds for a tag exactly when the tag is set and compares as
-- integers do, if the difference fits in an `int`; -1 as a number asks with = and != whether the tag is not set.
pub eval_int_lem :
    (tag val : ℤ) (op : Op)
    → IsInt32 (tag -ℤ val)
    → eval_int tag op val ≡ (
        if is_unset val && is_eq_or_ne op
        then compare_ints tag op val
        else not (is_unset tag) && compare_ints tag op val)
unfolding eval_int compare_ints
eval_int_lem tag val op_lt h = ground (arith, op_to_bool-int_sub tag val op_lt h)
eval_int_lem tag val op_le h = ground (arith, op_to_bool-int_sub tag val op_le h)
eval_int_lem tag val op_eq h = ground (arith, op_to_bool-int_sub tag val op_eq h)
eval_int_lem tag val op_ge h = ground (arith, op_to_bool-int_sub tag val op_ge h)
eval_int_lem tag val op_gt h = ground (arith, op_to_bool-int_sub tag val op_gt h)
eval_int_lem tag val op_ne h = ground (arith, op_to_bool-int_sub tag val op_ne h)

-- A stream has the duration INT_MAX, and every number below -1 is said to be greater: the difference does
-- not fit in an `int`, and its sign is the wrong one.
pub expr_eval-stream :
    (fold : ℕ → ℕ) (to_utf8 : List ℕ → List ℕ) (ti : TrackInfo) (n : ℕ)
    → is_http_url ti.filename ≡ true
    → n < 2147483647
    → (expr_eval fold to_utf8 (expr_int (codes "duration") (negsuc (suc n)) op_lt) ti ≡ some true)
      × (expr_eval fold to_utf8 (expr_int (codes "duration") (negsuc (suc n)) op_gt) ti
          ≡ some false)
unfolding expr_eval int_val eval_int int_sub to_int32 of_bits32 expr_op_to_bool ◌-ℤ◌ strcmp
expr_eval-stream fold to_utf8 ti n u h = rw u (ground arith, ground arith)
