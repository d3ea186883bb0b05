-- ===== src/Filters.antt =====
-- The named filters: app/filters.c, and `expr_check_leaves` of app/expr.c, which puts them into an
-- expression. The window, the messages and the questions to the user are left out.
pub mod Check
pub mod Store
pub mod Select
pub mod Recursion
pub mod Expand
pub mod Typed
pub mod Keeps
pub mod Twice
pub mod Sorted
pub mod Joined
pub mod Stats
pub mod Activate
mod Tests
use graceful_music.Common.{
  ℕ, zero, suc, ◌+◌, ◌-◌, ◌*◌, ◌/◌, ◌%◌, ◌^◌, ◌≤◌, ◌<◌, min, max, ◌≡◌, refl, sym, ap, ◌∙◌, subst,
  fun_ext, ◌≢◌, ◌↔◌, ◌⊎◌, inl, inr, Bool, true, false, ◌&&◌, ◌||◌, not, Option, none, some, List,
  [], ◌∷◌, ◌++◌, map, append-nil, append_assoc, arith, ltb, leb, ◌==◌, if◌then◌else◌, ltb→lt,
  lt→ltb, ltb→ge, leb→le, ==_iff, ==_refl, Bool-cases, Option-cases, length, get_elem?, get_or,
  take, drop, replicate, length-append, take-append-drop, length-take, length-drop,
  length-replicate, take-all, drop-drop, take-nil, drop-nil, beq_of_ne, ltb_of_ge, if_same,
  some_inj, ℤ, pos, negsuc, pos_part, neg_part, sub_ℕ, ◌+ℤ◌, ◌-ℤ◌, ◌≤ℤ◌, ◌<ℤ◌, ltb_ℤ, ◌==ℤ◌,
  -ℤ_parts, IsInt32, of_bits32, to_int32, to_int32_id, to_int32-IsInt32, codes, isspace, isdigit,
  isalpha, strcmp, strcmp_refl, strcmp_eq, digits_from, clamp_long, skip_spaces, starts_digit,
  strtol_from, strtol, Result, ok, failed, bug, out_of_fuel, bind, Yields, yields, fails, Yields-ok,
  Yields-bug, Yields-out_of_fuel, Yields-if, Yields-bind, Yields-map, ==ℤ_eq, sum_pos, is_str,
}
use graceful_music.Expr.{
  Op, op_lt, op_le, op_eq, op_ge, op_gt, op_ne, Token, tok_not, tok_lt, tok_gt, tok_eq, tok_and,
  tok_or, tok_lparen, tok_rparen, tok_ne, tok_le, tok_ge, tok_key, tok_int_or_key, tok_str,
  ExprType, type_and, type_or, type_not, type_str, type_int, type_id, type_bool, Expr, null,
  expr_and, expr_or, expr_not, expr_str, expr_int, expr_id, expr_bool, is_null, Error,
  end_in_string, expression_expected, right_side_expected, integer_or_string_expected,
  integer_expected, key_expected, rparen_expected, unexpected_rparen, operator_expected,
  control_characters, invalid_utf8, unexpected, unknown_short_key, invalid_string_operator,
  wrong_type, unknown_key, unknown_filter, tok_to_op, is_eq, is_ne, is_eq_or_ne, expr_op_to_bool,
}

-- FS_IGNORE, FS_YES and FS_NO
pub data SelStat : Type 0 where
  fs_ignore fs_yes fs_no : SelStat

-- `struct filter_entry`
pub record FilterEntry : Type 0 where
  pub name : List ℕ
  pub filter : List ℕ
  pub visited : Bool
  pub sel_stat : SelStat
  pub act_stat : SelStat

-- `filters_head` and `recursive_filter`
pub record Filters : Type 0 where
  pub entries : List FilterEntry
  pub recursive_filter : Option (List ℕ)

-- `find_filter`
unfoldable pub find_filter : List ℕ → List FilterEntry → Option FilterEntry
find_filter name [] = none
find_filter name (e ∷ entries) =
    let rest = find_filter name entries in if is_str e.name name then some e else rest

-- e->visited = 1 for the entry that `find_filter` finds
unfoldable pub set_visited : List ℕ → List FilterEntry → List FilterEntry
set_visited name [] = []
set_visited name (e ∷ entries) =
    let rest = set_visited name entries in
    if is_str e.name name then record e { visited = true } ∷ entries else e ∷ rest

-- `get_filter`
unfoldable pub get_filter : List ℕ → Filters → Option (List ℕ) × Filters
get_filter name fs = elim (find_filter name fs.entries) [
  | none ↦ (none, fs)
  | some e ↦
      if e.visited
      then (none, record fs { recursive_filter = some e.name })
      else (some e.filter, record fs { entries = set_visited name fs.entries })
]

-- A call that can fail, and the filters behind it.
abbrev pub Outcome : Type 0
Outcome = Result Error Expr × Filters

-- The tree of the one call goes to the other.
unfoldable pub and_then : Outcome → (Expr → Filters → Outcome) → Outcome
and_then (ok e, fs) f = f e fs
and_then (failed err, fs) f = (failed err, fs)
and_then (bug, fs) f = (bug, fs)
and_then (out_of_fuel, fs) f = (out_of_fuel, fs)

abbrev pub same_type : ExprType → ExprType → Bool
same_type type_and type_and = true
same_type type_or type_or = true
same_type type_not type_not = true
same_type type_str type_str = true
same_type type_int type_int = true
same_type type_id type_id = true
same_type type_bool type_bool = true
same_type _ _ = false

-- The part of `expr_check_leaves` for a leaf, with what the loop over `builtin` finds for its key.
-- `replace` stands for what follows when the key is that of a filter or of none.
unfoldable pub check_leaf :
    (type : ExprType) (key : List ℕ) (leaf : Expr)
    → Option ExprType
    → (replace : Filters → Outcome) → Filters
    → Outcome
check_leaf type key leaf (some t) replace fs =
    if same_type t type then (ok leaf, fs) else (failed (wrong_type key t), fs)
check_leaf type_bool key leaf none replace fs = replace fs
check_leaf type key leaf none replace fs = (failed (unknown_key key), fs)

-- `expr_check_leaves` for an operator, behind the call for its left operand. The right one is there or not.
unfoldable pub check_both :
    (make : Expr → Expr → Expr) (no_right : Bool)
    → Outcome
    → (check_right : Filters → Outcome) → Outcome
check_both make no_right left check_right = and_then left λ l gs.
    if no_right
    then (ok (make l null), gs)
    else and_then (check_right gs) (λ r hs. (ok (make l r), hs))

-- `expr_check_leaves`, with the tree that it leaves behind `exprp`. `replace` puts the tree of a filter in
-- the place of a name. A call for a node without its left operand follows a null pointer.
module _ (lookup : List ℕ → Option ExprType) (replace : List ℕ → Filters → Outcome) where
  unfoldable pub check_tree : Expr → Filters → Outcome
  check_tree null fs = (bug, fs)
  check_tree (expr_and left right) fs =
      check_both expr_and (is_null right) (check_tree left fs) (check_tree right)
  check_tree (expr_or left right) fs =
      check_both expr_or (is_null right) (check_tree left fs) (check_tree right)
  check_tree (expr_not left) fs = and_then (check_tree left fs) λ l gs. (ok (expr_not l), gs)
  check_tree (expr_str key glob_head op) fs =
      check_leaf type_str key (expr_str key glob_head op) (lookup key) (replace key) fs
  check_tree (expr_int key val op) fs =
      check_leaf type_int key (expr_int key val op) (lookup key) (replace key) fs
  check_tree (expr_id key other op) fs =
      check_leaf type_id key (expr_id key other op) (lookup key) (replace key) fs
  check_tree (expr_bool key) fs =
      check_leaf type_bool key (expr_bool key) (lookup key) (replace key) fs
