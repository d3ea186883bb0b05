-- ===== src/Expr.antt =====
-- Filter expressions: app/expr.c. Strings are lists of bytes, without the 0 that ends them.
-- `struct expr *` is an `Expr` with the null pointer as a constructor; `parent` is written by the code
-- and never read, and is left out.
pub mod Tokens
pub mod Keys
pub mod Short
pub mod Lookup
pub mod Read
pub mod Eval
pub mod Compare
pub mod Stack
pub mod ShortBounds
pub mod ShortTotal
pub mod Lex
pub mod Spell
pub mod Parse
pub mod Grammar
pub mod Trees
pub mod Accepts
pub mod Language
pub mod Whole
mod Tests
mod ShortTests
use graceful_music.Common.{
  ℕ, zero, suc, ◌+◌, ◌-◌, ◌*◌, ◌/◌, ◌%◌, ◌^◌, ◌≤◌, ◌<◌, min, max, ◌≡◌, refl, sym, ap, ◌∙◌, subst,
  fun_ext, ◌≢◌, ◌↔◌, ◌⊎◌, inl, inr, Bool, true, false, ◌&&◌, ◌||◌, not, Option, none, some, List,
  [], ◌∷◌, ◌++◌, map, append-nil, append_assoc, arith, ltb, leb, ◌==◌, if◌then◌else◌, ltb→lt,
  lt→ltb, ltb→ge, leb→le, ==_iff, ==_refl, Bool-cases, Option-cases, length, get_elem?, get_or,
  take, drop, replicate, length-append, take-append-drop, length-take, length-drop,
  length-replicate, take-all, drop-drop, take-nil, drop-nil, beq_of_ne, ltb_of_ge, if_same,
  some_inj, ℤ, pos, negsuc, pos_part, neg_part, sub_ℕ, ◌+ℤ◌, ◌-ℤ◌, ◌≤ℤ◌, ◌<ℤ◌, ltb_ℤ, ◌==ℤ◌,
  -ℤ_parts, IsInt32, of_bits32, to_int32, to_int32_id, to_int32-IsInt32, codes, isspace, isdigit,
  isalpha, strcmp, strcmp_refl, strcmp_eq, digits_from, clamp_long, skip_spaces, starts_digit,
  strtol_from, strtol, Result, ok, failed, bug, out_of_fuel, bind, Yields, yields, fails, Yields-ok,
  Yields-bug, Yields-out_of_fuel, Yields-if, Yields-bind,
}
use graceful_music.Glob.{GlobItem}

-- OP_LT and so on
pub data Op : Type 0 where
  op_lt op_le op_eq op_ge op_gt op_ne : Op

-- `struct token`
pub data Token : Type 0 where
  tok_not tok_lt tok_gt tok_eq tok_and tok_or tok_lparen tok_rparen tok_ne tok_le tok_ge : Token
  tok_key tok_int_or_key tok_str : (str : List ℕ) → Token

-- `enum expr_type`
pub data ExprType : Type 0 where
  type_and type_or type_not type_str type_int type_id type_bool : ExprType

-- `struct expr *`
pub data Expr : Type 0 where
  null : Expr
  expr_and expr_or : (left right : Expr) → Expr
  expr_not : (left : Expr) → Expr
  expr_str : (key : List ℕ) (glob_head : List GlobItem) (op : Op) → Expr
  expr_int : (key : List ℕ) (val : ℤ) (op : Op) → Expr
  expr_id : (key other : List ℕ) (op : Op) → Expr
  expr_bool : (key : List ℕ) → Expr

abbrev pub is_null : Expr → Bool
is_null null = true
is_null _ = false

-- The calls of `set_error`
pub data Error : Type 0 where
  end_in_string expression_expected right_side_expected integer_or_string_expected : Error
  integer_expected key_expected rparen_expected unexpected_rparen operator_expected : Error
  control_characters invalid_utf8 : Error
  unexpected unknown_short_key : (c : ℕ) → Error
  invalid_string_operator : Op → Error
  wrong_type : (key : List ℕ) (is : ExprType) → Error
  unknown_key unknown_filter : (key : List ℕ) → Error

-- `tok_to_op`, with `none` for -1
unfoldable pub tok_to_op : Token → Option Op
tok_to_op tok_lt = some op_lt
tok_to_op tok_gt = some op_gt
tok_to_op tok_eq = some op_eq
tok_to_op tok_ne = some op_ne
tok_to_op tok_le = some op_le
tok_to_op tok_ge = some op_ge
tok_to_op _ = none

-- op == OP_EQ, and op != OP_EQ && op != OP_NE turned around
abbrev pub is_eq : Op → Bool
is_eq op_eq = true
is_eq _ = false

abbrev pub is_ne : Op → Bool
is_ne op_ne = true
is_ne _ = false

abbrev pub is_eq_or_ne : Op → Bool
is_eq_or_ne op = is_eq op || is_ne op

-- `expr_op_to_bool`
unfoldable pub expr_op_to_bool : ℤ → Op → Bool
expr_op_to_bool res op_lt = ltb_ℤ res (pos 0)
expr_op_to_bool res op_le = not (ltb_ℤ (pos 0) res)
expr_op_to_bool res op_eq = pos_part res == neg_part res
expr_op_to_bool res op_ge = not (ltb_ℤ res (pos 0))
expr_op_to_bool res op_gt = ltb_ℤ (pos 0) res
expr_op_to_bool res op_ne = not (pos_part res == neg_part res)
