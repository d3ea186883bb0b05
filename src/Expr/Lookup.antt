-- ===== src/Expr/Lookup.antt =====
-- The two tables of keys in app/expr.c fit each other: each long key behind a short one is short enough
-- and has a type.
use graceful_music.Common.{
  ℕ, ◌≤◌, ◌≡◌, refl, Bool, true, false, ◌&&◌, Option, none, some, List, [], ◌∷◌, arith, leb, length,
  strcmp,
}
use graceful_music.Expr.{ExprType, type_str, type_int, type_bool}
use graceful_music.Expr.Keys.{
  map_short2long, builtin, long_key_in, lookup_long_key, key_type_in, lookup_key_type,
}

unfoldable every_key : (List ℕ → Bool) → List (ℕ × List ℕ) → Bool
every_key p [] = true
every_key p (entry ∷ table) = p entry.1 && every_key p table

long_key_in-every :
    (p : List ℕ → Bool) (table : List (ℕ × List ℕ)) (c : ℕ) (key : List ℕ)
    → every_key p table ≡ true
    → long_key_in table c ≡ some key
    → p key ≡ true
unfolding every_key long_key_in
long_key_in-every p [] c key h e = absurd (cc)
long_key_in-every p (entry ∷ table) c key h e = ground (arith, long_key_in-every p table c key)

-- EXPR_INT, EXPR_STR or EXPR_BOOL
abbrev pub is_value_type : Option ExprType → Bool
is_value_type (some type_int) = true
is_value_type (some type_str) = true
is_value_type (some type_bool) = true
is_value_type _ = false

fits : List ℕ → Bool
fits key = leb (length key) 11 && is_value_type (lookup_key_type key)

every_fits : every_key fits map_short2long ≡ true
unfolding every_key fits map_short2long lookup_key_type key_type_in builtin strcmp
every_fits = refl

-- A key that a short one stands for has at most eleven characters and a type.
pub lookup_long_key_fits :
    (c : ℕ) (key : List ℕ)
    → lookup_long_key c ≡ some key
    → (length key ≤ 11) × (is_value_type (lookup_key_type key) ≡ true)
unfolding lookup_long_key fits
lookup_long_key_fits c key e =
    let h = long_key_in-every fits map_short2long c key every_fits e in ground (arith, h)

pub lookup_long_key-zero : lookup_long_key 0 ≡ none
unfolding lookup_long_key long_key_in map_short2long
lookup_long_key-zero = refl
