-- ===== src/Filters/Typed.antt =====
-- The whole of `expr_check_leaves` of app/expr.c: its result is the expression with the filters put in,
-- and evaluates only keys that are known, by their types.
use graceful_music.Common.{
  ℕ, zero, suc, ◌≡◌, refl, sym, ◌∙◌, ◌≢◌, inl, inr, Bool, true, false, ◌&&◌, not, Option, none,
  some, List, [], ◌∷◌, arith, Bool-cases, Option-cases, if_same, some_inj, pos, ltb_ℤ, ◌==ℤ◌,
  strcmp, Result, ok, failed, bug, out_of_fuel, and_true,
}
use graceful_music.Expr.{
  ExprType, type_str, type_int, type_id, type_bool, Expr, null, expr_and, expr_or, expr_not,
  expr_str, expr_int, expr_id, expr_bool, Error,
}
use graceful_music.Expr.Keys.{builtin, key_type_in, lookup_key_type}
use graceful_music.Filters.{Filters, find_filter, get_filter, Outcome, and_then, same_type}
use graceful_music.Filters.Check.{replace_by, expr_check_leaves}
use graceful_music.Filters.Expand.{
  text_of, Expands, missing, kept_str, kept_int, kept_id, kept_bool, replaced, under_not, under_and,
  under_or, HasTexts, Fits, wrong, crash, unknown, Fits-map, Fits-ok, text_of-set_visited,
  check_tree-Fits,
}

module _ (parse : List ℕ → Result Error Expr) (text : List ℕ → Option (List ℕ)) where
  get_filter-texts :
      (key : List ℕ) (fs : Filters)
      → HasTexts text fs
      → HasTexts text (get_filter key fs).1
        × ((filter : List ℕ) → (get_filter key fs).0 ≡ some filter → text key ≡ some filter)
  unfolding get_filter text_of
  get_filter-texts key fs h = elim (Option-cases (find_filter key fs.entries)) [
    | inl e ↦ rw (get_filter, e) (h, λ filter f. absurd (cc))
    | inr (x, e) ↦ elim (Bool-cases x.visited) [
      | inl v ↦ rw (get_filter, e, v) (h, λ filter f. absurd (cc))
      | inr v ↦
          rw (get_filter, e, v)
            (
              (λ name. text_of-set_visited key name fs.entries ∙ h name),
              λ filter f. sym (h key) ∙ rw (text_of, e) f,
            )
    ]
  ]

  replace_by-Fits :
      (check : Expr → Filters → Outcome) (key : List ℕ) (fs : Filters)
      → HasTexts text fs
      → lookup_key_type key ≡ none
      → ((e : Expr) (gs : Filters)
          → HasTexts text gs
          → Fits text (Expands parse text e) (check e gs))
      → Fits text (Expands parse text (expr_bool key)) (replace_by parse check key fs)
  unfolding replace_by and_then
  replace_by-Fits check key fs h n k =
      let t = get_filter-texts key fs h in
      elim (Option-cases (get_filter key fs).0) [
        | inl e ↦ rw (replace_by, e) wrong
        | inr (filter, e) ↦
            rw (replace_by, e) (parsed filter (t.1 filter e) t.0 (parse filter) refl)
      ]
    where
      parsed :
          (filter : List ℕ)
          → text key ≡ some filter
          → HasTexts text (get_filter key fs).1
          → (r : Result Error Expr) → parse filter ≡ r
          → Fits text
              (Expands parse text (expr_bool key))
              (and_then (r, (get_filter key fs).1) check)
      parsed filter f t (ok e) q =
          Fits-map text (Expands parse text e) _ (check e (get_filter key fs).1)
            (λ e' p. replaced n f q p) (k e (get_filter key fs).1 t)
      parsed filter f t (failed err) q = wrong
      parsed filter f t bug q = crash
      parsed filter f t out_of_fuel q = unknown

  expr_check_leaves-Fits :
      (fuel : ℕ) (e : Expr) (fs : Filters)
      → HasTexts text fs
      → Fits text (Expands parse text e) (expr_check_leaves parse fuel e fs)
  unfolding expr_check_leaves
  expr_check_leaves-Fits zero e fs h = unknown
  expr_check_leaves-Fits (suc fuel) e fs h =
      check_tree-Fits parse text (replace_by parse (expr_check_leaves parse fuel))
        (λ key gs t n.
          replace_by-Fits (expr_check_leaves parse fuel) key gs t n (expr_check_leaves-Fits fuel))
        e fs h

-- When `expr_check_leaves` succeeds, the tree that it leaves is the given one with each name of a filter
-- replaced by the tree of the filter's text, in which the names are replaced as well.
pub expr_check_leaves-Expands :
    (parse : List ℕ → Result Error Expr) (fuel : ℕ) (e e' : Expr) (fs : Filters)
    → (expr_check_leaves parse fuel e fs).0 ≡ ok e'
    → Expands parse (λ name. text_of name fs.entries) e e'
expr_check_leaves-Expands parse fuel e e' fs h =
    Fits-ok (λ name. text_of name fs.entries) (Expands parse (λ name. text_of name fs.entries) e)
      (expr_check_leaves parse fuel e fs) e'
      (expr_check_leaves-Fits parse (λ name. text_of name fs.entries) fuel e fs λ name. refl) h

abbrev is_type : ExprType → Option ExprType → Bool
is_type t none = false
is_type t (some u) = same_type u t

-- Each leaf has a key of `builtin`, and the type that is its type there: a text, a number or a flag.
unfoldable pub is_typed : Expr → Bool
is_typed null = true
is_typed (expr_and left right) = is_typed left && is_typed right
is_typed (expr_or left right) = is_typed left && is_typed right
is_typed (expr_not left) = is_typed left
is_typed (expr_str key glob_head op) = is_type type_str (lookup_key_type key)
is_typed (expr_int key val op) = is_type type_int (lookup_key_type key)
is_typed (expr_id key other op) = false
is_typed (expr_bool key) = is_type type_bool (lookup_key_type key)

-- No key of `builtin` has the type of a comparison of two keys.
unfoldable no_id : List (List ℕ × ExprType) → Bool
no_id [] = true
no_id (entry ∷ table) = not (same_type type_id entry.1) && no_id table

key_type_in-no_id :
    (table : List (List ℕ × ExprType)) (key : List ℕ)
    → no_id table ≡ true
    → key_type_in table key ≢ some type_id
unfolding no_id key_type_in
key_type_in-no_id [] key h e = absurd (cc)
key_type_in-no_id ((k, t) ∷ table) key h e =
    let p = and_true (not (same_type type_id t)) (no_id table) h in
    if_same (λ o. o ≡ some type_id → ⊥) (strcmp key k ==ℤ pos 0)
      (λ _ f. other t p.0 (some_inj t type_id f))
      (λ _.
        if_same (λ o. o ≡ some type_id → ⊥) (ltb_ℤ (strcmp key k) (pos 0)) (λ _ f. absurd (cc))
          λ _. key_type_in-no_id table key p.1)
      e
  where
    other : (t : ExprType) → not (same_type type_id t) ≡ true → t ≢ type_id
    other t h e = absurd (ground arith)

lookup_key_type-no_id : (key : List ℕ) → lookup_key_type key ≢ some type_id
unfolding lookup_key_type builtin no_id
lookup_key_type-no_id key = key_type_in-no_id builtin key refl

Expands-is_typed :
    (parse : List ℕ → Result Error Expr) (text : List ℕ → Option (List ℕ)) (e e' : Expr)
    → Expands parse text e e'
    → is_typed e' ≡ true
unfolding is_typed
Expands-is_typed parse text e e' missing = refl
Expands-is_typed parse text e e' (kept_str h) = rw h
Expands-is_typed parse text e e' (kept_int h) = rw h
Expands-is_typed parse text e e' (kept_id {key} h) = absurd (lookup_key_type-no_id key h)
Expands-is_typed parse text e e' (kept_bool h) = rw h
Expands-is_typed parse text e e' (replaced {e = f} n t p x) = Expands-is_typed parse text f e' x
Expands-is_typed parse text e e' (under_not {l} {l'} x) = Expands-is_typed parse text l l' x
Expands-is_typed parse text e e' (under_and {l} {l'} {r} {r'} x y) =
    rw (Expands-is_typed parse text l l' x, Expands-is_typed parse text r r' y)
Expands-is_typed parse text e e' (under_or {l} {l'} {r} {r'} x y) =
    rw (Expands-is_typed parse text l l' x, Expands-is_typed parse text r r' y)

-- An expression that `expr_check_leaves` lets pass compares only keys of the table, texts with texts and
-- numbers with numbers, uses only flags as they are, and compares no two keys with each other.
pub expr_check_leaves-is_typed :
    (parse : List ℕ → Result Error Expr) (fuel : ℕ) (e e' : Expr) (fs : Filters)
    → (expr_check_leaves parse fuel e fs).0 ≡ ok e'
    → is_typed e' ≡ true
expr_check_leaves-is_typed parse fuel e e' fs h =
    Expands-is_typed parse (λ name. text_of name fs.entries) e e'
      (expr_check_leaves-Expands parse fuel e e' fs h)
