-- ===== src/Filters/Recursion.antt =====
-- The recursion of `expr_check_leaves` of app/expr.c through named filters ends, since app/filters.c marks
-- each as visited; the mark stays, so a name that comes twice is refused.
use graceful_music.Common.{
  ℕ, zero, suc, ◌≤◌, ◌<◌, ◌≡◌, refl, ap, ◌∙◌, ◌≢◌, ◌⊎◌, inl, inr, Bool, false, Option, none, some,
  List, [], ◌∷◌, arith, if◌then◌else◌, Bool-cases, Option-cases, if_same, Result, ok, failed, bug,
  out_of_fuel, is_str,
}
use graceful_music.Expr.{
  ExprType, type_and, type_or, type_not, type_str, type_int, type_id, type_bool, Expr, null,
  expr_and, expr_or, expr_not, expr_str, expr_int, expr_id, expr_bool, is_null, Error,
}
use graceful_music.Expr.Keys.{lookup_key_type}
use graceful_music.Filters.{
  FilterEntry, Filters, find_filter, set_visited, get_filter, Outcome, and_then, same_type,
  check_leaf, check_both, check_tree,
}
use graceful_music.Filters.Check.{replace_by, expr_check_leaves}

-- The filters that are not visited.
unfoldable pub unvisited : List FilterEntry → ℕ
unvisited [] = 0
unvisited (e ∷ entries) = let rest = unvisited entries in if e.visited then rest else suc rest

-- The call ends, and leaves no more filters to visit than there were.
abbrev Settles : ℕ → Outcome → Type 0
Settles n o = (o.0 ≢ out_of_fuel) × (unvisited o.1.entries ≤ n)

and_then-Settles :
    (n : ℕ) (o : Outcome) (f : Expr → Filters → Outcome)
    → Settles n o
    → ((e : Expr) (fs : Filters) → unvisited fs.entries ≤ n → Settles n (f e fs))
    → Settles n (and_then o f)
unfolding and_then
and_then-Settles n (ok e, fs) f h k = k e fs h.1
and_then-Settles n (failed err, fs) f h k = (cc, h.1)
and_then-Settles n (bug, fs) f h k = (cc, h.1)
and_then-Settles n (out_of_fuel, fs) f h k = absurd (h.0 refl)

check_leaf-Settles :
    (n : ℕ) (type : ExprType) (key : List ℕ) (leaf : Expr) (t : Option ExprType)
    (replace : Filters → Outcome) (fs : Filters)
    → unvisited fs.entries ≤ n
    → Settles n (replace fs)
    → Settles n (check_leaf type key leaf t replace fs)
unfolding check_leaf
check_leaf-Settles n type key leaf (some t) replace fs h r =
    if_same {A = Outcome} (Settles n) (same_type t type) (λ _. (cc, h)) (λ _. (cc, h))
check_leaf-Settles n type_bool key leaf none replace fs h r = r
check_leaf-Settles n type_and key leaf none replace fs h r = (cc, h)
check_leaf-Settles n type_or key leaf none replace fs h r = (cc, h)
check_leaf-Settles n type_not key leaf none replace fs h r = (cc, h)
check_leaf-Settles n type_str key leaf none replace fs h r = (cc, h)
check_leaf-Settles n type_int key leaf none replace fs h r = (cc, h)
check_leaf-Settles n type_id key leaf none replace fs h r = (cc, h)

check_both-Settles :
    (n : ℕ) (make : Expr → Expr → Expr) (no_right : Bool) (left : Outcome)
    (right : Filters → Outcome)
    → Settles n left
    → ((fs : Filters) → unvisited fs.entries ≤ n → Settles n (right fs))
    → Settles n (check_both make no_right left right)
unfolding check_both
check_both-Settles n make no_right left right h k = and_then-Settles n left _ h λ l gs g.
    if_same {A = Outcome} (Settles n) no_right (λ _. (cc, g))
      λ _. and_then-Settles n (right gs) _ (k gs g) λ r hs b. (cc, b)

module _ (n : ℕ) (lookup : List ℕ → Option ExprType) (replace : List ℕ → Filters → Outcome)
    (r : (key : List ℕ) (fs : Filters)
      → unvisited fs.entries ≤ n
      → Settles n (replace key fs)) where
  check_tree-Settles :
      (e : Expr) (fs : Filters)
      → unvisited fs.entries ≤ n
      → Settles n (check_tree lookup replace e fs)
  unfolding check_tree
  check_tree-Settles null fs h = (cc, h)
  check_tree-Settles (expr_and left right) fs h =
      check_both-Settles n expr_and (is_null right) (check_tree lookup replace left fs)
        (check_tree lookup replace right) (check_tree-Settles left fs h) (check_tree-Settles right)
  check_tree-Settles (expr_or left right) fs h =
      check_both-Settles n expr_or (is_null right) (check_tree lookup replace left fs)
        (check_tree lookup replace right) (check_tree-Settles left fs h) (check_tree-Settles right)
  check_tree-Settles (expr_not left) fs h =
      and_then-Settles n (check_tree lookup replace left fs) _ (check_tree-Settles left fs h)
        λ e gs k. (cc, k)
  check_tree-Settles (expr_str key glob_head op) fs h =
      check_leaf-Settles n type_str key _ (lookup key) (replace key) fs h (r key fs h)
  check_tree-Settles (expr_int key val op) fs h =
      check_leaf-Settles n type_int key _ (lookup key) (replace key) fs h (r key fs h)
  check_tree-Settles (expr_id key other op) fs h =
      check_leaf-Settles n type_id key _ (lookup key) (replace key) fs h (r key fs h)
  check_tree-Settles (expr_bool key) fs h =
      check_leaf-Settles n type_bool key _ (lookup key) (replace key) fs h (r key fs h)

-- A filter that was not visited is one less to visit.
unvisited-set_visited :
    (name : List ℕ) (entries : List FilterEntry) (e : FilterEntry)
    → find_filter name entries ≡ some e
    → e.visited ≡ false
    → suc (unvisited (set_visited name entries)) ≡ unvisited entries
unfolding unvisited set_visited find_filter
unvisited-set_visited name [] e f v = absurd (cc)
unvisited-set_visited name (x ∷ entries) e f v = elim (Bool-cases (is_str x.name name)) [
  | inl t ↦
      let g : x ≡ e = ground (arith, t) in
      let w : x.visited ≡ false = ap (λ y. y.visited) g ∙ v in rw (t, w)
  | inr t ↦
      let h = unvisited-set_visited name entries e (ground (arith, t)) v in rw t (ground (arith, h))
]

-- What `get_filter` comes to: nothing is visited, or a filter that was not.
get_filter-unvisited :
    (key : List ℕ) (fs : Filters)
    → ((get_filter key fs).0 ≡ none)
        × (unvisited (get_filter key fs).1.entries ≡ unvisited fs.entries)
      ⊎ ((filter : List ℕ) × ((get_filter key fs).0 ≡ some filter)
          × (suc (unvisited (get_filter key fs).1.entries) ≡ unvisited fs.entries))
unfolding get_filter
get_filter-unvisited key fs = elim (Option-cases (find_filter key fs.entries)) [
  | inl e ↦ rw (get_filter, e) (inl (refl, refl))
  | inr (x, e) ↦ elim (Bool-cases x.visited) [
    | inl v ↦ rw (get_filter, e, v) (inl (refl, refl))
    | inr v ↦
        rw (get_filter, e, v) (inr (x.filter, refl, unvisited-set_visited key fs.entries x e v))
  ]
]

parsed-Settles :
    (n : ℕ) (r : Result Error Expr) (gs : Filters) (check : Expr → Filters → Outcome)
    → r ≢ out_of_fuel
    → unvisited gs.entries ≤ n
    → ((t : Expr) → Settles n (check t gs))
    → Settles n (and_then (r, gs) check)
unfolding and_then
parsed-Settles n (ok t) gs check h l s = s t
parsed-Settles n (failed err) gs check h l s = (cc, l)
parsed-Settles n bug gs check h l s = (cc, l)
parsed-Settles n out_of_fuel gs check h l s = absurd (h refl)

module _ (parse : List ℕ → Result Error Expr) (ends : (s : List ℕ) → parse s ≢ out_of_fuel) where
  replace_by-Settles :
      (n : ℕ) (check : Expr → Filters → Outcome) (key : List ℕ) (fs : Filters)
      → unvisited fs.entries ≤ n
      → ((e : Expr) (gs : Filters) → suc (unvisited gs.entries) ≤ n → Settles n (check e gs))
      → Settles n (replace_by parse check key fs)
  unfolding replace_by
  replace_by-Settles n check key fs h k = elim (get_filter-unvisited key fs) [
    | inl (e, u) ↦ rw (replace_by, e) (cc, omega (arith, u))
    | inr (filter, e, u) ↦
        rw (replace_by, e)
          (parsed-Settles n (parse filter) (get_filter key fs).1 check (ends filter)
            (omega (arith, u)) λ t. k t (get_filter key fs).1 (omega (arith, u)))
  ]

  expr_check_leaves-Settles :
      (fuel : ℕ) (e : Expr) (fs : Filters)
      → unvisited fs.entries < fuel
      → Settles (unvisited fs.entries) (expr_check_leaves parse fuel e fs)
  unfolding expr_check_leaves
  expr_check_leaves-Settles zero e fs h = absurd (omega arith)
  expr_check_leaves-Settles (suc fuel) e fs h =
      check_tree-Settles (unvisited fs.entries) lookup_key_type
        (replace_by parse (expr_check_leaves parse fuel))
        (λ key gs l.
          replace_by-Settles (unvisited fs.entries) (expr_check_leaves parse fuel) key gs l
            λ t hs k.
              let s = expr_check_leaves-Settles fuel t hs (omega arith) in
              (s.0, omega (arith, s.1)))
        e fs (omega arith)

  -- The recursion of `expr_check_leaves` through the filters that the names in an expression stand for, and
  -- through the names in those, ends for every table of filters: there are no more rounds than filters that
  -- are not visited.
  pub expr_check_leaves_ends :
      (fuel : ℕ) (e : Expr) (fs : Filters)
      → unvisited fs.entries < fuel
      → (expr_check_leaves parse fuel e fs).0 ≢ out_of_fuel
  expr_check_leaves_ends fuel e fs h = (expr_check_leaves-Settles fuel e fs h).0
