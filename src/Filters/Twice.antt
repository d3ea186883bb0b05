-- ===== src/Filters/Twice.antt =====
-- A named filter that comes twice in an expression, which app/filters.c takes for a recursion.
use graceful_music.Common.{
  ℕ, zero, suc, ◌+◌, ◌≤◌, ◌≡◌, refl, sym, ap, ◌∙◌, ◌≢◌, inl, inr, Bool, true, Option, none, some,
  List, [], ◌∷◌, arith, if◌then◌else◌, Bool-cases, Option-cases, Result, ok, failed, bug,
  out_of_fuel, is_str, strcmp_eq, ==ℤ_eq, if_same,
}
use graceful_music.Expr.{
  ExprType, type_and, type_or, type_not, type_str, type_int, type_id, type_bool, Expr, null,
  expr_and, expr_or, expr_not, expr_str, expr_int, expr_id, expr_bool, is_null, Error,
  unknown_filter,
}
use graceful_music.Expr.Keys.{lookup_key_type}
use graceful_music.Filters.{
  FilterEntry, Filters, find_filter, set_visited, get_filter, Outcome, and_then, same_type,
  check_leaf, check_both, check_tree,
}
use graceful_music.Filters.Check.{replace_by, expr_check_leaves}
use graceful_music.Filters.Keeps.{and_then-keeps, replace_by-keeps, expr_check_leaves-keeps}

-- There is no filter of the name, or it is visited.
unfoldable pub taken : List ℕ → List FilterEntry → Bool
taken name [] = true
taken name (e ∷ entries) = if is_str e.name name then e.visited else taken name entries

taken-set_visited :
    (other name : List ℕ) (entries : List FilterEntry)
    → taken name entries ≡ true
    → taken name (set_visited other entries) ≡ true
unfolding taken set_visited
taken-set_visited other name [] h = refl
taken-set_visited other name (x ∷ entries) h = ground (arith, taken-set_visited other name entries)

set_visited-taken :
    (name : List ℕ) (entries : List FilterEntry) → taken name (set_visited name entries) ≡ true
unfolding taken set_visited
set_visited-taken name [] = refl
set_visited-taken name (x ∷ entries) = ground (arith, set_visited-taken name entries)

taken-find_filter :
    (name : List ℕ) (entries : List FilterEntry) (e : FilterEntry)
    → taken name entries ≡ true
    → find_filter name entries ≡ some e
    → e.visited ≡ true
unfolding taken find_filter
taken-find_filter name [] e h f = absurd (cc)
taken-find_filter name (x ∷ entries) e h f = elim (Bool-cases (is_str x.name name)) [
  | inl t ↦ let g : x ≡ e = ground (arith, t) in sym (ap (λ y. y.visited) g) ∙ ground (arith, t)
  | inr t ↦ taken-find_filter name entries e (ground (arith, t)) (ground (arith, t))
]

find_filter-none-taken :
    (name : List ℕ) (entries : List FilterEntry)
    → find_filter name entries ≡ none
    → taken name entries ≡ true
unfolding taken find_filter
find_filter-none-taken name [] h = refl
find_filter-none-taken name (x ∷ entries) h = ground (arith, find_filter-none-taken name entries)

find_filter-taken :
    (name : List ℕ) (entries : List FilterEntry) (e : FilterEntry)
    → find_filter name entries ≡ some e
    → e.visited ≡ true
    → taken name entries ≡ true
unfolding taken find_filter
find_filter-taken name [] e h v = refl
find_filter-taken name (x ∷ entries) e h v = elim (Bool-cases (is_str x.name name)) [
  | inl t ↦ let g : x ≡ e = ground (arith, t) in rw t (ap (λ y. y.visited) g ∙ v)
  | inr t ↦ rw t (find_filter-taken name entries e (ground (arith, t)) v)
]

-- A name that was looked up is taken, and stays so.
get_filter-taken : (name : List ℕ) (fs : Filters) → taken name (get_filter name fs).1.entries ≡ true
unfolding get_filter
get_filter-taken name fs = elim (Option-cases (find_filter name fs.entries)) [
  | inl e ↦ rw (get_filter, e) (find_filter-none-taken name fs.entries e)
  | inr (x, e) ↦ elim (Bool-cases x.visited) [
    | inl v ↦ rw (get_filter, e, v) (find_filter-taken name fs.entries x e v)
    | inr v ↦ rw (get_filter, e, v) (set_visited-taken name fs.entries)
  ]
]

get_filter-keeps :
    (name key : List ℕ) (fs : Filters)
    → taken name fs.entries ≡ true
    → taken name (get_filter key fs).1.entries ≡ true
unfolding get_filter
get_filter-keeps name key fs h = elim (Option-cases (find_filter key fs.entries)) [
  | inl e ↦ rw (get_filter, e) h
  | inr (x, e) ↦ elim (Bool-cases x.visited) [
    | inl v ↦ rw (get_filter, e, v) h
    | inr v ↦ rw (get_filter, e, v) (taken-set_visited key name fs.entries h)
  ]
]

taken-get_filter :
    (name : List ℕ) (fs : Filters) → taken name fs.entries ≡ true → (get_filter name fs).0 ≡ none
unfolding get_filter
taken-get_filter name fs h = elim (Option-cases (find_filter name fs.entries)) [
  | inl e ↦ rw (get_filter, e)
  | inr (x, e) ↦ rw (get_filter, e, taken-find_filter name fs.entries x h e)
]

module _ (parse : List ℕ → Result Error Expr) (check : Expr → Filters → Outcome)
    (name : List ℕ) where
  replace_by-taken :
      ((e : Expr) (fs : Filters)
        → taken name fs.entries ≡ true
        → taken name (check e fs).1.entries ≡ true)
      → (fs : Filters) → taken name (replace_by parse check name fs).1.entries ≡ true
  unfolding replace_by
  replace_by-taken k fs = elim (Option-cases (get_filter name fs).0) [
    | inl e ↦ rw (replace_by, e) (get_filter-taken name fs)
    | inr (filter, e) ↦
        rw (replace_by, e)
          (and_then-keeps (λ gs. taken name gs.entries ≡ true)
            (parse filter, (get_filter name fs).1) check (get_filter-taken name fs) k)
  ]

  taken-replace_by :
      (fs : Filters)
      → taken name fs.entries ≡ true
      → (replace_by parse check name fs).0 ≡ failed (unknown_filter name)
  unfolding replace_by
  taken-replace_by fs h = rw (replace_by, taken-get_filter name fs h)

-- How often an expression uses a name as it is.
unfoldable pub occurrences : List ℕ → Expr → ℕ
occurrences name (expr_and left right) = occurrences name left + occurrences name right
occurrences name (expr_or left right) = occurrences name left + occurrences name right
occurrences name (expr_not left) = occurrences name left
occurrences name (expr_bool key) = if is_str key name then 1 else 0
occurrences name (expr_str key glob_head op) = 0
occurrences name (expr_int key val op) = 0
occurrences name (expr_id key other op) = 0
occurrences name null = 0

-- 1 for a name that is taken
abbrev mark : List ℕ → Filters → ℕ
mark name fs = if taken name fs.entries then 1 else 0

-- A call that succeeds took `n` names that were not taken before.
abbrev Takes : (name : List ℕ) (n : ℕ) (fs : Filters) → Outcome → Type 0
Takes name n fs o = (e : Expr) → o.0 ≡ ok e → n + mark name fs ≤ mark name o.1

Takes-and_then :
    (name : List ℕ) (m n : ℕ) (fs : Filters) (o : Outcome) (f : Expr → Filters → Outcome)
    → Takes name m fs o
    → ((e : Expr) → Takes name n o.1 (f e o.1))
    → Takes name (m + n) fs (and_then o f)
unfolding and_then
Takes-and_then name m n fs (ok l, gs) f h k e q = omega (arith, h l refl, k l e q)
Takes-and_then name m n fs (failed err, gs) f h k e q = absurd (cc)
Takes-and_then name m n fs (bug, gs) f h k e q = absurd (cc)
Takes-and_then name m n fs (out_of_fuel, gs) f h k e q = absurd (cc)

occurrences-null : (name : List ℕ) (e : Expr) → is_null e ≡ true → occurrences name e ≡ 0
unfolding occurrences
occurrences-null name null h = refl
occurrences-null name (expr_and left right) h = absurd (cc)
occurrences-null name (expr_or left right) h = absurd (cc)
occurrences-null name (expr_not left) h = absurd (cc)
occurrences-null name (expr_bool key) h = absurd (cc)
occurrences-null name (expr_str key glob_head op) h = absurd (cc)
occurrences-null name (expr_int key val op) h = absurd (cc)
occurrences-null name (expr_id key other op) h = absurd (cc)

Takes-check_both :
    (name : List ℕ) (m : ℕ) (make : Expr → Expr → Expr) (right : Expr) (fs : Filters)
    (left : Outcome) (check_right : Filters → Outcome)
    → Takes name m fs left
    → ((gs : Filters) → Takes name (occurrences name right) gs (check_right gs))
    → Takes name (m + occurrences name right) fs (check_both make (is_null right) left check_right)
unfolding check_both
Takes-check_both name m make right fs left check_right h k =
    Takes-and_then name m (occurrences name right) fs left _ h λ l.
      elim (Bool-cases (is_null right)) [
        | inl n ↦ rw n (λ e q. omega (arith, occurrences-null name right n))
        | inr n ↦ rw n (λ e q. omega (
          arith,
          Takes-and_then name (occurrences name right) 0 left.1 (check_right left.1) _ (k left.1)
              (λ r e' p. omega arith) e q,
        ))
      ]

module _ (name : List ℕ) (replace : List ℕ → Filters → Outcome)
    (kept : (key : List ℕ) (fs : Filters) → Takes name 0 fs (replace key fs))
    (taking : (fs : Filters) → Takes name 1 fs (replace name fs))
    (is_filter : lookup_key_type name ≡ none) where
  Takes-check_leaf :
      (type : ExprType) (key : List ℕ) (leaf : Expr) (t : Option ExprType) (fs : Filters)
      → Takes name 0 fs (check_leaf type key leaf t (replace key) fs)
  unfolding check_leaf
  Takes-check_leaf type key leaf (some t) fs =
      if_same {A = Outcome} (Takes name 0 fs) (same_type t type) (λ _ e q. omega arith)
        (λ _ e q. absurd (cc))
  Takes-check_leaf type_bool key leaf none fs = kept key fs
  Takes-check_leaf type_and key leaf none fs = λ e q. absurd (cc)
  Takes-check_leaf type_or key leaf none fs = λ e q. absurd (cc)
  Takes-check_leaf type_not key leaf none fs = λ e q. absurd (cc)
  Takes-check_leaf type_str key leaf none fs = λ e q. absurd (cc)
  Takes-check_leaf type_int key leaf none fs = λ e q. absurd (cc)
  Takes-check_leaf type_id key leaf none fs = λ e q. absurd (cc)

  Takes-check_name :
      (key : List ℕ) (fs : Filters)
      → Takes name
          (occurrences name (expr_bool key))
          fs
          (check_leaf type_bool key (expr_bool key) (lookup_key_type key) (replace key) fs)
  unfolding occurrences
  Takes-check_name key fs = elim (Bool-cases (is_str key name)) [
    | inl t ↦
        let same : key ≡ name = strcmp_eq key name (==ℤ_eq _ _ t) in
        rw (t, same, is_filter) (unfold check_leaf in taking fs)
    | inr t ↦ rw t (Takes-check_leaf type_bool key (expr_bool key) (lookup_key_type key) fs)
  ]

  Takes-check_tree :
      (e : Expr) (fs : Filters)
      → Takes name (occurrences name e) fs (check_tree lookup_key_type replace e fs)
  unfolding check_tree occurrences
  Takes-check_tree null fs = λ e q. absurd (cc)
  Takes-check_tree (expr_and left right) fs =
      Takes-check_both name (occurrences name left) expr_and right fs _
        (check_tree lookup_key_type replace right) (Takes-check_tree left fs)
        (Takes-check_tree right)
  Takes-check_tree (expr_or left right) fs =
      Takes-check_both name (occurrences name left) expr_or right fs _
        (check_tree lookup_key_type replace right) (Takes-check_tree left fs)
        (Takes-check_tree right)
  Takes-check_tree (expr_not left) fs = λ e q. omega (
    arith,
    Takes-and_then name (occurrences name left) 0 fs (check_tree lookup_key_type replace left fs) _
        (Takes-check_tree left fs) (λ l e' p. omega arith) e q,
  )
  Takes-check_tree (expr_str key glob_head op) fs =
      Takes-check_leaf type_str key (expr_str key glob_head op) (lookup_key_type key) fs
  Takes-check_tree (expr_int key val op) fs =
      Takes-check_leaf type_int key (expr_int key val op) (lookup_key_type key) fs
  Takes-check_tree (expr_id key other op) fs =
      Takes-check_leaf type_id key (expr_id key other op) (lookup_key_type key) fs
  Takes-check_tree (expr_bool key) fs = Takes-check_name key fs

module _ (parse : List ℕ → Result Error Expr) (fuel : ℕ) (name : List ℕ) where
  keeps :
      (e : Expr) (fs : Filters)
      → taken name fs.entries ≡ true
      → taken name (expr_check_leaves parse fuel e fs).1.entries ≡ true
  keeps =
      expr_check_leaves-keeps (λ gs. taken name gs.entries ≡ true) parse (get_filter-keeps name)
        fuel

  replace_by-kept :
      (key : List ℕ) (fs : Filters)
      → Takes name 0 fs (replace_by parse (expr_check_leaves parse fuel) key fs)
  replace_by-kept key fs e q = elim (Bool-cases (taken name fs.entries)) [
    | inl t ↦
        rw
          (
            t,
            replace_by-keeps (λ gs. taken name gs.entries ≡ true) parse (get_filter-keeps name)
                (expr_check_leaves parse fuel) keeps key fs t,
          )
          (omega arith)
    | inr t ↦ rw t (omega arith)
  ]

  replace_by-taking :
      (fs : Filters) → Takes name 1 fs (replace_by parse (expr_check_leaves parse fuel) name fs)
  replace_by-taking fs e q = elim (Bool-cases (taken name fs.entries)) [
    | inl t ↦ let u = taken-replace_by parse (expr_check_leaves parse fuel) name fs t in absurd (cc)
    | inr t ↦
        rw (t, replace_by-taken parse (expr_check_leaves parse fuel) name keeps fs) (omega arith)
  ]

-- An expression that uses the name of a filter twice, in whatever places, never passes
-- `expr_check_leaves`: the mark of the one place is still there at the other. The name is none of a key.
pub expr_check_leaves-twice :
    (parse : List ℕ → Result Error Expr) (fuel : ℕ) (name : List ℕ) (fs : Filters) (e e' : Expr)
    → lookup_key_type name ≡ none
    → 2 ≤ occurrences name e
    → (expr_check_leaves parse fuel e fs).0 ≢ ok e'
unfolding expr_check_leaves
expr_check_leaves-twice parse zero name fs e e' h n q = absurd (cc)
expr_check_leaves-twice parse (suc fuel) name fs e e' h n q =
    let replace = replace_by parse (expr_check_leaves parse fuel) in
    let grows =
      Takes-check_tree name replace (replace_by-kept parse fuel name)
        (replace_by-taking parse fuel name) h e fs e' q in
    at_most (check_tree lookup_key_type replace e fs).1 grows
  where
    at_most : (gs : Filters) → occurrences name e + mark name fs ≤ mark name gs → ⊥
    at_most gs grows = elim (Bool-cases (taken name gs.entries)) [
      | inl t ↦ let g : occurrences name e + mark name fs ≤ 1 = rw t at grows in omega (arith, g)
      | inr t ↦ let g : occurrences name e + mark name fs ≤ 0 = rw t at grows in omega (arith, g)
    ]
