-- ===== src/Filters/Sorted.antt =====
-- The table of named filters in app/filters.c: in the order of the names, each once, and with the text that
-- was set last.
use graceful_music.Common.{
  ℕ, ◌≤◌, ◌≡◌, refl, sym, ◌∙◌, subst, inl, inr, Bool, true, false, Option, some, List, [], ◌∷◌,
  arith, if◌then◌else◌, Bool-cases, pos, negsuc, strcmp, strcmp_refl, strcmp_eq, Result, ==ℤ_eq,
  is_str, strcmp_cases, strcmp_gt,
}
use graceful_music.Expr.{Expr, Error}
use graceful_music.Filters.{FilterEntry, find_filter}
use graceful_music.Filters.Store.{
  Store, validate_filter_name, split_at_eq, insert_filter, is_ok, set_entries, set_named,
  filters_set_filter,
}
use graceful_music.Filters.Expand.{text_of}

-- A name comes before the first entry.
unfoldable pub IsBelow : List ℕ → List FilterEntry → Type 0
IsBelow name [] = 0 ≤ 0
IsBelow name (e ∷ entries) = strcmp name e.name ≡ negsuc 0

unfoldable pub IsSorted : List FilterEntry → Type 0
IsSorted [] = 0 ≤ 0
IsSorted (e ∷ entries) = IsBelow e.name entries × IsSorted entries

insert_filter-IsBelow :
    (name : List ℕ) (new : FilterEntry) (entries : List FilterEntry)
    → IsBelow name entries
    → strcmp name new.name ≡ negsuc 0
    → IsBelow name (insert_filter new entries)
unfolding IsBelow insert_filter
insert_filter-IsBelow name new [] h k = k
insert_filter-IsBelow name new (e ∷ entries) h k = elim (strcmp_cases new.name e.name) [
  | inl t ↦ rw t k
  | inr (inl t) ↦ rw t k
  | inr (inr t) ↦ rw t h
]

insert_filter-IsSorted :
    (new : FilterEntry) (entries : List FilterEntry)
    → IsSorted entries
    → IsSorted (insert_filter new entries)
unfolding IsSorted IsBelow insert_filter
insert_filter-IsSorted new [] h = (omega arith, omega arith)
insert_filter-IsSorted new (e ∷ entries) (b, s) = elim (strcmp_cases new.name e.name) [
  | inl t ↦ rw t (t, (b, s))
  | inr (inl t) ↦ rw t (subst (λ n. IsBelow n entries) (sym (strcmp_eq new.name e.name t)) b, s)
  | inr (inr t) ↦ rw t (
    insert_filter-IsBelow e.name new entries b (strcmp_gt new.name e.name t),
    insert_filter-IsSorted new entries s,
  )
]

text_of-cons :
    (name : List ℕ) (e : FilterEntry) (entries : List FilterEntry)
    → text_of name (e ∷ entries)
      ≡ (if is_str e.name name then some e.filter else text_of name entries)
unfolding text_of find_filter
text_of-cons name e entries = ground arith

is_str_eq : (a b : List ℕ) → is_str a b ≡ true → a ≡ b
is_str_eq a b h = strcmp_eq a b (==ℤ_eq (strcmp a b) (pos 0) h)

-- Two names that differ are not both the same as a third.
not_both : (a b c : List ℕ) → strcmp a b ≡ pos 1 → is_str b c ≡ true → is_str a c ≡ true → ⊥
not_both a b c h p q =
    let e : strcmp a b ≡ pos 0 =
      subst (λ x. strcmp a x ≡ pos 0) (is_str_eq a c q ∙ sym (is_str_eq b c p)) (strcmp_refl a) in
    cc (h, e)

-- Two tests that do not hold both can be made in either order.
swap_tests :
    (x y z : Option (List ℕ)) (p q : Bool)
    → (p ≡ true → q ≡ true → ⊥)
    → (if p then x else if q then y else z) ≡ (if q then y else if p then x else z)
swap_tests x y z true true h = absurd (h refl refl)
swap_tests x y z true false h = refl
swap_tests x y z false true h = refl
swap_tests x y z false false h = refl

text_of-insert_filter :
    (new : FilterEntry) (entries : List FilterEntry) (name : List ℕ)
    → text_of name (insert_filter new entries)
      ≡ (if is_str new.name name then some new.filter else text_of name entries)
unfolding insert_filter
text_of-insert_filter new [] name = text_of-cons name new []
text_of-insert_filter new (e ∷ entries) name = elim (strcmp_cases new.name e.name) [
  | inl t ↦ rw t (text_of-cons name new (e ∷ entries))
  | inr (inl t) ↦
      let n : new.name ≡ e.name = strcmp_eq new.name e.name t in
      let c = text_of-cons name e entries in
      rw t (
        text_of-cons name (record new { sel_stat = e.sel_stat }) entries
        ∙ rw (c, n) (elim (Bool-cases (is_str e.name name)) [ inl x ↦ rw x | inr x ↦ rw x ]))
  | inr (inr t) ↦ rw t (
      text_of-cons name e (insert_filter new entries)
      ∙ rw (text_of-insert_filter new entries name, text_of-cons name e entries)
          (swap_tests _ _ _ (is_str e.name name) (is_str new.name name)
            (not_both new.name e.name name t)))
]

set_named-entries :
    (parse : List ℕ → Result Error Expr) (visited : Bool) (name val : List ℕ) (s : Store)
    → validate_filter_name name ≡ true
    → is_ok (parse val) ≡ true
    → (e : FilterEntry) × ((set_named parse visited (some (name, val)) s).filters.entries
        ≡ insert_filter e s.filters.entries)
      × (e.name ≡ name)
      × (e.filter ≡ val)
unfolding set_named set_entries
set_named-entries parse visited name val s h k = rw (set_named, h, k) (_, refl, refl, refl)

-- Setting a filter by a proper name to a text that parses gives that name the text, and leaves the texts of
-- the other names; the names stay in their order, each once.
pub filters_set_filter_lem :
    (parse : List ℕ → Result Error Expr) (visited : Bool) (keyval name val : List ℕ) (s : Store)
    → split_at_eq keyval ≡ some (name, val)
    → validate_filter_name name ≡ true
    → is_ok (parse val) ≡ true
    → IsSorted s.filters.entries
    → let entries = (filters_set_filter parse visited keyval s).filters.entries in
      IsSorted entries
      × ((other : List ℕ)
          → text_of other entries
            ≡ (if is_str name other then some val else text_of other s.filters.entries))
unfolding filters_set_filter
filters_set_filter_lem parse visited keyval name val s e h k sorted =
    let (new, p, n, f) = set_named-entries parse visited name val s h k in
    rw (e, p)
      (
        insert_filter-IsSorted new s.filters.entries sorted,
        λ other. text_of-insert_filter new s.filters.entries other ∙ rw (n, f),
      )
