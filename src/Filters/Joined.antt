-- ===== src/Filters/Joined.antt =====
-- The tree that `filters_activate` of app/filters.c makes of the selected filters.
use graceful_music.Common.{
  ℕ, ◌≡◌, refl, Bool, true, false, List, [], ◌∷◌, arith, if◌then◌else◌, Result, ok, failed, bug,
  out_of_fuel, bind,
}
use graceful_music.Expr.{Expr, expr_and, expr_not, is_null, Error}
use graceful_music.Filters.{SelStat, fs_ignore, fs_yes, fs_no, FilterEntry, find_filter}
use graceful_music.Filters.Expand.{text_of}
use graceful_music.Filters.Store.{and_signed, Joined, join_parsed, join_by, join_selected}

-- Two conditions, of which the first may be none.
unfoldable pub both : Expr → Expr → Expr
both e f = if is_null e then f else expr_and e f

-- The tree on the right is the one on the left and all selected filters, in their order: the tree of a filter's
-- text, or its negation.
pub data Joins (parse : List ℕ → Result Error Expr) : Expr → List FilterEntry → Expr → Type 0 where
  no_more : {e : Expr} → Joins parse e [] e
  ignored :
      {e : Expr} {x : FilterEntry} {entries : List FilterEntry} {e' : Expr}
      → x.sel_stat ≡ fs_ignore
      → Joins parse e entries e'
      → Joins parse e (x ∷ entries) e'
  wanted :
      {e : Expr} {x : FilterEntry} {entries : List FilterEntry} {f e' : Expr}
      → x.sel_stat ≡ fs_yes
      → parse x.filter ≡ ok f
      → Joins parse (both e f) entries e'
      → Joins parse e (x ∷ entries) e'
  unwanted :
      {e : Expr} {x : FilterEntry} {entries : List FilterEntry} {f e' : Expr}
      → x.sel_stat ≡ fs_no
      → parse x.filter ≡ ok f
      → Joins parse (both e (expr_not f)) entries e'
      → Joins parse e (x ∷ entries) e'

abbrev is_selected : SelStat → Bool
is_selected fs_ignore = false
is_selected _ = true

-- The selected filters are marked as visited, and no others.
unfoldable pub marked : List FilterEntry → List FilterEntry
marked [] = []
marked (x ∷ entries) = record x { visited = is_selected x.sel_stat } ∷ marked entries

pub text_of-marked :
    (name : List ℕ) (entries : List FilterEntry)
    → text_of name (marked entries) ≡ text_of name entries
unfolding text_of find_filter marked
text_of-marked name [] = refl
text_of-marked name (x ∷ entries) = ground (arith, text_of-marked name entries)

module _ (parse : List ℕ → Result Error Expr) where
  pub Joins-join_selected :
      (e : Expr) (entries : List FilterEntry) (e' : Expr)
      → Joins parse e entries e'
      → join_selected parse e entries ≡ (ok e', marked entries)
  unfolding join_selected join_by join_parsed and_signed both marked
  Joins-join_selected e entries e' no_more = refl
  Joins-join_selected e entries e' (ignored {x} {entries = l} s j) =
      rw (s, Joins-join_selected e l e' j) refl
  Joins-join_selected e entries e' (wanted {x} {entries = l} {f} s p j) =
      rw (s, p, Joins-join_selected _ l e' j) refl
  Joins-join_selected e entries e' (unwanted {x} {entries = l} {f} s p j) =
      rw (s, p, Joins-join_selected _ l e' j) refl

  join_parsed-ok :
      (r : Result Error Expr) (x : FilterEntry) (rest : Expr → Joined) (entries : List FilterEntry)
      (e' : Expr)
      → (join_parsed r x rest entries).0 ≡ ok e'
      → (t : Expr) × (r ≡ ok t) × ((rest t).0 ≡ ok e')
  unfolding join_parsed
  join_parsed-ok (ok t) x rest entries e' h = (t, refl, h)
  join_parsed-ok (failed err) x rest entries e' h = absurd (cc)
  join_parsed-ok bug x rest entries e' h = absurd (cc)
  join_parsed-ok out_of_fuel x rest entries e' h = absurd (cc)

  bind-ok :
      (r : Result Error Expr) (f : Expr → Expr) (t : Expr)
      → bind r (λ e. ok (f e)) ≡ ok t
      → (e : Expr) × (r ≡ ok e) × (f e ≡ t)
  bind-ok (ok e) f t h = (e, refl, cc)
  bind-ok (failed err) f t h = absurd (cc)
  bind-ok bug f t h = absurd (cc)
  bind-ok out_of_fuel f t h = absurd (cc)

  join_by-Joins :
      (stat : SelStat) (x : FilterEntry) (e : Expr) (rest : Expr → Joined)
      (entries : List FilterEntry) (e' : Expr)
      → x.sel_stat ≡ stat
      → ((t : Expr) → (rest t).0 ≡ ok e' → Joins parse t entries e')
      → (join_by stat x (parse x.filter) e rest entries).0 ≡ ok e'
      → Joins parse e (x ∷ entries) e'
  unfolding join_by and_signed both
  join_by-Joins fs_ignore x e rest entries e' s k h = ignored s (k e h)
  join_by-Joins fs_yes x e rest entries e' s k h =
      let (t, p, q) = join_parsed-ok _ x rest entries e' h in
      let (f, p', q') = bind-ok (parse x.filter) _ t p in wanted s p' (k _ (rw q' q))
  join_by-Joins fs_no x e rest entries e' s k h =
      let (t, p, q) = join_parsed-ok _ x rest entries e' h in
      let (f, p', q') = bind-ok (parse x.filter) _ t p in unwanted s p' (k _ (rw q' q))

  pub join_selected-Joins :
      (e : Expr) (entries : List FilterEntry) (e' : Expr)
      → (join_selected parse e entries).0 ≡ ok e'
      → Joins parse e entries e'
  unfolding join_selected
  join_selected-Joins e [] e' h = let q : e ≡ e' = cc in rw q no_more
  join_selected-Joins e (x ∷ entries) e' h =
      join_by-Joins x.sel_stat x e (λ t. join_selected parse t entries) entries e' refl
        (λ t. join_selected-Joins t entries e') h
