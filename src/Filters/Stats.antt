-- ===== src/Filters/Stats.antt =====
-- The statuses of the filters in `filters_activate` of app/filters.c, which the joining of the selected ones and
-- the check leave as they are.
use graceful_music.Common.{
  and_true, ℕ, ◌≡◌, refl, ap, ◌∙◌, inl, inr, Bool, true, false, List, [], ◌∷◌, arith, Bool-cases,
  Option-cases, if_same, Result, ok, failed, bug, out_of_fuel, is_str,
}
use graceful_music.Expr.{Expr, Error}
use graceful_music.Filters.{
  SelStat, fs_ignore, fs_yes, fs_no, FilterEntry, Filters, find_filter, set_visited, get_filter,
}
use graceful_music.Filters.Store.{
  same_stat, is_unchanged, apply_selected, Joined, join_parsed, join_by, join_selected,
}

-- The statuses of the filters, active and selected.
unfoldable pub acts : List FilterEntry → List SelStat
acts [] = []
acts (e ∷ entries) = e.act_stat ∷ acts entries

unfoldable pub sels : List FilterEntry → List SelStat
sels [] = []
sels (e ∷ entries) = e.sel_stat ∷ sels entries

abbrev pub SameStats : List FilterEntry → List FilterEntry → Type 0
SameStats a b = (acts a ≡ acts b) × (sels a ≡ sels b)

set_visited-SameStats :
    (name : List ℕ) (entries : List FilterEntry) → SameStats (set_visited name entries) entries
unfolding set_visited acts sels
set_visited-SameStats name [] = (refl, refl)
set_visited-SameStats name (x ∷ entries) =
    let h = set_visited-SameStats name entries in
    if_same (λ r. SameStats r (x ∷ entries)) (is_str x.name name) (λ _. (refl, refl))
      λ _. (ap (◌∷◌ x.act_stat) h.0, ap (◌∷◌ x.sel_stat) h.1)

pub get_filter-SameStats :
    (entries : List FilterEntry) (key : List ℕ) (fs : Filters)
    → SameStats fs.entries entries
    → SameStats (get_filter key fs).1.entries entries
unfolding get_filter
get_filter-SameStats entries key fs h = elim (Option-cases (find_filter key fs.entries)) [
  | inl e ↦ rw (get_filter, e) h
  | inr (x, e) ↦ elim (Bool-cases x.visited) [
    | inl v ↦ rw (get_filter, e, v) h
    | inr v ↦
        let k = set_visited-SameStats key fs.entries in rw (get_filter, e, v) (k.0 ∙ h.0, k.1 ∙ h.1)
  ]
]

pub apply_selected-stats :
    (entries : List FilterEntry)
    → (acts (apply_selected entries) ≡ sels entries)
      × (sels (apply_selected entries) ≡ sels entries)
unfolding apply_selected acts sels
apply_selected-stats [] = (refl, refl)
apply_selected-stats (x ∷ entries) =
    let h = apply_selected-stats entries in (ap (◌∷◌ x.sel_stat) h.0, ap (◌∷◌ x.sel_stat) h.1)

same_stat_eq : (a b : SelStat) → same_stat a b ≡ true → a ≡ b
same_stat_eq a b h = ground arith

pub of_unchanged :
    (entries : List FilterEntry) → is_unchanged entries ≡ true → acts entries ≡ sels entries
unfolding acts sels
of_unchanged [] h = refl
of_unchanged (x ∷ entries) h =
    let p = and_true (same_stat x.act_stat x.sel_stat) (is_unchanged entries) h in
    λ i. same_stat_eq x.act_stat x.sel_stat p.0 i ∷ of_unchanged entries p.1 i

pub unchanged_of :
    (entries : List FilterEntry) → acts entries ≡ sels entries → is_unchanged entries ≡ true
unfolding acts sels
unchanged_of [] h = refl
unchanged_of (x ∷ entries) h =
    let head : x.act_stat ≡ x.sel_stat = cc in
    let tail : acts entries ≡ sels entries = cc in
    rw (head, unchanged_of entries tail) (ground arith)

cons-SameStats :
    (f : FilterEntry) (visited : Bool) (a b : List FilterEntry)
    → SameStats a b
    → SameStats (record f { visited = visited } ∷ a) (f ∷ b)
unfolding acts sels
cons-SameStats f visited a b h = (ap (◌∷◌ f.act_stat) h.0, ap (◌∷◌ f.sel_stat) h.1)

join_parsed-SameStats :
    (r : Result Error Expr) (f : FilterEntry) (rest : Expr → Joined) (entries : List FilterEntry)
    → ((e : Expr) → SameStats (rest e).1 entries)
    → SameStats (join_parsed r f rest entries).1 (f ∷ entries)
unfolding join_parsed
join_parsed-SameStats (ok e) f rest entries h = cons-SameStats f true _ entries (h e)
join_parsed-SameStats (failed err) f rest entries h =
    cons-SameStats f true entries entries (refl, refl)
join_parsed-SameStats bug f rest entries h = cons-SameStats f true entries entries (refl, refl)
join_parsed-SameStats out_of_fuel f rest entries h =
    cons-SameStats f true entries entries (refl, refl)

join_by-SameStats :
    (stat : SelStat) (f : FilterEntry) (r : Result Error Expr) (expr : Expr) (rest : Expr → Joined)
    (entries : List FilterEntry)
    → ((e : Expr) → SameStats (rest e).1 entries)
    → SameStats (join_by stat f r expr rest entries).1 (f ∷ entries)
unfolding join_by
join_by-SameStats fs_ignore f r expr rest entries h = cons-SameStats f false _ entries (h expr)
join_by-SameStats fs_yes f r expr rest entries h = join_parsed-SameStats _ f rest entries h
join_by-SameStats fs_no f r expr rest entries h = join_parsed-SameStats _ f rest entries h

module _ (parse : List ℕ → Result Error Expr) where
  pub join_selected-SameStats :
      (expr : Expr) (entries : List FilterEntry)
      → SameStats (join_selected parse expr entries).1 entries
  unfolding join_selected
  join_selected-SameStats expr [] = (refl, refl)
  join_selected-SameStats expr (x ∷ entries) =
      join_by-SameStats x.sel_stat x (parse x.filter) expr (λ e. join_selected parse e entries)
        entries λ e. join_selected-SameStats e entries
