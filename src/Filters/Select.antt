-- ===== src/Filters/Select.antt =====
-- Choosing filters by their names or in the window: app/filters.c.
use graceful_music.Common.{
  ℕ, zero, suc, Bool, true, false, Option, none, some, List, [], ◌∷◌, ◌++◌, leb, ◌==◌,
  if◌then◌else◌, length, Result, ok, failed, out_of_fuel, bind, is_str,
}
use graceful_music.Expr.{Expr, Error}
use graceful_music.Filters.{SelStat, fs_ignore, fs_yes, fs_no, FilterEntry, find_filter}
use graceful_music.Filters.Store.{Store, set_entries, select_none, filters_activate}

unfoldable pub drop_spaces : List ℕ → List ℕ
drop_spaces [] = []
drop_spaces (c ∷ s) = let rest = drop_spaces s in if c == b' ' then rest else c ∷ s

unfoldable pub take_name : List ℕ → List ℕ × List ℕ
take_name [] = ([], [])
take_name (c ∷ s) = let r = take_name s in if c == b' ' then ([], c ∷ s) else (c ∷ r.0, r.1)

abbrev pub behind_not : List ℕ → SelStat × List ℕ
behind_not [] = (fs_yes, [])
behind_not (c ∷ s) = if c == b'!' then (fs_no, s) else (fs_yes, c ∷ s)

-- The loop of `for_each_name` over the names of a string, each with whether a ! stands in front of it. A
-- name that is too long for the buffer of 64 bytes is an error, with its length.
unfoldable pub names_from : (fuel : ℕ) → List ℕ → Result ℕ (List (List ℕ × SelStat))
names_from zero s = out_of_fuel
names_from (suc fuel) s =
    let b = behind_not (drop_spaces s) in
    let r = take_name b.1 in
    let rest = names_from fuel r.1 in
    if length r.0 == 0
    then ok []
    else if leb 64 (length r.0)
    then failed (length r.0)
    else bind rest (λ names. ok ((r.0, b.0) ∷ names))

-- `for_each_name(str, ensure_filter_name)`: whether each name is that of a filter
unfoldable pub all_known : List (List ℕ × SelStat) → List FilterEntry → Bool
all_known [] entries = true
all_known (n ∷ names) entries = elim (find_filter n.0 entries) [
  | none ↦ false
  | some e ↦ all_known names entries
]

-- `select_filter`
unfoldable pub select_filter : (name : List ℕ) → SelStat → List FilterEntry → List FilterEntry
select_filter name stat [] = []
select_filter name stat (e ∷ entries) =
    let rest = select_filter name stat entries in
    if is_str e.name name then record e { sel_stat = stat } ∷ entries else e ∷ rest

unfoldable pub select_all : List (List ℕ × SelStat) → List FilterEntry → List FilterEntry
select_all [] entries = entries
select_all (n ∷ names) entries = select_all names (select_filter n.0 n.1 entries)

-- `filters_activate_names` for a string, up to the call of `filters_activate`; `none` is an early return.
unfoldable pub select_names : List ℕ → List FilterEntry → Option (List FilterEntry)
select_names str entries = elim (names_from (suc (length str)) str) [
  | ok names ↦
      if all_known names entries then some (select_all names (select_none entries)) else none
  | _ ↦ none
]

-- `filters_activate_names`
unfoldable pub filters_activate_names : (List ℕ → Result Error Expr) → List ℕ → Store → Store
filters_activate_names parse str s = elim (select_names str s.filters.entries) [
  | none ↦ s
  | some entries ↦ filters_activate parse false (set_entries entries s)
]

-- The loop over the list up to the selected entry
unfoldable pub change_at :
    ℕ → (FilterEntry → List FilterEntry) → List FilterEntry → List FilterEntry
change_at i f [] = []
change_at zero f (e ∷ entries) = f e ++ entries
change_at (suc i) f (e ∷ entries) = e ∷ change_at i f entries

-- (e->sel_stat + 1) % 3
abbrev pub next_stat : SelStat → SelStat
next_stat fs_ignore = fs_yes
next_stat fs_yes = fs_no
next_stat fs_no = fs_ignore

-- `filters_toggle_filter` for the entry that is selected in the window
unfoldable pub filters_toggle_filter : ℕ → Store → Store
filters_toggle_filter i s =
    set_entries
      (change_at i (λ e. record e { sel_stat = next_stat e.sel_stat } ∷ []) s.filters.entries) s

-- `filters_delete_filter` for it, when the user says yes
unfoldable pub filters_delete_filter : ℕ → Store → Store
filters_delete_filter i s = set_entries (change_at i (λ e. []) s.filters.entries) s
