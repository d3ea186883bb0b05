-- ===== src/Filters/Store.antt =====
-- The operations of app/filters.c on the named filters: setting, choosing and activating them. What
-- `lib_set_filter` was last called with stands beside them.
use graceful_music.Common.{
  ℕ, suc, Bool, true, false, ◌&&◌, ◌||◌, not, Option, none, some, List, [], ◌∷◌, map, ◌==◌,
  if◌then◌else◌, length, pos, ltb_ℤ, ◌==ℤ◌, isdigit, isalpha, strcmp, Result, ok, failed, bug,
  out_of_fuel, bind,
}
use graceful_music.Expr.{Expr, null, expr_and, expr_not, is_null, Error}
use graceful_music.Filters.{
  SelStat, fs_ignore, fs_yes, fs_no, FilterEntry, Filters, Outcome, and_then,
}
use graceful_music.Filters.Check.{expr_check_leaves}

-- The filters, and the expression that the library shows; `null` is no filter.
pub record Store : Type 0 where
  pub filters : Filters
  pub lib_filter : Expr

unfoldable pub name_chars : List ℕ → Bool
name_chars [] = true
name_chars (c ∷ name) = (isdigit c || isalpha c || c == b'_' || c == b'-') && name_chars name

-- `validate_filter_name`
unfoldable pub validate_filter_name : List ℕ → Bool
validate_filter_name name = name_chars name && not (length name == 0)

-- strchr(keyval, '='): the key in front of it and the value behind it
unfoldable pub split_at_eq : List ℕ → Option (List ℕ × List ℕ)
split_at_eq [] = none
split_at_eq (c ∷ s) =
    let rest = split_at_eq s in
    if c == b'=' then some ([], s) else elim rest [ none ↦ none | some p ↦ some (c ∷ p.0, p.1) ]

-- The loop of `do_filters_set_filter` that adds an entry in the order of the names, or replaces one.
unfoldable pub insert_filter : FilterEntry → List FilterEntry → List FilterEntry
insert_filter new [] = new ∷ []
insert_filter new (e ∷ entries) =
    let rest = insert_filter new entries in
    let res = strcmp new.name e.name in
    if ltb_ℤ res (pos 0)
    then new ∷ e ∷ entries
    else if res ==ℤ pos 0
    then record new { sel_stat = e.sel_stat } ∷ entries
    else e ∷ rest

abbrev pub is_ok {ℓ κ} : {E : Type κ} {A : Type ℓ} → Result E A → Bool
is_ok (ok a) = true
is_ok _ = false

abbrev pub same_stat : SelStat → SelStat → Bool
same_stat fs_ignore fs_ignore = true
same_stat fs_yes fs_yes = true
same_stat fs_no fs_no = true
same_stat _ _ = false

abbrev pub is_unchanged : List FilterEntry → Bool
is_unchanged [] = true
is_unchanged (e ∷ entries) = same_stat e.act_stat e.sel_stat && is_unchanged entries

unfoldable pub set_entries : List FilterEntry → Store → Store
set_entries entries s = record s {
  filters = record { entries = entries; recursive_filter = s.filters.recursive_filter };
}

-- f->act_stat = f->sel_stat, for all
unfoldable pub apply_selected : List FilterEntry → List FilterEntry
apply_selected = map {A = FilterEntry} λ e. record e { act_stat = e.sel_stat }

-- f->act_stat = FS_IGNORE, for all
unfoldable pub ignore_all : List FilterEntry → List FilterEntry
ignore_all = map {A = FilterEntry} λ e. record e { act_stat = fs_ignore }

-- f->sel_stat = FS_IGNORE, for all
unfoldable pub select_none : List FilterEntry → List FilterEntry
select_none = map {A = FilterEntry} λ e. record e { sel_stat = fs_ignore }

-- f->visited = 0, for all
unfoldable pub visit_none : List FilterEntry → List FilterEntry
visit_none = map {A = FilterEntry} λ e. record e { visited = false }

-- The sign that a filter is selected with, and the tree so far in front of it
unfoldable pub and_signed : SelStat → (e expr : Expr) → Expr
and_signed stat e expr =
    let signed : Expr = elim stat [ fs_no ↦ expr_not e | _ ↦ e ] in
    if is_null expr then signed else expr_and expr signed

abbrev pub Joined : Type 0
Joined = Result Error Expr × List FilterEntry

-- A round of the loop of `filters_activate` behind the parser; `rest` are the rounds that follow.
unfoldable pub join_parsed :
    Result Error Expr → FilterEntry → (rest : Expr → Joined) → List FilterEntry → Joined
join_parsed (ok e) f rest entries = ((rest e).0, record f { visited = true } ∷ (rest e).1)
join_parsed (failed err) f rest entries = (failed err, record f { visited = true } ∷ entries)
join_parsed bug f rest entries = (bug, record f { visited = true } ∷ entries)
join_parsed out_of_fuel f rest entries = (out_of_fuel, record f { visited = true } ∷ entries)

-- A round; a filter that is not selected is not parsed.
unfoldable pub join_by :
    SelStat
    → FilterEntry
    → Result Error Expr
    → Expr
    → (rest : Expr → Joined) → List FilterEntry
    → Joined
join_by fs_ignore f r expr rest entries =
    ((rest expr).0, record f { visited = false } ∷ (rest expr).1)
join_by fs_yes f r expr rest entries =
    join_parsed (bind r λ e. ok (and_signed fs_yes e expr)) f rest entries
join_by fs_no f r expr rest entries =
    join_parsed (bind r λ e. ok (and_signed fs_no e expr)) f rest entries

-- `parse` stands for `expr_parse`.
module _ (parse : List ℕ → Result Error Expr) where
  -- `do_filters_set_filter`; `visited` of a new entry is what the memory held.
  unfoldable pub set_named : (visited : Bool) → Option (List ℕ × List ℕ) → Store → Store
  set_named visited none s = s
  set_named visited (some p) s =
      if validate_filter_name p.0 && is_ok (parse p.1)
      then set_entries
          (insert_filter
            (record {
              name = p.0;
              filter = p.1;
              visited = visited;
              sel_stat = fs_ignore;
              act_stat = fs_ignore;
            })
            s.filters.entries)
          s
      else s

  unfoldable pub filters_set_filter : (visited : Bool) → List ℕ → Store → Store
  filters_set_filter visited keyval s = set_named visited (split_at_eq keyval) s

  -- The loop of `filters_activate` that joins the selected filters, marking them as visited: the tree, and
  -- the entries behind the loop.
  unfoldable pub join_selected : (expr : Expr) → List FilterEntry → Joined
  join_selected expr [] = (ok expr, [])
  join_selected expr (f ∷ entries) =
      join_by f.sel_stat f (parse f.filter) expr (λ e. join_selected e entries) entries

  -- `expr_check_leaves` where there is an expression, from `recursive_filter = NULL` on
  unfoldable pub check_all : Expr → List FilterEntry → Outcome
  check_all expr entries =
      let fs : Filters = record { entries = entries; recursive_filter = none } in
      if is_null expr then (ok null, fs) else expr_check_leaves parse (suc (length entries)) expr fs

  -- The end of `filters_activate`: a tree that passes becomes the filter of the library.
  unfoldable pub activate : Outcome → Expr → Store
  activate (ok e, fs) old = record {
    filters = record {
      entries = apply_selected fs.entries;
      recursive_filter = fs.recursive_filter;
    };
    lib_filter = e;
  }
  activate (_, fs) old = record { filters = fs; lib_filter = old }

  unfoldable pub join_and_activate : Joined → Store → Store
  join_and_activate (ok expr, entries) s = activate (check_all expr entries) s.lib_filter
  join_and_activate (_, entries) s = set_entries entries s

  -- `filters_activate`; where nothing changes and `win_activate` is set, it first puts a command into the
  -- command line, which is not part of the store, and goes on.
  unfoldable pub filters_activate : (win_activate : Bool) → Store → Store
  filters_activate win_activate s =
      if is_unchanged s.filters.entries && not win_activate
      then s
      else join_and_activate (join_selected null s.filters.entries) s

  -- `parse_filter` for a text, with the filters behind the call
  unfoldable pub parse_filter : List ℕ → Filters → Outcome
  parse_filter val fs = and_then (parse val, fs) λ e gs. check_all e (visit_none gs.entries)

  -- `filters_set_anonymous` behind the call of `parse_filter`
  unfoldable pub set_anonymous : Outcome → Store → Store
  set_anonymous (ok e, fs) s = record {
    filters = record { entries = ignore_all fs.entries; recursive_filter = fs.recursive_filter };
    lib_filter = e;
  }
  set_anonymous (_, fs) s = record s { filters = fs }

  -- `filters_set_anonymous`
  unfoldable pub filters_set_anonymous : Option (List ℕ) → Store → Store
  filters_set_anonymous none s = set_anonymous (ok null, s.filters) s
  filters_set_anonymous (some val) s = set_anonymous (parse_filter val s.filters) s
