-- ===== src/Filters/Activate.antt =====
-- Activating the selected filters, all or none: `filters_activate` and `parse_filter` of app/filters.c.
use graceful_music.Common.{
  sym, subst, fun_ext, ◌&&◌, not, ℕ, suc, ◌≤◌, ◌≡◌, refl, ap, ◌∙◌, ◌≢◌, ◌⊎◌, inl, inr, Bool, true,
  false, none, List, [], ◌∷◌, arith, Bool-cases, length, Result, ok, failed, bug, out_of_fuel,
}
use graceful_music.Expr.{
  Expr, null, expr_and, expr_or, expr_not, expr_bool, expr_str, expr_int, expr_id, is_null, Error,
}
use graceful_music.Filters.{FilterEntry, Filters, Outcome, and_then}
use graceful_music.Filters.Store.{
  Store, is_unchanged, set_entries, visit_none, Joined, join_selected, check_all, activate,
  join_and_activate, filters_activate, parse_filter,
}
use graceful_music.Filters.Keeps.{expr_check_leaves-keeps}
use graceful_music.Filters.Recursion.{unvisited, expr_check_leaves_ends}
use graceful_music.Filters.Typed.{expr_check_leaves-Expands}
use graceful_music.Filters.Expand.{text_of, Expands, missing}
use graceful_music.Filters.Joined.{
  Joins, marked, text_of-marked, Joins-join_selected, join_selected-Joins,
}
use graceful_music.Expr.Read.{expr_parse}
use graceful_music.Expr.Whole.{expr_parse_i_ends}
use graceful_music.Filters.Stats.{
  acts, sels, SameStats, get_filter-SameStats, apply_selected-stats, of_unchanged, unchanged_of,
  join_selected-SameStats,
}

-- The filters of the two tables are the same, in the same order, whatever their marks.
unfoldable pub SameButMarks : (a b : List FilterEntry) → Type 0
SameButMarks [] [] = Unit
SameButMarks (e ∷ a) (f ∷ b) =
    (e.name ≡ f.name)
    × (e.filter ≡ f.filter)
    × (e.sel_stat ≡ f.sel_stat)
    × (e.act_stat ≡ f.act_stat)
    × SameButMarks a b
SameButMarks _ _ = ⊥

visit_none-SameButMarks : (a b : List FilterEntry) → SameButMarks a b → visit_none a ≡ visit_none b
unfolding visit_none SameButMarks
visit_none-SameButMarks [] [] h = refl
visit_none-SameButMarks [] (f ∷ b) h = absurd h
visit_none-SameButMarks (e ∷ a) [] h = absurd h
visit_none-SameButMarks (e ∷ a) (f ∷ b) h = λ i.
    record { name = h.0 i; filter = h.1 i; visited = false; sel_stat = h.2 i; act_stat = h.3 i }
    ∷ visit_none-SameButMarks a b h.4 i

unvisited-le : (entries : List FilterEntry) → unvisited entries ≤ length entries
unfolding unvisited
unvisited-le [] = omega arith
unvisited-le (x ∷ entries) = ground (arith, unvisited-le entries)

module _ (parse : List ℕ → Result Error Expr) where
  -- All selected filters are active, and the library shows the tree of them with the names replaced.
  abbrev pub IsActivated : Store → Store → Type 0
  IsActivated s t =
      (acts t.filters.entries ≡ sels s.filters.entries)
      × (sels t.filters.entries ≡ sels s.filters.entries)
      × ((expr : Expr) × Joins parse null s.filters.entries expr
          × Expands parse (λ name. text_of name s.filters.entries) expr t.lib_filter)

  -- Nothing but marks has changed, and the selected filters have no tree that passes the check.
  abbrev pub IsRefused : Store → Store → Type 0
  IsRefused s t =
      SameStats t.filters.entries s.filters.entries
      × (t.lib_filter ≡ s.lib_filter)
      × ((expr final : Expr)
          → Joins parse null s.filters.entries expr
          → (check_all parse expr (marked s.filters.entries)).0 ≢ ok final)

  check_all-Expands :
      (expr : Expr) (entries : List FilterEntry) (e : Expr)
      → (check_all parse expr (marked entries)).0 ≡ ok e
      → Expands parse (λ name. text_of name entries) expr e
  unfolding check_all
  check_all-Expands expr entries e h = elim (Bool-cases (is_null expr)) [
    | inl n ↦
        let z : e ≡ null = ground (arith, n) in
        let y : expr ≡ null = is_null_eq expr n in rw (z, y) missing
    | inr n ↦
        subst (λ text. Expands parse text expr e) (fun_ext (λ name. text_of-marked name entries))
          (expr_check_leaves-Expands parse (suc (length (marked entries))) expr e
            (record { entries = marked entries; recursive_filter = none }) (rw n at h))
  ]
    where
      is_null_eq : (e : Expr) → is_null e ≡ true → e ≡ null
      is_null_eq null h = refl
      is_null_eq (expr_and l r) h = absurd (cc)
      is_null_eq (expr_or l r) h = absurd (cc)
      is_null_eq (expr_not l) h = absurd (cc)
      is_null_eq (expr_bool k) h = absurd (cc)
      is_null_eq (expr_str k g o) h = absurd (cc)
      is_null_eq (expr_int k v o) h = absurd (cc)
      is_null_eq (expr_id k l o) h = absurd (cc)

  check_all-SameStats :
      (expr : Expr) (entries table : List FilterEntry)
      → SameStats entries table
      → SameStats (check_all parse expr entries).1.entries table
  unfolding check_all
  check_all-SameStats expr entries table h = elim (Bool-cases (is_null expr)) [
    | inl n ↦ rw n h
    | inr n ↦ rw n (
        expr_check_leaves-keeps (λ fs. SameStats fs.entries table) parse
          (get_filter-SameStats table) (suc (length entries)) expr
          (record { entries = entries; recursive_filter = none }) h)
  ]

  check_all_ends :
      ((s : List ℕ) → parse s ≢ out_of_fuel)
      → (expr : Expr) (entries : List FilterEntry) → (check_all parse expr entries).0 ≢ out_of_fuel
  unfolding check_all
  check_all_ends ends expr entries = elim (Bool-cases (is_null expr)) [
    | inl n ↦ rw n (cc)
    | inr n ↦ rw n (
        expr_check_leaves_ends parse ends (suc (length entries)) expr
          (record { entries = entries; recursive_filter = none })
          (omega (arith, unvisited-le entries)))
  ]

  refused :
      (s : Store) (expr : Expr) (o : Outcome)
      → Joins parse null s.filters.entries expr
      → check_all parse expr (marked s.filters.entries) ≡ o
      → ((e : Expr) → o.0 ≢ ok e)
      → (other final : Expr) → Joins parse null s.filters.entries other
      → (check_all parse other (marked s.filters.entries)).0 ≢ ok final
  refused s expr o j q fails other final k =
      let entries = s.filters.entries in
      let same : ◌≡◌ {A = Joined} (ok expr, marked entries) (ok other, marked entries) =
        sym (Joins-join_selected parse null entries expr j)
        ∙ Joins-join_selected parse null entries other k in
      let e : expr ≡ other = ok_inj expr other (ap (λ (r : Joined). r.0) same) in
      rw (sym e, q) (fails final)
    where
      ok_inj : (a b : Expr) → ◌≡◌ {A = Result Error Expr} (ok a) (ok b) → a ≡ b
      ok_inj a b h = cc

  not_joined :
      (s : Store) (j : Joined)
      → join_selected parse null s.filters.entries ≡ j
      → ((e : Expr) → j.0 ≢ ok e)
      → (expr final : Expr) → Joins parse null s.filters.entries expr
      → (check_all parse expr (marked s.filters.entries)).0 ≢ ok final
  not_joined s j q fails expr final k = absurd (
      fails expr (
        ap (λ (r : Joined). r.0) (sym q ∙ Joins-join_selected parse null s.filters.entries expr k)))

  activate-done :
      (s : Store) (expr : Expr) (o : Outcome)
      → Joins parse null s.filters.entries expr
      → check_all parse expr (marked s.filters.entries) ≡ o
      → SameStats o.1.entries s.filters.entries
      → IsActivated s (activate parse o s.lib_filter) ⊎ IsRefused s (activate parse o s.lib_filter)
  unfolding activate
  activate-done s expr (ok e, fs) j q h =
      let a = apply_selected-stats fs.entries in
      inl (
        a.0 ∙ h.1,
        a.1 ∙ h.1,
        (expr, j, check_all-Expands expr s.filters.entries e (ap (λ (o : Outcome). o.0) q)),
      )
  activate-done s expr (failed err, fs) j q h =
      inr (h, refl, refused s expr (failed err, fs) j q (λ e. cc))
  activate-done s expr (bug, fs) j q h = inr (h, refl, refused s expr (bug, fs) j q (λ e. cc))
  activate-done s expr (out_of_fuel, fs) j q h =
      inr (h, refl, refused s expr (out_of_fuel, fs) j q (λ e. cc))

  join_and_activate-done :
      (j : Joined) (s : Store)
      → join_selected parse null s.filters.entries ≡ j
      → SameStats j.1 s.filters.entries
      → IsActivated s (join_and_activate parse j s) ⊎ IsRefused s (join_and_activate parse j s)
  unfolding join_and_activate set_entries
  join_and_activate-done (ok e, entries) s q h =
      let joins = join_selected-Joins parse null s.filters.entries e (ap (λ (j : Joined). j.0) q) in
      let same : entries ≡ marked s.filters.entries =
        ap (λ (j : Joined). j.1)
          (sym q ∙ Joins-join_selected parse null s.filters.entries e joins) in
      rw same (
        activate-done s e (check_all parse e (marked s.filters.entries)) joins refl
          (check_all-SameStats e (marked s.filters.entries) s.filters.entries (rw same at h)))
  join_and_activate-done (failed err, entries) s q h =
      inr (h, refl, not_joined s (failed err, entries) q (λ e. cc))
  join_and_activate-done (bug, entries) s q h =
      inr (h, refl, not_joined s (bug, entries) q (λ e. cc))
  join_and_activate-done (out_of_fuel, entries) s q h =
      inr (h, refl, not_joined s (out_of_fuel, entries) q (λ e. cc))

  -- `filters_activate` without `win_activate` does nothing where the selected statuses are the active ones. Else,
  -- and always with `win_activate`, it does one of two things. It makes all selected statuses active, and gives
  -- the library the tree of all the selected filters, negated as they are selected, with the names of filters
  -- replaced; or no such tree passes the check, and it leaves every status and the filter of the library as
  -- they were.
  pub filters_activate-IsActivated :
      (win_activate : Bool) (s : Store)
      → ((win_activate ≡ false)
          × (acts s.filters.entries ≡ sels s.filters.entries)
          × (filters_activate parse win_activate s ≡ s))
        ⊎ (((win_activate ≡ true) ⊎ (acts s.filters.entries ≢ sels s.filters.entries))
            × (IsActivated s (filters_activate parse win_activate s)
                ⊎ IsRefused s (filters_activate parse win_activate s)))
  unfolding filters_activate
  filters_activate-IsActivated true s = inr (
    inl refl,
    rw (and_false (is_unchanged s.filters.entries)) (
        join_and_activate-done (join_selected parse null s.filters.entries) s refl
          (join_selected-SameStats parse null s.filters.entries)),
  )
    where
      and_false : (b : Bool) → (b && not true) ≡ false
      and_false true = refl
      and_false false = refl
  filters_activate-IsActivated false s = elim (Bool-cases (is_unchanged s.filters.entries)) [
    | inl u ↦ inl (refl, of_unchanged s.filters.entries u, rw u refl)
    | inr u ↦ inr (
      inr (λ e. changed (sym (unchanged_of s.filters.entries e) ∙ u)),
      rw u (
          join_and_activate-done (join_selected parse null s.filters.entries) s refl
            (join_selected-SameStats parse null s.filters.entries)),
    )
  ]
    where
      changed : true ≢ false
      changed e = cc

  parse_filter-marks :
      (val : List ℕ) (fs gs : Filters)
      → SameButMarks fs.entries gs.entries
      → (parse_filter parse val fs).0 ≡ (parse_filter parse val gs).0
  unfolding parse_filter and_then
  parse_filter-marks val fs gs h = with_result (parse val)
    where
      with_result :
          (r : Result Error Expr)
          → (and_then (r, fs) λ e hs. check_all parse e (visit_none hs.entries)).0
            ≡ (and_then (r, gs) λ e hs. check_all parse e (visit_none hs.entries)).0
      with_result (ok e) =
          ap (λ l. (check_all parse e l).0) (visit_none-SameButMarks fs.entries gs.entries h)
      with_result (failed err) = refl
      with_result bug = refl
      with_result out_of_fuel = refl

  parse_filter_stops :
      ((s : List ℕ) → parse s ≢ out_of_fuel)
      → (val : List ℕ) (fs : Filters) → (parse_filter parse val fs).0 ≢ out_of_fuel
  unfolding parse_filter and_then
  parse_filter_stops ends val fs = with_result (parse val) (ends val)
    where
      with_result :
          (r : Result Error Expr)
          → r ≢ out_of_fuel
          → (and_then (r, fs) λ e gs. check_all parse e (visit_none gs.entries)).0 ≢ out_of_fuel
      with_result (ok e) h = check_all_ends ends e (visit_none fs.entries)
      with_result (failed err) h = cc
      with_result bug h = cc
      with_result out_of_fuel h = h

-- For a filter that is typed in, `parse_filter` comes to an end: the fuel of the parser is enough, and so is
-- that of the recursion through the names. What it comes to does not depend on the marks and on the
-- recursive filter that calls before it left: it is the same for two tables that have the same filters in
-- the same order, and differ in their marks only.
pub parse_filter_ends :
    (to_utf8 : List ℕ → List ℕ) (val : List ℕ) (fs gs : Filters)
    → SameButMarks fs.entries gs.entries
    → ((parse_filter (expr_parse to_utf8) val fs).0 ≢ out_of_fuel)
      × ((parse_filter (expr_parse to_utf8) val fs).0
          ≡ (parse_filter (expr_parse to_utf8) val gs).0)
parse_filter_ends to_utf8 val fs gs h = (
  unfold expr_parse in
      parse_filter_stops (expr_parse to_utf8) (expr_parse_i_ends to_utf8 true) val fs,
  parse_filter-marks (expr_parse to_utf8) val fs gs h,
)
