-- ===== src/Window.antt =====
-- The list window: app/window.c over the iterators of app/iter.h.
-- A row is its position in the list, from 1 on; 0 is the head, which is no row.
pub mod Move
pub mod Shown
pub mod Chosen
pub mod Steps
pub mod Counts
pub mod Scroll
pub mod Pages
pub mod Short
mod Tests
use graceful_music.Common.{
  ℕ, zero, suc, ◌+◌, ◌-◌, ◌*◌, ◌/◌, ◌%◌, ◌^◌, ◌≤◌, ◌<◌, min, max, ◌≡◌, refl, sym, ap, ◌∙◌, subst,
  fun_ext, ◌≢◌, ◌↔◌, ◌⊎◌, inl, inr, Bool, true, false, ◌&&◌, ◌||◌, not, Option, none, some, List,
  [], ◌∷◌, ◌++◌, map, append-nil, append_assoc, arith, ltb, leb, ◌==◌, if◌then◌else◌, ltb→lt,
  lt→ltb, ltb→ge, leb→le, ==_iff, ==_refl, Bool-cases, Option-cases, length, get_elem?, get_or,
  take, drop, replicate, length-append, take-append-drop, length-take, length-drop,
  length-replicate, take-all, drop-drop, take-nil, drop-nil, beq_of_ne, ltb_of_ge, if_same,
  some_inj, ℤ, pos, negsuc, pos_part, neg_part, sub_ℕ, ◌+ℤ◌, ◌-ℤ◌, ◌≤ℤ◌, ◌<ℤ◌, ltb_ℤ, ◌==ℤ◌,
  -ℤ_parts, IsInt32, of_bits32, to_int32, to_int32_id, to_int32-IsInt32, codes, isspace, isdigit,
  isalpha, strcmp, strcmp_refl, strcmp_eq, digits_from, clamp_long, skip_spaces, starts_digit,
  strtol_from, strtol, Result, ok, failed, bug, out_of_fuel, bind, Yields, yields, fails, Yields-ok,
  Yields-bug, Yields-out_of_fuel, Yields-if, Yields-bind, Yields-map, ==ℤ_eq, sum_pos, is_str,
  and_true, strcmp_cases, strcmp_gt, drop-all, take-front, drop-front,
}

-- `struct window`; `has_head` is that head.data0 is not NULL, `n_rows` the length of the list behind it.
-- The iterators all have the head's data0. `notified` counts the calls of the callback sel_changed.
pub record Window : Type 0 where
  pub has_head : Bool
  pub n_rows : ℕ
  pub top : ℕ
  pub sel : ℕ
  pub nr_rows : ℕ
  pub changed : Bool
  pub notified : ℕ

abbrev pub Outcome : Type 0
Outcome = Result ⊥ Window

-- What `get_next` stores, for a list of n rows; it returns 0 when that is the head.
unfoldable pub next_row : (n i : ℕ) → ℕ
next_row n i = if ltb i n then i + 1 else 0

-- What `get_prev` stores, for a list of n rows; it returns 0 when that is the head.
unfoldable pub prev_row : (n i : ℕ) → ℕ
prev_row n i = if i == 0 then n else i - 1

-- `sel_changed`
unfoldable pub sel_changed : Window → Window
sel_changed w = record w { changed = true; notified = w.notified + 1 }

-- `window_new`
abbrev pub window_new : Window
window_new = record {
  has_head = false;
  n_rows = 0;
  top = 0;
  sel = 0;
  nr_rows = 1;
  changed = true;
  notified = 0;
}

-- `window_set_empty`
unfoldable pub window_set_empty : Window → Window
window_set_empty w = sel_changed (record w { has_head = false; n_rows = 0; top = 0; sel = 0 })

-- From row i on, k rows down.
unfoldable pub rows_down : (n k i : ℕ) → ℕ
rows_down n zero i = i
rows_down n (suc k) i = rows_down n k (next_row n i)

-- From row i on, k rows up.
unfoldable pub rows_up : (n k i : ℕ) → ℕ
rows_up n zero i = i
rows_up n (suc k) i = rows_up n k (prev_row n i)

-- The rows from i down to j, counted from `count` on; `none` is that the head came first.
unfoldable pub distance : (n fuel i j count : ℕ) → Result ⊥ (Option ℕ)
distance n zero i j count = out_of_fuel
distance n (suc fuel) i j count =
    let rest = distance n fuel (next_row n i) j (count + 1) in
    if i == j then ok (some count) else if next_row n i == 0 then ok none else rest

-- `while (!iters_equal(&top, &sel)) get_prev(&top)`
unfoldable pub up_to : (n fuel top sel : ℕ) → Result ⊥ ℕ
up_to n zero top sel = out_of_fuel
up_to n (suc fuel) top sel =
    let rest = up_to n fuel (prev_row n top) sel in if top == sel then ok top else rest

-- `while (delta > nr_rows - 1)`: the top that shows the row delta rows below it
unfoldable pub scroll_to : (n delta nr_rows top : ℕ) → ℕ
scroll_to n zero nr_rows top = top
scroll_to n (suc delta) nr_rows top =
    let rest = scroll_to n delta nr_rows (next_row n top) in
    if ltb (nr_rows - 1) (suc delta) then rest else top

-- The rows that at most k steps down from i meet, counted from `rows` on.
unfoldable pub rows_below : (n k i rows : ℕ) → ℕ
rows_below n zero i rows = rows
rows_below n (suc k) i rows =
    let rest = rows_below n k (next_row n i) (rows + 1) in if next_row n i == 0 then rows else rest

-- At most k rows up, but not to the head.
unfoldable pub raise : (n k top : ℕ) → ℕ
raise n zero top = top
raise n (suc k) top =
    let rest = raise n k (prev_row n top) in if prev_row n top == 0 then top else rest

-- `window_changed` behind the label minimize
unfoldable pub minimize : Window → (top : ℕ) → Window
minimize w top =
    let rows = rows_below w.n_rows (w.nr_rows - 1) top 1 in
    record w { top = raise w.n_rows (w.nr_rows - rows) top; changed = true }

-- `window_changed` behind the search for sel
unfoldable pub show_sel : Window → Option ℕ → Outcome
show_sel w none = bind (up_to w.n_rows (w.n_rows + 1) w.top w.sel) λ top. ok (minimize w top)
show_sel w (some delta) = ok (minimize w (scroll_to w.n_rows delta w.nr_rows w.top))

-- `window_changed`
unfoldable pub window_changed : Window → Outcome
window_changed w =
    if not w.has_head
    then (if w.top == 0 && w.sel == 0 then ok w else bug)
    else if w.top == 0
    then (let first = next_row w.n_rows 0 in
        ok (sel_changed (record w { top = first; sel = first })))
    else bind (distance w.n_rows (w.n_rows + 1) w.top w.sel 0) (show_sel w)

-- `window_set_nr_rows`
unfoldable pub window_set_nr_rows : ℤ → Window → Outcome
window_set_nr_rows rows w =
    if ltb_ℤ rows (pos 1)
    then ok w
    else bind (window_changed (record w { nr_rows = pos_part rows }))
        λ w. ok (record w { changed = true })
