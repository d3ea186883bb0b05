-- ===== src/Window/Move.antt =====
-- The operations of app/window.c that move the selection. `selectable` is the callback of the window,
-- `scroll_offset` the option of that name.
use graceful_music.Common.{
  ℕ, zero, suc, ◌+◌, ◌-◌, ◌/◌, min, Bool, true, ◌||◌, not, ltb, leb, ◌==◌, if◌then◌else◌, Result,
  ok, bug, out_of_fuel, bind,
}
use graceful_music.Window.{
  Window, Outcome, next_row, prev_row, sel_changed, rows_down, rows_up, raise,
}

-- `window_bottom`
unfoldable pub bottom_from : (n k bottom : ℕ) → ℕ
bottom_from n zero bottom = bottom
bottom_from n (suc k) bottom =
    let rest = bottom_from n k (next_row n bottom) in
    if next_row n bottom == 0 then bottom else rest

unfoldable pub window_bottom : Window → ℕ
window_bottom w = bottom_from w.n_rows (w.nr_rows - 1) w.top

-- `window_set_sel` behind the loops that count the rows in front of top and sel: the top when the list
-- scrolls up
unfoldable pub top_above : (n upper_bound sel : ℕ) → ℕ
top_above n upper_bound sel =
    if ltb (sel - 1) upper_bound then next_row n 0 else rows_up n upper_bound sel

-- `while (sel_nr >= top_nr + nr_rows)`: the top that shows sel, for a difference of at most k
unfoldable pub top_showing : (n k nr_rows sel_nr top_nr top : ℕ) → ℕ
top_showing n zero nr_rows sel_nr top_nr top = top
top_showing n (suc k) nr_rows sel_nr top_nr top =
    let rest = top_showing n k nr_rows sel_nr (top_nr + 1) (next_row n top) in
    if leb (top_nr + nr_rows) sel_nr then rest else top

-- `while (bottom_nr + 1 < top_nr + nr_rows)`, at most k rounds: the row tmp, and bottom_nr
unfoldable pub to_bottom : (n k upper_bound sel_nr tmp bottom_nr : ℕ) → ℕ × ℕ
to_bottom n zero upper_bound sel_nr tmp bottom_nr = (tmp, bottom_nr)
to_bottom n (suc k) upper_bound sel_nr tmp bottom_nr =
    let rest = to_bottom n k upper_bound sel_nr (next_row n tmp) (bottom_nr + 1) in
    if next_row n tmp == 0 then (0, sel_nr + upper_bound) else rest

-- `while (bottom_nr < sel_nr + upper_bound)`, k rounds at most: the new top
unfoldable pub scroll_below : (n k tmp top : ℕ) → ℕ
scroll_below n zero tmp top = top
scroll_below n (suc k) tmp top =
    let rest = scroll_below n k (next_row n tmp) (next_row n top) in
    if next_row n tmp == 0 then top else rest

-- The rows below the new selection, from which `window_set_sel` scrolls down
unfoldable pub top_below : (n nr_rows upper_bound sel top : ℕ) → ℕ
top_below n nr_rows upper_bound sel top =
    let sel_nr = sel - 1 in
    let top_nr = top - 1 in
    if leb (top_nr + nr_rows) sel_nr
    then scroll_below n upper_bound sel (top_showing n sel nr_rows sel_nr top_nr top)
    else let t = to_bottom n (top_nr + nr_rows - (sel_nr + 1)) upper_bound sel_nr sel sel_nr in
      scroll_below n (sel_nr + upper_bound - t.1) t.0 top

-- `while (!selectable(win, &sel)) get_next(&sel)`; more rounds than there are rows never end.
unfoldable pub select_down : (selectable : ℕ → Bool) → (n fuel sel : ℕ) → Result ⊥ ℕ
select_down selectable n zero sel = out_of_fuel
select_down selectable n (suc fuel) sel =
    let rest = select_down selectable n fuel (next_row n sel) in
    if selectable sel then ok sel else rest

-- The same with `get_prev`
unfoldable pub select_up : (selectable : ℕ → Bool) → (n fuel sel : ℕ) → Result ⊥ ℕ
select_up selectable n zero sel = out_of_fuel
select_up selectable n (suc fuel) sel =
    let rest = select_up selectable n fuel (prev_row n sel) in
    if selectable sel then ok sel else rest

-- if (!iters_equal(&old_sel, &win->sel)) sel_changed(win);
unfoldable pub changed_from : (old_sel : ℕ) → Window → Window
changed_from old_sel w = if old_sel == w.sel then w else sel_changed w

-- The loop of the four page functions: `k` rounds at most, `sel` and `top` the local variables
unfoldable pub page_up_from : (selectable : ℕ → Bool) → (k sel top : ℕ) → Window → Window
page_up_from selectable zero sel top w = w
page_up_from selectable (suc k) sel top w =
    let sel' = prev_row w.n_rows sel in
    let top' = prev_row w.n_rows top in
    let rest =
      page_up_from selectable k sel' top'
        (if selectable sel' then record w { sel = sel'; top = top' } else w) in
    if sel' == 0 || top' == 0 then w else rest

unfoldable pub page_down_from : (selectable : ℕ → Bool) → (k sel bot top : ℕ) → Window → Window
page_down_from selectable zero sel bot top w = w
page_down_from selectable (suc k) sel bot top w =
    let sel' = next_row w.n_rows sel in
    let bot' = next_row w.n_rows bot in
    let top' = next_row w.n_rows top in
    let rest =
      page_down_from selectable k sel' bot' top'
        (if selectable sel' then record w { sel = sel'; top = top' } else w) in
    if sel' == 0 || bot' == 0 then w else rest

module _ (selectable : ℕ → Bool) where
  -- `window_set_contents`
  unfoldable pub window_set_contents : (n_rows : ℕ) → Window → Outcome
  window_set_contents n w =
      let first = next_row n 0 in
      bind (select_down selectable n (n + 1) first)
        λ sel. ok (sel_changed (record w { has_head = true; n_rows = n; top = first; sel = sel }))

  -- `window_goto_top`
  unfoldable pub window_goto_top : Window → Outcome
  window_goto_top w =
      let first = next_row w.n_rows 0 in
      bind (select_down selectable w.n_rows (w.n_rows + 1) first)
        λ sel. ok (changed_from w.sel (record w { top = first; sel = sel }))

  -- `window_goto_bottom`
  unfoldable pub window_goto_bottom : Window → Outcome
  window_goto_bottom w =
      let last = prev_row w.n_rows 0 in
      bind (select_up selectable w.n_rows (w.n_rows + 1) last) λ sel.
        ok (changed_from w.sel (record w { top = raise w.n_rows (w.nr_rows - 1) last; sel = sel }))

  -- `window_page_up`
  unfoldable pub window_page_up : Window → Window
  window_page_up w = sel_changed (page_up_from selectable (w.nr_rows - 1) w.sel w.top w)

  -- `window_half_page_up`
  unfoldable pub window_half_page_up : Window → Window
  window_half_page_up w = sel_changed (page_up_from selectable ((w.nr_rows - 1) / 2) w.sel w.top w)

  -- `window_page_down`
  unfoldable pub window_page_down : Window → Window
  window_page_down w =
      sel_changed (page_down_from selectable (w.nr_rows - 1) w.sel (window_bottom w) w.top w)

  -- `window_half_page_down`
  unfoldable pub window_half_page_down : Window → Window
  window_half_page_down w =
      sel_changed (page_down_from selectable ((w.nr_rows - 1) / 2) w.sel (window_bottom w) w.top w)

  -- `window_scroll_down`
  unfoldable pub window_scroll_down : Window → Outcome
  window_scroll_down w =
      let n = w.n_rows in
      let top = next_row n w.top in
      let from = if w.top == w.sel then next_row n w.sel else w.sel in
      if next_row n (window_bottom w) == 0 || top == 0
      then ok w
      else bind (select_down selectable n (n + 1) from)
          λ sel. ok (sel_changed (record w { top = top; sel = sel }))

  -- `window_scroll_up`
  unfoldable pub window_scroll_up : Window → Outcome
  window_scroll_up w =
      let n = w.n_rows in
      let top = prev_row n w.top in
      let from = if window_bottom w == w.sel then prev_row n w.sel else w.sel in
      if top == 0
      then ok w
      else bind (select_up selectable n (n + 1) from)
          λ sel. ok (sel_changed (record w { top = top; sel = sel }))

  -- `window_goto_pos`
  unfoldable pub window_goto_pos : Window → (at : ℕ) → Window
  window_goto_pos w at = changed_from w.sel (record w { sel = rows_down w.n_rows at w.top })

  -- The loops of the three functions that follow
  unfoldable pub down_to_selectable : Window → Outcome
  down_to_selectable w =
      bind (select_down selectable w.n_rows (w.n_rows + 1) w.sel) λ sel. ok (record w { sel = sel })

  unfoldable pub up_to_selectable : Window → Outcome
  up_to_selectable w =
      bind (select_up selectable w.n_rows (w.n_rows + 1) w.sel) λ sel. ok (record w { sel = sel })

  -- `window_page_top`
  unfoldable pub window_page_top : Window → Outcome
  window_page_top w = down_to_selectable (window_goto_pos w 0)

  -- `window_page_bottom`
  unfoldable pub window_page_bottom : Window → Outcome
  window_page_bottom w = up_to_selectable (window_goto_pos w (w.nr_rows - 1))

  -- `window_page_middle`
  unfoldable pub window_page_middle : Window → Outcome
  window_page_middle w = down_to_selectable (window_goto_pos w (w.nr_rows / 2))

-- `window_set_sel`; an `iter` that is no row of the list fails the BUG_ONs, or ends in one.
unfoldable pub window_set_sel : (scroll_offset : ℕ) → (iter : ℕ) → Window → Outcome
window_set_sel scroll_offset iter w =
    let n = w.n_rows in
    let above = min scroll_offset (w.nr_rows / 2) in
    let below = min scroll_offset ((w.nr_rows - 1) / 2) in
    let top =
      if ltb (iter - 1) (w.top - 1 + above)
      then top_above n above iter
      else top_below n w.nr_rows below iter w.top in
    if not w.has_head || w.top == 0 || iter == 0
    then bug
    else if w.sel == iter
    then ok w
    else if ltb n iter
    then bug
    else ok (sel_changed (record w { top = top; sel = iter }))
