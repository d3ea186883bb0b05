-- ===== src/Window/Steps.antt =====
-- `window_up`, `window_down` and `window_row_vanishes` of app/window.c. `rows` is not negative; a difference
-- of the C code that may be negative stands with its terms in another order.
use graceful_music.Common.{
  ℕ, zero, suc, ◌+◌, ◌-◌, ◌/◌, min, Bool, true, ◌&&◌, ◌||◌, ltb, leb, ◌==◌, if◌then◌else◌, Result,
  ok, bug, out_of_fuel, bind,
}
use graceful_music.Window.{Window, Outcome, next_row, prev_row, sel_changed, rows_down, rows_up}

-- The loops from top to sel; more rounds than there are rows never end.
unfoldable pub count_to : (n fuel i j count : ℕ) → Result ⊥ ℕ
count_to n zero i j count = out_of_fuel
count_to n (suc fuel) i j count =
    let rest = count_to n fuel (next_row n i) j (count + 1) in if i == j then ok count else rest

-- The selection, sel_up or sel_down, and skipped
pub record Steps : Type 0 where
  pub sel : ℕ
  pub count : ℕ
  pub skipped : ℕ

-- The loop over the rows that are stepped over, with `get_prev` or `get_next` for `move`
unfoldable pub steps_by :
    (move : ℕ → ℕ) → (selectable : ℕ → Bool) → (fuel rows iter : ℕ) → Steps → Result ⊥ Steps
steps_by move selectable zero rows iter s = out_of_fuel
steps_by move selectable (suc fuel) rows iter s =
    let rest = steps_by move selectable fuel rows (move iter) (
      if selectable (move iter)
      then record s { sel = move iter; count = s.count + 1 }
      else record s { skipped = s.skipped + 1 }) in
    if ltb s.count rows then (if move iter == 0 then ok s else rest) else ok s

-- `while (actual_offset < upper_bound)`, for an upper bound of k more
unfoldable pub offset_by : (move : ℕ → ℕ) → (k iter actual_offset : ℕ) → ℕ
offset_by move zero iter actual_offset = actual_offset
offset_by move (suc k) iter actual_offset =
    let rest = offset_by move k (move iter) (actual_offset + 1) in
    if move iter == 0 then actual_offset else rest

-- The ends of both functions
unfoldable pub moved : Steps → (actual_offset top : ℕ) → Window → Window
moved s actual_offset top w =
    let v = record w { top = top; sel = s.sel } in
    if ltb 0 s.count || ltb 0 actual_offset then sel_changed v else v

-- `window_up` behind the loop over the rows
unfoldable pub after_up : (scroll_offset rows buffer : ℕ) → Steps → Window → Window
after_up scroll_offset rows buffer s w =
    let stuck = s.count == 0 in
    let skipped = if stuck then 0 else s.skipped in
    let upper_bound = min (if stuck then buffer + rows else scroll_offset) (w.nr_rows / 2) in
    let actual_offset = offset_by (prev_row w.n_rows) upper_bound s.sel 0 in
    moved s actual_offset (rows_up w.n_rows (actual_offset + s.count + skipped - buffer) w.top) w

-- `window_down` behind the loop over the rows, for `dist` rows from top to sel: buffer is
-- nr_rows - 1 - dist.
unfoldable pub after_down : (scroll_offset rows dist : ℕ) → Steps → Window → Window
after_down scroll_offset rows dist s w =
    let stuck = s.count == 0 in
    let skipped = if stuck then 0 else s.skipped in
    let upper_bound =
      min (if stuck then w.nr_rows - 1 + rows - dist else scroll_offset) ((w.nr_rows - 1) / 2) in
    let actual_offset = offset_by (next_row w.n_rows) upper_bound s.sel 0 in
    moved s actual_offset
      (rows_down w.n_rows (actual_offset + s.count + skipped + dist - (w.nr_rows - 1)) w.top) w

-- The rows to the next selectable one, of at most `fuel`; 0 is that the head comes first.
unfoldable pub to_selectable : (move : ℕ → ℕ) → (selectable : ℕ → Bool) → (fuel iter count : ℕ) → ℕ
to_selectable move selectable zero iter count = 0
to_selectable move selectable (suc fuel) iter count =
    let rest = to_selectable move selectable fuel (move iter) (count + 1) in
    if move iter == 0 then 0 else if selectable (move iter) then count + 1 else rest

module _ (selectable : ℕ → Bool) where
  -- `window_up`
  unfoldable pub window_up : (scroll_offset rows : ℕ) → Window → Outcome
  window_up scroll_offset rows w =
      let n = w.n_rows in
      bind (count_to n (n + 1) w.top w.sel 0) λ buffer.
        bind
          (steps_by (prev_row n) selectable (n + 1) rows w.sel
            (record { sel = w.sel; count = 0; skipped = 0 }))
          λ s. ok (after_up scroll_offset rows buffer s w)

  -- `window_down`
  unfoldable pub window_down : (scroll_offset rows : ℕ) → Window → Outcome
  window_down scroll_offset rows w =
      let n = w.n_rows in
      bind (count_to n (n + 1) w.top w.sel 0) λ dist.
        bind
          (steps_by (next_row n) selectable (n + 1) rows w.sel
            (record { sel = w.sel; count = 0; skipped = 0 }))
          λ s. ok (after_down scroll_offset rows dist s w)

  -- `window_row_vanishes` on the selected row: the nearest selectable row, the one below if two are as near
  unfoldable pub sel_beside : (n row : ℕ) → ℕ
  sel_beside n row =
      let down = to_selectable (next_row n) selectable (n + 1) row 0 in
      let up = to_selectable (prev_row n) selectable (n + 1) row 0 in
      if ltb 0 down && (up == 0 || leb down up)
      then rows_down n down row
      else if ltb 0 up
      then rows_up n up row
      else 0

  -- `window_row_vanishes`, for a row of the list or the head that is in it. The list has the row still.
  -- After `window_set_empty` the BUG_ON fails, since the head is NULL then.
  unfoldable pub window_row_vanishes : (row : ℕ) → Window → Outcome
  window_row_vanishes row w =
      let n = w.n_rows in
      let below = next_row n row in
      let top = if w.top == row then (if below == 0 then prev_row n row else below) else w.top in
      let v = record w { top = top; changed = true } in
      if below == 0 && prev_row n below == 0
      then bug
      else if w.sel == row
      then ok (sel_changed (record v { sel = sel_beside n row }))
      else ok v
