-- ===== src/Window/Tests.antt =====
-- Runs and instances for app/window.c.
use graceful_music.Common.{
  ℕ, ◌<◌, ◌-◌, ◌/◌, min, ◌≡◌, refl, Bool, true, false, not, arith, ◌==◌, pos, ok, bug,
}
use graceful_music.Window.{
  Window, next_row, prev_row, sel_changed, rows_down, rows_up, distance, up_to, scroll_to,
  rows_below, raise, minimize, show_sel, window_changed, window_set_nr_rows,
}
use graceful_music.Window.Shown.{IsChangedTo, window_changed-IsShown}
use graceful_music.Window.Move.{
  bottom_from, window_bottom, top_showing, scroll_below, top_below, select_down, select_up,
  changed_from, page_down_from, window_goto_top, window_goto_bottom, window_page_up,
  window_half_page_up, window_page_down, window_half_page_down, window_scroll_up, window_goto_pos,
  up_to_selectable, window_page_bottom, window_set_sel,
}
use graceful_music.Window.Chosen.{HasMargins, window_set_sel-HasMargins}
use graceful_music.Window.Short.{window_page_bottom-short}
use graceful_music.Window.Pages.{IsPaged, page-IsPaged}
use graceful_music.Window.Steps.{
  count_to, steps_by, offset_by, moved, after_up, to_selectable, window_up, window_down, sel_beside,
  window_row_vanishes,
}
use graceful_music.Window.Scroll.{IsScrolled, IsAboveMargin, IsBelowMargin, window_up-down}

-- Ten rows in a window of four
abbrev ten : (top sel : ℕ) → Window
ten top sel = record {
  has_head = true;
  n_rows = 10;
  top = top;
  sel = sel;
  nr_rows = 4;
  changed = false;
  notified = 0;
}

-- Three rows in a window of four
abbrev three : Window
three = record {
  has_head = true;
  n_rows = 3;
  top = 1;
  sel = 2;
  nr_rows = 4;
  changed = false;
  notified = 0;
}

abbrev any : ℕ → Bool
any i = true

abbrev no_third : ℕ → Bool
no_third i = not (i == 3)

changed_below_the_window : window_changed (ten 2 9) ≡ ok (record (ten 6 9) { changed = true })
unfolding window_changed distance next_row show_sel scroll_to minimize rows_below raise
changed_below_the_window = refl

changed_above_the_window : window_changed (ten 10 3) ≡ ok (record (ten 3 3) { changed = true })
unfolding window_changed distance next_row prev_row show_sel up_to scroll_to minimize rows_below
    raise
changed_above_the_window = refl

empty_bug : window_changed (record (ten 1 1) { has_head = false }) ≡ bug
unfolding window_changed
empty_bug = refl

height_zero : window_set_nr_rows (pos 0) (ten 1 1) ≡ ok (ten 1 1)
unfolding window_set_nr_rows
height_zero = refl

set_sel_down : window_set_sel 1 8 (ten 2 3) ≡ ok (sel_changed (ten 6 8))
unfolding window_set_sel top_below top_showing scroll_below next_row
set_sel_down = refl

goto_bottom_test : window_goto_bottom any (ten 2 3) ≡ ok (sel_changed (ten 7 10))
unfolding window_goto_bottom select_up prev_row raise changed_from
goto_bottom_test = refl

goto_top_test : window_goto_top no_third (ten 2 1) ≡ ok (ten 1 1)
unfolding window_goto_top select_down next_row changed_from
goto_top_test = refl

page_down_test : window_page_down no_third (ten 1 1) ≡ sel_changed (ten 4 4)
unfolding window_page_down page_down_from window_bottom bottom_from next_row
page_down_test = refl

scroll_up_test : window_scroll_up any (ten 2 5) ≡ ok (sel_changed (ten 1 4))
unfolding window_scroll_up window_bottom bottom_from select_up next_row prev_row
scroll_up_test = refl

-- A list that does not fill its window: the bottom of the page is beyond its last row, on the head.
page_bottom_head : window_page_bottom any three ≡ ok (sel_changed (record three { sel = 0 }))
unfolding window_page_bottom up_to_selectable window_goto_pos rows_down select_up changed_from
    next_row sel_changed
page_bottom_head = refl

-- With one row more in the window: the selection comes to the first row.
page_bottom_first :
    window_page_bottom any (record three { nr_rows = 5 })
    ≡ ok (sel_changed (record three { nr_rows = 5; sel = 1 }))
unfolding window_page_bottom up_to_selectable window_goto_pos rows_down select_up changed_from
    next_row sel_changed
page_bottom_first = refl

window_changed-IsShown_example : (t : ℕ) × IsChangedTo (ten 2 9) t
window_changed-IsShown_example =
    window_changed-IsShown (ten 2 9)
      (refl, omega arith, omega arith, omega arith, omega arith, omega arith)

window_set_sel-HasMargins_example :
    (t : ℕ) × (window_set_sel 1 8 (ten 2 3)
      ≡ ok (sel_changed (record (ten 2 3) { top = t; sel = 8 })))
    × HasMargins 10 4 (min 1 (4 / 2)) (min 1 (3 / 2)) t 8
window_set_sel-HasMargins_example =
    window_set_sel-HasMargins 1 8 (ten 2 3)
      (refl, omega arith, omega arith, omega arith, omega arith, omega arith) (omega arith)
      (omega arith) (omega arith)

page-IsPaged_example :
    IsPaged no_third (ten 2 4) (window_page_up no_third (ten 2 4))
    × IsPaged no_third (ten 2 4) (window_half_page_up no_third (ten 2 4))
    × IsPaged no_third (ten 2 4) (window_page_down no_third (ten 2 4))
    × IsPaged no_third (ten 2 4) (window_half_page_down no_third (ten 2 4))
page-IsPaged_example =
    page-IsPaged no_third (ten 2 4) (omega arith, omega arith, omega arith, omega arith)

window_page_bottom-short_example :
    (window_page_bottom any three ≡ ok (changed_from 2 (record three { sel = 0 }))) × (0 < 3)
window_page_bottom-short_example =
    window_page_bottom-short any three
      (refl, omega arith, omega arith, omega arith, omega arith, omega arith) (λ i. refl) refl
      (omega arith) (omega arith)

-- The third row is skipped.
up_test : window_up no_third 1 1 (ten 4 4) ≡ ok (sel_changed (ten 1 2))
unfolding window_up count_to steps_by prev_row after_up moved offset_by rows_up
up_test = refl

-- The vanishing of the selected row: the rows above and below it are as near.
vanishes_test : window_row_vanishes any 5 (ten 5 5) ≡ ok (sel_changed (ten 6 6))
unfolding window_row_vanishes next_row prev_row sel_beside to_selectable rows_down rows_up
    sel_changed
vanishes_test = refl

-- The last row that is left: the window is not made empty, its top and selection are on the head.
vanishes_last :
    window_row_vanishes any 1 (record (ten 1 1) { n_rows = 1 })
    ≡ ok (sel_changed (record (ten 0 0) { n_rows = 1; changed = true }))
unfolding window_row_vanishes next_row prev_row sel_beside to_selectable sel_changed
vanishes_last = refl

window_up-down_example :
    ((v : Window) × (window_up any 1 2 (ten 3 4) ≡ ok v)
      × IsScrolled (ten 3 4) v (4 - min 2 3)
      × IsAboveMargin 1 (ten 3 4) v)
    × ((v : Window) × (window_down any 1 2 (ten 3 4) ≡ ok v)
        × IsScrolled (ten 3 4) v (min 6 10)
        × IsBelowMargin 1 (ten 3 4) v)
window_up-down_example =
    window_up-down any 1 2 (ten 3 4) (λ i. refl)
      (refl, omega arith, omega arith, omega arith, omega arith, omega arith)
      (omega arith, omega arith, omega arith, omega arith) (omega arith)

abbrev no_first : ℕ → Bool
no_first i = not (i == 1)

-- The first row is no selectable one, and comes above the new selection: it is counted among the skipped
-- rows and among those of the offset, and the top comes to the head.
up_to_head : window_up no_first 1 2 (ten 2 3) ≡ ok (sel_changed (ten 0 2))
unfolding window_up count_to steps_by prev_row next_row after_up moved offset_by rows_up
up_to_head = refl
