-- ===== src/Window/Scroll.antt =====
-- What `window_up` and `window_down` of app/window.c do where every row is selectable.
use graceful_music.Common.{
  ℕ, ◌+◌, ◌-◌, ◌/◌, ◌≤◌, ◌<◌, min, ◌≡◌, refl, ap, ◌∙◌, ◌⊎◌, inl, inr, Bool, true, ◌||◌, arith, ltb,
  ◌==◌, ==_iff, Bool-cases, ok,
}
use graceful_music.Window.{Window, sel_changed}
use graceful_music.Window.Shown.{IsShown, IsWindow}
use graceful_music.Window.Steps.{
  count_to, Steps, moved, after_up, after_down, window_up, window_down,
}
use graceful_music.Window.Short.{rows_down_row}
use graceful_music.Window.Chosen.{rows_up_lem}
use graceful_music.Window.Counts.{
  count_to_lem, offset_down_lem, steps_up_at, steps_down_at, offset_up_at,
}

moved_lem :
    (s : Steps) (offset top : ℕ) (w : Window)
    → ((moved s offset top w).n_rows ≡ w.n_rows)
      × ((moved s offset top w).nr_rows ≡ w.nr_rows)
      × ((moved s offset top w).sel ≡ s.sel)
      × ((moved s offset top w).top ≡ top)
unfolding moved sel_changed
moved_lem s offset top w = elim (Bool-cases (ltb 0 s.count || ltb 0 offset)) [
  | inl t ↦ rw t (refl, refl, refl, refl)
  | inr t ↦ rw t (refl, refl, refl, refl)
]

-- The window `v` shows the same list in the same height, and the row `sel` is selected in it and shown.
abbrev pub IsScrolled : (w v : Window) (sel : ℕ) → Type 0
IsScrolled w v sel =
    (v.n_rows ≡ w.n_rows)
    × (v.nr_rows ≡ w.nr_rows)
    × (v.sel ≡ sel)
    × IsShown w.n_rows w.nr_rows v.top v.sel

abbrev pub IsAboveMargin : (scroll_offset : ℕ) (w v : Window) → Type 0
IsAboveMargin scroll_offset w v = (v.top ≡ 1) ⊎ (v.top + min scroll_offset (w.nr_rows / 2) ≤ v.sel)

abbrev pub IsBelowMargin : (scroll_offset : ℕ) (w v : Window) → Type 0
IsBelowMargin scroll_offset w v =
    (w.n_rows < v.top + w.nr_rows)
    ⊎ (v.sel + min scroll_offset ((w.nr_rows - 1) / 2) < v.top + w.nr_rows)

after_up-IsScrolled :
    (scroll_offset rows c : ℕ) (w : Window)
    → IsWindow w
    → IsShown w.n_rows w.nr_rows w.top w.sel
    → 1 ≤ rows
    → c ≡ rows - (rows - (w.sel - 1))
    → let v =
        after_up scroll_offset rows
          (w.sel - w.top)
          (record { sel = w.sel - c; count = c; skipped = 0 })
          w in
      IsScrolled w v (w.sel - c) × IsAboveMargin scroll_offset w v
unfolding after_up
after_up-IsScrolled scroll_offset rows c w h s r e = elim (Bool-cases (c == 0)) [
  | inl t ↦
      let z : c ≡ 0 = (==_iff c 0).0 t in
      let upper = min (w.sel - w.top + rows) (w.nr_rows / 2) in
      let a = upper - (upper - (w.sel - c - 1)) in
      let m =
        moved_lem (record { sel = w.sel - c; count = c; skipped = 0 }) a
          (w.top - (a + c + 0 - (w.sel - w.top))) w in
      rw
        (
          t,
          offset_up_at w.n_rows upper (w.sel - c) (omega arith),
          rows_up_lem w.n_rows (a + c + 0 - (w.sel - w.top)) w.top (omega (arith, z)),
        )
        ((omega (arith, m, z), omega (arith, m, z)))
  | inr t ↦
      let upper = min scroll_offset (w.nr_rows / 2) in
      let a = upper - (upper - (w.sel - c - 1)) in
      let m =
        moved_lem (record { sel = w.sel - c; count = c; skipped = 0 }) a
          (w.top - (a + c + 0 - (w.sel - w.top))) w in
      rw
        (
          t,
          offset_up_at w.n_rows upper (w.sel - c) (omega arith),
          rows_up_lem w.n_rows (a + c + 0 - (w.sel - w.top)) w.top (omega arith),
        )
        ((omega (arith, m), omega (arith, m)))
]

after_down-IsScrolled :
    (scroll_offset rows c : ℕ) (w : Window)
    → IsWindow w
    → IsShown w.n_rows w.nr_rows w.top w.sel
    → 1 ≤ rows
    → c ≡ rows - (rows - (w.n_rows - w.sel))
    → let v =
        after_down scroll_offset rows
          (w.sel - w.top)
          (record { sel = w.sel + c; count = c; skipped = 0 })
          w in
      IsScrolled w v (w.sel + c) × IsBelowMargin scroll_offset w v
unfolding after_down
after_down-IsScrolled scroll_offset rows c w h s r e = elim (Bool-cases (c == 0)) [
  | inl t ↦
      let z : c ≡ 0 = (==_iff c 0).0 t in
      let upper = min (w.nr_rows - 1 + rows - (w.sel - w.top)) ((w.nr_rows - 1) / 2) in
      let a = 0 + (upper - (upper - (w.n_rows - (w.sel + c)))) in
      let k = a + c + 0 + (w.sel - w.top) - (w.nr_rows - 1) in
      let m = moved_lem (record { sel = w.sel + c; count = c; skipped = 0 }) a (w.top + k) w in
      rw
        (
          t,
          offset_down_lem w.n_rows upper (w.sel + c) 0 (omega arith),
          rows_down_row w.n_rows k w.top (omega (arith, z)),
        )
        ((omega (arith, m, z), omega (arith, m, z)))
  | inr t ↦
      let upper = min scroll_offset ((w.nr_rows - 1) / 2) in
      let a = 0 + (upper - (upper - (w.n_rows - (w.sel + c)))) in
      let k = a + c + 0 + (w.sel - w.top) - (w.nr_rows - 1) in
      let m = moved_lem (record { sel = w.sel + c; count = c; skipped = 0 }) a (w.top + k) w in
      rw
        (
          t,
          offset_down_lem w.n_rows upper (w.sel + c) 0 (omega arith),
          rows_down_row w.n_rows k w.top (omega arith),
        )
        ((omega (arith, m), omega (arith, m)))
]

-- Where every row is selectable, and the selection is shown: window_up by at least one row comes to an end,
-- and selects the row that is so many rows above, or the first one. window_down does the same downwards, to
-- the last one. The selection is shown then, and with scroll_offset rows above it (below it), as far as
-- half of the window and the list go.
pub window_up-down :
    (selectable : ℕ → Bool) (scroll_offset rows : ℕ) (w : Window)
    → ((i : ℕ) → selectable i ≡ true)
    → IsWindow w
    → IsShown w.n_rows w.nr_rows w.top w.sel
    → 1 ≤ rows
    → ((v : Window) × (window_up selectable scroll_offset rows w ≡ ok v)
        × IsScrolled w v (w.sel - min rows (w.sel - 1))
        × IsAboveMargin scroll_offset w v)
      × ((v : Window) × (window_down selectable scroll_offset rows w ≡ ok v)
          × IsScrolled w v (min (w.sel + rows) w.n_rows)
          × IsBelowMargin scroll_offset w v)
unfolding window_up window_down
window_up-down selectable scroll_offset rows w all h s r =
    let dist : count_to w.n_rows (w.n_rows + 1) w.top w.sel 0 ≡ ok (w.sel - w.top) =
      count_to_lem w.n_rows (w.n_rows + 1) w.top w.sel 0 s.1 s.3 (omega arith)
      ∙ ap (λ (d : ℕ). ok d) (omega arith) in
    let c = rows - (rows - (w.sel - 1)) in
    let d = rows - (rows - (w.n_rows - w.sel)) in
    let up = after_up-IsScrolled scroll_offset rows c w h s r refl in
    let down = after_down-IsScrolled scroll_offset rows d w h s r refl in
    (
      (
        after_up scroll_offset rows (w.sel - w.top)
            (record { sel = w.sel - c; count = c; skipped = 0 }) w,
        rw (dist, steps_up_at selectable all w.n_rows rows w.sel h.3 h.4) refl,
        (up.0.0, up.0.1, up.0.2 ∙ omega arith, up.0.3),
        up.1,
      ),
      (
        after_down scroll_offset rows (w.sel - w.top)
            (record { sel = w.sel + d; count = d; skipped = 0 }) w,
        rw (dist, steps_down_at selectable all w.n_rows rows w.sel h.4) refl,
        (down.0.0, down.0.1, down.0.2 ∙ omega arith, down.0.3),
        down.1,
      ),
    )
