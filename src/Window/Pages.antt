-- ===== src/Window/Pages.antt =====
-- What the four page functions of app/window.c keep.
use graceful_music.Common.{
  ℕ, zero, suc, ◌+◌, ◌-◌, ◌/◌, ◌≤◌, ◌≡◌, refl, ◌⊎◌, inl, inr, Bool, true, arith, ltb, ◌==◌,
  if◌then◌else◌, ltb→lt, ltb→ge, Bool-cases, beq_of_ne,
}
use graceful_music.Window.{Window, next_row, sel_changed}
use graceful_music.Window.Shown.{IsShown, next_row-row, next_row-head, prev_row-row}
use graceful_music.Window.Move.{
  window_bottom, page_up_from, page_down_from, window_page_up, window_half_page_up,
  window_page_down, window_half_page_down,
}

-- The selection is on the line of the window on which it was, and only selectable rows are chosen.
pub record IsPaged (selectable : ℕ → Bool) (w v : Window) : Type 0 where
  pub same_rows : v.n_rows ≡ w.n_rows
  pub same_height : v.nr_rows ≡ w.nr_rows
  pub same_line : v.sel + w.top ≡ w.sel + v.top
  pub is_top : 1 ≤ v.top
  pub is_row : v.sel ≤ w.n_rows
  pub choice : (v.sel ≡ w.sel) ⊎ (selectable v.sel ≡ true)

module _ (selectable : ℕ → Bool) (w : Window) where
  IsPaged-refl : 1 ≤ w.top → w.sel ≤ w.n_rows → IsPaged selectable w w
  IsPaged-refl h k = record {
    same_rows = refl;
    same_height = refl;
    same_line = refl;
    is_top = h;
    is_row = k;
    choice = inl refl;
  }

  -- A round of the loops that comes to a row
  IsPaged-round :
      (v : Window) (sel top : ℕ)
      → IsPaged selectable w v
      → sel + w.top ≡ w.sel + top
      → 1 ≤ top
      → sel ≤ w.n_rows
      → IsPaged selectable w (if selectable sel then record v { sel = sel; top = top } else v)
  IsPaged-round v sel top h e k l = elim (Bool-cases (selectable sel)) [
    | inl t ↦ rw t (record {
      same_rows = h.same_rows;
      same_height = h.same_height;
      same_line = e;
      is_top = k;
      is_row = l;
      choice = inr t;
    })
    | inr t ↦ rw t h
  ]

  page_up_from-IsPaged :
      (k sel top : ℕ) (v : Window)
      → IsPaged selectable w v
      → sel + w.top ≡ w.sel + top
      → 1 ≤ top
      → top ≤ sel
      → sel ≤ w.n_rows
      → IsPaged selectable w (page_up_from selectable k sel top v)
  unfolding page_up_from
  page_up_from-IsPaged zero sel top v h e a b c = h
  page_up_from-IsPaged (suc k) sel zero v h e a b c = ground arith
  page_up_from-IsPaged (suc k) zero (suc top) v h e a b c = ground arith
  page_up_from-IsPaged (suc k) (suc sel) (suc zero) v h e a b c =
      rw (prev_row-row v.n_rows sel, prev_row-row v.n_rows 0) (ground arith)
  page_up_from-IsPaged (suc k) (suc sel) (suc (suc top)) v h e a b c =
      rw
        (
          prev_row-row v.n_rows sel,
          prev_row-row v.n_rows (suc top),
          beq_of_ne sel 0 (omega arith),
          beq_of_ne (suc top) 0 (omega arith),
        )
        (page_up_from-IsPaged k sel (suc top)
          (if selectable sel then record v { sel = sel; top = suc top } else v)
          (IsPaged-round v sel (suc top) h (omega arith) (omega arith) (omega arith)) (omega arith)
          (omega arith) (omega arith) (omega arith))

  page_down_from-IsPaged :
      (k sel bot top : ℕ) (v : Window)
      → IsPaged selectable w v
      → sel + w.top ≡ w.sel + top
      → 1 ≤ top
      → top ≤ sel
      → sel ≤ w.n_rows
      → IsPaged selectable w (page_down_from selectable k sel bot top v)
  unfolding page_down_from
  page_down_from-IsPaged zero sel bot top v h e a b c = h
  page_down_from-IsPaged (suc k) sel bot top v h e a b c = elim (Bool-cases (ltb sel w.n_rows)) [
    | inl t ↦
        let p = ltb→lt sel w.n_rows t in
        let go =
          page_down_from-IsPaged k (suc sel) (next_row v.n_rows bot) (suc top)
            (if selectable (suc sel) then record v { sel = suc sel; top = suc top } else v)
            (IsPaged-round v (suc sel) (suc top) h (omega arith) (omega arith) p) (omega arith)
            (omega arith) (omega (arith, p)) p in
        rw
          (
            next_row-row v.n_rows sel (omega (arith, p, h.same_rows)),
            next_row-row v.n_rows top (omega (arith, p, h.same_rows)),
            beq_of_ne (suc sel) 0 (omega arith),
          )
          (elim (Bool-cases (next_row v.n_rows bot == 0)) [ inl s ↦ rw s h | inr s ↦ rw s go ])
    | inr t ↦ rw (next_row-head v.n_rows sel (omega (arith, ltb→ge sel w.n_rows t, h.same_rows))) h
  ]

  -- Each of the four page functions, from a window whose selection is shown, keeps the list and the
  -- height of the window, and the selection on its line of the window; the top and the selection are
  -- rows of the list after it too, and a row that the selection has come to is selectable.
  pub page-IsPaged :
      IsShown w.n_rows w.nr_rows w.top w.sel
      → IsPaged selectable w (window_page_up selectable w)
        × IsPaged selectable w (window_half_page_up selectable w)
        × IsPaged selectable w (window_page_down selectable w)
        × IsPaged selectable w (window_half_page_down selectable w)
  unfolding window_page_up window_half_page_up window_page_down window_half_page_down sel_changed
  page-IsPaged s =
      let up = λ (k : ℕ).
        notify (page_up_from-IsPaged k w.sel w.top w (IsPaged-refl s.0 s.3) refl s.0 s.1 s.3) in
      let down = λ (k : ℕ). notify (
        page_down_from-IsPaged k w.sel (window_bottom w) w.top w (IsPaged-refl s.0 s.3) refl s.0 s.1
          s.3) in
      (
        up (w.nr_rows - 1),
        up ((w.nr_rows - 1) / 2),
        down (w.nr_rows - 1),
        down ((w.nr_rows - 1) / 2),
      )
    where
      notify :
          {v : Window}
          → IsPaged selectable w v
          → IsPaged selectable w (record v { changed = true; notified = v.notified + 1 })
      notify h = record {
        same_rows = h.same_rows;
        same_height = h.same_height;
        same_line = h.same_line;
        is_top = h.is_top;
        is_row = h.is_row;
        choice = h.choice;
      }
