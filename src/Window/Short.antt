-- ===== src/Window/Short.antt =====
-- What `window_page_bottom` of app/window.c does in a window higher than its list.
use graceful_music.Common.{
  ℕ, zero, suc, ◌+◌, ◌-◌, ◌≤◌, ◌<◌, ◌≡◌, refl, ◌∙◌, inl, inr, Bool, true, arith, ltb, ltb→lt,
  ltb→ge, Bool-cases, ok, bind,
}
use graceful_music.Window.{Window, rows_down}
use graceful_music.Window.Shown.{next_row-row, next_row-head, IsWindow}
use graceful_music.Window.Move.{
  select_up, changed_from, window_goto_pos, up_to_selectable, window_page_bottom,
}

pub rows_down_row : (n k i : ℕ) → i + k ≤ n → rows_down n k i ≡ i + k
unfolding rows_down
rows_down_row n zero i h = omega arith
rows_down_row n (suc k) i h =
    rw (next_row-row n i (omega arith), rows_down_row n k (suc i) (omega arith)) (omega arith)

rows_down_around :
    (n k i : ℕ) → i ≤ n → n < i + k → i + k ≤ n + suc n → rows_down n k i ≡ i + k - suc n
unfolding rows_down
rows_down_around n zero i h a b = ground arith
rows_down_around n (suc k) i h a b = elim (Bool-cases (ltb i n)) [
  | inl t ↦
      let p = ltb→lt i n t in
      rw (next_row-row n i p, rows_down_around n k (suc i) p (omega arith) (omega arith))
        (omega arith)
  | inr t ↦
      let p = ltb→ge i n t in
      rw (next_row-head n i p, rows_down_row n k 0 (omega arith)) (omega (arith, p))
]

select_up-here :
    (selectable : ℕ → Bool) (n fuel sel : ℕ)
    → selectable sel ≡ true
    → 0 < fuel
    → select_up selectable n fuel sel ≡ ok sel
unfolding select_up
select_up-here selectable n zero sel h k = ground arith
select_up-here selectable n (suc fuel) sel h k = rw h refl

-- In a window higher than its list, by at most as many rows as the list has, where all rows are shown and
-- the callback takes every row and the head, window_page_bottom goes around the list: the selection comes
-- to row nr_rows - (n_rows + 1). This is above the last row, and it is the head and no row if the window is
-- one row higher.
pub window_page_bottom-short :
    (selectable : ℕ → Bool) (w : Window)
    → IsWindow w
    → ((i : ℕ) → selectable i ≡ true)
    → w.top ≡ 1
    → w.n_rows < w.nr_rows
    → w.nr_rows ≤ w.n_rows + w.n_rows
    → (window_page_bottom selectable w
        ≡ ok (changed_from w.sel (record w { sel = w.nr_rows - suc w.n_rows })))
      × (w.nr_rows - suc w.n_rows < w.n_rows)
unfolding window_page_bottom window_goto_pos up_to_selectable
window_page_bottom-short selectable w h all e a b =
    let at : rows_down w.n_rows (w.nr_rows - 1) w.top ≡ w.nr_rows - suc w.n_rows =
      rows_down_around w.n_rows (w.nr_rows - 1) w.top (omega arith) (omega arith) (omega arith)
      ∙ omega arith in
    (
      rw at (chosen (changed_from w.sel (record w { sel = w.nr_rows - suc w.n_rows })) all),
      omega arith,
    )
  where
    chosen :
        (v : Window)
        → ((i : ℕ) → selectable i ≡ true)
        → bind
            (select_up selectable v.n_rows (v.n_rows + 1) v.sel)
            (λ sel. ok (record v { sel = sel }))
          ≡ ok v
    chosen v all =
        rw (select_up-here selectable v.n_rows (v.n_rows + 1) v.sel (all v.sel) (omega arith)) refl
