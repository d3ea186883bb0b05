-- ===== src/Window/Chosen.antt =====
-- Where `window_set_sel` of app/window.c puts the top row, and what the page functions keep.
use graceful_music.Common.{
  ℕ, zero, suc, ◌+◌, ◌-◌, ◌/◌, ◌≤◌, ◌<◌, min, ◌≡◌, refl, ap, ◌≢◌, ◌⊎◌, inl, inr, arith, ltb, leb,
  if◌then◌else◌, ltb→lt, ltb→ge, leb→le, Bool-cases, beq_of_ne, ltb_of_ge, ok, le→leb, leb_of_gt,
}
use graceful_music.Window.{Window, sel_changed, rows_up}
use graceful_music.Window.Shown.{IsShown, next_row-row, next_row-head, prev_row-row, IsWindow}
use graceful_music.Window.Move.{
  top_above, top_showing, to_bottom, scroll_below, top_below, window_set_sel,
}

pub rows_up_lem : (n k i : ℕ) → k ≤ i → rows_up n k i ≡ i - k
unfolding rows_up
rows_up_lem n zero i h = omega arith
rows_up_lem n (suc k) zero h = ground arith
rows_up_lem n (suc k) (suc i) h =
    rw (prev_row-row n i) (ground (arith, rows_up_lem n k i (omega arith)))

top_showing_lem :
    (n k nr_rows sel_nr top_nr top : ℕ)
    → top ≡ suc top_nr
    → 1 ≤ nr_rows
    → sel_nr < n
    → sel_nr < top_nr + nr_rows + k
    → top_nr + nr_rows ≤ suc sel_nr
    → top_showing n k nr_rows sel_nr top_nr top ≡ suc (suc sel_nr - nr_rows)
unfolding top_showing
top_showing_lem n zero nr_rows sel_nr top_nr top e h k l m = omega arith
top_showing_lem n (suc f) nr_rows sel_nr top_nr top e h k l m =
    elim (Bool-cases (leb (top_nr + nr_rows) sel_nr)) [
      | inl t ↦
          let p = leb→le (top_nr + nr_rows) sel_nr t in
          rw (t, next_row-row n top (omega (arith, p)))
            (top_showing_lem n f nr_rows sel_nr (top_nr + 1) (suc top) (omega arith) h k
              (omega arith) (omega (arith, p)))
      | inr t ↦ rw t (ground arith)
    ]

scroll_below_lem :
    (n k tmp top : ℕ) → top ≤ tmp → tmp ≤ n → scroll_below n k tmp top ≡ top + (k - (k - (n - tmp)))
unfolding scroll_below
scroll_below_lem n zero tmp top h l = omega arith
scroll_below_lem n (suc k) tmp top h l = elim (Bool-cases (ltb tmp n)) [
  | inl t ↦
      let p = ltb→lt tmp n t in
      rw (next_row-row n tmp p, next_row-row n top (omega (arith, p)))
        (ground (arith, scroll_below_lem n k (suc tmp) (suc top) (omega arith) p))
  | inr t ↦ rw (next_row-head n tmp (ltb→ge tmp n t)) (ground (arith, ltb→ge tmp n t))
]

to_bottom_room :
    (n k upper_bound sel_nr tmp bottom_nr : ℕ)
    → tmp + k ≤ n
    → to_bottom n k upper_bound sel_nr tmp bottom_nr ≡ (tmp + k, bottom_nr + k)
unfolding to_bottom
to_bottom_room n zero upper_bound sel_nr tmp bottom_nr h =
    ap (λ (p : ℕ × ℕ). p) (λ i. (e tmp i, e bottom_nr i))
  where
    e : (a : ℕ) → a ≡ a + 0
    e a = omega arith
to_bottom_room n (suc k) upper_bound sel_nr tmp bottom_nr h =
    rw
      (
        next_row-row n tmp (omega arith),
        beq_of_ne (suc tmp) 0 (omega arith),
        to_bottom_room n k upper_bound sel_nr (suc tmp) (bottom_nr + 1) (omega arith),
      )
      λ i. (e tmp i, d i)
  where
    e : (a : ℕ) → suc a + k ≡ a + suc k
    e a = omega arith

    d : bottom_nr + 1 + k ≡ bottom_nr + suc k
    d = omega arith

to_bottom_end :
    (n k upper_bound sel_nr tmp bottom_nr : ℕ)
    → n < tmp + k
    → tmp ≤ n
    → to_bottom n k upper_bound sel_nr tmp bottom_nr ≡ (0, sel_nr + upper_bound)
unfolding to_bottom
to_bottom_end n zero upper_bound sel_nr tmp bottom_nr h l = ground arith
to_bottom_end n (suc k) upper_bound sel_nr tmp bottom_nr h l = elim (Bool-cases (ltb tmp n)) [
  | inl t ↦
      let p = ltb→lt tmp n t in
      rw
        (
          next_row-row n tmp p,
          beq_of_ne (suc tmp) 0 (omega arith),
          to_bottom_end n k upper_bound sel_nr (suc tmp) (bottom_nr + 1) (omega arith) p,
        )
        refl
  | inr t ↦ rw (next_row-head n tmp (ltb→ge tmp n t)) refl
]

-- The selection has `above` rows of the window above it and `below` rows below it, where the list has
-- as many.
abbrev pub HasMargins : (n nr_rows above below top sel : ℕ) → Type 0
HasMargins n nr_rows above below top sel =
    IsShown n nr_rows top sel
    × ((top ≡ 1) ⊎ (top + above ≤ sel))
    × ((n < top + nr_rows) ⊎ (sel + below < top + nr_rows))

top_above-HasMargins :
    (n nr_rows above below sel : ℕ)
    → 1 ≤ sel
    → sel ≤ n
    → 1 ≤ nr_rows
    → above ≤ nr_rows / 2
    → below ≤ (nr_rows - 1) / 2
    → HasMargins n nr_rows above below (top_above n above sel) sel
unfolding top_above
top_above-HasMargins n nr_rows above below sel h k l a b = elim (Bool-cases (ltb (sel - 1) above)) [
  | inl t ↦
      let p = ltb→lt (sel - 1) above t in rw (t, next_row-row n 0 (omega arith)) (omega (arith, p))
  | inr t ↦
      let p = ltb→ge (sel - 1) above t in
      rw (t, rows_up_lem n above sel (omega (arith, p))) (omega (arith, p))
]

-- The rows between the top and the selection when the list may have to scroll down.
abbrev IsAbove : (n nr_rows above below top sel : ℕ) → Type 0
IsAbove n nr_rows above below top sel =
    (1 ≤ top)
    × (sel ≤ n)
    × (1 ≤ nr_rows)
    × (above ≤ nr_rows / 2)
    × (below ≤ (nr_rows - 1) / 2)
    × (top + above ≤ sel)

below_hidden :
    (n nr_rows above below top sel : ℕ)
    → IsAbove n nr_rows above below top sel
    → top - 1 + nr_rows ≤ sel - 1
    → HasMargins n nr_rows above below (top_below n nr_rows below sel top) sel
unfolding top_below
below_hidden n nr_rows above below top sel h k =
    rw
      (
        le→leb (top - 1 + nr_rows) (sel - 1) k,
        top_showing_lem n sel nr_rows (sel - 1) (top - 1) top (omega arith) h.2 (omega arith)
            (omega arith) (omega arith),
        scroll_below_lem n below sel (suc (suc (sel - 1) - nr_rows)) (omega arith) h.1,
      )
      (omega arith)

below_shown :
    (n nr_rows above below top sel : ℕ)
    → IsAbove n nr_rows above below top sel
    → sel - 1 < top - 1 + nr_rows
    → HasMargins n nr_rows above below (top_below n nr_rows below sel top) sel
unfolding top_below
below_shown n nr_rows above below top sel h k =
    let rounds = top - 1 + nr_rows - (sel - 1 + 1) in
    elim (Bool-cases (ltb n (sel + rounds))) [
      | inl t ↦
          let p = ltb→lt n (sel + rounds) t in
          let none_left : sel - 1 + below - (sel - 1 + below) ≡ 0 = omega arith in
          rw
            (
              leb_of_gt (top - 1 + nr_rows) (sel - 1) k,
              to_bottom_end n rounds below (sel - 1) sel (sel - 1) p h.1,
              none_left,
            )
            (unfold scroll_below in omega (arith, p))
      | inr t ↦
          let p = ltb→ge n (sel + rounds) t in
          rw
            (
              leb_of_gt (top - 1 + nr_rows) (sel - 1) k,
              to_bottom_room n rounds below (sel - 1) sel (sel - 1) p,
              scroll_below_lem n (sel - 1 + below - (sel - 1 + rounds)) (sel + rounds) top
                  (omega arith) p,
            )
            (omega (arith, p))
    ]

-- The top that `window_set_sel` sets
set_sel_top :
    (n nr_rows above below top sel : ℕ)
    → 1 ≤ top
    → 1 ≤ sel
    → sel ≤ n
    → 1 ≤ nr_rows
    → above ≤ nr_rows / 2
    → below ≤ (nr_rows - 1) / 2
    → HasMargins n nr_rows above below
        (if ltb (sel - 1) (top - 1 + above)
          then top_above n above sel
          else top_below n nr_rows below sel top)
        sel
set_sel_top n nr_rows above below top sel h k l m a b =
    elim (Bool-cases (ltb (sel - 1) (top - 1 + above))) [
      | inl t ↦ rw t (top_above-HasMargins n nr_rows above below sel k l m a b)
      | inr t ↦
          let p = ltb→ge (sel - 1) (top - 1 + above) t in
          let q : IsAbove n nr_rows above below top sel = omega (arith, p) in
          elim (Bool-cases (leb (top - 1 + nr_rows) (sel - 1))) [
            | inl s ↦ rw t (
                below_hidden n nr_rows above below top sel q
                  (leb→le (top - 1 + nr_rows) (sel - 1) s))
            | inr s ↦ rw t (below_shown n nr_rows above below top sel q (ground arith))
          ]
    ]

-- To choose another row than the selected one comes to an end without a failed BUG_ON. The row is shown
-- then, with scroll_offset rows above and below it, as far as half of the window and the list go.
pub window_set_sel-HasMargins :
    (scroll_offset iter : ℕ) (w : Window)
    → IsWindow w
    → 1 ≤ iter
    → iter ≤ w.n_rows
    → w.sel ≢ iter
    → (t : ℕ) × (window_set_sel scroll_offset iter w
        ≡ ok (sel_changed (record w { top = t; sel = iter })))
      × HasMargins w.n_rows w.nr_rows
          (min scroll_offset (w.nr_rows / 2))
          (min scroll_offset ((w.nr_rows - 1) / 2))
          t
          iter
unfolding window_set_sel
window_set_sel-HasMargins scroll_offset iter w h k l d =
    let above = min scroll_offset (w.nr_rows / 2) in
    let below = min scroll_offset ((w.nr_rows - 1) / 2) in
    (
      (if ltb (iter - 1) (w.top - 1 + above)
          then top_above w.n_rows above iter
          else top_below w.n_rows w.nr_rows below iter w.top),
      rw
          (
            h.0,
            beq_of_ne w.top 0 (omega arith),
            beq_of_ne iter 0 (omega arith),
            beq_of_ne w.sel iter d,
            ltb_of_ge w.n_rows iter l,
          )
          refl,
      set_sel_top w.n_rows w.nr_rows above below w.top iter h.1 k l h.5 (omega arith) (omega arith),
    )
