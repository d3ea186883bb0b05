-- ===== src/Window/Shown.antt =====
-- What `window_changed` of app/window.c makes of the top row.
use graceful_music.Common.{
  ℕ, zero, suc, ◌+◌, ◌-◌, ◌≤◌, ◌<◌, ◌≡◌, refl, ap, ◌∙◌, ◌⊎◌, inl, inr, true, Option, none, some,
  arith, ltb, ◌==◌, ltb→lt, ltb→ge, ==_refl, Bool-cases, beq_of_ne, ok,
}
use graceful_music.Window.{
  Window, next_row, prev_row, distance, up_to, scroll_to, rows_below, raise, minimize, show_sel,
  window_changed,
}

-- The rows from `top` on fill the window, or all rows are shown.
abbrev pub IsFilled : (n nr_rows top : ℕ) → Type 0
IsFilled n nr_rows top = (top ≡ 1) ⊎ (top + nr_rows ≤ n + 1)

-- The top and the selection are rows of the list, and the selection is one of the rows shown.
abbrev pub IsShown : (n nr_rows top sel : ℕ) → Type 0
IsShown n nr_rows top sel = (1 ≤ top) × (top ≤ sel) × (sel < top + nr_rows) × (sel ≤ n)

pub next_row-row : (n i : ℕ) → i < n → next_row n i ≡ suc i
unfolding next_row
next_row-row n i h = ground arith

pub next_row-head : (n i : ℕ) → n ≤ i → next_row n i ≡ 0
unfolding next_row
next_row-head n i h = ground arith

pub prev_row-row : (n i : ℕ) → prev_row n (suc i) ≡ i
unfolding prev_row
prev_row-row n i = ground arith

scroll_to_lem :
    (n delta nr_rows top : ℕ)
    → 1 ≤ nr_rows
    → top + delta ≤ n
    → scroll_to n delta nr_rows top ≡ top + (delta - (nr_rows - 1))
unfolding scroll_to
scroll_to_lem n zero nr_rows top h k = omega arith
scroll_to_lem n (suc d) nr_rows top h k =
    rw (next_row-row n top (omega arith))
      (ground (arith, scroll_to_lem n d nr_rows (suc top) h (omega arith)))

rows_below_lem : (n k i rows : ℕ) → i ≤ n → rows_below n k i rows ≡ rows + (k - (k - (n - i)))
unfolding rows_below
rows_below_lem n zero i rows h = omega arith
rows_below_lem n (suc k) i rows h = elim (Bool-cases (ltb i n)) [
  | inl t ↦
      rw (next_row-row n i (ltb→lt i n t))
        (ground (arith, rows_below_lem n k (suc i) (rows + 1) (ltb→lt i n t)))
  | inr t ↦ rw (next_row-head n i (ltb→ge i n t)) (ground (arith, ltb→ge i n t))
]

pub raise_lem : (n k i : ℕ) → raise n k (suc i) ≡ suc (i - k)
unfolding raise
raise_lem n zero i = omega arith
raise_lem n (suc k) zero = rw (prev_row-row n 0) (ground arith)
raise_lem n (suc k) (suc i) = rw (prev_row-row n (suc i)) (ground (arith, raise_lem n k i))

distance_below :
    (n fuel i j count : ℕ)
    → i ≤ j
    → j ≤ n
    → j - i < fuel
    → distance n fuel i j count ≡ ok (some (count + (j - i)))
unfolding distance
distance_below n zero i j count h k l = ground arith
distance_below n (suc fuel) i j count h k l = elim (Bool-cases (ltb i j)) [
  | inl t ↦
      let i<j = ltb→lt i j t in
      rw
        (
          next_row-row n i (omega (arith, i<j)),
          beq_of_ne i j (omega (arith, i<j)),
          beq_of_ne (suc i) 0 (omega arith),
          distance_below n fuel (suc i) j (count + 1) i<j k (omega (arith, i<j)),
        )
        (ap (λ (c : ℕ). ok (some c)) (omega (arith, i<j)))
  | inr t ↦
      let e : i ≡ j = omega (arith, ltb→ge i j t) in
      rw (e, ==_refl j) (ap (λ (c : ℕ). ok (some c)) (omega arith))
]

distance_above :
    (n fuel i j count : ℕ) → j < i → i ≤ n → n - i < fuel → distance n fuel i j count ≡ ok none
unfolding distance
distance_above n zero i j count h k l = ground arith
distance_above n (suc fuel) i j count h k l = elim (Bool-cases (ltb i n)) [
  | inl t ↦
      let i<n = ltb→lt i n t in
      rw
        (
          next_row-row n i i<n,
          beq_of_ne i j (omega arith),
          beq_of_ne (suc i) 0 (omega arith),
          distance_above n fuel (suc i) j (count + 1) (omega arith) i<n (omega (arith, i<n)),
        )
        refl
  | inr t ↦ rw (next_row-head n i (ltb→ge i n t), beq_of_ne i j (omega arith)) refl
]

up_to_lem : (n fuel top sel : ℕ) → sel ≤ top → top - sel < fuel → up_to n fuel top sel ≡ ok sel
unfolding up_to
up_to_lem n zero top sel h k = ground arith
up_to_lem n (suc fuel) zero sel h k = let e : sel ≡ 0 = omega arith in rw e refl
up_to_lem n (suc fuel) (suc top) sel h k = elim (Bool-cases (suc top == sel)) [
  | inl t ↦ rw t (ap (λ (c : ℕ). ok c) (ground arith))
  | inr t ↦ rw (t, prev_row-row n top) (up_to_lem n fuel top sel (ground arith) (ground arith))
]

-- The top that `minimize` comes to
abbrev minimal : (n nr_rows top : ℕ) → ℕ
minimal n nr_rows top = suc (top - 1 - (nr_rows - 1 - (n - top)))

minimize_lem :
    (w : Window) (top : ℕ)
    → 1 ≤ top
    → top ≤ w.n_rows
    → minimize w top ≡ record w { top = minimal w.n_rows w.nr_rows top; changed = true }
unfolding minimize
minimize_lem w zero h k = ground arith
minimize_lem w (suc t) h k =
    let up = w.nr_rows - 1 - (w.n_rows - suc t) in
    let e : w.nr_rows - (1 + (w.nr_rows - 1 - up)) ≡ up = omega arith in
    let d : t ≡ suc t - 1 = omega arith in
    rw (rows_below_lem w.n_rows (w.nr_rows - 1) (suc t) 1 k, e, raise_lem w.n_rows up t)
      (ap (λ (c : ℕ). record w { top = suc (c - up); changed = true }) d)

-- A property's condition: the window has rows, and top and sel are among them.
abbrev pub IsWindow : Window → Type 0
IsWindow w =
    (w.has_head ≡ true)
    × (1 ≤ w.top)
    × (w.top ≤ w.n_rows)
    × (1 ≤ w.sel)
    × (w.sel ≤ w.n_rows)
    × (1 ≤ w.nr_rows)

-- What the theorem says of the new top `t`.
abbrev pub IsChangedTo : (w : Window) (t : ℕ) → Type 0
IsChangedTo w t =
    (window_changed w ≡ ok (record w { top = t; changed = true }))
    × IsShown w.n_rows w.nr_rows t w.sel
    × IsFilled w.n_rows w.nr_rows t
    × (IsShown w.n_rows w.nr_rows w.top w.sel → IsFilled w.n_rows w.nr_rows w.top → t ≡ w.top)

changed_by :
    (w : Window) (o : Option ℕ)
    → IsWindow w
    → distance w.n_rows (w.n_rows + 1) w.top w.sel 0 ≡ ok o
    → window_changed w ≡ show_sel w o
unfolding window_changed
changed_by w o h e = rw (h.0, beq_of_ne w.top 0 (omega (arith, h.1)), e) refl

changed_below : (w : Window) → IsWindow w → w.top ≤ w.sel → (t : ℕ) × IsChangedTo w t
unfolding show_sel
changed_below w h k =
    let s = w.top + ((w.sel - w.top) - (w.nr_rows - 1)) in
    let found = distance_below w.n_rows (w.n_rows + 1) w.top w.sel 0 k h.4 (omega arith) in
    (
      minimal w.n_rows w.nr_rows s,
      (
        changed_by w (some (w.sel - w.top)) h (found ∙ ap (λ (d : ℕ). ok (some d)) (omega arith))
            ∙ ap (λ (v : Window). ok v)
                (rw (scroll_to_lem w.n_rows (w.sel - w.top) w.nr_rows w.top h.5 (omega arith))
                  (minimize_lem w s (omega arith) (omega arith))),
        omega arith,
        ground arith,
        omega arith,
      ),
    )

changed_above : (w : Window) → IsWindow w → w.sel < w.top → (t : ℕ) × IsChangedTo w t
unfolding show_sel
changed_above w h k =
    let found = distance_above w.n_rows (w.n_rows + 1) w.top w.sel 0 k h.2 (omega arith) in
    (
      minimal w.n_rows w.nr_rows w.sel,
      (
        changed_by w none h found
            ∙ rw (up_to_lem w.n_rows (w.n_rows + 1) w.top w.sel (omega arith) (omega arith))
                (ap (λ (v : Window). ok v) (minimize_lem w w.sel h.3 h.4)),
        omega arith,
        ground arith,
        omega arith,
      ),
    )

-- In a window with rows and with top and sel among them, window_changed comes to an end without a failed
-- BUG_ON and changes nothing but top and changed: the selected row is shown then, and there are no empty
-- lines unless all rows are shown. A top for which both held already stays.
pub window_changed-IsShown : (w : Window) → IsWindow w → (t : ℕ) × IsChangedTo w t
window_changed-IsShown w h = elim (Bool-cases (ltb w.sel w.top)) [
  | inl t ↦ changed_above w h (ltb→lt w.sel w.top t)
  | inr t ↦ changed_below w h (ltb→ge w.sel w.top t)
]
