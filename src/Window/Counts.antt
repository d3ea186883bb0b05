-- ===== src/Window/Counts.antt =====
-- What the loops of `window_up` and `window_down` of app/window.c count where every row is selectable.
use graceful_music.Common.{
  ℕ, zero, suc, ◌+◌, ◌-◌, ◌≤◌, ◌<◌, ◌≡◌, ap, ◌∙◌, inl, inr, Bool, true, arith, ltb, ltb→lt, ltb→ge,
  ==_refl, Bool-cases, beq_of_ne, Result, ok,
}
use graceful_music.Window.{next_row, prev_row}
use graceful_music.Window.Shown.{next_row-row, next_row-head, prev_row-row}
use graceful_music.Window.Steps.{count_to, Steps, steps_by, offset_by}

pub count_to_lem :
    (n fuel i j count : ℕ)
    → i ≤ j
    → j ≤ n
    → j - i < fuel
    → count_to n fuel i j count ≡ ok (count + (j - i))
unfolding count_to
count_to_lem n zero i j count h k l = ground arith
count_to_lem n (suc fuel) i j count h k l = elim (Bool-cases (ltb i j)) [
  | inl t ↦
      let p = ltb→lt i j t in
      rw
        (
          next_row-row n i (omega (arith, p)),
          beq_of_ne i j (omega (arith, p)),
          count_to_lem n fuel (suc i) j (count + 1) p k (omega (arith, p)),
        )
        (ap (λ (c : ℕ). ok c) (omega (arith, p)))
  | inr t ↦
      let e : i ≡ j = omega (arith, ltb→ge i j t) in
      rw (e, ==_refl j) (ap (λ (c : ℕ). ok c) (omega arith))
]

same_steps :
    {s t c d k : ℕ}
    → s ≡ t
    → c ≡ d
    → ◌≡◌ {A = Result ⊥ Steps}
        (ok (record { sel = s; count = c; skipped = k }))
        (ok (record { sel = t; count = d; skipped = k }))
same_steps {k} p q i = ok (record { sel = p i; count = q i; skipped = k })

module _ (selectable : ℕ → Bool) (all : (i : ℕ) → selectable i ≡ true) where
  steps_up_lem :
      (n fuel rows sel count skipped : ℕ)
      → sel < fuel
      → steps_by
          (prev_row n)
          selectable
          fuel
          rows
          (suc sel)
          (record { sel = suc sel; count = count; skipped = skipped })
        ≡ ok (record {
          sel = suc sel - (rows - count - (rows - count - sel));
          count = count + (rows - count - (rows - count - sel));
          skipped = skipped;
        })
  unfolding steps_by
  steps_up_lem n zero rows sel count skipped h = ground arith
  steps_up_lem n (suc fuel) rows zero count skipped h = elim (Bool-cases (ltb count rows)) [
    | inl t ↦ rw (t, prev_row-row n 0) (same_steps (omega arith) (omega arith))
    | inr t ↦ rw t (same_steps (omega arith) (omega arith))
  ]
  steps_up_lem n (suc fuel) rows (suc sel) count skipped h = elim (Bool-cases (ltb count rows)) [
    | inl t ↦
        let q = ltb→lt count rows t in
        rw
          (
            t,
            prev_row-row n (suc sel),
            all (suc sel),
            beq_of_ne (suc sel) 0 (omega arith),
            steps_up_lem n fuel rows sel (count + 1) skipped (omega arith),
          )
          (same_steps (omega (arith, q)) (omega (arith, q)))
    | inr t ↦ let q = ltb→ge count rows t in rw t (same_steps (omega (arith, q)) (omega (arith, q)))
  ]

  steps_down_lem :
      (n fuel rows sel count skipped : ℕ)
      → sel ≤ n
      → n - sel < fuel
      → steps_by
          (next_row n)
          selectable
          fuel
          rows
          sel
          (record { sel = sel; count = count; skipped = skipped })
        ≡ ok (record {
          sel = sel + (rows - count - (rows - count - (n - sel)));
          count = count + (rows - count - (rows - count - (n - sel)));
          skipped = skipped;
        })
  unfolding steps_by
  steps_down_lem n zero rows sel count skipped h k = ground arith
  steps_down_lem n (suc fuel) rows sel count skipped h k = elim (Bool-cases (ltb count rows)) [
    | inl t ↦ elim (Bool-cases (ltb sel n)) [
      | inl s ↦
          let p = ltb→lt sel n s in
          let q = ltb→lt count rows t in
          rw
            (
              t,
              next_row-row n sel p,
              all (suc sel),
              beq_of_ne (suc sel) 0 (omega arith),
              steps_down_lem n fuel rows (suc sel) (count + 1) skipped p (omega arith),
            )
            (same_steps (omega (arith, p, q)) (omega (arith, p, q)))
      | inr s ↦
          let p = ltb→ge sel n s in
          rw (t, next_row-head n sel p) (same_steps (omega (arith, p)) (omega (arith, p)))
    ]
    | inr t ↦ let q = ltb→ge count rows t in rw t (same_steps (omega (arith, q)) (omega (arith, q)))
  ]

offset_up_lem : (n k i c : ℕ) → offset_by (prev_row n) k (suc i) c ≡ c + (k - (k - i))
unfolding offset_by
offset_up_lem n zero i c = omega arith
offset_up_lem n (suc k) zero c = rw (prev_row-row n 0) (ground arith)
offset_up_lem n (suc k) (suc i) c =
    rw (prev_row-row n (suc i)) (ground (arith, offset_up_lem n k i (c + 1)))

pub offset_down_lem : (n k i c : ℕ) → i ≤ n → offset_by (next_row n) k i c ≡ c + (k - (k - (n - i)))
unfolding offset_by
offset_down_lem n zero i c h = omega arith
offset_down_lem n (suc k) i c h = elim (Bool-cases (ltb i n)) [
  | inl t ↦
      rw (next_row-row n i (ltb→lt i n t))
        (ground (arith, offset_down_lem n k (suc i) (c + 1) (ltb→lt i n t)))
  | inr t ↦ rw (next_row-head n i (ltb→ge i n t)) (ground (arith, ltb→ge i n t))
]

pub steps_up_at :
    (selectable : ℕ → Bool)
    → ((i : ℕ) → selectable i ≡ true)
    → (n rows sel : ℕ) → 1 ≤ sel
    → sel ≤ n
    → steps_by
        (prev_row n)
        selectable
        (n + 1)
        rows
        sel
        (record { sel = sel; count = 0; skipped = 0 })
      ≡ ok (record {
        sel = sel - (rows - (rows - (sel - 1)));
        count = rows - (rows - (sel - 1));
        skipped = 0;
      })
steps_up_at selectable all n rows zero h k = ground arith
steps_up_at selectable all n rows (suc s) h k =
    steps_up_lem selectable all n (n + 1) rows s 0 0 (omega arith)
    ∙ same_steps (omega arith) (omega arith)

pub steps_down_at :
    (selectable : ℕ → Bool)
    → ((i : ℕ) → selectable i ≡ true)
    → (n rows sel : ℕ) → sel ≤ n
    → steps_by
        (next_row n)
        selectable
        (n + 1)
        rows
        sel
        (record { sel = sel; count = 0; skipped = 0 })
      ≡ ok (record {
        sel = sel + (rows - (rows - (n - sel)));
        count = rows - (rows - (n - sel));
        skipped = 0;
      })
steps_down_at selectable all n rows sel h =
    steps_down_lem selectable all n (n + 1) rows sel 0 0 h (omega arith)
    ∙ same_steps (omega arith) (omega arith)

pub offset_up_at : (n k i : ℕ) → 1 ≤ i → offset_by (prev_row n) k i 0 ≡ k - (k - (i - 1))
offset_up_at n k zero h = ground arith
offset_up_at n k (suc i) h = offset_up_lem n k i 0 ∙ omega arith
