-- ===== src/Buffer/Span.antt =====
-- Concatenations over a range of offsets, for the bytes of app/buffer.c's chunks in their order.
use graceful_music.Common.{
  ℕ, zero, suc, ◌+◌, ◌≤◌, ◌<◌, ◌≡◌, refl, sym, ap, ◌∙◌, ◌≢◌, List, [], ◌++◌, append-nil,
  append_assoc, arith,
}
use native.Mathlib.Decide.{ℕ_discrete}

module _ {ℓ} {A : Type ℓ} where
  -- f i ++ f (i + 1) ++ … ++ f (i + n - 1)
  unfoldable pub span : (ℕ → List A) → ℕ → ℕ → List A
  span f i zero = []
  span f i (suc n) = f i ++ span f (i + 1) n

  pub span-cong :
      (f g : ℕ → List A) (i n : ℕ)
      → ((j : ℕ) → i ≤ j → j < i + n → f j ≡ g j)
      → span f i n ≡ span g i n
  unfolding span
  span-cong f g i zero h = refl
  span-cong f g i (suc n) h =
      ap (λ xs. xs ++ span f (i + 1) n) (h i (omega arith) (omega arith))
      ∙ ap (λ ys. g i ++ ys) (span-cong f g (i + 1) n (λ j p q. h j (omega arith) (omega arith)))

  pub span-nil :
      (f : ℕ → List A) (i n : ℕ) → ((j : ℕ) → i ≤ j → j < i + n → f j ≡ []) → span f i n ≡ []
  unfolding span
  span-nil f i zero h = refl
  span-nil f i (suc n) h =
      rw (h i (omega arith) (omega arith))
        (span-nil f (i + 1) n (λ j p q. h j (omega arith) (omega arith)))

  -- The range moved up by one.
  pub span-shift :
      (f g : ℕ → List A) (i n : ℕ)
      → ((j : ℕ) → i ≤ j → j < i + n → g j ≡ f (j + 1))
      → span g i n ≡ span f (i + 1) n
  unfolding span
  span-shift f g i zero h = refl
  span-shift f g i (suc n) h =
      ap (λ xs. xs ++ span g (i + 1) n) (h i (omega arith) (omega arith))
      ∙ ap (λ ys. f (i + 1) ++ ys)
          (span-shift f g (i + 1) n (λ j p q. h j (omega arith) (omega arith)))

  -- The last place of the range adds nothing.
  pub span-drop_last : (f : ℕ → List A) (i n : ℕ) → f (i + n) ≡ [] → span f i (suc n) ≡ span f i n
  unfolding span
  span-drop_last f i zero h = let e : f i ≡ [] = ap f (omega arith) ∙ h in rw e
  span-drop_last f i (suc n) h =
      ap (λ ys. f i ++ ys) (span-drop_last f (i + 1) n (ap f (omega arith) ∙ h))

  -- What is added at place `k` comes at the end, if nothing stands behind that place.
  pub span-extend :
      (f g : ℕ → List A) (new : List A) (k i n : ℕ)
      → i ≤ k
      → k < i + n
      → ((j : ℕ) → k < j → j < i + n → f j ≡ [])
      → ((j : ℕ) → j ≢ k → i ≤ j → j < i + n → g j ≡ f j)
      → g k ≡ f k ++ new
      → span g i n ≡ span f i n ++ new
  unfolding span
  span-extend f g new k i zero lo hi empty same added = absurd (omega arith)
  span-extend f g new k i (suc n) lo hi empty same added = elim (ℕ_discrete i k) [
    | yes e ↦
        let gi : g i ≡ f i ++ new = ap g e ∙ added ∙ ap (λ j. f j ++ new) (sym e) in
        let fn : span f (i + 1) n ≡ [] =
          span-nil f (i + 1) n (λ j p q. empty j (omega arith) (omega arith)) in
        let gn : span g (i + 1) n ≡ [] = span-nil g (i + 1) n (λ j p q.
          same j (omega arith) (omega arith) (omega arith) ∙ empty j (omega arith) (omega arith)) in
        rw (gi, fn, gn) (simp append-nil)
    | no ne ↦
        let gi : g i ≡ f i = same i ne (omega arith) (omega arith) in
        let rest : span g (i + 1) n ≡ span f (i + 1) n ++ new =
          span-extend f g new k (i + 1) n (omega arith) (omega arith)
            (λ j p q. empty j p (omega arith)) (λ j d p q. same j d (omega arith) (omega arith))
            added in
        rw (gi, rest) (sym (append_assoc (f i) (span f (i + 1) n) new))
  ]

  -- Taken off the front at place 0.
  pub span-front :
      (f g : ℕ → List A) (taken : List A) (n : ℕ)
      → 0 < n
      → f 0 ≡ taken ++ g 0
      → ((j : ℕ) → 0 < j → j < n → g j ≡ f j)
      → span f 0 n ≡ taken ++ span g 0 n
  unfolding span
  span-front f g taken zero pos e same = absurd (omega arith)
  span-front f g taken (suc n) pos e same =
      let rest : span f (0 + 1) n ≡ span g (0 + 1) n =
        span-cong f g (0 + 1) n (λ j p q. sym (same j (omega arith) (omega arith))) in
      rw (e, rest) (append_assoc taken (g 0) (span g (0 + 1) n))

  -- Place 0 used up and moved to the end.
  pub span-rotate :
      (f g : ℕ → List A) (n : ℕ)
      → 0 < n
      → ((j : ℕ) → j + 1 < n → g j ≡ f (j + 1))
      → ((j : ℕ) → j + 1 ≡ n → g j ≡ [])
      → span f 0 n ≡ f 0 ++ span g 0 n
  unfolding span
  span-rotate f g zero pos shift last = absurd (omega arith)
  span-rotate f g (suc n) pos shift last =
      ap (λ ys. f 0 ++ ys)
        (sym (
          span-drop_last g 0 n (last (0 + n) (omega arith))
          ∙ span-shift f g 0 n (λ j p q. shift j (omega arith))))
