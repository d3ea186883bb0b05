-- ===== src/Mergesort/Sorted.antt =====
-- Sorted lists and sorted runs, and what merging makes of them.
use graceful_music.Common.{
  ℕ, ◌+◌, ◌≤◌, ◌≡◌, inl, inr, Bool, true, false, List, [], ◌∷◌, arith, Bool-cases, length, take,
  drop,
}
use graceful_music.Mergesort.{merge}

module _ {ℓ} {A : Type ℓ} (gt : A → A → Bool) where
  -- No entry of the list is less than `x`.
  unfoldable pub IsLeast : A → List A → Type 0
  IsLeast x [] = 0 ≤ 0
  IsLeast x (y ∷ l) = (gt x y ≡ false) × IsLeast x l

  unfoldable pub IsSorted : List A → Type 0
  IsSorted [] = 0 ≤ 0
  IsSorted (x ∷ l) = IsLeast x l × IsSorted l

  -- The comparison orders the entries, entries that compare equal aside.
  pub record IsOrder : Type ℓ where
    pub asym : (x y : A) → gt x y ≡ true → gt y x ≡ false
    pub trans : (x y z : A) → gt x y ≡ false → gt y z ≡ false → gt x z ≡ false

  -- Each run of K entries from the front is sorted.
  pub data IsRuns (K : ℕ) : List A → Type ℓ where
    no_runs : IsRuns K []
    one_run : {l : List A} → IsSorted (take K l) → IsRuns K (drop K l) → IsRuns K l

  merge-IsLeast : (x : A) (p q : List A) → IsLeast x p → IsLeast x q → IsLeast x (merge gt p q)
  unfolding merge IsLeast
  merge-IsLeast x [] q h k = k
  merge-IsLeast x (y ∷ p) [] h k = h
  merge-IsLeast x (y ∷ p) (z ∷ q) h k = elim (Bool-cases (gt y z)) [
    | inl t ↦ rw (merge, t) (k.0, merge-IsLeast x (y ∷ p) q h k.1)
    | inr t ↦ rw (merge, t) (h.0, merge-IsLeast x p (z ∷ q) h.1 k)
  ]

  IsLeast-below : (o : IsOrder) (x y : A) (l : List A) → gt x y ≡ false → IsLeast y l → IsLeast x l
  unfolding IsLeast
  IsLeast-below o x y [] h k = omega arith
  IsLeast-below o x y (z ∷ l) h k = (o.trans x y z h k.0, IsLeast-below o x y l h k.1)

  pub merge-IsSorted :
      (o : IsOrder) (p q : List A) → IsSorted p → IsSorted q → IsSorted (merge gt p q)
  unfolding merge IsSorted IsLeast
  merge-IsSorted o [] q h k = k
  merge-IsSorted o (x ∷ p) [] h k = h
  merge-IsSorted o (x ∷ p) (y ∷ q) h k = elim (Bool-cases (gt x y)) [
    | inl t ↦
        let below = o.asym x y t in
        rw (merge, t)
          (
            merge-IsLeast y (x ∷ p) q (below, IsLeast-below o y x p below h.0) k.0,
            merge-IsSorted o (x ∷ p) q h k.1,
          )
    | inr t ↦
        rw (merge, t)
          (
            merge-IsLeast x p (y ∷ q) h.0 (t, IsLeast-below o x y q t k.0),
            merge-IsSorted o p (y ∷ q) h.1 k,
          )
  ]

  pub length-merge : (p q : List A) → length (merge gt p q) ≡ length p + length q
  unfolding merge
  length-merge [] q = omega arith
  length-merge (x ∷ p) [] = omega arith
  length-merge (x ∷ p) (y ∷ q) = elim (Bool-cases (gt x y)) [
    | inl t ↦ rw (merge, t) (omega (arith, length-merge (x ∷ p) q))
    | inr t ↦ rw (merge, t) (omega (arith, length-merge p (y ∷ q)))
  ]
