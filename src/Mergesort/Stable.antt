-- ===== src/Mergesort/Stable.antt =====
-- Entries that compare equal stay in their order.
use graceful_music.Common.{
  ◌≡◌, refl, sym, ap, ◌∙◌, inl, inr, Bool, true, false, ◌&&◌, not, List, [], ◌∷◌, ◌++◌, append-nil,
  if◌then◌else◌, Bool-cases, and_true,
}
use graceful_music.Mergesort.{merge}
use graceful_music.Mergesort.Sorted.{IsLeast, IsSorted, IsOrder}

module _ {ℓ} {A : Type ℓ} (gt : A → A → Bool) where
  abbrev pub is_equal : A → A → Bool
  is_equal x y = not (gt x y) && not (gt y x)

  -- The entries that compare equal to `x`, in their order.
  unfoldable pub equals : A → List A → List A
  equals x [] = []
  equals x (y ∷ l) = let rest = equals x l in if is_equal x y then y ∷ rest else rest

  pub equals-append : (x : A) (p q : List A) → equals x (p ++ q) ≡ equals x p ++ equals x q
  unfolding equals
  equals-append x [] q = refl
  equals-append x (y ∷ p) q = elim (Bool-cases (is_equal x y)) [
    | inl t ↦ rw t (ap (◌∷◌ y) (equals-append x p q))
    | inr t ↦ rw t (equals-append x p q)
  ]

  -- Nothing that is not less than an entry greater than `y` compares equal to what `y` compares equal to.
  is_equal-least :
      (o : IsOrder gt) (x y z w : A)
      → gt z y ≡ true
      → gt z w ≡ false
      → is_equal x y ≡ true
      → is_equal x w ≡ false
  is_equal-least o x y z w h k e = elim (Bool-cases (is_equal x w)) [
    | inr t ↦ t
    | inl t ↦
        let zx = o.trans z w x k (not-true (gt w x) (and_true (not (gt x w)) (not (gt w x)) t).1) in
        let zy =
          o.trans z x y zx (not-true (gt x y) (and_true (not (gt x y)) (not (gt y x)) e).0) in
        absurd (cc (h, zy))
  ]
    where
      not-true : (b : Bool) → not b ≡ true → b ≡ false
      not-true true h = absurd (cc)
      not-true false h = refl

  equals-least :
      (o : IsOrder gt) (x y z : A) (l : List A)
      → gt z y ≡ true
      → is_equal x y ≡ true
      → IsLeast gt z l
      → equals x l ≡ []
  unfolding equals IsLeast
  equals-least o x y z [] h e k = refl
  equals-least o x y z (w ∷ l) h e k =
      rw (is_equal-least o x y z w h k.0 e) (equals-least o x y z l h e k.1)

  irrefl : (o : IsOrder gt) (x : A) → gt x x ≡ false
  irrefl o x = elim (Bool-cases (gt x x)) [ inl t ↦ absurd (cc (t, o.asym x x t)) | inr t ↦ t ]

  pub equals-merge :
      (o : IsOrder gt) (x : A) (p q : List A)
      → IsSorted gt p
      → equals x (merge gt p q) ≡ equals x p ++ equals x q
  unfolding merge equals IsSorted IsLeast
  equals-merge o x [] q h = refl
  equals-merge o x (a ∷ p) [] h = sym (append-nil (equals x (a ∷ p)))
  equals-merge o x (a ∷ p) (b ∷ q) h = elim (Bool-cases (gt a b)) [
    | inl t ↦
        rw (merge, t)
          (elim (Bool-cases (is_equal x b)) [
            | inl e ↦
                let none_equal : equals x (a ∷ p) ≡ [] =
                  equals-least o x b a (a ∷ p) t e (irrefl o a, h.0) in
                rw (e, none_equal) (ap (◌∷◌ b) (equals-merge o x (a ∷ p) q h ∙ rw none_equal))
            | inr e ↦ rw e (equals-merge o x (a ∷ p) q h)
          ])
    | inr t ↦
        rw (merge, t)
          (elim (Bool-cases (is_equal x a)) [
            | inl e ↦ rw e (ap (◌∷◌ a) (equals-merge o x p (b ∷ q) h.1))
            | inr e ↦ rw e (equals-merge o x p (b ∷ q) h.1)
          ])
  ]
