-- ===== src/Tags/Names.antt =====
-- The tables of `fix_key` in comment.c: what it gives is a name that it leaves as it is.
use graceful_music.Common.{
  ℕ, ◌≡◌, refl, ap, ◌∙◌, inl, inr, Bool, true, false, ◌&&◌, none, some, List, [], ◌∷◌, arith,
  Option-cases, pos, ◌==ℤ◌, strcmp, strcmp_eq, ==ℤ_eq,
}
use graceful_music.Tags.{same_letters, interesting, key_map, find_key, find_old, fix_key}

-- A name as `fix_key` gives it
abbrev pub IsProper : List ℕ → Type 0
IsProper key = fix_key key ≡ some key

-- The tables of `fix_key`: what it gives is a name that it leaves as it is.
unfoldable every_name : (List ℕ → Bool) → List (List ℕ) → Bool
every_name p [] = true
every_name p (k ∷ table) = p k && every_name p table

unfoldable every_new : (List ℕ → Bool) → List (List ℕ × List ℕ) → Bool
every_new p [] = true
every_new p (k ∷ table) = p k.1 && every_new p table

find_key-every :
    (p : List ℕ → Bool) (table : List (List ℕ)) (key k : List ℕ)
    → every_name p table ≡ true
    → find_key table key ≡ some k
    → p k ≡ true
unfolding every_name find_key
find_key-every p [] key k h e = absurd (cc)
find_key-every p (x ∷ table) key k h e = ground (arith, find_key-every p table key k)

find_old-every :
    (p : List ℕ → Bool) (table : List (List ℕ × List ℕ)) (key k : List ℕ)
    → every_new p table ≡ true
    → find_old table key ≡ some k
    → p k ≡ true
unfolding every_new find_old
find_old-every p [] key k h e = absurd (cc)
find_old-every p (x ∷ table) key k h e = ground (arith, find_old-every p table key k)

is_kept : List ℕ → Bool
is_kept k = elim (fix_key k) [ none ↦ false | some j ↦ strcmp j k ==ℤ pos 0 ]

every_kept : (every_name is_kept interesting ≡ true) × (every_new is_kept key_map ≡ true)
unfolding every_name every_new is_kept fix_key find_key find_old interesting key_map same_letters
    strcmp
every_kept = (refl, refl)

is_kept-IsProper : (k : List ℕ) → is_kept k ≡ true → IsProper k
unfolding is_kept
is_kept-IsProper k h = elim (Option-cases (fix_key k)) [
  | inl e ↦ absurd (ground (arith, e))
  | inr (j, e) ↦
      let z : (strcmp j k ==ℤ pos 0) ≡ true = ground (arith, e) in
      e ∙ ap some (strcmp_eq j k (==ℤ_eq (strcmp j k) (pos 0) z))
]

-- The name that `fix_key` gives for a key is one that it leaves as it is.
pub fix_key-IsProper : (key k : List ℕ) → fix_key key ≡ some k → IsProper k
unfolding fix_key
fix_key-IsProper key k h = elim (Option-cases (find_key interesting key)) [
  | inr (j, e) ↦ is_kept-IsProper k (find_key-every is_kept interesting key k every_kept.0 (cc))
  | inl e ↦ is_kept-IsProper k (find_old-every is_kept key_map key k every_kept.1 (cc))
]
