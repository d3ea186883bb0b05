-- ===== src/Mergesort/Tests.antt =====
-- Sorting on small lists.
use graceful_music.Common.{ℕ, ◌≡◌, refl, Bool, some, List, [], ◌∷◌, arith, ltb}
use graceful_music.Mergesort.{merge, merge_runs, sort_runs, list_mergesort}
use graceful_music.Mergesort.Sorted.{IsOrder}
use graceful_music.Mergesort.Sort.{IsSorting, list_mergesort-IsSorting}

sort_run : list_mergesort (λ a b. ltb b a) (5 ∷ 2 ∷ 9 ∷ 1 ∷ 2 ∷ []) ≡ some (1 ∷ 2 ∷ 2 ∷ 5 ∷ 9 ∷ [])
unfolding list_mergesort sort_runs merge_runs merge
sort_run = refl

abbrev gt_num : ℕ → ℕ → Bool
gt_num a b = ltb b a

gt_num-IsOrder : IsOrder gt_num
gt_num-IsOrder = record { asym = λ x y h. ground arith; trans = λ x y z h k. ground arith }

list_mergesort-IsSorting_example :
    (r : List ℕ) × (list_mergesort gt_num (3 ∷ 1 ∷ 2 ∷ []) ≡ some r)
    × IsSorting gt_num (3 ∷ 1 ∷ 2 ∷ []) r
list_mergesort-IsSorting_example = list_mergesort-IsSorting gt_num gt_num-IsOrder (3 ∷ 1 ∷ 2 ∷ [])
