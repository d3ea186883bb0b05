-- ===== src/Mergesort.antt =====
-- Sorting a linked list: app/mergesort.c. A list with its head is a list; the runs between `p` and `q`, and
-- from `q` on, are cut out of it.
pub mod Sorted
pub mod Stable
pub mod Sort
mod Tests
use graceful_music.Common.{
  ℕ, zero, suc, ◌+◌, ◌-◌, ◌*◌, ◌/◌, ◌%◌, ◌^◌, ◌≤◌, ◌<◌, min, max, ◌≡◌, refl, sym, ap, ◌∙◌, subst,
  fun_ext, ◌≢◌, ◌↔◌, ◌⊎◌, inl, inr, Bool, true, false, ◌&&◌, ◌||◌, not, Option, none, some, List,
  [], ◌∷◌, ◌++◌, map, append-nil, append_assoc, arith, ltb, leb, ◌==◌, if◌then◌else◌, ltb→lt,
  lt→ltb, ltb→ge, leb→le, ==_iff, ==_refl, Bool-cases, Option-cases, length, get_elem?, get_or,
  take, drop, replicate, length-append, take-append-drop, length-take, length-drop,
  length-replicate, take-all, drop-drop, take-nil, drop-nil, beq_of_ne, ltb_of_ge, if_same,
  some_inj, ℤ, pos, negsuc, pos_part, neg_part, sub_ℕ, ◌+ℤ◌, ◌-ℤ◌, ◌≤ℤ◌, ◌<ℤ◌, ltb_ℤ, ◌==ℤ◌,
  -ℤ_parts, IsInt32, of_bits32, to_int32, to_int32_id, to_int32-IsInt32, codes, isspace, isdigit,
  isalpha, strcmp, strcmp_refl, strcmp_eq, digits_from, clamp_long, skip_spaces, starts_digit,
  strtol_from, strtol, Result, ok, failed, bug, out_of_fuel, bind, Yields, yields, fails, Yields-ok,
  Yields-bug, Yields-out_of_fuel, Yields-if, Yields-bind, Yields-map, ==ℤ_eq, sum_pos, is_str,
  and_true, strcmp_cases, strcmp_gt,
}

-- `gt p q` is compare(p, q) > 0.
module _ {ℓ} {A : Type ℓ} (gt : A → A → Bool) where
  -- The loop over `psize` and `qsize`: the entry of the second run only where the one of the first is greater.
  unfoldable pub merge : List A → List A → List A
  merge [] q = q
  merge (x ∷ p) [] = x ∷ p
  merge (x ∷ p) (y ∷ q) = elim (gt x y) [ true ↦ y ∷ merge (x ∷ p) q | false ↦ x ∷ merge p (y ∷ q) ]

  -- The loop `do ... while (p != unsorted_head)`, with `count`: pairs of runs of K entries are merged. A round
  -- takes an entry or more.
  unfoldable pub merge_runs : (fuel K : ℕ) → List A → List A × ℕ
  merge_runs zero K l = (l, 0)
  merge_runs (suc fuel) K l =
      let rest = drop K (drop K l) in
      let more = merge_runs fuel K rest in
      let merged = merge (take K l) (take K (drop K l)) in
      if length rest == 0 then (merged, 1) else (merged ++ more.0, suc more.1)

  -- The outer loop, with K. It doubles K, so that a round for each entry is more than enough.
  unfoldable pub sort_runs : (fuel K : ℕ) → List A → Option (List A)
  sort_runs zero K l = none
  sort_runs (suc fuel) K l =
      let r = merge_runs (length l) K l in
      let more = sort_runs fuel (K * 2) r.0 in if r.1 == 1 then some r.0 else more

  -- `list_mergesort`; `none` is a loop that does not end.
  unfoldable pub list_mergesort : List A → Option (List A)
  list_mergesort [] = some []
  list_mergesort (x ∷ l) = sort_runs (length (x ∷ l)) 1 (x ∷ l)
