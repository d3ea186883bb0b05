-- ===== src/Mergesort/Sort.antt =====
-- The rounds of `list_mergesort` in app/mergesort.c: the runs double until there is one.
use graceful_music.Common.{
  ℕ, zero, suc, ◌+◌, ◌-◌, ◌*◌, ◌≤◌, ◌<◌, ◌≡◌, refl, sym, ap, ◌∙◌, subst, inl, inr, Bool, some, List,
  [], ◌∷◌, ◌++◌, append-nil, append_assoc, arith, ◌==◌, Bool-cases, length, take, drop,
  length-append, take-append-drop, length-take, length-drop, take-all, take-nil, drop-nil, if_same,
  drop-all, take-front, drop-front,
}
use graceful_music.Mergesort.{merge, merge_runs, sort_runs, list_mergesort}
use graceful_music.Mergesort.Sorted.{
  IsLeast, IsSorted, IsOrder, IsRuns, no_runs, one_run, merge-IsSorted, length-merge,
}
use graceful_music.Mergesort.Stable.{equals, equals-append, equals-merge}

module _ {ℓ} {A : Type ℓ} (gt : A → A → Bool) where
  split_runs :
      (K : ℕ) (l : List A) → IsRuns gt K l → IsSorted gt (take K l) × IsRuns gt K (drop K l)
  unfolding IsSorted
  split_runs K l no_runs = (rw (take-nil {A = A} K) (omega arith), rw (drop-nil {A = A} K) no_runs)
  split_runs K l (one_run h k) = (h, k)

  -- A list that is one run is sorted.
  whole_run : (K : ℕ) (l : List A) → length l ≤ K → IsRuns gt K l → IsSorted gt l
  whole_run K l h r = subst (IsSorted gt) (take-all K l h) (split_runs K l r).0

  -- A sorted list is one run, and goes in front of others if it is as long as a run.
  run_of : (K : ℕ) (l : List A) → length l ≤ K → IsSorted gt l → IsRuns gt K l
  run_of K l h s =
      one_run (subst (IsSorted gt) (sym (take-all K l h)) s)
        (subst (IsRuns gt K) (sym (drop-all K l h)) no_runs)

  cons_run :
      (K : ℕ) (p l : List A) → length p ≡ K → IsSorted gt p → IsRuns gt K l → IsRuns gt K (p ++ l)
  cons_run K p l h s r =
      one_run (subst (IsSorted gt) (sym (take-front K p l h)) s)
        (subst (IsRuns gt K) (sym (drop-front K p l h)) r)

  -- The runs that a round merges, and what stays.
  abbrev first : ℕ → List A → List A
  first K l = merge gt (take K l) (take K (drop K l))

  abbrev rest_of : ℕ → List A → List A
  rest_of K l = drop K (drop K l)

  -- What a pass over the list leaves.
  record IsPass (K : ℕ) (l : List A) (r : List A × ℕ) : Type ℓ where
    runs : IsRuns gt (K * 2) r.0
    same_length : length r.0 ≡ length l
    same_equals : (x : A) → equals gt x r.0 ≡ equals gt x l
    last : r.1 ≡ 1 → IsSorted gt r.0
    count : length l ≤ K * 2 → r.1 ≡ 1
    some_run : 0 < r.1

  length-rest_of : (K : ℕ) (l : List A) → length (rest_of K l) ≡ length l - K - K
  length-rest_of K l = omega (arith, length-drop K (drop K l), length-drop K l)

  length-first : (K : ℕ) (l : List A) → length (first K l) + length (rest_of K l) ≡ length l
  length-first K l = omega (
    arith,
    length-merge gt (take K l) (take K (drop K l)),
    length-take K l,
    length-take K (drop K l),
    length-drop K l,
    length-rest_of K l,
  )

  equals-first :
      (o : IsOrder gt) (K : ℕ) (l : List A) (x : A)
      → IsRuns gt K l
      → equals gt x (first K l) ++ equals gt x (rest_of K l) ≡ equals gt x l
  equals-first o K l x r =
      let a = equals-merge gt o x (take K l) (take K (drop K l)) (split_runs K l r).0 in
      let b = equals-append gt x (take K (drop K l)) (rest_of K l) in
      let c = equals-append gt x (take K l) (drop K l) in
      rw a (
        append_assoc (equals gt x (take K l)) (equals gt x (take K (drop K l)))
          (equals gt x (rest_of K l))
        ∙ ap (◌++◌ (equals gt x (take K l)))
            (sym b ∙ ap (equals gt x) (take-append-drop K (drop K l)))
        ∙ sym c
        ∙ ap (equals gt x) (take-append-drop K l))

  first-IsSorted : (o : IsOrder gt) (K : ℕ) (l : List A) → IsRuns gt K l → IsSorted gt (first K l)
  first-IsSorted o K l r =
      let s = split_runs K l r in
      merge-IsSorted gt o (take K l) (take K (drop K l)) s.0 (split_runs K (drop K l) s.1).0

  nil_of_length : (l : List A) → length l ≡ 0 → l ≡ []
  nil_of_length [] h = refl
  nil_of_length (x ∷ l) h = absurd (omega arith)

  last-IsPass :
      (o : IsOrder gt) (K : ℕ) (l : List A)
      → length (rest_of K l) ≡ 0
      → IsRuns gt K l
      → IsPass K l (first K l, 1)
  unfolding equals
  last-IsPass o K l z r =
      let n = length-first K l in
      let s = first-IsSorted o K l r in
      record {
        runs = run_of (K * 2) (first K l) (omega (arith, length-rest_of K l)) s;
        same_length = omega arith;
        same_equals = λ x.
            sym (append-nil (equals gt x (first K l)))
            ∙ subst (λ t. equals gt x (first K l) ++ equals gt x t ≡ equals gt x l)
                (nil_of_length (rest_of K l) z) (equals-first o K l x r);
        last = λ _. s;
        count = λ _. refl;
        some_run = omega arith;
      }

  more-IsPass :
      (o : IsOrder gt) (K : ℕ) (l : List A) (more : List A × ℕ)
      → 0 < length (rest_of K l)
      → IsRuns gt K l
      → IsPass K (rest_of K l) more
      → IsPass K l (first K l ++ more.0, suc more.1)
  more-IsPass o K l more z r p =
      let n = length-first K l in
      let m = length-rest_of K l in
      record {
        runs = cons_run (K * 2) (first K l) more.0 (omega arith) (first-IsSorted o K l r) p.runs;
        same_length = omega (arith, length-append (first K l) more.0, p.same_length);
        same_equals = λ x.
            equals-append gt x (first K l) more.0
            ∙ ap (◌++◌ (equals gt x (first K l))) (p.same_equals x)
            ∙ equals-first o K l x r;
        last = λ e. absurd (omega (arith, p.some_run));
        count = λ h. absurd (omega arith);
        some_run = omega arith;
      }

  merge_runs-IsPass :
      (o : IsOrder gt) (fuel K : ℕ) (l : List A)
      → 0 < K
      → 0 < length l
      → length l ≤ fuel
      → IsRuns gt K l
      → IsPass K l (merge_runs gt fuel K l)
  unfolding merge_runs
  merge_runs-IsPass o zero K l k n h r = absurd (omega arith)
  merge_runs-IsPass o (suc fuel) K l k n h r =
      if_same (IsPass K l) (length (rest_of K l) == 0) (λ z. last-IsPass o K l (ground arith) r)
        λ z.
          let m = length-rest_of K l in
          more-IsPass o K l (merge_runs gt fuel K (rest_of K l)) (ground arith) r (
            merge_runs-IsPass o fuel K (rest_of K l) k (ground arith) (omega arith)
              (split_runs K (drop K l) (split_runs K l r).1).1)

  singles_IsRuns : (l : List A) → IsRuns gt 1 l
  unfolding IsSorted IsLeast
  singles_IsRuns [] = no_runs
  singles_IsRuns (x ∷ l) = one_run (omega arith, omega arith) (singles_IsRuns l)

  -- A sorted list that has the entries of another, those that compare equal in their order.
  abbrev pub IsSorting : List A → List A → Type ℓ
  IsSorting l r = IsSorted gt r × (length r ≡ length l) × ((x : A) → equals gt x r ≡ equals gt x l)

  sort_runs-IsSorting :
      (o : IsOrder gt) (fuel K : ℕ) (l : List A)
      → 0 < K
      → 0 < length l
      → 0 < fuel
      → length l < K + fuel
      → IsRuns gt K l
      → (r : List A) × (sort_runs gt fuel K l ≡ some r) × IsSorting l r
  unfolding sort_runs
  sort_runs-IsSorting o zero K l k n f h r = absurd (omega arith)
  sort_runs-IsSorting o (suc fuel) K l k n f h r =
      let p = merge_runs-IsPass o (length l) K l k n (omega arith) r in
      elim (Bool-cases ((merge_runs gt (length l) K l).1 == 1)) [
        | inl e ↦ (
          (merge_runs gt (length l) K l).0,
          rw e,
          (p.last (ground arith), p.same_length, p.same_equals),
        )
        | inr e ↦
            let long : K * 2 < length l = ground (arith, p.count) in
            let (s, t, u) =
              sort_runs-IsSorting o fuel (K * 2) (merge_runs gt (length l) K l).0 (omega arith)
                (omega (arith, p.same_length)) (omega arith) (omega (arith, p.same_length))
                p.runs in
            (s, rw (e, t), (u.0, u.1 ∙ p.same_length, λ x. u.2 x ∙ p.same_equals x))
      ]

  -- `list_mergesort` ends for every list, and what it leaves is sorted and has the entries of the list, where
  -- entries that compare equal stay in their order.
  pub list_mergesort-IsSorting :
      (o : IsOrder gt) (l : List A) → (r : List A) × (list_mergesort gt l ≡ some r) × IsSorting l r
  unfolding list_mergesort IsSorted equals
  list_mergesort-IsSorting o [] = ([], refl, (omega arith, refl, λ x. refl))
  list_mergesort-IsSorting o (x ∷ l) =
      sort_runs-IsSorting o (length (x ∷ l)) 1 (x ∷ l) (omega arith) (omega arith) (omega arith)
        (omega arith) (singles_IsRuns (x ∷ l))
