-- ===== src/Glob/Simplify.antt =====
-- `simplify` of app/glob.c does not change what a pattern matches.
use graceful_music.Common.{
  ℕ, zero, suc, ◌≡◌, refl, sym, ap, ◌∙◌, fun_ext, inl, inr, Bool, true, ◌||◌, List, [], ◌∷◌, ◌++◌,
  append-nil, append_assoc, arith, ltb, if◌then◌else◌, Bool-cases, replicate,
}
use graceful_music.Glob.{GlobItem, glob_star, glob_qmark, glob_text, flush, simplify_from, simplify}
use graceful_music.Glob.Reference.{any_suffix, behind_one, behind_text, matches}

-- Two stars are one.
any_suffix-twice : (f : List ℕ → Bool) → any_suffix (any_suffix f) ≡ any_suffix f
unfolding any_suffix
any_suffix-twice f = fun_ext at_each
  where
    at_each : (s : List ℕ) → any_suffix (any_suffix f) s ≡ any_suffix f s
    at_each [] = refl
    at_each (c ∷ s) = let e = at_each s in ground (arith, e)

-- A star may go behind a question mark.
star-qmark : (f : List ℕ → Bool) → any_suffix (behind_one f) ≡ behind_one (any_suffix f)
unfolding any_suffix behind_one
star-qmark f = fun_ext at_each
  where
    at_each : (s : List ℕ) → any_suffix (behind_one f) s ≡ behind_one (any_suffix f) s
    at_each [] = refl
    at_each (c ∷ []) = ground arith
    at_each (c ∷ d ∷ s) = ap (λ t. f (d ∷ s) || t) (at_each (d ∷ s))

-- Behind `n` characters.
behind : ℕ → (List ℕ → Bool) → List ℕ → Bool
behind zero f = f
behind (suc n) f = behind_one (behind n f)

behind-behind_one : (n : ℕ) (f : List ℕ → Bool) → behind n (behind_one f) ≡ behind_one (behind n f)
unfolding behind
behind-behind_one zero f = refl
behind-behind_one (suc n) f = ap behind_one (behind-behind_one n f)

-- A run of question marks and stars in front of what `f` is true of.
run : (qcount scount : ℕ) → (List ℕ → Bool) → List ℕ → Bool
run q s f = behind q (if ltb 0 s then any_suffix f else f)

run-star : (q s : ℕ) (f : List ℕ → Bool) → run q (suc s) f ≡ run q s (any_suffix f)
unfolding run
run-star q s f =
    let one : ltb 0 (suc s) ≡ true = ground arith in
    elim (Bool-cases (ltb 0 s)) [
      | inl t ↦ rw (one, t) (ap (behind q) (sym (any_suffix-twice f)))
      | inr n ↦ rw (one, n) refl
    ]

run-qmark : (q s : ℕ) (f : List ℕ → Bool) → run (suc q) s f ≡ run q s (behind_one f)
unfolding run behind
run-qmark q s f = elim (Bool-cases (ltb 0 s)) [
  | inl t ↦ rw t (sym (behind-behind_one q (any_suffix f)) ∙ ap (behind q) (sym (star-qmark f)))
  | inr n ↦ rw n (sym (behind-behind_one q f))
]

module _ (fold : ℕ → ℕ) where
  qmarks-lem :
      (n : ℕ) (items : List GlobItem)
      → matches fold (replicate n glob_qmark ++ items) ≡ behind n (matches fold items)
  unfolding behind matches
  qmarks-lem zero items = refl
  qmarks-lem (suc n) items = ap behind_one (qmarks-lem n items)

  flush-lem :
      (q s : ℕ) (items : List GlobItem)
      → matches fold (flush q s ++ items) ≡ run q s (matches fold items)
  unfolding flush run matches
  flush-lem q s items = elim (Bool-cases (ltb 0 s)) [
    | inl t ↦
        rw (t, append_assoc (replicate q glob_qmark) (glob_star ∷ []) items)
          (qmarks-lem q (glob_star ∷ items))
    | inr f ↦ rw (f, append_assoc (replicate q glob_qmark) [] items) (qmarks-lem q items)
  ]

  simplify_from-run :
      (q s : ℕ) (items : List GlobItem)
      → matches fold (simplify_from q s items) ≡ run q s (matches fold items)
  unfolding simplify_from matches run behind
  simplify_from-run q s [] = ap (matches fold) (sym (append-nil (flush q s))) ∙ flush-lem q s []
  simplify_from-run q s (glob_star ∷ items) =
      simplify_from-run q (suc s) items ∙ run-star q s (matches fold items)
  simplify_from-run q s (glob_qmark ∷ items) =
      simplify_from-run (suc q) s items ∙ run-qmark q s (matches fold items)
  simplify_from-run q s (glob_text t ∷ items) =
      flush-lem q s (glob_text t ∷ simplify_from 0 0 items)
      ∙ ap (λ g. run q s (behind_text fold t g)) (simplify_from-run 0 0 items)

  -- A pattern matches what it matched before `simplify`: question marks are moved in front of stars, and
  -- all stars of a run but one are taken away.
  pub simplify-matches :
      (items : List GlobItem) → matches fold (simplify items) ≡ matches fold items
  unfolding simplify run behind
  simplify-matches items = simplify_from-run 0 0 items
