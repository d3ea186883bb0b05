-- ===== src/Glob/Canonical.antt =====
-- What `simplify` of app/glob.c leaves.
use graceful_music.Common.{
  ℕ, zero, suc, ◌≡◌, refl, ◌∙◌, inl, inr, Bool, true, false, List, [], ◌∷◌, ◌++◌, append_assoc, ltb,
  Bool-cases, replicate,
}
use graceful_music.Glob.{
  GlobItem, glob_star, glob_qmark, glob_text, flush, simplify_from, simplify, compile_from, outside,
  glob_compile,
}

-- Behind each star there is a text, or nothing.
unfoldable pub is_canonical : List GlobItem → Bool
is_canonical [] = true
is_canonical (glob_star ∷ []) = true
is_canonical (glob_star ∷ glob_text t ∷ items) = is_canonical items
is_canonical (glob_star ∷ _ ∷ items) = false
is_canonical (glob_qmark ∷ items) = is_canonical items
is_canonical (glob_text t ∷ items) = is_canonical items

-- Question marks in front change nothing.
qmarks-canonical :
    (n : ℕ) (items : List GlobItem)
    → is_canonical (replicate n glob_qmark ++ items) ≡ is_canonical items
unfolding is_canonical
qmarks-canonical zero items = refl
qmarks-canonical (suc n) items = qmarks-canonical n items

flush-end : (q s : ℕ) → is_canonical (flush q s) ≡ true
unfolding flush is_canonical
flush-end q s = elim (Bool-cases (ltb 0 s)) [
  | inl t ↦ rw t (qmarks-canonical q (glob_star ∷ []))
  | inr f ↦ rw f (qmarks-canonical q [])
]

flush-text :
    (q s : ℕ) (t : List ℕ) (items : List GlobItem)
    → is_canonical items ≡ true
    → is_canonical (flush q s ++ glob_text t ∷ items) ≡ true
unfolding flush is_canonical
flush-text q s t items h = elim (Bool-cases (ltb 0 s)) [
  | inl p ↦
      rw (p, append_assoc (replicate q glob_qmark) (glob_star ∷ []) (glob_text t ∷ items))
        (qmarks-canonical q (glob_star ∷ glob_text t ∷ items) ∙ h)
  | inr p ↦
      rw (p, append_assoc (replicate q glob_qmark) [] (glob_text t ∷ items))
        (qmarks-canonical q (glob_text t ∷ items) ∙ h)
]

simplify_from-canonical :
    (q s : ℕ) (items : List GlobItem) → is_canonical (simplify_from q s items) ≡ true
unfolding simplify_from
simplify_from-canonical q s [] = flush-end q s
simplify_from-canonical q s (glob_star ∷ items) = simplify_from-canonical q (suc s) items
simplify_from-canonical q s (glob_qmark ∷ items) = simplify_from-canonical (suc q) s items
simplify_from-canonical q s (glob_text t ∷ items) =
    flush-text q s t (simplify_from 0 0 items) (simplify_from-canonical 0 0 items)

-- Whatever the pattern, behind each star of what `glob_compile` returns there is a text or nothing: the
-- question marks are in front of the star, and other stars are gone. This is what BUG_ON in
-- `do_glob_match` asks for.
pub glob_compile-canonical : (pattern : List ℕ) → is_canonical (glob_compile pattern) ≡ true
unfolding glob_compile simplify
glob_compile-canonical pattern = simplify_from-canonical 0 0 (compile_from outside pattern)
