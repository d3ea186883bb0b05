-- ===== src/Glob/Search.antt =====
-- The comparison and the search of app/uchar.c that app/glob.c uses, on strings of ASCII characters.
use graceful_music.Common.{
  ℕ, zero, suc, ◌≤◌, ◌<◌, ◌≡◌, refl, sym, ◌≢◌, ◌⊎◌, inl, inr, Bool, true, false, ◌||◌, Option, none,
  some, List, [], ◌∷◌, arith, ltb, ◌==◌, if◌then◌else◌, Bool-cases, length, drop, beq_of_ne,
}
use graceful_music.Uchar.{u_strlen, strlen_from, utf8_skip, u_get_char}
use graceful_music.Glob.{strncase_equal, strcasestr}
use graceful_music.Glob.Reference.{AllAscii, any_suffix, begins}

-- One ASCII character is one byte.
pub u_get_char-ascii : (c : ℕ) (s : List ℕ) → c < 128 → u_get_char (c ∷ s) ≡ (c, 1)
unfolding u_get_char
u_get_char-ascii c s h = ground arith

u_get_char-nil : u_get_char [] ≡ (0, 1)
unfolding u_get_char
u_get_char-nil = refl

pub u_strlen-ascii : (s : List ℕ) → AllAscii s → u_strlen s ≡ some (length s)
unfolding u_strlen strlen_from utf8_skip
u_strlen-ascii [] h = refl
u_strlen-ascii (c ∷ s) h = let e = u_strlen-ascii s h.2 in ground (arith, e)

-- The end of a string that is behind a part of it.
pub AllAscii-drop : (n : ℕ) (s : List ℕ) → AllAscii s → AllAscii (drop n s)
AllAscii-drop zero s h = h
AllAscii-drop (suc n) [] h = tt
AllAscii-drop (suc n) (c ∷ s) h = AllAscii-drop n s h.2

-- `fold` is 0 for the 0 that ends a string, and for no other character.
module _ (fold : ℕ → ℕ) (fold_zero : (c : ℕ) → 0 < c → fold c ≢ fold 0) where
  pub strncase_equal-begins :
      (t s : List ℕ)
      → AllAscii t
      → AllAscii s
      → strncase_equal fold (length t) t s ≡ begins fold t s
  unfolding strncase_equal begins
  strncase_equal-begins [] s h h' = refl
  strncase_equal-begins (c ∷ t) [] h h' =
      let no : (fold c == fold 0) ≡ false = beq_of_ne (fold c) (fold 0) (fold_zero c h.0) in
      rw (u_get_char-ascii c t h.1, u_get_char-nil, no) refl
  strncase_equal-begins (c ∷ t) (d ∷ s) h h' =
      rw (u_get_char-ascii c t h.1, u_get_char-ascii d s h'.1, strncase_equal-begins t s h.2 h'.2)
        refl

  pub begins-length : (t s : List ℕ) → begins fold t s ≡ true → length t ≤ length s
  unfolding begins
  begins-length [] s h = omega arith
  begins-length (c ∷ t) [] h = absurd (cc)
  begins-length (c ∷ t) (d ∷ s) h =
      let e : begins fold t s ≡ true = ground arith in omega (arith, begins-length t s e)

  -- The first place from which the string begins with the text.
  pub find : List ℕ → List ℕ → Option (List ℕ)
  find t [] = if begins fold t [] then some [] else none
  find t (c ∷ s) = if begins fold t (c ∷ s) then some (c ∷ s) else find t s

  find-short : (t s : List ℕ) → length s < length t → find t s ≡ none
  unfolding find
  find-short t [] h = let n = begins-length t [] in ground arith
  find-short t (c ∷ s) h =
      let n = begins-length t (c ∷ s) in let e = find-short t s (omega arith) in ground arith

  pub strcasestr-find :
      (fuel : ℕ) (t s : List ℕ)
      → 0 < length t
      → AllAscii t
      → AllAscii s
      → length s < fuel
      → strcasestr fold fuel (length t) t s ≡ find t s
  unfolding strcasestr find
  strcasestr-find zero t s pos h h' enough = absurd (omega arith)
  strcasestr-find (suc fuel) t [] pos h h' enough =
      let short = find-short t [] pos in
      let less : ltb 0 (length t) ≡ true = ground arith in rw less (sym short)
  strcasestr-find (suc fuel) t (c ∷ s) pos h h' enough =
      let e = strcasestr-find fuel t s pos h h'.2 (omega arith) in
      let b = strncase_equal-begins t (c ∷ s) h h' in
      elim (Bool-cases (ltb (length (c ∷ s)) (length t))) [
        | inl short ↦ rw short (sym (find-short t (c ∷ s) (ground arith)))
        | inr long ↦ rw (long, b, u_get_char-ascii c s h'.1, e) refl
      ]

  -- A test that fails where the string does not begin with the text.
  module _ (t : List ℕ) (pos : 0 < length t) (f : List ℕ → Bool)
      (fails : (s : List ℕ) → begins fold t s ≡ false → f s ≡ false) where
    fails-nil : f [] ≡ false
    fails-nil = let n = begins-length t [] in fails [] (ground arith)

    -- No place, or the first place and those behind it.
    pub find-suffix :
        (s : List ℕ)
        → AllAscii s
        → ((find t s ≡ none) × (any_suffix f s ≡ false))
          ⊎ ((c : ℕ) × (rest : List ℕ) × (find t s ≡ some (c ∷ rest))
              × AllAscii (c ∷ rest)
              × (begins fold t (c ∷ rest) ≡ true)
              × (length rest < length s)
              × (any_suffix f s ≡ (f (c ∷ rest) || any_suffix f rest)))
    unfolding find any_suffix
    find-suffix [] h = let n = begins-length t [] in inl (find-short t [] pos, fails-nil)
    find-suffix (c ∷ s) h = elim (Bool-cases (begins fold t (c ∷ s))) [
      | inl y ↦ inr (c, s, rw y refl, h, y, omega arith, refl)
      | inr n ↦
          let no = fails (c ∷ s) n in
          elim (find-suffix s h.2) [
            | inl (e, e') ↦ inl (rw (n, e) refl, rw (no, e') refl)
            | inr (d, rest, e, all, y, less, e') ↦
                inr (d, rest, rw (n, e) refl, all, y, omega (arith, less), rw (no, e') refl)
          ]
    ]
