-- ===== src/Glob/Match.antt =====
-- `glob_match` of app/glob.c.
use graceful_music.Common.{
  ℕ, zero, suc, ◌≤◌, ◌<◌, ◌≡◌, refl, sym, ap, ◌∙◌, ◌≢◌, inl, inr, Bool, true, false, ◌||◌, Option,
  none, some, List, [], ◌∷◌, arith, ltb, ◌==◌, if◌then◌else◌, Bool-cases, length, drop, beq_of_ne,
}
use graceful_music.Player.State.{◌>>=◌}
use graceful_music.Uchar.{u_strlen, u_get_char}
use graceful_music.Glob.{
  GlobItem, glob_star, glob_qmark, glob_text, strncase_equal, strcasestr, advance, match_text,
  try_at, star_loop, glob_match,
}
use graceful_music.Glob.{simplify, compile_from, outside, glob_compile}
use graceful_music.Glob.Canonical.{is_canonical, glob_compile-canonical}
use graceful_music.Glob.Reference.{
  AllAscii, AsciiItems, any_suffix, begins, behind_one, behind_text, matches,
}
use graceful_music.Glob.Search.{
  u_get_char-ascii, u_strlen-ascii, AllAscii-drop, strncase_equal-begins, begins-length,
  strcasestr-find, find-suffix,
}
use graceful_music.Glob.Simplify.{simplify-matches}
use graceful_music.Glob.Ascii.{simplify-AsciiItems, compile-AsciiItems}

module _ (fold : ℕ → ℕ) where
  -- A text item whose characters are those of the text up to `fold`, but in more bytes than the text has:
  -- `text` is moved behind the end of the string, and what is there is read.
  pub glob_match-overrun :
      (t text : List ℕ) (items : List GlobItem) (len : ℕ)
      → u_strlen t ≡ some len
      → strncase_equal fold len t text ≡ true
      → length text < length t
      → glob_match fold (glob_text t ∷ items) text ≡ none
  unfolding glob_match match_text advance
  glob_match-overrun t text items len e same short = rw (e, same) (ground arith)

-- A pointer that stays in the string.
advance-some : (n : ℕ) (s : List ℕ) → n ≤ length s → advance n s ≡ some (drop n s)
unfolding advance
advance-some n s h = let e : ltb (length s) n ≡ false = ground arith in rw e refl

any_suffix-end : (s : List ℕ) → any_suffix (λ x. length x == 0) s ≡ true
unfolding any_suffix
any_suffix-end [] = refl
any_suffix-end (c ∷ s) = let e = any_suffix-end s in rw e (ground arith)

behind_text-fails :
    (fold : ℕ → ℕ) (t : List ℕ) (g : List ℕ → Bool) (s : List ℕ)
    → begins fold t s ≡ false
    → behind_text fold t g s ≡ false
unfolding behind_text
behind_text-fails fold t g s n = rw n refl

behind_text-at :
    (fold : ℕ → ℕ) (t : List ℕ) (g : List ℕ → Bool) (s : List ℕ)
    → begins fold t s ≡ true
    → behind_text fold t g s ≡ g (drop (length t) s)
unfolding behind_text
behind_text-at fold t g s y = rw y refl

-- What an alternative adds to a text that is found.
behind_text-found :
    (fold : ℕ → ℕ) (t : List ℕ) (g : List ℕ → Bool) (s : List ℕ) (b : Bool)
    → begins fold t s ≡ true
    → (behind_text fold t g s || b) ≡ (g (drop (length t) s) || b)
unfolding behind_text
behind_text-found fold t g s b y = rw y refl

module _ (fold : ℕ → ℕ) (fold_zero : (c : ℕ) → 0 < c → fold c ≢ fold 0) where
  -- A text that is behind no star.
  match_text-some :
      (t s : List ℕ)
      → AllAscii t
      → AllAscii s
      → match_text fold t s
        ≡ (if begins fold t s then some (true, drop (length t) s) else some (false, s))
  unfolding match_text
  match_text-some t s h h' =
      let e = u_strlen-ascii t h in
      let b = strncase_equal-begins fold fold_zero t s h h' in
      elim (Bool-cases (begins fold t s)) [
        | inl y ↦ rw (e, b, y, advance-some (length t) s (begins-length fold fold_zero t s y)) refl
        | inr n ↦ rw (e, b, n) refl
      ]

  -- A round at a place that is in the string.
  try_at-some :
      (t : List ℕ) (go again : List ℕ → Option Bool) (c : ℕ) (rest : List ℕ) {found b : Bool}
      → length t ≤ length (c ∷ rest)
      → go (drop (length t) (c ∷ rest)) ≡ some found
      → again rest ≡ some b
      → try_at fold t go again (some (c ∷ rest)) ≡ some (found || b)
  unfolding try_at
  try_at-some t go again c rest {found} {b} room e e' =
      let first = advance-some (length t) (c ∷ rest) room in
      let one = advance-some 1 (c ∷ rest) (omega arith) in
      rw (first, e) (elim (Bool-cases found) [ inl p ↦ rw p refl | inr p ↦ rw (p, one) e' ])

  star-step :
      (fuel : ℕ) (t : List ℕ) (go : List ℕ → Option Bool) (s : List ℕ) {o : Option (List ℕ)}
      → u_strlen t ≡ some (length t)
      → strcasestr fold (suc (length s)) (length t) t s ≡ o
      → star_loop fold (suc fuel) t go s ≡ try_at fold t go (star_loop fold fuel t go) o
  unfolding star_loop
  star-step fuel t go s e e' = rw e (ap (try_at fold t go (star_loop fold fuel t go)) e')

  -- A star and a text behind it: all places are tried.
  star_loop-some :
      (fuel : ℕ) (t : List ℕ) (go : List ℕ → Option Bool) (g : List ℕ → Bool) (s : List ℕ)
      → 0 < length t
      → AllAscii t
      → ((x : List ℕ) → AllAscii x → go x ≡ some (g x))
      → AllAscii s
      → length s < fuel
      → star_loop fold fuel t go s ≡ some (any_suffix (behind_text fold t g) s)
  unfolding try_at
  star_loop-some zero t go g s pos h same h' enough = absurd (omega arith)
  star_loop-some (suc fuel) t go g s pos h same h' enough =
      let found = strcasestr-find fold fold_zero (suc (length s)) t s pos h h' (omega arith) in
      let step = star-step fuel t go s (u_strlen-ascii t h) found in
      elim (find-suffix fold fold_zero t pos (behind_text fold t g) (behind_text-fails fold t g) s
        h') [
          | inl (nowhere, none_of) ↦
              step
              ∙ ap (try_at fold t go (star_loop fold fuel t go)) nowhere
              ∙ ap some (sym none_of)
          | inr (c, rest, place, all, y, less, any) ↦
              let room = begins-length fold fold_zero t (c ∷ rest) y in
              let end_ok =
                same (drop (length t) (c ∷ rest)) (AllAscii-drop (length t) (c ∷ rest) all) in
              let rec =
                star_loop-some fuel t go g rest pos h same all.2 (omega (arith, less, enough)) in
              step
              ∙ ap (try_at fold t go (star_loop fold fuel t go)) place
              ∙ try_at-some t go (star_loop fold fuel t go) c rest room end_ok rec
              ∙ ap some (sym (any ∙ behind_text-found fold t g (c ∷ rest) _ y))
        ]

  -- One character.
  qmark-some :
      (f : List ℕ → Bool) (go : List ℕ → Option Bool) (s : List ℕ)
      → AllAscii s
      → ((x : List ℕ) → AllAscii x → go x ≡ some (f x))
      → (if (u_get_char s).0 == 0
          then some false
          else (advance (u_get_char s).1 s >>= λ rest. go rest))
        ≡ some (behind_one f s)
  unfolding behind_one u_get_char
  qmark-some f go [] h same = refl
  qmark-some f go (c ∷ s) h same =
      let e = u_get_char-ascii c s h.1 in
      let z : (c == 0) ≡ false = beq_of_ne c 0 (omega (arith, h.0)) in
      rw (e, z, advance-some 1 (c ∷ s) (omega arith), same s h.2) refl

  -- `glob_match` of items as `simplify` leaves them, and of ASCII characters only.
  glob_match-matches :
      (items : List GlobItem) (s : List ℕ)
      → is_canonical items ≡ true
      → AsciiItems items
      → AllAscii s
      → glob_match fold items s ≡ some (matches fold items s)
  unfolding glob_match matches is_canonical
  glob_match-matches [] s h a b = refl
  glob_match-matches (glob_text t ∷ items) s h a b =
      let e = match_text-some t s a.1 b in
      let r = glob_match-matches items (drop (length t) s) h a.2 (AllAscii-drop (length t) s b) in
      elim (Bool-cases (begins fold t s)) [
        | inl y ↦ rw (e, y) (r ∙ ap some (sym (behind_text-at fold t (matches fold items) s y)))
        | inr n ↦ rw (e, n) (ap some (sym (behind_text-fails fold t (matches fold items) s n)))
      ]
  glob_match-matches (glob_qmark ∷ items) s h a b =
      qmark-some (matches fold items) (glob_match fold items) s b
        (λ x b'. glob_match-matches items x h a b')
  glob_match-matches (glob_star ∷ []) s h a b = ap some (sym (any_suffix-end s))
  glob_match-matches (glob_star ∷ glob_text t ∷ items) s h a b =
      star_loop-some (suc (length s)) t (glob_match fold items) (matches fold items) s a.0 a.1
        (λ x b'. glob_match-matches items x h a.2 b') b (omega arith)
  glob_match-matches (glob_star ∷ glob_star ∷ items) s h a b = absurd (cc)
  glob_match-matches (glob_star ∷ glob_qmark ∷ items) s h a b = absurd (cc)

  -- `glob_match` with what `glob_compile` makes of a pattern, for ASCII characters: it ends, reads nothing
  -- behind the string and meets no BUG_ON, and it finds out whether the items as they stand in the
  -- pattern match the string, up to `fold`, in any way: a star any part, a question mark any character.
  pub glob_match-compile :
      (pattern s : List ℕ)
      → AllAscii pattern
      → AllAscii s
      → glob_match fold (glob_compile pattern) s
        ≡ some (matches fold (compile_from outside pattern) s)
  unfolding glob_compile
  glob_match-compile pattern s h h' =
      glob_match-matches (simplify (compile_from outside pattern)) s
        (glob_compile-canonical pattern)
        (simplify-AsciiItems (compile_from outside pattern)
          (compile-AsciiItems outside pattern tt h))
        h'
      ∙ ap (λ (f : List ℕ → Bool). some (f s))
          (simplify-matches fold (compile_from outside pattern))
