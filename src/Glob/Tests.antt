-- ===== src/Glob/Tests.antt =====
-- Patterns of app/glob.c on small strings, and the theorems at concrete inputs.
use graceful_music.Common.{
  ℕ, ◌+◌, ◌<◌, ◌≡◌, refl, ◌≢◌, true, false, ◌&&◌, some, [], ◌∷◌, arith, leb, ◌==◌, if◌then◌else◌,
}
use graceful_music.Uchar.{u_strlen, u_get_char, strlen_from, utf8_skip}
use graceful_music.Glob.{
  glob_star, glob_qmark, glob_text, flush, simplify_from, simplify, compile_from, close, so_far,
  glob_compile, strncase_equal, strcasestr, advance, match_text, try_at, star_loop, glob_match,
}
use graceful_music.Glob.Match.{glob_match-compile}
use graceful_music.Glob.Reference.{any_suffix, begins, behind_one, behind_text, matches}

-- The characters from 65 to 90 in lower case, and 233 (an e with an accent) without it.
unfoldable small_fold : ℕ → ℕ
small_fold u = if leb 65 u && leb u 90 then u + 32 else if u == 233 then 101 else u

-- "a*?*b" is compiled to "a", "?", "*", "b".
compile_run :
    glob_compile (97 ∷ 42 ∷ 63 ∷ 42 ∷ 98 ∷ [])
    ≡ glob_text (97 ∷ []) ∷ glob_qmark ∷ glob_star ∷ glob_text (98 ∷ []) ∷ []
unfolding glob_compile simplify simplify_from flush compile_from close so_far
compile_run = refl

-- It matches "Axyb" and not "ab".
match_run :
    (glob_match small_fold (glob_compile (97 ∷ 42 ∷ 63 ∷ 42 ∷ 98 ∷ [])) (65 ∷ 120 ∷ 121 ∷ 98 ∷ [])
      ≡ some true)
    × (glob_match small_fold (glob_compile (97 ∷ 42 ∷ 63 ∷ 42 ∷ 98 ∷ [])) (97 ∷ 98 ∷ [])
        ≡ some false)
unfolding glob_compile simplify simplify_from flush compile_from close so_far glob_match match_text
    star_loop try_at strcasestr strncase_equal advance u_strlen strlen_from utf8_skip u_get_char
    small_fold
match_run = (refl, refl)

small_fold-zero : (c : ℕ) → 0 < c → small_fold c ≢ small_fold 0
unfolding small_fold
small_fold-zero c h e = ground arith

glob_match-compile_example :
    glob_match small_fold (glob_compile (97 ∷ 42 ∷ 63 ∷ 42 ∷ 98 ∷ [])) (65 ∷ 120 ∷ 121 ∷ 98 ∷ [])
    ≡ some true
unfolding matches any_suffix begins behind_one behind_text small_fold compile_from close so_far
glob_match-compile_example =
    glob_match-compile small_fold small_fold-zero (97 ∷ 42 ∷ 63 ∷ 42 ∷ 98 ∷ [])
      (65 ∷ 120 ∷ 121 ∷ 98 ∷ [])
      (
        omega arith,
        omega arith,
        (
          omega arith,
          omega arith,
          (omega arith, omega arith, (omega arith, omega arith, (omega arith, omega arith, tt))),
        ),
      )
      (
        omega arith,
        omega arith,
        (omega arith, omega arith, (omega arith, omega arith, (omega arith, omega arith, tt))),
      )
