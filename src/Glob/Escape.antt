-- ===== src/Glob/Escape.antt =====
-- Backslashes in the patterns of app/glob.c.
use graceful_music.Common.{ℕ, ◌≡◌, refl, ap, ◌∙◌, List, [], ◌∷◌, ◌++◌, append-nil, append_assoc}
use graceful_music.Glob.{
  glob_text, flush, simplify_from, simplify, inside, close, so_far, compile_from, glob_compile,
}

-- Each byte of a text behind a backslash.
unfoldable pub escape : List ℕ → List ℕ
escape [] = []
escape (c ∷ text) = 92 ∷ c ∷ escape text

-- A byte behind a backslash is one of the text, at any place but behind another backslash.
compile-inside :
    (t text : List ℕ) → compile_from (inside t) (escape text) ≡ glob_text (t ++ text) ∷ []
unfolding compile_from escape close so_far
compile-inside t [] = rw (append-nil t) refl
compile-inside t (c ∷ text) =
    compile-inside (t ++ c ∷ []) text
    ∙ ap (λ (l : List ℕ). glob_text l ∷ []) (append_assoc t (c ∷ []) text)

-- A text with a backslash in front of each byte is compiled to that text, whatever bytes it has.
pub glob_compile-escape :
    (c : ℕ) (text : List ℕ) → glob_compile (escape (c ∷ text)) ≡ glob_text (c ∷ text) ∷ []
unfolding glob_compile simplify simplify_from flush compile_from escape close so_far
glob_compile-escape c text = rw (compile-inside (c ∷ []) text) refl
