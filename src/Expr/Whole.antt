-- ===== src/Expr/Whole.antt =====
-- The whole way from a string to a tree in app/expr.c: it ends for every string, and reads back what is
-- written.
use graceful_music.Common.{
  ℕ, ◌≡◌, refl, ◌≢◌, Bool, true, ◌&&◌, List, [], if_same, Result, ok, failed, bug, out_of_fuel,
  bind, Yields, Yields-out_of_fuel, Yields-bind, Yields-map,
}
use graceful_music.Uchar.{u_is_valid}
use graceful_music.Expr.{Error}
use graceful_music.Expr.Lex.{tokenize_total}
use graceful_music.Expr.Spell.{all, is_spellable, spell_all, tokenize-spell_all}
use graceful_music.Expr.Grammar.{Sum, emit_sum, build_sum}
use graceful_music.Expr.Language.{parse_tokens-Yields, parse_tokens-emit_sum}
use graceful_music.Expr.Short.{expr_is_short, expand_short_expr}
use graceful_music.Expr.ShortTotal.{expand_short_expr_ends}
use graceful_music.Expr.Read.{has_control, parse_long, parse_utf8, expr_parse_i}

-- No call of the long form meets a failed BUG_ON, or takes more rounds than the model allows.
parse_long-Yields : (str : List ℕ) → Yields (λ e. e ≡ e) (parse_long str)
unfolding parse_long
parse_long-Yields str =
    Yields-bind (tokenize_total str) λ ts l. Yields-map (λ e h. refl) (parse_tokens-Yields ts)

bind_ends {ℓ κ} :
    {A : Type ℓ} {B : Type κ} (r : Result Error A) (f : A → Result Error B)
    → r ≢ out_of_fuel
    → ((a : A) → f a ≢ out_of_fuel)
    → bind r f ≢ out_of_fuel
bind_ends (ok a) f h k = k a
bind_ends (failed e) f h k = cc
bind_ends bug f h k = cc
bind_ends out_of_fuel f h k = absurd (h refl)

parse_utf8_ends : (check_short : Bool) (str : List ℕ) → parse_utf8 check_short str ≢ out_of_fuel
unfolding parse_utf8
parse_utf8_ends check_short str =
    let long = Yields-out_of_fuel (parse_long-Yields str) in
    let short =
      bind_ends (expand_short_expr str) parse_long (expand_short_expr_ends str)
        λ s. Yields-out_of_fuel (parse_long-Yields s) in
    if_same (λ r. r ≢ out_of_fuel) (u_is_valid str)
      (λ _.
        if_same (λ r. r ≢ out_of_fuel) (check_short && expr_is_short str) (λ _. short) λ _. long)
      λ _. cc

-- Parsing ends on every string, short or long: the fuel of the tokenizer, of the parser and of the expansion
-- is enough.
pub expr_parse_i_ends :
    (to_utf8 : List ℕ → List ℕ) (check_short : Bool) (str : List ℕ)
    → expr_parse_i to_utf8 check_short str ≢ out_of_fuel
unfolding expr_parse_i
expr_parse_i_ends to_utf8 check_short str =
    if_same (λ r. r ≢ out_of_fuel) (has_control str) (λ _. cc)
      λ _. parse_utf8_ends check_short (to_utf8 str)

-- An expression of the language that is written out as text, with a space behind each token, is parsed to its
-- tree, if its words can be written.
pub parse_long-spell_all :
    (s : Sum)
    → all is_spellable (emit_sum s []) ≡ true
    → parse_long (spell_all (emit_sum s [])) ≡ ok (build_sum s)
unfolding parse_long
parse_long-spell_all s h = rw (tokenize-spell_all (emit_sum s []) h) (parse_tokens-emit_sum s)
