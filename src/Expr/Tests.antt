-- ===== src/Expr/Tests.antt =====
-- Filter expressions of app/expr.c at concrete inputs.
use graceful_music.Common.{
  ℕ, ◌≡◌, refl, ◌≢◌, ◌↔◌, true, false, ◌&&◌, not, none, some, List, [], ◌∷◌, arith, if◌then◌else◌,
  pos, negsuc, ◌-ℤ◌, codes, ok, bug, out_of_fuel,
}
use graceful_music.Expr.{
  op_lt, op_gt, tok_not, tok_eq, tok_and, tok_or, tok_lparen, tok_ge, tok_key, tok_int_or_key,
  tok_str, expr_int, is_eq_or_ne,
}
use graceful_music.Expr.Tokens.{
  special, combined, str_from, get_str, word_from, get_int_or_key, combine, get_token,
  tokenize_from, tokenize,
}
use graceful_music.Expr.Parse.{parse_tokens}
use graceful_music.Expr.Grammar.{
  both, name, Sum, one, join, flag, text, emit_sum, emit_operand, build_sum,
}
use graceful_music.Expr.Spell.{digits_only, is_spellable, spell_all}
use graceful_music.Expr.Short.{expand_in}
use graceful_music.Expr.Read.{parse_long, expr_parse_i}
use graceful_music.Expr.Eval.{TrackInfo, is_http_url, is_unset, eval_int, expr_eval}
use graceful_music.History.{has_prefix}
use graceful_music.Expr.Compare.{compare_ints, eval_int_lem, expr_eval-stream}
use graceful_music.Expr.Language.{parse_tokens-total, parse_tokens_iff}
use graceful_music.Expr.ShortTotal.{expand_in-room}
use graceful_music.Expr.Whole.{expr_parse_i_ends, parse_long-spell_all}
use graceful_music.Expr.Tokens.{
  special, combined, str_from, get_str, word_from, get_int_or_key, combine, get_token,
  tokenize_from, tokenize,
}

tokenize_run :
    tokenize (codes "artist=\"a*\" & !date>=-12|x")
    ≡ ok (
        tok_key (codes "artist")
        ∷ tok_eq
        ∷ tok_str (codes "a*")
        ∷ tok_and
        ∷ tok_not
        ∷ tok_key (codes "date")
        ∷ tok_ge
        ∷ tok_int_or_key (codes "-12")
        ∷ tok_or
        ∷ tok_key (codes "x")
        ∷ [])
unfolding tokenize tokenize_from get_token get_str str_from get_int_or_key word_from special combine
    combined
tokenize_run = refl

-- stream & artist="a*"
abbrev small_sum : Sum
small_sum =
    join (one (flag (name (codes "stream")))) both (text (name (codes "artist")) true (codes "a*"))

parse_tokens_iff_example :
    (parse_tokens (emit_sum small_sum []) ≡ ok (build_sum small_sum))
    ↔ ((s : Sum) × (emit_sum small_sum [] ≡ emit_sum s []) × (build_sum small_sum ≡ build_sum s))
parse_tokens_iff_example = parse_tokens_iff (emit_sum small_sum []) (build_sum small_sum)

parse_tokens-total_example :
    (parse_tokens (tok_lparen ∷ tok_and ∷ []) ≢ bug)
    × (parse_tokens (tok_lparen ∷ tok_and ∷ []) ≢ out_of_fuel)
parse_tokens-total_example = parse_tokens-total (tok_lparen ∷ tok_and ∷ [])

parse_long-spell_all_example :
    parse_long (spell_all (emit_sum small_sum [])) ≡ ok (build_sum small_sum)
unfolding is_spellable digits_only emit_sum emit_operand
parse_long-spell_all_example = parse_long-spell_all small_sum refl

expand_in-room_example : expand_in 15 (codes "~A") ≢ bug
expand_in-room_example = expand_in-room 15 (codes "~A") (omega arith)

abbrev same_bytes : List ℕ → List ℕ
same_bytes s = s

expr_parse_i_ends_example : expr_parse_i same_bytes true (codes "~aradiohead") ≢ out_of_fuel
expr_parse_i_ends_example = expr_parse_i_ends same_bytes true (codes "~aradiohead")

eval_int_lem_example : eval_int (pos 1994) op_lt (pos 2000) ≡ (
    if is_unset (pos 2000) && is_eq_or_ne op_lt
    then compare_ints (pos 1994) op_lt (pos 2000)
    else not (is_unset (pos 1994)) && compare_ints (pos 1994) op_lt (pos 2000))
unfolding ◌-ℤ◌
eval_int_lem_example = eval_int_lem (pos 1994) (pos 2000) op_lt (omega arith, omega arith)

abbrev small_stream : TrackInfo
small_stream = record {
  comments = [];
  filename = codes "http://a.b/c";
  codec = none;
  codec_profile = none;
  duration = negsuc 0;
  bitrate = pos 128000;
  date = negsuc 0;
  originaldate = negsuc 0;
  play_count = 0;
  bpm = negsuc 0;
  artist = none;
  album = none;
  title = none;
}

abbrev small_fold : ℕ → ℕ
small_fold c = c

expr_eval-stream_example :
    (expr_eval small_fold same_bytes (expr_int (codes "duration") (negsuc 1) op_lt) small_stream
      ≡ some true)
    × (expr_eval small_fold same_bytes (expr_int (codes "duration") (negsuc 1) op_gt) small_stream
        ≡ some false)
unfolding is_http_url has_prefix
expr_eval-stream_example = expr_eval-stream small_fold same_bytes small_stream 0 refl (omega arith)
