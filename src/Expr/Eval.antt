-- ===== src/Expr/Eval.antt =====
-- The value of a filter expression for a track: `str_val`, `int_val` and `expr_eval` of app/expr.c.
use graceful_music.Common.{
  ℕ, ◌+◌, ◌/◌, Bool, true, false, ◌&&◌, ◌||◌, not, Option, none, some, List, [], if◌then◌else◌, ℤ,
  pos, negsuc, ◌-ℤ◌, ◌==ℤ◌, to_int32, codes, strcmp, is_str,
}
use graceful_music.Player.State.{◌>>=◌}
use graceful_music.Glob.{glob_match}
use graceful_music.History.{has_prefix}
use graceful_music.Tags.{KeyValue, key_value_get_value, comments_get_int}
use graceful_music.Expr.{
  Op, Expr, null, expr_and, expr_or, expr_not, expr_str, expr_int, expr_id, expr_bool, is_eq, is_ne,
  expr_op_to_bool,
}

-- What expressions read of `struct track_info`
pub record TrackInfo : Type 0 where
  pub comments : List KeyValue
  pub filename : List ℕ
  pub codec : Option (List ℕ)
  pub codec_profile : Option (List ℕ)
  pub duration : ℤ
  pub bitrate : ℤ
  pub date : ℤ
  pub originaldate : ℤ
  pub play_count : ℕ
  pub bpm : ℤ
  pub artist : Option (List ℕ)
  pub album : Option (List ℕ)
  pub title : Option (List ℕ)

-- `is_http_url`
unfoldable pub is_http_url : List ℕ → Bool
is_http_url name = has_prefix (codes "http://") name

abbrev pub is_some {ℓ} : {A : Type ℓ} → Option A → Bool
is_some none = false
is_some (some a) = true

-- `track_info_has_tag`
unfoldable pub track_info_has_tag : TrackInfo → Bool
track_info_has_tag ti = is_some ti.artist || is_some ti.album || is_some ti.title

-- A number that is not below 0, divided by `n` behind adding `m`; -1 stands for a tag that is not set.
unfoldable pub divided : (m n : ℕ) → ℤ → ℤ
divided m n (pos a) = pos ((a + m) / n)
divided m n (negsuc a) = negsuc 0

-- `int_val`; (int) (bitrate / 1000. + 0.5) is the bitrate in thousands, rounded.
unfoldable pub int_val : List ℕ → TrackInfo → ℤ
int_val key ti =
    if is_str key (codes "duration")
    then (if is_http_url ti.filename then pos 2147483647 else ti.duration)
    else if is_str key (codes "date")
    then divided 0 10000 ti.date
    else if is_str key (codes "originaldate")
    then divided 0 10000 ti.originaldate
    else if is_str key (codes "bitrate")
    then divided 500 1000 ti.bitrate
    else if is_str key (codes "play_count")
    then to_int32 (pos ti.play_count)
    else if is_str key (codes "bpm")
    then ti.bpm
    else comments_get_int ti.comments key

-- a - b, in an `int`. The C standard leaves an overflow undefined; here it wraps, as on the usual machines.
unfoldable pub int_sub : ℤ → ℤ → ℤ
int_sub a b = to_int32 (a -ℤ b)

abbrev pub is_unset : ℤ → Bool
is_unset a = a ==ℤ negsuc 0

-- `expr_eval`, EXPR_INT, for the value of the key
unfoldable pub eval_int : (tag : ℤ) (op : Op) (val : ℤ) → Bool
eval_int tag op val =
    if is_unset val && is_eq op
    then is_unset tag
    else if is_unset val && is_ne op
    then not (is_unset tag)
    else if is_unset tag
    then false
    else expr_op_to_bool (int_sub tag val) op

-- The end of the case EXPR_ID, for two keys without texts
unfoldable pub eval_ints : (a b : ℤ) (op : Op) → Bool
eval_ints a b op =
    let res = int_sub a b in
    if is_unset a || is_unset b
    then (if is_eq op then res ==ℤ pos 0 else if is_ne op then not (res ==ℤ pos 0) else false)
    else expr_op_to_bool res op

-- The two texts, then the two numbers
unfoldable pub eval_keys : (sa sb : Option (List ℕ)) (a b : ℤ) (op : Op) → Bool
eval_keys (some s) (some t) a b op = expr_op_to_bool (strcmp s t) op
eval_keys (some s) none a b op = false
eval_keys none sb a b op = eval_ints a b op

-- `fold` is the folding of characters of `glob_match`, `to_utf8` the conversion of a file name.
module _ (fold : ℕ → ℕ) (to_utf8 : List ℕ → List ℕ) where
  -- `str_val`, with `none` for NULL
  unfoldable pub str_val : List ℕ → TrackInfo → Option (List ℕ)
  str_val key ti =
      if is_str key (codes "filename")
      then some (to_utf8 ti.filename)
      else if is_str key (codes "codec")
      then ti.codec
      else if is_str key (codes "codec_profile")
      then ti.codec_profile
      else key_value_get_value ti.comments key

  abbrev pub text_or_empty : Option (List ℕ) → List ℕ
  text_or_empty none = []
  text_or_empty (some val) = val

  -- `expr_eval`; `none` is a null pointer that is followed, or a `glob_match` that reads behind its text.
  unfoldable pub expr_eval : Expr → TrackInfo → Option Bool
  expr_eval null ti = none
  expr_eval (expr_and left right) ti =
      let more = expr_eval right ti in expr_eval left ti >>= λ l. if l then more else some false
  expr_eval (expr_or left right) ti =
      let more = expr_eval right ti in expr_eval left ti >>= λ l. if l then some true else more
  expr_eval (expr_not left) ti = expr_eval left ti >>= λ l. some (not l)
  expr_eval (expr_str key glob_head op) ti =
      glob_match fold glob_head (text_or_empty (str_val key ti)) >>= λ res.
      some (if is_eq op then res else not res)
  expr_eval (expr_int key val op) ti = some (eval_int (int_val key ti) op val)
  expr_eval (expr_id key other op) ti =
      some (eval_keys (str_val key ti) (str_val other ti) (int_val key ti) (int_val other ti) op)
  expr_eval (expr_bool key) ti =
      some (if is_str key (codes "stream") then is_http_url ti.filename else track_info_has_tag ti)
