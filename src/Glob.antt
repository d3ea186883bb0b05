-- ===== src/Glob.antt =====
-- Patterns with `*` and `?`: app/glob.c, and the comparison and the search of app/uchar.c that it uses.
-- Strings are lists of bytes as in Uchar. A list of `struct glob_item` is a list of the items.
pub mod Canonical
pub mod Reference
pub mod Simplify
pub mod Ascii
pub mod Search
pub mod Escape
pub mod Match
mod Tests
use graceful_music.Common.{
  ℕ, zero, suc, ◌+◌, ◌-◌, ◌*◌, ◌/◌, ◌%◌, ◌^◌, ◌≤◌, ◌<◌, min, max, ◌≡◌, refl, sym, ap, ◌∙◌, subst,
  fun_ext, ◌≢◌, ◌↔◌, ◌⊎◌, inl, inr, Bool, true, false, ◌&&◌, ◌||◌, not, Option, none, some, List,
  [], ◌∷◌, ◌++◌, map, append-nil, append_assoc, arith, ltb, leb, ◌==◌, if◌then◌else◌, ltb→lt,
  lt→ltb, ltb→ge, leb→le, ==_iff, ==_refl, Bool-cases, Option-cases, length, get_elem?, get_or,
  take, drop, replicate, length-append, take-append-drop, length-take, length-drop,
  length-replicate, take-all, drop-drop, take-nil, drop-nil, beq_of_ne, ltb_of_ge, if_same,
  some_inj,
}
use graceful_music.Player.State.{◌>>=◌}
use graceful_music.Uchar.{u_strlen, u_get_char}

-- `struct glob_item`
pub data GlobItem : Type 0 where
  glob_star glob_qmark : GlobItem
  glob_text : List ℕ → GlobItem

-- What `simplify` makes of a run of `qcount` question marks and `scount` stars: with a star the question
-- marks go in front of it, and it stays alone.
unfoldable pub flush : (qcount scount : ℕ) → List GlobItem
flush qcount scount = replicate qcount glob_qmark ++ (if ltb 0 scount then glob_star ∷ [] else [])

-- `simplify`, with the counts of the run that it stands in.
unfoldable pub simplify_from : (qcount scount : ℕ) → List GlobItem → List GlobItem
simplify_from qcount scount [] = flush qcount scount
simplify_from qcount scount (glob_star ∷ items) = simplify_from qcount (suc scount) items
simplify_from qcount scount (glob_qmark ∷ items) = simplify_from (suc qcount) scount items
simplify_from qcount scount (glob_text t ∷ items) =
    flush qcount scount ++ glob_text t ∷ simplify_from 0 0 items

unfoldable pub simplify : List GlobItem → List GlobItem
simplify = simplify_from 0 0

-- Where the loops of `glob_compile` stand: between two items, in a text whose bytes so far are given, or
-- in one behind a backslash.
pub data Place : Type 0 where
  outside : Place
  inside escaped : List ℕ → Place

-- The text up to a place, as an item.
unfoldable pub close : Place → List GlobItem
close outside = []
close (inside t) = glob_text t ∷ []
close (escaped t) = glob_text (t ++ 92 ∷ []) ∷ []

-- The bytes of the text up to a place.
unfoldable pub so_far : Place → List ℕ
so_far outside = []
so_far (inside t) = t
so_far (escaped t) = t

abbrev pub is_escaped : Place → Bool
is_escaped (escaped t) = true
is_escaped _ = false

-- The loops of `glob_compile`, one byte at a time: 92 is the backslash, 42 the star, 63 the question mark.
unfoldable pub compile_from : Place → List ℕ → List GlobItem
compile_from p [] = close p
compile_from p (c ∷ pattern) =
    let more = compile_from (inside (so_far p ++ c ∷ [])) pattern in
    let escape = compile_from (escaped (so_far p)) pattern in
    let next = compile_from outside pattern in
    if is_escaped p
    then more
    else if c == 92
    then escape
    else if c == 42
    then close p ++ glob_star ∷ next
    else if c == 63
    then close p ++ glob_qmark ∷ next
    else more

-- `glob_compile`
unfoldable pub glob_compile : List ℕ → List GlobItem
glob_compile pattern = simplify (compile_from outside pattern)

-- `text += n`; a pointer behind the 0 that ends the string is `none`.
unfoldable pub advance : ℕ → List ℕ → Option (List ℕ)
advance n text = if ltb (length text) n then none else some (drop n text)

-- `fold` stands for `u_casefold_char` behind `get_base_from_composed`, two tables of characters.
module _ (fold : ℕ → ℕ) where
  -- The loop of `do_u_strncase_equal`
  unfoldable pub strncase_equal : (len : ℕ) → List ℕ → List ℕ → Bool
  strncase_equal zero a b = true
  strncase_equal (suc len) a b =
      let rest = strncase_equal len (drop (u_get_char a).1 a) (drop (u_get_char b).1 b) in
      if fold (u_get_char a).0 == fold (u_get_char b).0 then rest else false

  -- The loop of `do_u_strcasestr`, with the rest of the haystack from the place found on; `none` is NULL.
  -- A round drops a byte or more, so one round for each byte and one more are enough.
  unfoldable pub strcasestr : (fuel needle_len : ℕ) → (needle haystack : List ℕ) → Option (List ℕ)
  strcasestr zero needle_len needle haystack = none
  strcasestr (suc fuel) needle_len needle haystack =
      let rest = strcasestr fuel needle_len needle (drop (u_get_char haystack).1 haystack) in
      if ltb (length haystack) needle_len
      then none
      else if strncase_equal needle_len needle haystack
      then some haystack
      else rest

  -- The branch GLOB_TEXT up to the move of `text`, with whether the text matches.
  unfoldable pub match_text : List ℕ → List ℕ → Option (Bool × List ℕ)
  match_text t text = u_strlen t >>= λ len.
      if strncase_equal len t text
      then (advance (length t) text >>= λ rest. some (true, rest))
      else some (false, text)

  -- A round of the loop of the branch GLOB_STAR, for the text `t` behind the star and the place that
  -- `u_strcasestr_base` returned; `go` is the call of `do_glob_match` for the items behind that text, and
  -- `again` the next round, one byte behind the place.
  unfoldable pub try_at : List ℕ → (go again : List ℕ → Option Bool) → Option (List ℕ) → Option Bool
  try_at t go again none = some false
  try_at t go again (some pos) = advance (length t) pos >>= λ rest.
      go rest >>= λ found. if found then some true else (advance 1 pos >>= again)

  -- The loop; a round goes on behind the last place, so one round for each byte and one more are enough.
  unfoldable pub star_loop : (fuel : ℕ) → List ℕ → (List ℕ → Option Bool) → List ℕ → Option Bool
  star_loop zero t go text = none
  star_loop (suc fuel) t go text = u_strlen t >>= λ len.
      try_at t go (star_loop fuel t go) (strcasestr (suc (length text)) len t text)

  -- `do_glob_match`; BUG_ON(next_gi->type != GLOB_TEXT) is `none`.
  unfoldable pub glob_match : List GlobItem → List ℕ → Option Bool
  glob_match [] text = some (length text == 0)
  glob_match (glob_text t ∷ items) text =
      match_text t text >>= λ r. if r.0 then glob_match items r.1 else some false
  glob_match (glob_qmark ∷ items) text =
      if (u_get_char text).0 == 0
      then some false
      else (advance (u_get_char text).1 text >>= λ rest. glob_match items rest)
  glob_match (glob_star ∷ []) text = some true
  glob_match (glob_star ∷ glob_text t ∷ items) text =
      star_loop (suc (length text)) t (glob_match items) text
  glob_match (glob_star ∷ _ ∷ items) text = none
