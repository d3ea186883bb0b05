-- ===== src/Expr/Keys.antt =====
-- The keys of filter expressions: `map_short2long`, `builtin` and the functions that look them up in
-- app/expr.c.
use graceful_music.Common.{
  ℕ, Option, none, some, List, [], ◌∷◌, ◌==◌, if◌then◌else◌, pos, ltb_ℤ, ◌==ℤ◌, codes, strcmp,
}
use graceful_music.Expr.{ExprType, type_str, type_int, type_bool}

-- `map_short2long`
unfoldable pub map_short2long : List (ℕ × List ℕ)
map_short2long =
    (b'A', codes "albumartist")
    ∷ (b'D', codes "discnumber")
    ∷ (b'T', codes "tag")
    ∷ (b'a', codes "artist")
    ∷ (b'c', codes "comment")
    ∷ (b'd', codes "duration")
    ∷ (b'f', codes "filename")
    ∷ (b'g', codes "genre")
    ∷ (b'l', codes "album")
    ∷ (b'n', codes "tracknumber")
    ∷ (b'X', codes "play_count")
    ∷ (b's', codes "stream")
    ∷ (b't', codes "title")
    ∷ (b'y', codes "date")
    ∷ []

-- `builtin`
unfoldable pub builtin : List (List ℕ × ExprType)
builtin =
    (codes "album", type_str)
    ∷ (codes "albumartist", type_str)
    ∷ (codes "artist", type_str)
    ∷ (codes "bitrate", type_int)
    ∷ (codes "bpm", type_int)
    ∷ (codes "codec", type_str)
    ∷ (codes "codec_profile", type_str)
    ∷ (codes "comment", type_str)
    ∷ (codes "date", type_int)
    ∷ (codes "discnumber", type_int)
    ∷ (codes "duration", type_int)
    ∷ (codes "filename", type_str)
    ∷ (codes "genre", type_str)
    ∷ (codes "media", type_str)
    ∷ (codes "originaldate", type_int)
    ∷ (codes "play_count", type_int)
    ∷ (codes "stream", type_bool)
    ∷ (codes "tag", type_bool)
    ∷ (codes "title", type_str)
    ∷ (codes "tracknumber", type_int)
    ∷ []

-- `lookup_long_key`, in a table
unfoldable pub long_key_in : List (ℕ × List ℕ) → ℕ → Option (List ℕ)
long_key_in [] c = none
long_key_in (entry ∷ table) c =
    let rest = long_key_in table c in if entry.0 == c then some entry.1 else rest

unfoldable pub lookup_long_key : ℕ → Option (List ℕ)
lookup_long_key c = long_key_in map_short2long c

-- `lookup_key_type`, in a table: the loop stops at the first key that is greater.
unfoldable pub key_type_in : List (List ℕ × ExprType) → List ℕ → Option ExprType
key_type_in [] key = none
key_type_in (entry ∷ table) key =
    let rest = key_type_in table key in
    let cmp = strcmp key entry.0 in
    if cmp ==ℤ pos 0 then some entry.1 else if ltb_ℤ cmp (pos 0) then none else rest

-- `lookup_key_type`, with `none` for -1, and the loop of `expr_check_leaves` over the same table
unfoldable pub lookup_key_type : List ℕ → Option ExprType
lookup_key_type key = key_type_in builtin key
