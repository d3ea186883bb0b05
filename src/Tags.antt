-- ===== src/Tags.antt =====
-- The tags of a track: common/key-value.c, comment.c and the lookups of track_info.c. Strings are lists of
-- bytes without the 0 that ends them; NULL is `none`.
pub mod Names
pub mod Comments
pub mod Dates
mod Tests
use graceful_music.Common.{
  ℕ, zero, suc, ◌+◌, ◌-◌, ◌*◌, ◌/◌, ◌%◌, ◌^◌, ◌≤◌, ◌<◌, min, max, ◌≡◌, refl, sym, ap, ◌∙◌, subst,
  fun_ext, ◌≢◌, ◌↔◌, ◌⊎◌, inl, inr, Bool, true, false, ◌&&◌, ◌||◌, not, Option, none, some, List,
  [], ◌∷◌, ◌++◌, map, append-nil, append_assoc, arith, ltb, leb, ◌==◌, if◌then◌else◌, ltb→lt,
  lt→ltb, ltb→ge, leb→le, ==_iff, ==_refl, Bool-cases, Option-cases, length, get_elem?, get_or,
  take, drop, replicate, length-append, take-append-drop, length-take, length-drop,
  length-replicate, take-all, drop-drop, take-nil, drop-nil, beq_of_ne, ltb_of_ge, if_same,
  some_inj, ℤ, pos, negsuc, pos_part, neg_part, sub_ℕ, ◌+ℤ◌, ◌-ℤ◌, ◌≤ℤ◌, ◌<ℤ◌, ltb_ℤ, ◌==ℤ◌,
  -ℤ_parts, IsInt32, of_bits32, to_int32, to_int32_id, to_int32-IsInt32, codes, isspace, isdigit,
  isalpha, strcmp, strcmp_refl, strcmp_eq, digits_from, clamp_long, skip_spaces, starts_digit,
  strtol_from, strtol, Result, ok, failed, bug, out_of_fuel, bind, Yields, yields, fails, Yields-ok,
  Yields-bug, Yields-out_of_fuel, Yields-if, Yields-bind, Yields-map,
}

-- tolower, in a UTF-8 locale
abbrev pub tolower : ℕ → ℕ
tolower c = if leb b'A' c && leb c b'Z' then c + 32 else c

-- `strcasecmp(a, b) == 0`
unfoldable pub same_letters : List ℕ → List ℕ → Bool
same_letters [] [] = true
same_letters (c ∷ a) (d ∷ b) = if tolower c == tolower d then same_letters a b else false
same_letters _ _ = false

-- `KeyValue`
pub record KeyValue : Type 0 where
  pub key : List ℕ
  pub value : List ℕ

-- `GrowingKeyValues`; `count` is the length of the list.
pub record GrowingKeyValues : Type 0 where
  pub key_values : List KeyValue
  pub alloc : ℕ

-- `key_value_get_value`, and `key_value_get_val_growing` on the entries
unfoldable pub key_value_get_value : List KeyValue → List ℕ → Option (List ℕ)
key_value_get_value [] key = none
key_value_get_value (kv ∷ c) key =
    let rest = key_value_get_value c key in if same_letters kv.key key then some kv.value else rest

-- `key_value_init`
unfoldable pub key_value_init : List KeyValue → GrowingKeyValues
key_value_init c = record { key_values = c; alloc = length c }

-- `key_value_add`, where (n + 3) & ~3 rounds up to a multiple of 4
unfoldable pub key_value_add : GrowingKeyValues → (key val : List ℕ) → GrowingKeyValues
key_value_add c key val =
    let n = length c.key_values + 1 in
    record {
      key_values = c.key_values ++ record { key = key; value = val } ∷ [];
      alloc = if ltb c.alloc n then (n + 3) / 4 * 4 else c.alloc;
    }

-- `key_value_terminate`, with room for the entry that ends the array
unfoldable pub key_value_terminate : GrowingKeyValues → GrowingKeyValues
key_value_terminate c =
    let alloc = length c.key_values + 1 in
    record c { alloc = if ltb c.alloc alloc then alloc else c.alloc }

-- `interesting`
unfoldable pub interesting : List (List ℕ)
interesting =
    codes "artist"
    ∷ codes "album"
    ∷ codes "title"
    ∷ codes "tracknumber"
    ∷ codes "discnumber"
    ∷ codes "genre"
    ∷ codes "date"
    ∷ codes "compilation"
    ∷ codes "partofacompilation"
    ∷ codes "albumartist"
    ∷ codes "artistsort"
    ∷ codes "albumartistsort"
    ∷ codes "albumsort"
    ∷ codes "originaldate"
    ∷ codes "r128_track_gain"
    ∷ codes "r128_album_gain"
    ∷ codes "replaygain_track_gain"
    ∷ codes "replaygain_track_peak"
    ∷ codes "replaygain_album_gain"
    ∷ codes "replaygain_album_peak"
    ∷ codes "musicbrainz_trackid"
    ∷ codes "comment"
    ∷ codes "bpm"
    ∷ codes "arranger"
    ∷ codes "composer"
    ∷ codes "conductor"
    ∷ codes "lyricist"
    ∷ codes "performer"
    ∷ codes "remixer"
    ∷ codes "label"
    ∷ codes "publisher"
    ∷ codes "work"
    ∷ codes "opus"
    ∷ codes "partnumber"
    ∷ codes "part"
    ∷ codes "subtitle"
    ∷ codes "media"
    ∷ []

-- `key_map`, the old name and the new one
unfoldable pub key_map : List (List ℕ × List ℕ)
key_map =
    (codes "album_artist", codes "albumartist")
    ∷ (codes "album artist", codes "albumartist")
    ∷ (codes "disc", codes "discnumber")
    ∷ (codes "tempo", codes "bpm")
    ∷ (codes "track", codes "tracknumber")
    ∷ (codes "WM/Year", codes "date")
    ∷ (codes "WM/ArtistSortOrder", codes "artistsort")
    ∷ (codes "WM/AlbumArtistSortOrder", codes "albumartistsort")
    ∷ (codes "WM/AlbumSortOrder", codes "albumsort")
    ∷ (codes "WM/OriginalReleaseYear", codes "originaldate")
    ∷ (codes "WM/Media", codes "media")
    ∷ (codes "sourcemedia", codes "media")
    ∷ (codes "MusicBrainz Track Id", codes "musicbrainz_trackid")
    ∷ (codes "version", codes "subtitle")
    ∷ (codes "artist-sort", codes "artistsort")
    ∷ (codes "TSO2", codes "albumartistsort")
    ∷ (codes "album-sort", codes "albumsort")
    ∷ (codes "sort_artist", codes "artistsort")
    ∷ (codes "sort_album_artist", codes "albumartistsort")
    ∷ (codes "sort_album", codes "albumsort")
    ∷ []

-- The first loop of `fix_key`
unfoldable pub find_key : List (List ℕ) → List ℕ → Option (List ℕ)
find_key [] key = none
find_key (k ∷ table) key =
    let rest = find_key table key in if same_letters key k then some k else rest

-- The second one
unfoldable pub find_old : List (List ℕ × List ℕ) → List ℕ → Option (List ℕ)
find_old [] key = none
find_old (k ∷ table) key =
    let rest = find_old table key in if same_letters key k.0 then some k.1 else rest

-- `fix_key`
unfoldable pub fix_key : List ℕ → Option (List ℕ)
fix_key key = elim (find_key interesting key) [ none ↦ find_old key_map key | some k ↦ some k ]

-- A string up to its first slash, which `comments_add` cuts off.
unfoldable pub until_slash : List ℕ → List ℕ
until_slash [] = []
until_slash (c ∷ s) = let rest = until_slash s in if c == b'/' then [] else c ∷ rest

-- `comments_add` for a key other than "songwriter", with whether it was added
unfoldable pub add_fixed :
    Option (List ℕ) → (val : List ℕ) → GrowingKeyValues → Bool × GrowingKeyValues
add_fixed none val c = (false, c)
add_fixed (some key) val c =
    let number =
      strcmp key (codes "tracknumber") ==ℤ pos 0 || strcmp key (codes "discnumber") ==ℤ pos 0 in
    elim (key_value_get_value c.key_values key) [
      | some old ↦ (false, c)
      | none ↦ (true, key_value_add c key (if number then until_slash val else val))
    ]

-- `comments_add`. Neither key that "songwriter" stands for is "songwriter" itself.
unfoldable pub comments_add : GrowingKeyValues → (key val : List ℕ) → Bool × GrowingKeyValues
comments_add c key val =
    let r = add_fixed (fix_key (codes "lyricist")) val c in
    let q = add_fixed (fix_key (codes "composer")) val r.1 in
    if same_letters key (codes "songwriter")
    then (q.0 && r.0, q.1)
    else add_fixed (fix_key key) val c

-- while (*val && !(*val >= '0' && *val <= '9')) val++
unfoldable pub skip_to_digit : List ℕ → List ℕ
skip_to_digit [] = []
skip_to_digit (c ∷ s) = let rest = skip_to_digit s in if isdigit c then c ∷ s else rest

-- `comments_get_int`; the result of `strtol` is kept in an `int`.
unfoldable pub int_of : Option (List ℕ) → ℤ
int_of none = negsuc 0
int_of (some val) =
    let s = skip_to_digit val in
    let r = strtol s in
    if length s == 0 then negsuc 0 else if length r.1 == 0 then to_int32 r.0 else negsuc 0

unfoldable pub comments_get_int : List KeyValue → List ℕ → ℤ
comments_get_int c key = int_of (key_value_get_value c key)

-- *endptr == '-' || *endptr == ' ' || *endptr == '/', with what is behind it
unfoldable pub behind_separator : List ℕ → Option (List ℕ)
behind_separator [] = none
behind_separator (c ∷ s) = if c == b'-' || c == b' ' || c == b'/' then some s else none

-- A part of a date that is between two bounds
abbrev pub is_between : (low high : ℕ) → ℤ → Bool
is_between low high (pos n) = leb low n && leb n high
is_between low high (negsuc n) = false

-- The part of `comments_get_date` for the day, behind the month
unfoldable pub with_day : ℤ → List ℕ → ℤ
with_day ival s = elim (behind_separator s) [
  | none ↦ ival
  | some t ↦ let day = to_int32 (strtol t).0 in if is_between 1 31 day then ival +ℤ day else ival
]

-- The part for the month; without one the day is looked for at the same place.
unfoldable pub with_month : ℤ → List ℕ → ℤ
with_month ival s = elim (behind_separator s) [
  | none ↦ with_day ival s
  | some t ↦
      let month = to_int32 (strtol t).0 in
      let ival₁ = ival +ℤ pos (100 * pos_part month) in
      if is_between 1 12 month then with_day ival₁ (strtol t).1 else ival
]

unfoldable pub date_of : Option (List ℕ) → ℤ
date_of none = negsuc 0
date_of (some val) =
    let year = to_int32 (strtol val).0 in
    if is_between 1000 9999 year
    then with_month (pos (10000 * pos_part year)) (strtol val).1
    else negsuc 0

-- `comments_get_date`
unfoldable pub comments_get_date : List KeyValue → List ℕ → ℤ
comments_get_date c key = date_of (key_value_get_value c key)
