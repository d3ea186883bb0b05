-- ===== src/Tags/Tests.antt =====
-- Tags on small inputs, and the theorems on them at concrete inputs.
use graceful_music.Common.{
  ◌≡◌, refl, ◌⊎◌, some, [], ◌∷◌, arith, pos, negsuc, ◌+ℤ◌, of_bits32, to_int32, codes, digits_from,
  clamp_long, skip_spaces, starts_digit, strtol_from, strtol,
}
use graceful_music.Tags.{
  same_letters, GrowingKeyValues, key_value_get_value, interesting, key_map, find_key, find_old,
  fix_key, comments_add, skip_to_digit, int_of, behind_separator, with_day, with_month, date_of,
  comments_get_date,
}
use graceful_music.Tags.Comments.{IsSingle, IsAllProper, IsTags, comments_add-IsTags}
use graceful_music.Tags.Dates.{IsDate, comments_get_date-IsDate}

dates :
    (date_of (some (codes "2004-03-21T10")) ≡ pos 20040321)
    × (date_of (some (codes "1999/13")) ≡ pos 19990000)
    × (date_of (some (codes "99")) ≡ negsuc 0)
    × (int_of (some (codes "disc 3")) ≡ pos 3)
    × (int_of (some (codes "3/12")) ≡ negsuc 0)
unfolding date_of with_month with_day behind_separator strtol strtol_from skip_spaces digits_from
    starts_digit clamp_long to_int32 of_bits32 ◌+ℤ◌ int_of skip_to_digit
dates = (refl, refl, refl, refl, refl)

-- The tags of a track with a title.
abbrev small_tags : GrowingKeyValues
small_tags = record {
  key_values = record { key = codes "title"; value = codes "Paranoid Android" } ∷ [];
  alloc = 4;
}

small_tags-IsTags : IsTags small_tags
unfolding IsSingle IsAllProper key_value_get_value fix_key find_key find_old interesting key_map
    same_letters
small_tags-IsTags = record {
  single = (refl, omega arith);
  proper = (refl, omega arith);
  room = omega arith;
}

comments_add-IsTags_example :
    IsTags (comments_add small_tags (codes "Songwriter") (codes "Yorke")).1
comments_add-IsTags_example =
    comments_add-IsTags small_tags (codes "Songwriter") (codes "Yorke") small_tags-IsTags

comments_get_date-IsDate_example :
    (comments_get_date small_tags.key_values (codes "date") ≡ negsuc 0)
    ⊎ IsDate (comments_get_date small_tags.key_values (codes "date"))
comments_get_date-IsDate_example = comments_get_date-IsDate small_tags.key_values (codes "date")
