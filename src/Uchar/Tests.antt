-- ===== src/Uchar/Tests.antt =====
-- The functions of app/uchar.c on small strings, and the theorems at concrete inputs.
use graceful_music.Common.{ℕ, ◌+◌, ◌≡◌, refl, ◌↔◌, true, false, none, some, List, [], ◌∷◌, arith}
use graceful_music.Uchar.{
  len_tab, is_tail, first_byte, in_range, next_byte, valid_from, u_is_valid, utf8_skip, strlen_from,
  u_strlen, more_bytes, get_sequence, u_get_char, u_set_char_raw, u_set_char, set_invalid,
  u_char_size, u_print_size, to_utf8_loop, u_to_utf8, print_size_loop, u_str_print_size,
}
use graceful_music.Uchar.Char.{get-set_char}
use graceful_music.Uchar.Valid.{encode, AllUnicode, u_is_valid_iff}
use graceful_music.Uchar.Print.{length-u_set_char}

-- The euro sign, and its bytes.
euro : (u_set_char_raw 8364 ≡ 226 ∷ 130 ∷ 172 ∷ []) × (u_is_valid (226 ∷ 130 ∷ 172 ∷ []) ≡ true)
unfolding u_set_char_raw u_is_valid valid_from first_byte next_byte in_range is_tail len_tab
euro = (refl, refl)

-- A byte that starts no character, and a 0 that takes two bytes.
invalid_byte : u_get_char (255 ∷ 97 ∷ []) ≡ (268435711, 1)
unfolding u_get_char get_sequence len_tab
invalid_byte = refl

overlong : (u_is_valid (192 ∷ 128 ∷ []) ≡ false) × (u_get_char (192 ∷ 128 ∷ []) ≡ (0, 2))
unfolding u_is_valid valid_from first_byte next_byte in_range is_tail len_tab u_get_char
    get_sequence more_bytes
overlong = (refl, refl)

-- A first byte that promises more than the string has: `u_next_char` steps over its end.
cut_off : u_strlen (97 ∷ 226 ∷ []) ≡ none
unfolding u_strlen strlen_from utf8_skip
cut_off = refl

get-set_char_example : u_get_char (226 ∷ 130 ∷ 172 ∷ 97 ∷ []) ≡ (8364, 3)
unfolding u_set_char_raw
get-set_char_example = get-set_char 8364 (97 ∷ []) (omega arith)

u_is_valid_iff_example :
    (u_is_valid (226 ∷ 130 ∷ 172 ∷ []) ≡ true)
    ↔ ((us : List ℕ) × AllUnicode us × (226 ∷ 130 ∷ 172 ∷ [] ≡ encode us))
u_is_valid_iff_example = u_is_valid_iff (226 ∷ 130 ∷ 172 ∷ [])

-- The invalid byte 255 is printed as "<ff>".
length-u_set_char_example : 4 ≡ u_print_size 268435711 + 3
unfolding u_set_char set_invalid
length-u_set_char_example = length-u_set_char 268435711

sizes_of_invalid :
    (u_to_utf8 (255 ∷ []) ≡ some (60 ∷ 102 ∷ 102 ∷ 62 ∷ 0 ∷ []))
    × (u_str_print_size (255 ∷ []) ≡ some 2)
unfolding u_to_utf8 to_utf8_loop u_str_print_size print_size_loop u_get_char get_sequence len_tab
    u_set_char set_invalid u_print_size u_char_size
sizes_of_invalid = (refl, refl)
