-- ===== src/Uchar/Char.antt =====
-- One character of a UTF-8 string, written by `u_set_char_raw` and read by `u_get_char` of app/uchar.c.
use graceful_music.Common.{ℕ, ◌+◌, ◌%◌, ◌≤◌, ◌≡◌, true, List, ◌++◌, arith, length}
use graceful_music.Uchar.{len_tab, is_tail, more_bytes, get_sequence, u_get_char, u_set_char_raw}

-- A byte that is written behind the first is 10xxxxxx.
pub tail_bits : (x : ℕ) → (is_tail (x % 64 + 128) ≡ true) × ((x % 64 + 128) % 64 ≡ x % 64)
unfolding is_tail len_tab
tail_bits x = (ground arith, omega arith)

-- What `u_set_char_raw` writes `u_get_char` reads, whatever follows it: any character up to 0x10ffff,
-- and as many bytes as were written.
pub get-set_char :
    (u : ℕ) (rest : List ℕ)
    → u ≤ 1114111
    → u_get_char (u_set_char_raw u ++ rest) ≡ (u, length (u_set_char_raw u))
unfolding u_get_char u_set_char_raw get_sequence more_bytes is_tail len_tab
get-set_char u rest h = ground arith
