-- ===== src/Volume.antt =====
-- The soft volume and the replay gain of app/player.c: how `scale_samples` changes the bytes that are
-- about to be played. A sample of `w` bits is its word, a number below 2 ^ w that stands for itself
-- below 2 ^ (w - 1) and else for itself less 2 ^ w. An overflow of a signed number is `none`.
pub mod Sample
pub mod Frames
pub mod Position
mod Tests
use graceful_music.Common.{
  ℕ, zero, suc, ◌+◌, ◌-◌, ◌*◌, ◌/◌, ◌%◌, ◌^◌, ◌≤◌, ◌<◌, min, max, ◌≡◌, refl, sym, ap, ◌∙◌, subst,
  fun_ext, ◌≢◌, ◌↔◌, ◌⊎◌, inl, inr, Bool, true, false, ◌&&◌, ◌||◌, not, Option, none, some, List,
  [], ◌∷◌, ◌++◌, map, append-nil, append_assoc, arith, ltb, leb, ◌==◌, if◌then◌else◌, ltb→lt,
  lt→ltb, ltb→ge, leb→le, ==_iff, ==_refl, Bool-cases, Option-cases, length, get_elem?, get_or,
  take, drop, replicate, length-append, take-append-drop, length-take, length-drop,
  length-replicate, take-all, drop-drop, take-nil, drop-nil, beq_of_ne, ltb_of_ge, if_same,
  some_inj,
}
use graceful_music.Player.State.{◌>>=◌}

-- SOFT_VOL_SCALE
abbrev pub soft_vol_scale : ℕ
soft_vol_scale = 65536

-- `soft_vol_db`
abbrev pub soft_vol_db : List ℕ
soft_vol_db =
    0 ∷ 272 ∷ 284 ∷ 303 ∷ 317 ∷ 338 ∷ 353 ∷ 377 ∷ 394 ∷ 421 ∷ 449 ∷ 469 ∷ 501 ∷ 523 ∷ 558 ∷ 583
    ∷ 622 ∷ 650 ∷ 694 ∷ 725 ∷ 774 ∷ 826 ∷ 863 ∷ 921 ∷ 962 ∷ 1027 ∷ 1073 ∷ 1145 ∷ 1196 ∷ 1277 ∷ 1363
    ∷ 1423 ∷ 1519 ∷ 1587 ∷ 1694 ∷ 1770 ∷ 1889 ∷ 1973 ∷ 2106 ∷ 2200 ∷ 2348 ∷ 2507 ∷ 2618 ∷ 2795
    ∷ 2919 ∷ 3116 ∷ 3254 ∷ 3474 ∷ 3629 ∷ 3873 ∷ 4135 ∷ 4318 ∷ 4610 ∷ 4815 ∷ 5140 ∷ 5368 ∷ 5730
    ∷ 5985 ∷ 6389 ∷ 6673 ∷ 7123 ∷ 7604 ∷ 7942 ∷ 8477 ∷ 8855 ∷ 9452 ∷ 9872 ∷ 10538 ∷ 11007 ∷ 11749
    ∷ 12542 ∷ 13099 ∷ 13983 ∷ 14605 ∷ 15590 ∷ 16283 ∷ 17382 ∷ 18155 ∷ 19379 ∷ 20241 ∷ 21606 ∷ 23064
    ∷ 24089 ∷ 25714 ∷ 26858 ∷ 28669 ∷ 29944 ∷ 31964 ∷ 33386 ∷ 35637 ∷ 38041 ∷ 39733 ∷ 42413 ∷ 44299
    ∷ 47287 ∷ 49390 ∷ 52721 ∷ 55066 ∷ 58780 ∷ 61395 ∷ []

-- The factor that `scale_samples` takes for one channel, before the replay gain: `soft` is `soft_vol`,
-- and `v` is `soft_vol_l` or `soft_vol_r`.
unfoldable pub soft_factor : (soft : Bool) → ℕ → ℕ
soft_factor soft v = if soft && not (v == 100) then get_or soft_vol_db v 0 else soft_vol_scale

-- The product, rounded and cut off at `limit`, of a sample's absolute value.
unfoldable pub scaled : (limit m vol : ℕ) → ℕ
scaled limit m vol = let v = (m * vol + 32768) / 65536 in if ltb limit v then limit else v

-- A sample of a word with `half` positive values. The two branches are those of `scale_sample_*` on the
-- sign, with the sample's absolute value in place of the sample.
unfoldable pub scale_word : (half w vol : ℕ) → ℕ
scale_word half w vol =
    if ltb w half
    then scaled (half - 1) w vol
    else (2 * half - scaled half (2 * half - w) vol) % (2 * half)

-- Whether the product of `scale_sample_int16_t`, with the rounding, fits an `int32_t`.
unfoldable pub fits_int32 : (w vol : ℕ) → Bool
fits_int32 w vol =
    if ltb w 32768 then ltb (w * vol + 32768) (2 ^ 31) else leb ((65536 - w) * vol + 32768) (2 ^ 31)

-- `swap_uint16`
unfoldable pub swap_uint16 : ℕ → ℕ
swap_uint16 w = w % 256 * 256 + w / 256 % 256

-- `scale_sample_int16_t`, with the word that it stores
unfoldable pub scale_sample_int16 : (w vol : ℕ) (swap : Bool) → Option ℕ
scale_sample_int16 w vol swap =
    let s = if swap then swap_uint16 w else w in
    let r = scale_word 32768 s vol in
    if fits_int32 s vol then some (if swap then swap_uint16 r else r) else none

-- `scale_sample_s24le` on a word of 24 bits; its product is an `int64_t`, in which it fits.
unfoldable pub scale_sample_s24le : (w vol : ℕ) → ℕ
scale_sample_s24le w vol = scale_word 8388608 w vol

-- `read_s24le` of three bytes, as a word of 24 bits
unfoldable pub read_s24le : (b0 b1 b2 : ℕ) → ℕ
read_s24le b0 b1 b2 = b0 + b1 * 256 + b2 * 65536

-- `write_s24le`
unfoldable pub write_s24le : ℕ → List ℕ
write_s24le x = (x % 256) ∷ (x / 256 % 256) ∷ (x / 65536 % 256) ∷ []

-- SCALE_SAMPLES for `int16_t`: the loop of its first branch over the frames, of two samples each. What
-- is left behind the last frame stays.
unfoldable pub scale_both : (l r : ℕ) (swap : Bool) → List ℕ → Option (List ℕ)
scale_both l r swap (x ∷ y ∷ buf) = do
  x' ← scale_sample_int16 x l swap
  y' ← scale_sample_int16 y r swap
  rest ← scale_both l r swap buf
  some (x' ∷ y' ∷ rest)
scale_both l r swap buf = some buf

-- The loop of its second branch.
unfoldable pub scale_left : (l : ℕ) (swap : Bool) → List ℕ → Option (List ℕ)
scale_left l swap (x ∷ y ∷ buf) = do
  x' ← scale_sample_int16 x l swap
  rest ← scale_left l swap buf
  some (x' ∷ y ∷ rest)
scale_left l swap buf = some buf

-- The loop of its third branch.
unfoldable pub scale_right : (r : ℕ) (swap : Bool) → List ℕ → Option (List ℕ)
scale_right r swap (x ∷ y ∷ buf) = do
  y' ← scale_sample_int16 y r swap
  rest ← scale_right r swap buf
  some (x ∷ y' ∷ rest)
scale_right r swap buf = some buf

-- SCALE_SAMPLES
unfoldable pub scale_samples_int16 : (l r : ℕ) (swap : Bool) → List ℕ → Option (List ℕ)
scale_samples_int16 l r swap buf =
    if not (l == soft_vol_scale) && not (r == soft_vol_scale)
    then scale_both l r swap buf
    else if not (l == soft_vol_scale)
    then scale_left l swap buf
    else if not (r == soft_vol_scale)
    then scale_right r swap buf
    else some buf

-- The start of `scale_samples`: the offset from which it scales, how many bytes, and the new
-- `scale_pos`. BUG_ON(scale_pos < consumer_pos).
unfoldable pub scale_range : (consumer_pos scale_pos count : ℕ) → Option (ℕ × ℕ × ℕ)
scale_range consumer_pos scale_pos count =
    let offs = scale_pos - consumer_pos in
    if ltb scale_pos consumer_pos
    then none
    else if not (consumer_pos == scale_pos) && leb count offs
    then some (0, 0, scale_pos)
    else some (offs, count - offs, scale_pos + (count - offs))

-- The sizes of samples that `scale_samples` scales, of 16, 24 and 32 bits.
pub data SampleSize : Type 0 where
  bits_16 bits_24 bits_32 : SampleSize

-- The bytes of `count` that the loops of `scale_samples` scale, from the first on: those of whole frames of
-- two samples.
unfoldable pub scaled_bytes : SampleSize → (count : ℕ) → ℕ
scaled_bytes bits_16 count = count / 2 / 2 * 4
scaled_bytes bits_24 count = count / 3 / 2 * 6
scaled_bytes bits_32 count = count / 4 / 2 * 8
