-- ===== src/Volume/Sample.antt =====
-- One sample under the soft volume of app/player.c: it stays in range, it gets no louder, and no
-- product overflows, as long as the factor is below 65536.
use graceful_music.Common.{
  ℕ, ◌+◌, ◌-◌, ◌*◌, ◌%◌, ◌≤◌, ◌<◌, ◌≡◌, refl, ap, ◌∙◌, ◌⊎◌, inl, inr, true, false, none, some, [],
  ◌∷◌, arith, ltb, if◌then◌else◌,
}
use native.Mathlib.Decide.{dec_le}
use native.Mathlib.Nat.{mod-eq_of_lt, mod_self, mul-le-mul_left, mul-le-mul}
use graceful_music.Volume.{
  scaled, scale_word, fits_int32, swap_uint16, scale_sample_int16, read_s24le, write_s24le,
}

-- The absolute value of a sample.
abbrev pub magnitude : (half w : ℕ) → ℕ
magnitude half w = if ltb w half then w else 2 * half - w

scaled-le : (limit m vol : ℕ) → vol ≤ 65536 → scaled limit m vol ≤ m
unfolding scaled
scaled-le limit m vol h = let p = mul-le-mul_left m h in ground arith

scaled-le_limit : (limit m vol : ℕ) → scaled limit m vol ≤ limit
unfolding scaled
scaled-le_limit limit m vol = ground arith

-- The word of the negative of `x`.
negative-cases :
    (half x : ℕ)
    → 0 < half
    → x ≤ half
    → ((x ≡ 0) × ((2 * half - x) % (2 * half) ≡ 0))
      ⊎ ((0 < x) × ((2 * half - x) % (2 * half) ≡ 2 * half - x))
negative-cases half x pos h = elim (dec_le x 0) [
  | yes p ↦
      let z : (2 * half - x) % (2 * half) ≡ 0 =
        ap (λ y. y % (2 * half)) (let e : 2 * half - x ≡ 2 * half = omega arith in e)
        ∙ mod_self (2 * half) in
      inl (omega arith, z)
  | no p ↦ inr (omega arith, mod-eq_of_lt (omega arith))
]

-- The product is rounded to the nearest number, unless it is cut off.
scaled-near :
    (limit m vol : ℕ)
    → m * vol < 65536 * limit
    → (65536 * scaled limit m vol ≤ m * vol + 32768)
      × (m * vol < 65536 * scaled limit m vol + 32768)
unfolding scaled
scaled-near limit m vol h = (ground arith, ground arith)

-- A factor below 65536 leaves the product in an `int32_t`.
pub fits_int32-below : (w vol : ℕ) → w < 65536 → vol < 65536 → fits_int32 w vol ≡ true
unfolding fits_int32
fits_int32-below w vol h v =
    let le : vol ≤ 65535 = omega arith in
    let p = mul-le-mul_left w le in let q = mul-le-mul_left (65536 - w) le in ground arith

-- A sample of any size, with a factor of at most 65536.
pub scale_word-le :
    (half w vol : ℕ)
    → w < 2 * half
    → vol ≤ 65536
    → (scale_word half w vol < 2 * half)
      × (magnitude half (scale_word half w vol) ≤ magnitude half w)
      × ((scale_word half w vol ≡ 0) ⊎ (ltb (scale_word half w vol) half ≡ ltb w half))
unfolding scale_word
scale_word-le half w vol h v =
    let p = scaled-le (half - 1) w vol v in
    let q = scaled-le half (2 * half - w) vol v in
    let p' = scaled-le_limit (half - 1) w vol in
    let n =
      negative-cases half (scaled half (2 * half - w) vol) (omega arith)
        (scaled-le_limit half (2 * half - w) vol) in
    (ground arith, ground arith, ground arith)

-- `scale_sample_int16_t`, in the byte order of the machine and with a factor below 65536: no overflow,
-- and the sample that it stores is no further from 0, and on the same side of it or 0.
pub scale_sample_int16-le :
    (w vol : ℕ)
    → w < 65536
    → vol < 65536
    → (r : ℕ) × (scale_sample_int16 w vol false ≡ some r)
      × (r < 65536)
      × (magnitude 32768 r ≤ magnitude 32768 w)
      × ((r ≡ 0) ⊎ (ltb r 32768 ≡ ltb w 32768))
unfolding scale_sample_int16
scale_sample_int16-le w vol h v =
    let (range, le, side) = scale_word-le 32768 w vol h (omega arith) in
    (scale_word 32768 w vol, rw (fits_int32-below w vol h v) refl, range, le, side)

-- `scale_sample_int16_t` with a factor of 131072 or more, a replay gain of 6 dB: the product of any
-- positive sample from 16384 on does not fit an `int32_t`.
pub scale_sample_int16-overflow :
    (w vol : ℕ) → 16384 ≤ w → w < 32768 → 131072 ≤ vol → scale_sample_int16 w vol false ≡ none
unfolding scale_sample_int16 fits_int32
scale_sample_int16-overflow w vol h h' v = let p = mul-le-mul h v in ground arith

-- Both orders of the bytes of a sample.
swap_uint16-twice : (w : ℕ) → w < 65536 → swap_uint16 (swap_uint16 w) ≡ w
unfolding swap_uint16
swap_uint16-twice w h = omega arith

-- A sample in the other byte order is scaled to the same sample in that order.
pub scale_sample_int16-swap :
    (w vol r : ℕ)
    → w < 65536
    → scale_sample_int16 w vol false ≡ some r
    → scale_sample_int16 (swap_uint16 w) vol true ≡ some (swap_uint16 r)
unfolding scale_sample_int16
scale_sample_int16-swap w vol r h e = rw (swap_uint16-twice w h) (ground arith)

-- `write_s24le` stores what `read_s24le` reads.
pub write-read_s24le :
    (b0 b1 b2 : ℕ)
    → b0 < 256
    → b1 < 256
    → b2 < 256
    → write_s24le (read_s24le b0 b1 b2) ≡ b0 ∷ b1 ∷ b2 ∷ []
unfolding write_s24le read_s24le
write-read_s24le b0 b1 b2 h0 h1 h2 = ground arith
