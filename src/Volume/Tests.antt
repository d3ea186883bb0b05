-- ===== src/Volume/Tests.antt =====
-- The functions of the soft volume on single samples, and the theorems at concrete inputs.
use graceful_music.Common.{
  ◌+◌, ◌≡◌, refl, true, false, ◌&&◌, some, [], ◌∷◌, ltb, leb, if◌then◌else◌,
}
use graceful_music.Volume.{
  scaled, scale_word, fits_int32, scale_sample_int16, soft_factor, scale_samples_int16, scale_range,
  bits_16, scaled_bytes,
}
use graceful_music.Volume.Frames.{scale_channels, scale_unless_full, scale_samples_int16_lem}
use graceful_music.Volume.Position.{Track}

-- Volume 50 is a factor of 4135 in 65536; full volume is all of it.
factors :
    (soft_factor true 50 ≡ 4135) × (soft_factor true 100 ≡ 65536) × (soft_factor false 50 ≡ 65536)
unfolding soft_factor
factors = (refl, refl, refl)

-- The sample -1000 at half the amplitude is -500.
half_of : scale_sample_int16 64536 32768 false ≡ some 65036
unfolding scale_sample_int16 fits_int32 scale_word scaled
half_of = refl

scale_samples_int16_lem_example :
    scale_samples_int16 32768 65536 false (1000 ∷ 1000 ∷ []) ≡ some (500 ∷ 1000 ∷ [])
unfolding scale_channels scale_unless_full scale_sample_int16 fits_int32 scale_word scaled
scale_samples_int16_lem_example = scale_samples_int16_lem 32768 65536 false (1000 ∷ 1000 ∷ [])

-- 8 bytes are scaled, of which the device takes 4, and then 8 again.
abbrev played_four : Track
played_four = record {
  consumer_pos = 4;
  scale_pos = 8;
  times = λ p. 0 + (if leb 0 p && ltb p 8 then 1 else 0);
}

-- The device takes three bytes of 8, and 8 more are read: of the three that are not scaled yet, none is,
-- since they are no whole frame.
no_frame : (scale_range 3 8 8 ≡ some (5, 3, 11)) × (scaled_bytes bits_16 3 ≡ 0)
unfolding scale_range scaled_bytes
no_frame = (refl, refl)

next_eight : scale_range 4 8 8 ≡ some (4, 4, 12)
unfolding scale_range
next_eight = refl
