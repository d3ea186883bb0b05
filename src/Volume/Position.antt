-- ===== src/Volume/Position.antt =====
-- `scale_pos` and `consumer_pos` of app/player.c: which bytes of a track `scale_samples` changes while
-- `consumer_loop` plays it.
use graceful_music.Common.{ℕ, ◌+◌, ◌%◌, ◌≤◌, ◌≡◌, ◌&&◌, some, ltb, leb, if◌then◌else◌}
use graceful_music.Volume.{scale_range, SampleSize, bits_16, bits_24, bits_32, scaled_bytes}

-- The two positions, and how often the byte at each position of the track was scaled.
pub record Track : Type 0 where
  pub consumer_pos : ℕ
  pub scale_pos : ℕ
  pub times : ℕ → ℕ

-- One more for each position from `start` on, `len` of them.
abbrev pub once_more : (start len : ℕ) → (ℕ → ℕ) → ℕ → ℕ
once_more start len times p = times p + (if leb start p && ltb p (start + len) then 1 else 0)

-- The bytes are those of whole frames.
abbrev pub IsWhole : SampleSize → ℕ → Type 0
IsWhole bits_16 count = count % 4 ≡ 0
IsWhole bits_24 count = count % 6 ≡ 0
IsWhole bits_32 count = count % 8 ≡ 0

-- A round of `consumer_loop`: `size` bytes at the read position are scaled where they are not yet, as far as
-- they are whole frames, and the device takes `rc` of them.
pub data Round (sample : SampleSize) (s t : Track) : Type 0 where
  round :
      (size rc offs len scale_pos : ℕ)
      → rc ≤ size
      → scale_range s.consumer_pos s.scale_pos size ≡ some (offs, len, scale_pos)
      → t ≡ record {
        consumer_pos = s.consumer_pos + rc;
        scale_pos = scale_pos;
        times = once_more (s.consumer_pos + offs) (scaled_bytes sample len) s.times;
      }
      → Round sample s t

-- The buffer gives whole frames, and the device takes whole frames.
abbrev pub IsWholeRound : {sample : SampleSize} {s t : Track} → Round sample s t → Type 0
IsWholeRound {sample} (round size rc offs len scale_pos small e e') =
    IsWhole sample size × IsWhole sample rc

pub data Rounds (sample : SampleSize) (s : Track) : Track → Type 0 where
  none_yet : Rounds sample s s
  one_more :
      {t u : Track}
      → Rounds sample s t
      → (x : Round sample t u) → IsWholeRound x
      → Rounds sample s u

-- The start of a track, behind `reset_buffer`.
abbrev pub at_start : Track
at_start = record { consumer_pos = 0; scale_pos = 0; times = λ p. 0 }

record IsTiled (sample : SampleSize) (s : Track) : Type 0 where
  behind : s.consumer_pos ≤ s.scale_pos
  whole_consumer : IsWhole sample s.consumer_pos
  whole_scale : IsWhole sample s.scale_pos
  scaled : (p : ℕ) → s.times p ≡ (if ltb p s.scale_pos then 1 else 0)
