-- ===== src/Volume/Frames.antt =====
-- SCALE_SAMPLES of app/player.c, whose three loops leave out a channel at full volume.
use graceful_music.Common.{
  ℕ, ◌+◌, ◌*◌, ◌/◌, ◌%◌, ◌≤◌, ◌<◌, ◌≡◌, refl, sym, ◌∙◌, inl, inr, Bool, true, false, Option, some,
  List, [], ◌∷◌, arith, ◌==◌, if◌then◌else◌, Bool-cases, length,
}
use graceful_music.Player.State.{◌>>=◌}
use graceful_music.Volume.{
  soft_vol_scale, swap_uint16, scale_sample_int16, scale_word, scale_both, scale_left, scale_right,
  scale_samples_int16,
}
use graceful_music.Volume.Sample.{fits_int32-below}

-- One sample, left alone at full volume.
unfoldable pub scale_unless_full : (vol : ℕ) (swap : Bool) → ℕ → Option ℕ
scale_unless_full vol swap x =
    if vol == soft_vol_scale then some x else scale_sample_int16 x vol swap

-- Every sample by the factor of its channel.
unfoldable pub scale_channels : (l r : ℕ) (swap : Bool) → List ℕ → Option (List ℕ)
scale_channels l r swap (x ∷ y ∷ buf) = do
  x' ← scale_unless_full l swap x
  y' ← scale_unless_full r swap y
  rest ← scale_channels l r swap buf
  some (x' ∷ y' ∷ rest)
scale_channels l r swap buf = some buf

both-channels :
    (l r : ℕ) (swap : Bool) (buf : List ℕ)
    → (l == soft_vol_scale) ≡ false
    → (r == soft_vol_scale) ≡ false
    → scale_both l r swap buf ≡ scale_channels l r swap buf
unfolding scale_both scale_channels scale_unless_full
both-channels l r swap (x ∷ y ∷ buf) p q = rw (p, q, both-channels l r swap buf p q) refl
both-channels l r swap (x ∷ []) p q = refl
both-channels l r swap [] p q = refl

left-channels :
    (l r : ℕ) (swap : Bool) (buf : List ℕ)
    → (l == soft_vol_scale) ≡ false
    → (r == soft_vol_scale) ≡ true
    → scale_left l swap buf ≡ scale_channels l r swap buf
unfolding scale_left scale_channels scale_unless_full
left-channels l r swap (x ∷ y ∷ buf) p q = rw (p, q, left-channels l r swap buf p q) refl
left-channels l r swap (x ∷ []) p q = refl
left-channels l r swap [] p q = refl

right-channels :
    (l r : ℕ) (swap : Bool) (buf : List ℕ)
    → (l == soft_vol_scale) ≡ true
    → (r == soft_vol_scale) ≡ false
    → scale_right r swap buf ≡ scale_channels l r swap buf
unfolding scale_right scale_channels scale_unless_full
right-channels l r swap (x ∷ y ∷ buf) p q = rw (p, q, right-channels l r swap buf p q) refl
right-channels l r swap (x ∷ []) p q = refl
right-channels l r swap [] p q = refl

no-channels :
    (l r : ℕ) (swap : Bool) (buf : List ℕ)
    → (l == soft_vol_scale) ≡ true
    → (r == soft_vol_scale) ≡ true
    → some buf ≡ scale_channels l r swap buf
unfolding scale_channels scale_unless_full
no-channels l r swap (x ∷ y ∷ buf) p q = rw (p, q, sym (no-channels l r swap buf p q)) refl
no-channels l r swap (x ∷ []) p q = refl
no-channels l r swap [] p q = refl

-- SCALE_SAMPLES for `int16_t`, whichever of its loops runs, scales every sample by the factor of its
-- channel, unless that is SOFT_VOL_SCALE.
pub scale_samples_int16_lem :
    (l r : ℕ) (swap : Bool) (buf : List ℕ)
    → scale_samples_int16 l r swap buf ≡ scale_channels l r swap buf
unfolding scale_samples_int16
scale_samples_int16_lem l r swap buf = elim (Bool-cases (l == soft_vol_scale)) [
  | inl p ↦ elim (Bool-cases (r == soft_vol_scale)) [
    | inl q ↦ rw (p, q) (no-channels l r swap buf p q)
    | inr q ↦ rw (p, q) (right-channels l r swap buf p q)
  ]
  | inr p ↦ elim (Bool-cases (r == soft_vol_scale)) [
    | inl q ↦ rw (p, q) (left-channels l r swap buf p q)
    | inr q ↦ rw (p, q) (both-channels l r swap buf p q)
  ]
]

-- All words of a list are below 65536.
abbrev pub AllWords : List ℕ → Type 0
AllWords [] = Unit
AllWords (x ∷ buf) = (x < 65536) × AllWords buf

scale_sample_int16-some :
    (x vol : ℕ) (swap : Bool)
    → x < 65536
    → vol < 65536
    → (x' : ℕ) × (scale_sample_int16 x vol swap ≡ some x')
unfolding scale_sample_int16 swap_uint16
scale_sample_int16-some x vol false h v =
    (scale_word 32768 x vol, rw (fits_int32-below x vol h v) refl)
scale_sample_int16-some x vol true h v =
    let s = x % 256 * 256 + x / 256 % 256 in
    (swap_uint16 (scale_word 32768 s vol), rw (fits_int32-below s vol (omega arith) v) refl)

scale_unless_full-some :
    (vol : ℕ) (swap : Bool) (x : ℕ)
    → vol ≤ 65536
    → x < 65536
    → (x' : ℕ) × (scale_unless_full vol swap x ≡ some x')
unfolding scale_unless_full
scale_unless_full-some vol swap x v h = elim (Bool-cases (vol == soft_vol_scale)) [
  | inl p ↦ (x, rw p refl)
  | inr p ↦
      let (x', e) = scale_sample_int16-some x vol swap h (ground arith) in (x', rw (p, e) refl)
]

channels-some :
    (l r : ℕ) (swap : Bool) (buf : List ℕ)
    → l ≤ 65536
    → r ≤ 65536
    → AllWords buf
    → (out : List ℕ) × (scale_channels l r swap buf ≡ some out) × (length out ≡ length buf)
unfolding scale_channels
channels-some l r swap [] p q h = ([], refl, refl)
channels-some l r swap (x ∷ []) p q h = (x ∷ [], refl, refl)
channels-some l r swap (x ∷ y ∷ buf) p q h =
    let (x', e) = scale_unless_full-some l swap x p h.0 in
    let (y', e') = scale_unless_full-some r swap y q h.1.0 in
    let (out, e'', len) = channels-some l r swap buf p q h.1.1 in
    (x' ∷ y' ∷ out, rw (e, e', e'') refl, omega (arith, len))

-- With no factor above SOFT_VOL_SCALE no product overflows, and as many samples are stored as there
-- were.
pub scale_samples_int16-some :
    (l r : ℕ) (swap : Bool) (buf : List ℕ)
    → l ≤ 65536
    → r ≤ 65536
    → AllWords buf
    → (out : List ℕ) × (scale_samples_int16 l r swap buf ≡ some out) × (length out ≡ length buf)
scale_samples_int16-some l r swap buf p q h =
    let (out, e, len) = channels-some l r swap buf p q h in
    (out, scale_samples_int16_lem l r swap buf ∙ e, len)
