-- ===== src/Player/Kept.antt =====
-- Each call of app/player.c breaks no protocol of a plugin and leaves a sound state.
use graceful_music.Common.{ℕ, ◌≡◌, refl, ◌≢◌, true, false, Option, none, some, arith}
use graceful_music.Buffer.{Buffer, Chunk, reset}
use graceful_music.Player.State.{Player, Answers}
use graceful_music.Player.Producer.{limit_chunks, prebuffer_loop}
use graceful_music.Player.Code.{code}
use graceful_music.Player.Sound.{is_sound, ends_sound}
use graceful_music.Player.Calls.{
  Call, stop, play, pause, pause_playback, set_op, device_failed, set_file, play_file, changed,
  set_buffer_chunks, seek, handle_eof, perform, Allowed,
}

-- What a function of the buffer's state is after a call.
unfoldable pub ends_in {ℓ} : {A : Type ℓ} → (Buffer → A) → A → Option Player → A
ends_in f c none = c
ends_in f c (some s) = f s.buffer

-- The runs of `_prebuffer` on a buffer, for a remote and for a local track.
abbrev pub Runs : Answers → (b : Buffer) (remote local : Buffer) → Type 0
Runs a b remote local =
    (prebuffer_loop (limit_chunks a true b.nr_chunks) a.reads b ≡ some remote)
    × (prebuffer_loop (limit_chunks a false b.nr_chunks) a.reads b ≡ some local)

module _ (a : Answers) (s : Player) (h : is_sound s ≡ true) {b c b' c' : Buffer}
    (runs : Runs a s.buffer b c) (runs' : Runs a (reset s.buffer) b' c') where
  pub perform_sound : (c : Call) → Allowed a c s → ends_sound (perform a c s) ≡ true
  unfolding perform is_sound ends_sound code
  perform_sound stop p = ground arith
  perform_sound play p = ground arith
  perform_sound pause p = ground arith
  perform_sound pause_playback p = ground arith
  perform_sound set_op p = ground arith
  perform_sound device_failed p = ground arith
  perform_sound (set_file t) p = ground arith
  perform_sound (play_file t) p = ground arith
  perform_sound (seek target start_playing) p = ground arith
  perform_sound (changed t) p = ground arith
  perform_sound (set_buffer_chunks n fresh) p = ground arith
  perform_sound (handle_eof r c d) p = ground arith

  -- The buffer after a call is the one before it, reset or filled in between.
  module _ {A : Type 1} (f : Buffer → A) (y : A) (kept : f s.buffer ≡ y)
      (once : f (reset s.buffer) ≡ y) (twice : f (reset (reset s.buffer)) ≡ y)
      (filled : (f b ≡ y) × (f c ≡ y)) (filled' : (f b' ≡ y) × (f c' ≡ y)) where
    pub perform-buffer :
        (c : Call)
        → Allowed a c s
        → ((n : ℕ) (fresh : ℕ → Chunk) → c ≢ set_buffer_chunks n fresh)
        → ends_in f y (perform a c s) ≡ y
    unfolding perform is_sound ends_in code
    perform-buffer stop p n = ground arith
    perform-buffer play p n = ground arith
    perform-buffer pause p n = ground arith
    perform-buffer pause_playback p n = ground arith
    perform-buffer set_op p n = ground arith
    perform-buffer device_failed p n = ground arith
    perform-buffer (set_file t) p n = ground arith
    perform-buffer (play_file t) p n = ground arith
    perform-buffer (seek target start_playing) p n = ground arith
    perform-buffer (changed t) p n = ground arith
    perform-buffer (set_buffer_chunks m fresh) p n = absurd (n m fresh refl)
    perform-buffer (handle_eof r c d) p n = ground arith

-- `player_set_buffer_chunks` leaves a buffer of the new chunks.
pub set_buffer_chunks-buffer :
    {A : Type 1} (a : Answers) (s : Player) (f : Buffer → A) (y : A) (n : ℕ) (fresh : ℕ → Chunk)
    → f (reset (record (s.buffer) { chunks = fresh; nr_chunks = n })) ≡ y
    → f (reset (record (reset s.buffer) { chunks = fresh; nr_chunks = n })) ≡ y
    → ends_in f y (perform a (set_buffer_chunks n fresh) s) ≡ y
unfolding perform ends_in code
set_buffer_chunks-buffer a s f y n fresh once twice = ground (arith, once, twice)
