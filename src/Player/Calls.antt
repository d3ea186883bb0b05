-- ===== src/Player/Calls.antt =====
-- The calls that reach app/player.c: those of the rest of the program, and what the consumer thread
-- does at the end of a track and when the device fails.
use graceful_music.Common.{ℕ, ◌≤◌, ◌<◌, ◌≡◌, ◌≢◌, Bool, true, false, Option, none, some, length}
use graceful_music.Buffer.{Buffer, Chunk, chunk_size, reset}
use graceful_music.Player.State.{
  ps_unloaded, ps_playing, cs_stopped, cs_playing, Track, null, freed, closed, Player, Answers, Act,
}
use graceful_music.Player.Producer.{limit_chunks}
use graceful_music.Player.Consumer.{consumer_handle_eof, consumer_reopen}
use graceful_music.Player.Api.{
  player_stop, player_play, player_pause, player_pause_playback, player_set_file, player_play_file,
  player_file_changed, player_set_op, player_set_buffer_chunks,
}
use graceful_music.Player.Seek.{SeekTarget, player_seek}
use graceful_music.Player.Sound.{IsSound}
use graceful_music.Player.Prebuffer.{IsReady}

pub data Call : Type 0 where
  stop play pause pause_playback set_op device_failed : Call
  set_file play_file changed : Track → Call
  set_buffer_chunks : ℕ → (ℕ → Chunk) → Call
  seek : SeekTarget → (start_playing : Bool) → Call
  -- the options `player_repeat_current`, `player_cont` and `player_cont_album`
  handle_eof : (repeat cont cont_album : Bool) → Call

unfoldable pub perform : Answers → Call → Act
perform a stop = player_stop a
perform a play = player_play a
perform a pause = player_pause a
perform a pause_playback = player_pause_playback a
perform a set_op = player_set_op a
perform a device_failed = consumer_reopen a
perform a (set_file t) = player_set_file a t
perform a (play_file t) = player_play_file a t
perform a (seek target start_playing) = player_seek a target start_playing
perform a (changed t) = player_file_changed t
perform a (set_buffer_chunks n fresh) = player_set_buffer_chunks a n fresh
perform a (handle_eof repeat cont cont_album) = consumer_handle_eof a repeat cont cont_album

-- Whether the track at the end of which the call is made and the next one have albums, where they are
-- compared.
abbrev pub has_albums : (repeat cont cont_album : Bool) → Option Track → Option Track → Bool
has_albums true cont cont_album file track = true
has_albums false false cont_album file track = true
has_albums false true true file track = true
has_albums false true false none track = true
has_albums false true false (some old) none = true
has_albums false true false (some old) (some t) = elim old.album [
  | none ↦ false
  | some a ↦ elim t.album [ none ↦ false | some b ↦ true ]
]

-- When a call is made. `consumer_loop` makes its two only while it plays, the end of the track is seen
-- only while the producer plays, and a new buffer has a chunk. `player_pause` is the only function
-- that looks at `ip` with no status tested before: here it must not be memory that was given back.
-- With `player_cont` and without `player_cont_album`, both tracks have albums at the end of the first.
abbrev pub Allowed : Answers → Call → Player → Type 0
Allowed a pause s = s.input ≢ freed
Allowed a device_failed s = s.consumer ≡ cs_playing
Allowed a (handle_eof r c d) s =
    (s.producer ≡ ps_playing)
    × (s.consumer ≡ cs_playing)
    × (has_albums r c d s.info.file a.next_track ≡ true)
Allowed a (set_buffer_chunks n fresh) s = (0 < n) × ((i : ℕ) → length (fresh i).bytes ≡ chunk_size)
Allowed _ _ s = Unit

-- The buffer has as many chunks as `_prebuffer` fills for a local file.
abbrev pub Fits : Answers → Player → Type 0
Fits a s = limit_chunks a false s.buffer.nr_chunks ≤ s.buffer.nr_chunks

-- What holds between two calls.
pub record IsSafe (s : Player) : Type 0 where
  pub sound : IsSound s
  pub ready : IsReady s.buffer.nr_chunks s.buffer

pub data Reach (s : Player) : Player → Type 0 where
  here : Reach s s
  next :
      {t u : Player} (a : Answers) (c : Call)
      → Reach s t
      → Allowed a c t
      → Fits a t
      → perform a c t ≡ some u
      → Reach s u

-- The player when `player_init` has made the buffer.
abbrev pub initial : Buffer → Player
initial b = record {
  producer = ps_unloaded;
  consumer = cs_stopped;
  input = null;
  device = closed;
  buffer = reset b;
  consumer_pos = 0;
  scale_pos = 0;
  old_pos = 4294967295;
  info = record {
    file = none;
    status = cs_stopped;
    pos = 0;
    error_msg = false;
    file_changed = false;
    status_changed = true;
  };
}
