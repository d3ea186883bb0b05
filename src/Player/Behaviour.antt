-- ===== src/Player/Behaviour.antt =====
-- What some calls of app/player.c do, beyond being safe.
use graceful_music.Common.{ℕ, ◌/◌, ◌≡◌, refl, ◌≢◌, Bool, true, false, none, some, arith}
use graceful_music.Buffer.{reset}
use graceful_music.Player.State.{
  ps_unloaded, ps_playing, ps_paused, cs_stopped, cs_playing, live, freed, closed, Player, Answers,
  ◌>>=◌, ip_is_remote,
}
use graceful_music.Player.Consumer.{consumer_handle_eof}
use graceful_music.Player.Api.{player_stop, pause_forbidden, player_pause}
use graceful_music.Player.Sound.{IsSound}
use graceful_music.Player.State.{suspended, ps_stopped, cs_paused}
use graceful_music.Player.Code.{code}
use graceful_music.Player.Seek.{moves_to, player_seek}

-- `player_stop` in any sound state: the consumer is stopped, the device closed, no track open, and
-- the status and position 0 are shown.
pub stop_lem :
    (a : Answers) (s s' : Player)
    → IsSound s
    → player_stop a s ≡ some s'
    → (s'.consumer ≡ cs_stopped)
      × (s'.device ≡ closed)
      × (s'.producer ≢ ps_playing)
      × (s'.producer ≢ ps_paused)
      × (s'.info.status ≡ cs_stopped)
      × (s'.info.pos ≡ 0)
      × (s'.info.file ≡ s.info.file)
unfolding code
stop_lem a s s' v e = ground arith

-- `player_pause` twice while a local file plays: what is decoded, its position, the track and the
-- device are as before, and nothing was reopened.
pub pause_twice :
    (a a' : Answers) (s : Player)
    → IsSound s
    → s.input ≡ live true false
    → s.consumer ≡ cs_playing
    → (s'' : Player) × ((player_pause a s >>= player_pause a') ≡ some s'')
      × (s''.producer ≡ s.producer)
      × (s''.consumer ≡ s.consumer)
      × (s''.device ≡ s.device)
      × (s''.input ≡ s.input)
      × (s''.buffer ≡ s.buffer)
      × (s''.consumer_pos ≡ s.consumer_pos)
unfolding code
pause_twice a a' s v p q = (
  record s {
    info = record (s.info) {
      status = cs_playing;
      pos = s.consumer_pos / a'.second_size;
      status_changed = true;
    };
  },
  ground arith,
  ground arith,
  ground arith,
  ground arith,
  ground arith,
  ground arith,
  ground arith,
)

-- `player_pause` while a remote stream plays stops it: the same as `player_stop`.
pub pause-remote :
    (a : Answers) (s : Player)
    → s.input ≡ live true true
    → s.consumer ≡ cs_playing
    → player_pause a s ≡ player_stop a s
unfolding player_pause pause_forbidden ip_is_remote
pause-remote a s p q = ground arith

-- At the end of a local track with no next one and no repeat, `_consumer_handle_eof` gives the input
-- plugin back and leaves `ip` pointing at it; the next `player_pause` reads that memory.
pub eof-pause_dangling :
    (a a' : Answers) (cont cont_album : Bool) (s : Player)
    → IsSound s
    → s.producer ≡ ps_playing
    → s.consumer ≡ cs_playing
    → s.input ≡ live true false
    → a.next_track ≡ none
    → (s' : Player) × (consumer_handle_eof a false cont cont_album s ≡ some s')
      × (s'.input ≡ freed)
      × (player_pause a' s' ≡ none)
unfolding code
eof-pause_dangling a a' cont cont_album s v p q i n = (
  record s {
    producer = ps_unloaded;
    consumer = cs_stopped;
    input = freed;
    device = closed;
    buffer = reset s.buffer;
    consumer_pos = 0;
    scale_pos = 0;
    info = record (s.info) {
      file = none;
      file_changed = true;
      status = cs_stopped;
      pos = 0;
      status_changed = true;
    };
  },
  ground arith,
  refl,
  refl,
)

-- `player_seek` without `start_playing` while a local track is loaded and stopped, if the plugins open and
-- seek: the track and the device are opened and paused at the new position, the buffer is empty, and the
-- paused status and the position in seconds are shown.
pub seek-stopped :
    (a : Answers) (pos : ℕ) (s : Player)
    → s.producer ≡ ps_stopped
    → s.consumer ≡ cs_stopped
    → s.input ≡ live false false
    → s.device ≡ closed
    → a.input_opens ≡ true
    → a.device_opens ≡ true
    → a.seek_works ≡ true
    → (s' : Player) × (player_seek a (moves_to pos) false s ≡ some s')
      × (s'.producer ≡ ps_paused)
      × (s'.consumer ≡ cs_paused)
      × (s'.input ≡ live true false)
      × (s'.device ≡ suspended)
      × (s'.buffer ≡ reset s.buffer)
      × (s'.consumer_pos ≡ pos)
      × (s'.info.status ≡ cs_paused)
      × (s'.info.pos ≡ pos / a.second_size)
unfolding code
seek-stopped a pos s p c i d o o' w = (
  record s {
    producer = ps_paused;
    consumer = cs_paused;
    input = live true false;
    device = suspended;
    buffer = reset s.buffer;
    consumer_pos = pos;
    scale_pos = pos;
    old_pos = pos / a.second_size;
    info = record (s.info) { status = cs_paused; pos = pos / a.second_size; status_changed = true };
  },
  ground arith,
  refl,
  refl,
  refl,
  refl,
  refl,
  refl,
  refl,
  refl,
)
