-- ===== src/Player/Consumer.antt =====
-- The functions of app/player.c that set `consumer_status`, and what the consumer thread does at the
-- end of a track and when the device fails.
use graceful_music.Common.{ℕ, Bool, true, false, not, Option, none, some, ◌==◌, if◌then◌else◌}
use graceful_music.Player.State.{
  ps_unloaded, ps_stopped, ConsumerStatus, cs_stopped, cs_playing, cs_paused, Track, Player,
  Answers, Act, ◌>>=◌, ◌>>◌, skip, ip_new, ip_is_remote, ip_seek, set_buffer_sf, op_open, op_close,
  op_drop, op_pause, op_unpause, reset_buffer, file_changed, player_error, player_status_changed,
}
use graceful_music.Player.Producer.{
  producer_status_update, producer_play, producer_stop, producer_unload, prebuffer,
}

-- `_consumer_status_update`
unfoldable pub consumer_status_update : ConsumerStatus → Act
consumer_status_update st s = some (record s { consumer = st })

-- The branch of `_consumer_play` that opens the device.
unfoldable pub consumer_open : Answers → Act
consumer_open a s = do
  s ← set_buffer_sf s
  (opened, s) ← op_open a s
  if opened then consumer_status_update cs_playing s else player_error s

-- `_consumer_play`
unfoldable pub consumer_play : Answers → Act
consumer_play a s = elim s.consumer [
  | cs_playing ↦ op_drop s
  | cs_stopped ↦ consumer_open a s
  | cs_paused ↦ (op_unpause >> consumer_status_update cs_playing) s
]

-- `_consumer_drain_and_stop`
unfoldable pub consumer_drain_and_stop : Act
consumer_drain_and_stop s = elim s.consumer [
  | cs_stopped ↦ some s
  | _ ↦ (op_close >> consumer_status_update cs_stopped) s
]

-- `_consumer_stop`
unfoldable pub consumer_stop : Act
consumer_stop s = elim s.consumer [
  | cs_stopped ↦ some s
  | _ ↦ (op_drop >> op_close >> consumer_status_update cs_stopped) s
]

-- `_consumer_pause`
unfoldable pub consumer_pause : Act
consumer_pause s = elim s.consumer [
  | cs_playing ↦ (op_pause >> consumer_status_update cs_paused) s
  | cs_paused ↦ (op_unpause >> consumer_status_update cs_playing) s
  | cs_stopped ↦ some s
]

-- The branch of `change_sf` that reopens the device for another format.
unfoldable pub change_sf_reopen : Answers → Bool → Player → Option (Bool × Player)
change_sf_reopen a drops s = do
  s ← (if drops then op_drop else skip) s
  s ← op_close s
  (opened, s) ← op_open a s
  s ←
      (if opened
          then consumer_status_update cs_playing
          else player_error >> consumer_status_update cs_stopped >> producer_stop)
        s
  some (opened, s)

-- The branch that goes on in the format that the device has.
unfoldable pub change_sf_keep : Player → Option (Bool × Player)
change_sf_keep s = do
  s ← elim s.consumer [ cs_paused ↦ (op_drop >> op_unpause) s | _ ↦ some s ]
  s ← consumer_status_update cs_playing s
  some (true, s)

-- `change_sf`, with whether it returns 0
unfoldable pub change_sf : Answers → Bool → Player → Option (Bool × Player)
change_sf a drops s = do
  s ← set_buffer_sf s
  if a.same_format then change_sf_keep s else change_sf_reopen a drops s

-- strcmp(a, b) == 0 for two albums; it follows the pointers, which must not be NULL.
unfoldable pub same_album : Option ℕ → Option ℕ → Option Bool
same_album none b = none
same_album (some a) none = none
same_album (some a) (some b) = some (a == b)

-- The test of `_consumer_handle_eof` before it goes on with the next track: `player_cont`, and
-- `player_cont_album` or the same album. It reads `player_info_priv.ti->album`, which must be there.
unfoldable pub goes_on : (cont cont_album : Bool) → Option Track → Track → Option Bool
goes_on cont cont_album file t =
    if not cont
    then some false
    else if cont_album
    then some true
    else elim file [ none ↦ none | some old ↦ same_album old.album t.album ]

-- `_consumer_handle_eof` with `player_repeat_current`
unfoldable pub eof_repeat : Answers → Bool → Act
eof_repeat a cont s = do
  s ←
      (if cont
          then (λ s. ip_seek a s >>= λ works. reset_buffer s)
          else producer_stop >> consumer_drain_and_stop)
        s
  player_status_changed a s

-- The branch that plays the next track, up to its call of `_prebuffer`, with whether that call is made.
-- The device is kept open if it can be.
unfoldable pub eof_next : Answers → Track → Player → Option (Bool × Player)
eof_next a t s = do
  s ← producer_play a s
  elim s.producer [
    | ps_unloaded ↦ (consumer_stop >> file_changed none) s >>= λ s. some (false, s)
    | _ ↦ file_changed (some t) s >>= λ s. change_sf a false s
  ]

-- The branch that only loads the next track.
unfoldable pub eof_load : Track → Player → Option (Bool × Player)
eof_load t s = (consumer_drain_and_stop >> file_changed (some t)) s >>= λ s. some (false, s)

-- The branch of the next track up to `_prebuffer`: it is loaded in place of the old one.
unfoldable pub eof_track_unbuffered :
    Answers → (cont cont_album : Bool) → Track → Player → Option (Bool × Player)
eof_track_unbuffered a cont cont_album t s = do
  let file = s.info.file
  s ← (producer_unload >> ip_new t >> producer_status_update ps_stopped) s
  on ← goes_on cont cont_album file t
  if on then eof_next a t s else eof_load t s

-- The branch of the next track
unfoldable pub eof_track : Answers → (cont cont_album : Bool) → Track → Act
eof_track a cont cont_album t s = do
  (prebuffers, s) ← eof_track_unbuffered a cont cont_album t s
  s ← (if prebuffers then prebuffer a else skip) s
  player_status_changed a s

-- The branch at the end of the play order.
unfoldable pub eof_end : Answers → Act
eof_end a =
    producer_unload >> consumer_drain_and_stop >> file_changed none >> player_status_changed a

-- `_consumer_handle_eof`; `repeat`, `cont` and `cont_album` are the player's options.
unfoldable pub consumer_handle_eof : Answers → (repeat cont cont_album : Bool) → Act
consumer_handle_eof a repeat cont cont_album s = do
  remote ← ip_is_remote s
  if remote
      then (producer_stop >> consumer_drain_and_stop >> player_error) s
      else if repeat
      then eof_repeat a cont s
      else elim a.next_track [ some t ↦ eof_track a cont cont_album t s | none ↦ eof_end a s ]

-- `consumer_loop` when `op_buffer_space` or `op_write` fails: it tries to open the device again.
unfoldable pub consumer_reopen : Answers → Act
consumer_reopen a = op_close >> consumer_status_update cs_stopped >> consumer_play a
