-- ===== src/Player/Api.antt =====
-- The functions of app/player.c that other parts of the program call. `player_lock` makes each of them
-- one step.
use graceful_music.Common.{ℕ, Bool, true, false, ◌&&◌, Option, some, if◌then◌else◌}
use graceful_music.Buffer.{Chunk, reset}
use graceful_music.Player.State.{
  ProducerStatus, ps_unloaded, ps_playing, ConsumerStatus, cs_stopped, cs_playing, cs_paused, Track,
  null, Player, Answers, Act, ◌>>=◌, ◌>>◌, skip, ip_is_remote, set_buffer_sf, op_open, op_close,
  op_drop, op_pause, file_changed, player_error, player_status_changed,
}
use graceful_music.Player.Producer.{
  producer_play, producer_stop, producer_pause, producer_set_file, prebuffer,
}
use graceful_music.Player.Consumer.{
  consumer_status_update, consumer_play, consumer_stop, consumer_pause, change_sf,
}

-- The tests on the two status variables.
abbrev pub is_ps_playing : ProducerStatus → Bool
is_ps_playing ps_playing = true
is_ps_playing _ = false

abbrev pub is_cs_playing : ConsumerStatus → Bool
is_cs_playing cs_playing = true
is_cs_playing _ = false

abbrev pub is_cs_stopped : ConsumerStatus → Bool
is_cs_stopped cs_stopped = true
is_cs_stopped _ = false

-- `player_stop`
unfoldable pub player_stop : Answers → Act
player_stop a = consumer_stop >> producer_stop >> player_status_changed a

-- `_consumer_play` after `_producer_play`, and what follows it if the device does not open.
unfoldable pub start_consumer : Answers → Act
start_consumer a s = do
  s ← consumer_play a s
  if is_cs_playing s.consumer then some s else producer_stop s

-- `player_play` between its first test and its call of `_prebuffer`
unfoldable pub start_unbuffered : Answers → Act
start_unbuffered a s = do
  s ← producer_play a s
  s ← (if is_ps_playing s.producer then start_consumer a else consumer_stop) s
  player_status_changed a s

-- `player_play` behind its first test
unfoldable pub player_start : Answers → Act
player_start a s = start_unbuffered a s >>= λ s'.
    if is_cs_playing s'.consumer && is_cs_stopped s.consumer then prebuffer a s' else some s'

-- `player_play`: a remote stream that plays is left alone.
unfoldable pub player_play : Answers → Act
player_play a s =
    if is_ps_playing s.producer
    then (ip_is_remote s >>= λ remote. if remote then some s else player_start a s)
    else player_start a s

-- `player_pause` when the consumer is stopped, up to its call of `_prebuffer`: it starts playing.
unfoldable pub unstop_unbuffered : Answers → Act
unstop_unbuffered a s = do
  s ← producer_play a s
  s ← (if is_ps_playing s.producer then start_consumer a else skip) s
  player_status_changed a s

-- `player_pause` when the consumer is stopped
unfoldable pub unstop : Answers → Act
unstop a s =
    unstop_unbuffered a s >>= λ s'. if is_cs_playing s'.consumer then prebuffer a s' else some s'

-- `player_pause` behind its first test
unfoldable pub toggle_pause : Answers → Act
toggle_pause a s =
    if is_cs_stopped s.consumer
    then unstop a s
    else (producer_pause >> consumer_pause >> player_status_changed a) s

-- The first test of `player_pause`: `ip && ip_is_remote(ip)`, and the consumer plays.
unfoldable pub pause_forbidden : Player → Option Bool
pause_forbidden s = elim s.input [
  | null ↦ some false
  | _ ↦ ip_is_remote s >>= λ remote. some (remote && is_cs_playing s.consumer)
]

-- `player_pause`
unfoldable pub player_pause : Answers → Act
player_pause a s = do
  forbidden ← pause_forbidden s
  if forbidden then player_stop a s else toggle_pause a s

-- `player_pause_playback`
unfoldable pub player_pause_playback : Answers → Act
player_pause_playback a s = if is_cs_playing s.consumer then player_pause a s else some s

-- The end of `player_set_file` and of `player_play_file`
unfoldable pub prebuffer_playing : Answers → Act
prebuffer_playing a s = if is_ps_playing s.producer then prebuffer a s else some s

-- What `player_set_file` does while something plays or is paused.
unfoldable pub switch_file : Answers → Act
switch_file a s = do
  s ← op_drop s
  s ← producer_play a s
  elim s.producer [ ps_unloaded ↦ consumer_stop s | _ ↦ change_sf a true s >>= λ r. some r.1 ]

-- `player_set_file` up to its call of `_prebuffer`
unfoldable pub set_file_unbuffered : Answers → Track → Act
set_file_unbuffered a t s = do
  s ← producer_set_file t s
  s ← elim s.producer [
    | ps_unloaded ↦ consumer_stop s
    | _ ↦ (if is_cs_stopped s.consumer then skip else switch_file a) s
  ]
  player_status_changed a s

-- `player_set_file`
unfoldable pub player_set_file : Answers → Track → Act
player_set_file a t = set_file_unbuffered a t >> prebuffer_playing a

-- What `player_play_file` does once the track is open.
unfoldable pub play_opened : Answers → Act
play_opened a s =
    if is_cs_stopped s.consumer
    then (consumer_play a s >>= λ s. if is_cs_stopped s.consumer then producer_stop s else some s)
    else (op_drop s >>= λ s. change_sf a true s >>= λ r. some r.1)

-- What `player_play_file` does with the track that it loaded.
unfoldable pub open_and_play : Answers → Act
open_and_play a s = do
  s ← producer_play a s
  elim s.producer [ ps_unloaded ↦ consumer_stop s | _ ↦ play_opened a s ]

-- `player_play_file` up to its call of `_prebuffer`
unfoldable pub play_file_unbuffered : Answers → Track → Act
play_file_unbuffered a t s = do
  s ← producer_set_file t s
  s ← elim s.producer [ ps_unloaded ↦ consumer_stop s | _ ↦ open_and_play a s ]
  player_status_changed a s

-- `player_play_file`
unfoldable pub player_play_file : Answers → Track → Act
player_play_file a t = play_file_unbuffered a t >> prebuffer_playing a

-- `player_file_changed`
unfoldable pub player_file_changed : Track → Act
player_file_changed t = file_changed (some t)

-- `player_set_op` opens the device of the new plugin.
unfoldable pub reopen_op : Answers → Act
reopen_op a s = do
  s ← set_buffer_sf s
  (opened, s) ← op_open a s
  if opened
      then (elim s.consumer [ cs_paused ↦ op_pause s | _ ↦ some s ])
      else (consumer_status_update cs_stopped >> producer_stop >> player_error) s

-- `player_set_op`; its calls of `op_select` are commented out, so `rc` is 0 at its second test.
unfoldable pub player_set_op : Answers → Act
player_set_op a s = do
  s ← elim s.consumer [ cs_paused ↦ op_drop s | _ ↦ some s ]
  s ← elim s.consumer [ cs_stopped ↦ some s | _ ↦ op_close s ]
  elim s.consumer [ cs_stopped ↦ some s | _ ↦ reopen_op a s ]

-- `player_set_buffer_chunks`; `buffer_init` allocates `nr` chunks, with any bytes in them.
unfoldable pub player_set_buffer_chunks : Answers → ℕ → (ℕ → Chunk) → Act
player_set_buffer_chunks a nr fresh s = do
  s ← producer_stop s
  s ← consumer_stop s
  let b = reset (record (s.buffer) { chunks = fresh; nr_chunks = nr })
  player_status_changed a (record s { buffer = b })
