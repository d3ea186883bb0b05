-- ===== src/Player/Producer.antt =====
-- The functions of app/player.c that set `producer_status`, and `_prebuffer`.
use graceful_music.Common.{
  ℕ, ◌*◌, ◌/◌, Bool, Option, none, some, List, [], ◌∷◌, ltb, leb, ◌==◌, if◌then◌else◌, length, take,
}
use graceful_music.Buffer.{Buffer, chunk_size, get_wpos, get_filled_chunks, store_wpos, fill}
use graceful_music.Player.State.{
  ProducerStatus, ps_unloaded, ps_stopped, ps_playing, ps_paused, Track, Read, delivers, again,
  fails, Answers, Act, ◌>>=◌, ◌>>◌, ip_new, ip_open, ip_close, ip_delete, ip_is_remote, ip_seek,
  reset_buffer, file_changed, player_error,
}

-- `_producer_status_update`
unfoldable pub producer_status_update : ProducerStatus → Act
producer_status_update st s = some (record s { producer = st })

-- The branch of `_producer_play` that loads the next track.
unfoldable pub producer_load : Answers → Track → Act
producer_load a t s = do
  s ← ip_new t s
  (opened, s) ← ip_open a s
  if opened
      then (producer_status_update ps_playing >> file_changed (some t)) s
      else (player_error >> ip_delete >> file_changed none) s

-- The branch that opens the track that is loaded.
unfoldable pub producer_reopen : Answers → Act
producer_reopen a s = do
  (opened, s) ← ip_open a s
  if opened
      then producer_status_update ps_playing s
      else (player_error >> ip_delete >> producer_status_update ps_unloaded) s

-- The branch that starts again.
unfoldable pub producer_restart : Answers → Act
producer_restart a s = do works ← ip_seek a s; if works then reset_buffer s else some s

-- `_producer_play`
unfoldable pub producer_play : Answers → Act
producer_play a s = elim s.producer [
  | ps_unloaded ↦ elim a.next_track [ none ↦ some s | some t ↦ producer_load a t s ]
  | ps_playing ↦ producer_restart a s
  | ps_stopped ↦ producer_reopen a s
  | ps_paused ↦ producer_status_update ps_playing s
]

-- What `_producer_stop` does with a track that is open.
unfoldable pub producer_close : Act
producer_close = ip_close >> producer_status_update ps_stopped >> reset_buffer

-- `_producer_stop`
unfoldable pub producer_stop : Act
producer_stop s = elim s.producer [
  | ps_playing ↦ producer_close s
  | ps_paused ↦ producer_close s
  | _ ↦ some s
]

-- What `_producer_unload` does once the track is stopped.
unfoldable pub producer_drop : Act
producer_drop s = elim s.producer [
  | ps_stopped ↦ (ip_delete >> producer_status_update ps_unloaded) s
  | _ ↦ some s
]

-- `_producer_unload`
unfoldable pub producer_unload : Act
producer_unload = producer_stop >> producer_drop

-- `_producer_pause`
unfoldable pub producer_pause : Act
producer_pause s = elim s.producer [
  | ps_playing ↦ producer_status_update ps_paused s
  | ps_paused ↦ producer_status_update ps_playing s
  | _ ↦ some s
]

-- `_producer_set_file`
unfoldable pub producer_set_file : Track → Act
producer_set_file t =
    producer_unload >> ip_new t >> producer_status_update ps_stopped >> file_changed (some t)

-- `limit_chunks` of `_prebuffer`: all chunks for a remote stream, else 250 ms, at least one chunk.
unfoldable pub limit_chunks : Answers → Bool → ℕ → ℕ
limit_chunks a remote nr_chunks =
    if remote
    then nr_chunks
    else let n = 250 * a.second_size / 1000 / chunk_size in if ltb n 1 then 1 else n

-- One call of `ip_read` in the loop of `_prebuffer`, for `size` bytes at most, and `buffer_fill`.
-- BUG_ON(count <= 0) of `ip_read`.
unfoldable pub prebuffer_read : Buffer → List ℕ → Option (Bool × Buffer)
prebuffer_read b bytes =
    let size = (get_wpos b).0 in
    let new = take size bytes in if size == 0 then none else fill (store_wpos b new) (length new)

-- The loop of `_prebuffer`. A read that fails counts as the end of the file. When the list of reads is
-- used up, the file is at its end.
unfoldable pub prebuffer_loop : ℕ → List Read → Buffer → Option Buffer
prebuffer_loop limit [] b =
    if leb limit (get_filled_chunks b) then some b else (prebuffer_read b [] >>= λ r. some r.1)
prebuffer_loop limit (again ∷ rest) b =
    let later = prebuffer_loop limit rest b in
    if leb limit (get_filled_chunks b) then some b else if (get_wpos b).0 == 0 then none else later
prebuffer_loop limit (fails ∷ rest) b =
    if leb limit (get_filled_chunks b) then some b else (prebuffer_read b [] >>= λ r. some r.1)
prebuffer_loop limit (delivers bytes ∷ rest) b =
    let later = prebuffer_read b bytes >>= λ r. prebuffer_loop limit rest r.1 in
    let last = prebuffer_read b [] >>= λ r. some r.1 in
    if leb limit (get_filled_chunks b) then some b else (if length bytes == 0 then last else later)

-- `_prebuffer`, with its BUG_ON
unfoldable pub prebuffer : Answers → Act
prebuffer a s = elim s.producer [
  | ps_playing ↦ ip_is_remote s >>= λ remote.
      prebuffer_loop (limit_chunks a remote s.buffer.nr_chunks) a.reads s.buffer >>= λ b.
      some (record s { buffer = b })
  | _ ↦ none
]
