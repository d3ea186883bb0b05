-- ===== src/Player/Seek.antt =====
-- `player_seek` of app/player.c.
use graceful_music.Common.{ℕ, Bool, true, false, not, Option, some, if◌then◌else◌}
use graceful_music.Player.State.{
  Player, Answers, Act, ◌>>=◌, ◌>>◌, skip, ip_is_remote, ip_seek, op_drop, reset_buffer,
  player_error, player_status_changed, consumer_position_update,
}
use graceful_music.Player.Producer.{producer_play, producer_stop, producer_pause}
use graceful_music.Player.Consumer.{consumer_play, consumer_pause}
use graceful_music.Player.Api.{is_ps_playing, is_cs_playing, is_cs_stopped}

-- What comes of the computation of `player_seek` on the offset, the position and the duration, which are
-- doubles: it returns, or it seeks to the new position, given in bytes as `consumer_pos`.
pub data SeekTarget : Type 0 where
  stays : SeekTarget
  moves_to : ℕ → SeekTarget

-- `player_seek` when the consumer is stopped, up to its second test, with whether it goes on.
unfoldable pub seek_start : Answers → Player → Option (Bool × Player)
seek_start a s = do
  s ← producer_play a s
  if is_ps_playing s.producer
      then (consumer_play a s >>= λ s.
          if is_cs_playing s.consumer
          then (player_status_changed a s >>= λ s. some (true, s))
          else (producer_stop s >>= λ s. some (false, s)))
      else some (true, s)

-- The assignments to `consumer_pos` and `scale_pos`.
unfoldable pub seek_pos : ℕ → Act
seek_pos pos s = some (record s { consumer_pos = pos; scale_pos = pos })

-- What `player_seek` does once `ip_seek` has returned 0; `pauses` is `stopped && !start_playing`.
unfoldable pub seek_done : Answers → ℕ → (pauses : Bool) → Act
seek_done a pos pauses =
    op_drop
    >> reset_buffer
    >> seek_pos pos
    >> consumer_position_update a
    >> (if pauses then producer_pause >> consumer_pause >> player_status_changed a else skip)

-- `player_seek` behind its second test. A remote stream has no duration.
unfoldable pub seek_track : Answers → SeekTarget → (pauses : Bool) → Act
seek_track a target pauses s = do
  remote ← ip_is_remote s
  if remote then some s else elim target [
    | stays ↦ some s
    | moves_to pos ↦
        ip_seek a s >>= λ works. if works then seek_done a pos pauses s else player_error s
  ]

-- The second test of `player_seek`.
unfoldable pub seek_running : Answers → SeekTarget → (pauses : Bool) → Act
seek_running a target pauses s =
    if is_cs_stopped s.consumer then some s else seek_track a target pauses s

-- `player_seek`
unfoldable pub player_seek : Answers → SeekTarget → (start_playing : Bool) → Act
player_seek a target start_playing s =
    if is_cs_stopped s.consumer
    then (seek_start a s >>= λ r.
        if r.0 then seek_running a target (not start_playing) r.1 else some r.1)
    else seek_track a target false s
