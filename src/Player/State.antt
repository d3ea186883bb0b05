-- ===== src/Player/State.antt =====
-- The state of app/player.c, and the calls that it makes of the input and the output plugins.
-- A plugin's answers during one call of the player are the `Answers` of that call. A call that breaks
-- the protocol of a plugin (a second open, a use after ip_delete, a failed BUG_ON) is the result `none`.
use graceful_music.Common.{
  ℕ, ◌/◌, Bool, true, false, ◌&&◌, not, ◌==◌, Option, none, some, List, if◌then◌else◌,
}
use graceful_music.Buffer.{Buffer, reset}

-- `enum producer_status`
pub data ProducerStatus : Type 0 where
  ps_unloaded ps_stopped ps_playing ps_paused : ProducerStatus

-- `enum consumer_status`
pub data ConsumerStatus : Type 0 where
  cs_stopped cs_playing cs_paused : ConsumerStatus

-- A track, as far as the player looks at it: whether its file is a remote stream, and its album, which
-- is NULL without a tag.
pub record Track : Type 0 where
  pub remote : Bool
  pub album : Option ℕ

-- What the pointer `ip` leads to: nothing yet, an input plugin (with its flags `open` and
-- `data.remote`), or memory that `ip_delete` gave back.
pub data Input : Type 0 where
  null : Input
  live : (opened remote : Bool) → Input
  freed : Input

-- The output device, as the output plugin sees it.
pub data Device : Type 0 where
  closed running suspended : Device

-- What one call of `ip_read` does: it delivers bytes, it has none yet (EAGAIN), or it fails.
pub data Read : Type 0 where
  delivers : List ℕ → Read
  again : Read
  fails : Read

-- `player_info_priv`: `ti`, `status`, `pos`, whether there is an `error_msg`, and two of the flags.
pub record Info : Type 0 where
  pub file : Option Track
  pub status : ConsumerStatus
  pub pos : ℕ
  pub error_msg : Bool
  pub file_changed : Bool
  pub status_changed : Bool

-- The static variables of the file.
pub record Player : Type 0 where
  pub producer : ProducerStatus
  pub consumer : ConsumerStatus
  pub input : Input
  pub device : Device
  pub buffer : Buffer
  pub consumer_pos : ℕ
  pub scale_pos : ℕ
  -- `old_pos` of `_consumer_position_update`
  pub old_pos : ℕ
  pub info : Info

-- What the plugins and the play order answer during one call.
pub record Answers : Type 0 where
  -- `cmus_get_next_track()`
  pub next_track : Option Track
  -- `ip_open` returns 0
  pub input_opens : Bool
  -- `ip_seek` returns 0
  pub seek_works : Bool
  -- `op_open` returns 0
  pub device_opens : Bool
  -- `change_sf` finds the sample format and the channel map as they were
  pub same_format : Bool
  -- `buffer_second_size()`
  pub second_size : ℕ
  -- the calls of `ip_read`, in their order
  pub reads : List Read

-- A function of the file: the next state, or `none` if it breaks a plugin's protocol.
abbrev pub Act : Type 0
Act = Player → Option Player

infixl 5 ◌>>=◌ ◌>>◌
abbrev pub ◌>>=◌ {ℓ κ} : {A : Type ℓ} {B : Type κ} → Option A → (A → Option B) → Option B
none >>= f = none
some a >>= f = f a

-- One function after another.
abbrev pub ◌>>◌ : Act → Act → Act
(m >> n) s = m s >>= n

abbrev pub skip : Act
skip s = some s

-- `ip_new`
unfoldable pub ip_new : Track → Act
ip_new t s = some (record s { input = live false t.remote })

-- `ip_open`, with whether it returns 0. BUG_ON(ip->open); a failed open leaves the plugin closed.
unfoldable pub ip_open : Answers → Player → Option (Bool × Player)
ip_open a s = elim s.input [
  | live opened r ↦
      if opened then none else some (a.input_opens, record s { input = live a.input_opens r })
  | _ ↦ none
]

-- `ip_close`
unfoldable pub ip_close : Act
ip_close s = elim s.input [
  | live opened r ↦ if opened then some (record s { input = live false r }) else none
  | _ ↦ none
]

-- `ip_delete`, which closes the plugin first if it is open
unfoldable pub ip_delete : Act
ip_delete s = elim s.input [ live opened r ↦ some (record s { input = freed }) | _ ↦ none ]

-- `ip_is_remote`
unfoldable pub ip_is_remote : Player → Option Bool
ip_is_remote s = elim s.input [ live opened r ↦ some r | _ ↦ none ]

-- `ip_seek` to the start, with whether it returns 0: never for a remote stream.
unfoldable pub ip_seek : Answers → Player → Option Bool
ip_seek a s = elim s.input [
  | live opened r ↦ if opened then some (not r && a.seek_works) else none
  | _ ↦ none
]

-- `set_buffer_sf`, which calls `ip_get_sf`: BUG_ON(!ip->open)
unfoldable pub set_buffer_sf : Act
set_buffer_sf s = elim s.input [ live opened r ↦ if opened then some s else none | _ ↦ none ]

-- `op_open`, with whether it returns 0
unfoldable pub op_open : Answers → Player → Option (Bool × Player)
op_open a s = elim s.device [
  | closed ↦ some (a.device_opens, record s { device = if a.device_opens then running else closed })
  | _ ↦ none
]

-- `op_close`
unfoldable pub op_close : Act
op_close s = elim s.device [ closed ↦ none | _ ↦ some (record s { device = closed }) ]

-- `op_drop` throws away what the open device has queued.
unfoldable pub op_drop : Act
op_drop s = elim s.device [ closed ↦ none | _ ↦ some s ]

-- `op_pause`
unfoldable pub op_pause : Act
op_pause s = elim s.device [ running ↦ some (record s { device = suspended }) | _ ↦ none ]

-- `op_unpause`
unfoldable pub op_unpause : Act
op_unpause s = elim s.device [ suspended ↦ some (record s { device = running }) | _ ↦ none ]

-- `reset_buffer`
unfoldable pub reset_buffer : Act
reset_buffer s = some (record s { buffer = reset s.buffer; consumer_pos = 0; scale_pos = 0 })

-- `_file_changed`
unfoldable pub file_changed : Option Track → Act
file_changed t s = some (record s { info = record (s.info) { file = t; file_changed = true } })

-- `player_error`
unfoldable pub player_error : Act
player_error s = some (record s {
  info = record (s.info) { status = s.consumer; pos = 0; status_changed = true; error_msg = true };
})

-- The position in seconds that the two functions below show.
unfoldable pub shown_pos : Answers → Player → ℕ
shown_pos a s = elim s.consumer [ cs_stopped ↦ 0 | _ ↦ s.consumer_pos / a.second_size ]

-- `_player_status_changed`
unfoldable pub player_status_changed : Answers → Act
player_status_changed a s = some (record s {
  info = record (s.info) { status = s.consumer; pos = shown_pos a s; status_changed = true };
})

-- `_consumer_position_update`
unfoldable pub consumer_position_update : Answers → Act
consumer_position_update a s =
    let pos = shown_pos a s in
    if pos == s.old_pos
    then some s
    else some (record s { old_pos = pos; info = record (s.info) { pos = pos } })
