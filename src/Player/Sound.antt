-- ===== src/Player/Sound.antt =====
-- When the two status variables of app/player.c agree with the plugins, and with what is shown.
use graceful_music.Common.{◌≡◌, refl, Bool, true, false, ◌&&◌, not, Option, none, some, arith}
use graceful_music.Player.State.{
  ProducerStatus, ps_unloaded, ps_stopped, ps_playing, ps_paused, ConsumerStatus, cs_stopped,
  cs_playing, cs_paused, Track, Input, live, Device, closed, running, suspended, Player,
}

-- The input plugin is open just if the producer plays or is paused, and it is there just if the
-- producer is not unloaded.
abbrev pub input_agrees : ProducerStatus → Input → Bool
input_agrees ps_unloaded (live opened remote) = false
input_agrees ps_unloaded _ = true
input_agrees ps_stopped (live opened remote) = not opened
input_agrees ps_stopped _ = false
input_agrees ps_playing (live opened remote) = opened
input_agrees ps_playing _ = false
input_agrees ps_paused (live opened remote) = opened
input_agrees ps_paused _ = false

-- The output device is closed, runs, or is paused, as the consumer's status says.
abbrev pub device_agrees : ConsumerStatus → Device → Bool
device_agrees cs_stopped closed = true
device_agrees cs_playing running = true
device_agrees cs_paused suspended = true
device_agrees _ _ = false

-- While the consumer plays the producer plays, and while it is paused the producer is paused.
abbrev pub in_step : ConsumerStatus → ProducerStatus → Bool
in_step cs_stopped _ = true
in_step cs_playing ps_playing = true
in_step cs_paused ps_paused = true
in_step _ _ = false

-- The track is known while the producer has one.
abbrev pub file_known : ProducerStatus → Option Track → Bool
file_known ps_unloaded _ = true
file_known _ none = false
file_known _ (some t) = true

-- The status that is shown is the consumer's.
abbrev pub shows : ConsumerStatus → ConsumerStatus → Bool
shows cs_stopped cs_stopped = true
shows cs_playing cs_playing = true
shows cs_paused cs_paused = true
shows _ _ = false

-- The state between two calls.
pub record IsSound (s : Player) : Type 0 where
  pub input : input_agrees s.producer s.input ≡ true
  pub device : device_agrees s.consumer s.device ≡ true
  pub step : in_step s.consumer s.producer ≡ true
  pub file : file_known s.producer s.info.file ≡ true
  pub shown : shows s.info.status s.consumer ≡ true

-- The same as a test.
unfoldable pub is_sound : Player → Bool
is_sound s =
    input_agrees s.producer s.input
    && (device_agrees s.consumer s.device
        && (in_step s.consumer s.producer
            && (file_known s.producer s.info.file && shows s.info.status s.consumer)))

-- A call that broke no protocol and left a sound state.
unfoldable pub ends_sound : Option Player → Bool
ends_sound none = false
ends_sound (some s) = is_sound s

pub is_sound-IsSound : (s : Player) → is_sound s ≡ true → IsSound s
unfolding is_sound
is_sound-IsSound s h = record {
  input = ground arith;
  device = ground arith;
  step = ground arith;
  file = ground arith;
  shown = ground arith;
}

pub IsSound-is_sound : (s : Player) → IsSound s → is_sound s ≡ true
unfolding is_sound
IsSound-is_sound s v = rw (v.input, v.device, v.step, v.file, v.shown)

pub ends_sound-IsSound :
    (o : Option Player) → ends_sound o ≡ true → (s : Player) × (o ≡ some s) × IsSound s
unfolding ends_sound
ends_sound-IsSound none h = absurd (cc)
ends_sound-IsSound (some s) h = (s, refl, is_sound-IsSound s h)
