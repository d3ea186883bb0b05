-- ===== src/Player/Tests.antt =====
-- The functions of app/player.c on small runs, and the theorems at concrete inputs.
use graceful_music.Common.{
  ℕ, ◌≡◌, refl, true, false, none, some, List, [], ◌∷◌, arith, length, replicate, length-replicate,
}
use graceful_music.Buffer.{chunk_size, Buffer, reset}
use graceful_music.Buffer.Ring.{IsRing, at_index}
use graceful_music.Player.State.{
  ps_stopped, ps_playing, cs_stopped, cs_playing, live, freed, closed, running, Track, Player,
  Answers, delivers, again, fails,
}
use graceful_music.Player.Producer.{prebuffer_loop, limit_chunks}
use graceful_music.Player.Consumer.{consumer_handle_eof}
use graceful_music.Player.Api.{player_stop, player_pause}
use graceful_music.Player.Sound.{IsSound}
use graceful_music.Player.Calls.{set_file, perform, Fits, IsSafe, here, next, initial}
use graceful_music.Player.Safety.{Reach-IsSafe}
use graceful_music.Player.Code.{code}
use graceful_music.Player.Behaviour.{eof-pause_dangling}
use graceful_music.Player.Overrun.{prebuffer_loop-full}

blank : List ℕ
blank = replicate chunk_size 0

length-blank : length blank ≡ chunk_size
unfolding blank
length-blank = length-replicate {A = ℕ} chunk_size 0

-- A buffer of three chunks, as `buffer_init` allocates it.
abbrev three : Buffer
three = record {
  chunks = λ i. record { bytes = blank; l = 0; h = 0; filled = false };
  nr_chunks = 3;
  ridx = 0;
  widx = 0;
}

-- The same with all chunks filled.
abbrev full_three : Buffer
full_three = record three {
  chunks = λ i. record { bytes = blank; l = 0; h = 60480; filled = true };
}

full_three-IsRing : IsRing full_three 3
unfolding at_index
full_three-IsRing = record {
  some_chunks = omega arith;
  ridx_in = omega arith;
  at_most = omega arith;
  widx_at = refl;
  full = λ i h. ground arith;
  opened = λ i h h'. ground arith;
  unused = λ i h h'. ground arith;
}

abbrev song : Track
song = record { remote = false; album = some 1 }

abbrev stream : Track
stream = record { remote = true; album = none }

-- 44100 Hz, 16 bit, stereo; every plugin does what it is asked.
abbrev willing : Answers
willing = record {
  next_track = none;
  input_opens = true;
  seek_works = true;
  device_opens = true;
  same_format = true;
  second_size = 176400;
  reads = delivers (1 ∷ 2 ∷ []) ∷ again ∷ fails ∷ [];
}

-- A local track plays.
abbrev playing : Player
playing = record {
  producer = ps_playing;
  consumer = cs_playing;
  input = live true false;
  device = running;
  buffer = reset three;
  consumer_pos = 352800;
  scale_pos = 352800;
  old_pos = 2;
  info = record {
    file = some song;
    status = cs_playing;
    pos = 2;
    error_msg = false;
    file_changed = false;
    status_changed = false;
  };
}

abbrev playing_stream : Player
playing_stream = record playing {
  input = live true true;
  info = record (playing.info) { file = some stream };
}

playing-IsSound : IsSound playing
playing-IsSound = record { input = refl; device = refl; step = refl; file = refl; shown = refl }

-- `player_set_file` from the start: the stream is known, and nothing plays.
abbrev loaded : Player
loaded = record (initial three) {
  producer = ps_stopped;
  input = live false true;
  info = record ((initial three).info) { file = some stream; file_changed = true };
}

set_file_initial : perform willing (set_file stream) (initial three) ≡ some loaded
unfolding perform code
set_file_initial = refl

initial-Fits : Fits willing (initial three)
unfolding limit_chunks reset
initial-Fits = omega arith

Reach-IsSafe_example : IsSafe loaded
Reach-IsSafe_example =
    Reach-IsSafe three (omega arith) (λ _. length-blank)
      (next willing (set_file stream) here tt initial-Fits set_file_initial)

-- What `player_stop` leaves.
abbrev stopped : Player
stopped = record playing {
  producer = ps_stopped;
  consumer = cs_stopped;
  input = live false false;
  device = closed;
  buffer = reset (reset three);
  consumer_pos = 0;
  scale_pos = 0;
  info = record (playing.info) { status = cs_stopped; pos = 0; status_changed = true };
}

stop_playing : player_stop willing playing ≡ some stopped
unfolding code
stop_playing = refl

eof-pause_dangling_example :
    (s' : Player) × (consumer_handle_eof willing false true false playing ≡ some s')
    × (s'.input ≡ freed)
    × (player_pause willing s' ≡ none)
eof-pause_dangling_example =
    eof-pause_dangling willing willing true false playing playing-IsSound refl refl refl refl

-- 192000 Hz, 24 bit in 32, stereo: 250 ms are six chunks.
prebuffer_loop-full_example : prebuffer_loop 6 (delivers (1 ∷ []) ∷ []) full_three ≡ none
prebuffer_loop-full_example =
    prebuffer_loop-full 6 (delivers (1 ∷ []) ∷ []) full_three full_three-IsRing (omega arith)

-- A track without tags plays, and the same track is the next one.
abbrev untagged : Track
untagged = record { remote = false; album = none }

abbrev playing_untagged : Player
playing_untagged = record playing { info = record (playing.info) { file = some untagged } }
