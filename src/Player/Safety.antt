-- ===== src/Player/Safety.antt =====
-- In whatever order app/player.c is called, it breaks no protocol of a plugin, meets no BUG_ON, and its
-- two status variables agree with the plugins and with what is shown.
use graceful_music.Common.{
  ℕ, ◌≤◌, ◌<◌, ◌≡◌, refl, sym, ap, ◌∙◌, subst, ◌≢◌, Bool, true, false, Option, some, arith, length,
  some_inj,
}
use mathlib.Core.HProp.{h_prop_ext}
use mathlib.Core.Path.{transport}
use graceful_music.Buffer.{Buffer, Chunk, chunk_size, reset}
use graceful_music.Buffer.Count.{reset-IsRing}
use graceful_music.Buffer.Fifo.{HasData}
use graceful_music.Buffer.Trace.{reset-HasData}
use graceful_music.Player.State.{Player, Answers}
use graceful_music.Player.Producer.{limit_chunks}
use graceful_music.Player.Sound.{is_sound, ends_sound-IsSound, IsSound-is_sound}
use graceful_music.Player.Prebuffer.{IsReady, IsReady-prop, IsReady-of_ring, loop-Fills, Fills}
use graceful_music.Player.Calls.{
  Call, set_buffer_chunks, perform, Allowed, Fits, IsSafe, Reach, here, next, initial,
}
use graceful_music.Player.Kept.{ends_in, perform_sound, perform-buffer, set_buffer_chunks-buffer}

-- A proposition that holds is the true one, so that being ready is an equation on the buffer.
IsReady-true : {nr : ℕ} {b : Buffer} → IsReady nr b → IsReady nr b ≡ Unit {0}
IsReady-true {nr} {b} v = h_prop_ext (IsReady-prop nr b) (λ x y. refl) (λ _. tt) (λ _. v)

IsReady-of_true : {nr : ℕ} {b : Buffer} → IsReady nr b ≡ Unit {0} → IsReady nr b
IsReady-of_true e = transport (sym e) tt

nr_chunks-reset : (b : Buffer) → (reset b).nr_chunks ≡ b.nr_chunks
unfolding reset
nr_chunks-reset b = refl

reset-IsReady : {nr : ℕ} {b : Buffer} → IsReady nr b → IsReady nr (reset b)
reset-IsReady {b} v =
    IsReady-of_ring (reset-IsRing b v.ring.some_chunks) (reset-HasData b v.sizes)
      (nr_chunks-reset b ∙ v.nr_chunks)

fresh-IsReady :
    (b : Buffer) (n : ℕ) (fresh : ℕ → Chunk)
    → 0 < n
    → ((i : ℕ) → length (fresh i).bytes ≡ chunk_size)
    → IsReady n (reset (record b { chunks = fresh; nr_chunks = n }))
fresh-IsReady b n fresh pos sizes =
    let c : Buffer = record b { chunks = fresh; nr_chunks = n } in
    IsReady-of_ring (reset-IsRing c pos) (reset-HasData c sizes) (nr_chunks-reset c)

own_size : {nr : ℕ} (b : Buffer) → IsReady nr b → IsReady b.nr_chunks b
own_size b v = record { ring = v.ring; sizes = v.sizes; nr_chunks = refl }

-- Being ready, after a call that succeeds.
IsReady-after :
    (nr : ℕ) (o : Option Player) (s' : Player)
    → o ≡ some s'
    → ends_in (IsReady nr) (Unit {0}) o ≡ Unit {0}
    → IsReady s'.buffer.nr_chunks s'.buffer
unfolding ends_in
IsReady-after nr o s' e h =
    own_size s'.buffer (IsReady-of_true (ap (ends_in (IsReady nr) Unit) (sym e) ∙ h))

limit-le :
    (a : Answers) (r : Bool) (nr : ℕ) → limit_chunks a false nr ≤ nr → limit_chunks a r nr ≤ nr
unfolding limit_chunks
limit-le a true nr h = omega arith
limit-le a false nr h = h

-- The run of `_prebuffer` on a buffer that is ready, local or remote.
run :
    (a : Answers) (nr : ℕ) {b : Buffer}
    → limit_chunks a false nr ≤ nr
    → IsReady nr b
    → (r : Bool) → Fills nr (limit_chunks a r b.nr_chunks) a.reads b
run a nr {b} fits v r =
    loop-Fills nr (limit_chunks a r b.nr_chunks)
      (subst (λ n. limit_chunks a r n ≤ nr) (sym v.nr_chunks) (limit-le a r nr fits)) a.reads v

other_call :
    (a : Answers) (c : Call) (s : Player)
    → IsSafe s
    → Allowed a c s
    → Fits a s
    → ((n : ℕ) (fresh : ℕ → Chunk) → c ≢ set_buffer_chunks n fresh)
    → (s' : Player) × (perform a c s ≡ some s') × IsSafe s'
other_call a c s safe allowed fits other =
    let nr = s.buffer.nr_chunks in
    let h : is_sound s ≡ true = IsSound-is_sound s safe.sound in
    let v = safe.ready in
    let v' = reset-IsReady v in
    let p = run a nr fits v in
    let p' = run a nr fits v' in
    let (s', e, sound) =
      ends_sound-IsSound (perform a c s)
        (perform_sound a s h ((p true).1, (p false).1) ((p' true).1, (p' false).1) c allowed) in
    (
      s',
      e,
      record {
        sound = sound;
        ready = IsReady-after nr (perform a c s) s' e (
            perform-buffer a s h ((p true).1, (p false).1) ((p' true).1, (p' false).1) (IsReady nr)
              (Unit {0}) (IsReady-true v) (IsReady-true v') (IsReady-true (reset-IsReady v'))
              (IsReady-true (p true).2, IsReady-true (p false).2)
              (IsReady-true (p' true).2, IsReady-true (p' false).2) c allowed other);
      },
    )

new_buffer :
    (a : Answers) (n : ℕ) (fresh : ℕ → Chunk) (s : Player)
    → IsSafe s
    → Allowed a (set_buffer_chunks n fresh) s
    → Fits a s
    → (s' : Player) × (perform a (set_buffer_chunks n fresh) s ≡ some s') × IsSafe s'
new_buffer a n fresh s safe allowed fits =
    let c = set_buffer_chunks n fresh in
    let nr = s.buffer.nr_chunks in
    let h : is_sound s ≡ true = IsSound-is_sound s safe.sound in
    let v = safe.ready in
    let p = run a nr fits v in
    let p' = run a nr fits (reset-IsReady v) in
    let (s', e, sound) =
      ends_sound-IsSound (perform a c s)
        (perform_sound a s h ((p true).1, (p false).1) ((p' true).1, (p' false).1) c allowed) in
    (
      s',
      e,
      record {
        sound = sound;
        ready = IsReady-after n (perform a c s) s' e (
            set_buffer_chunks-buffer a s (IsReady n) (Unit {0}) n fresh
              (IsReady-true (fresh-IsReady s.buffer n fresh allowed.0 allowed.1))
              (IsReady-true (fresh-IsReady (reset s.buffer) n fresh allowed.0 allowed.1)));
      },
    )

pub perform-IsSafe :
    (a : Answers) (c : Call) (s : Player)
    → IsSafe s
    → Allowed a c s
    → Fits a s
    → (s' : Player) × (perform a c s ≡ some s') × IsSafe s'
perform-IsSafe a (set_buffer_chunks n fresh) s safe allowed fits =
    new_buffer a n fresh s safe allowed fits
perform-IsSafe a c s safe allowed fits = other_call a c s safe allowed fits (λ n fresh e. cc)

initial-IsSafe : (b : Buffer) → 0 < b.nr_chunks → HasData b → IsSafe (initial b)
initial-IsSafe b pos sizes = record {
  sound = record { input = refl; device = refl; step = refl; file = refl; shown = refl };
  ready =
      own_size (reset b)
        (IsReady-of_ring (reset-IsRing b pos) (reset-HasData b sizes) (nr_chunks-reset b));
}

-- After any sequence of allowed calls from `player_init` on, the state is safe, if at each of them the
-- buffer has as many chunks as `_prebuffer` fills for a local file.
pub Reach-IsSafe :
    (b : Buffer) {t : Player} → 0 < b.nr_chunks → HasData b → Reach (initial b) t → IsSafe t
Reach-IsSafe b pos sizes here = initial-IsSafe b pos sizes
Reach-IsSafe b pos sizes (next {t} a c r allowed fits e) =
    let (s', e', safe) = perform-IsSafe a c t (Reach-IsSafe b pos sizes r) allowed fits in
    subst IsSafe (some_inj _ _ (sym e' ∙ e)) safe
