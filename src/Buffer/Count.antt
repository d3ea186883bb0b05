-- ===== src/Buffer/Count.antt =====
-- `buffer_get_filled_chunks` and `buffer_reset`.
use graceful_music.Common.{
  ℕ, zero, suc, ◌<◌, ◌≡◌, refl, sym, ap, ◌∙◌, arith, ltb, if◌then◌else◌, lt→ltb,
}
use graceful_music.Buffer.{Chunk, Buffer, reset, reset_loop, reset_chunk, get_filled_chunks}
use graceful_music.Buffer.Ring.{at_index, at, IsOpen, IsRing, at_index_zero, at-zero}
use native.Mathlib.Decide.{dec_lt}

pub reset_loop_lem :
    (n : ℕ) (f : ℕ → Chunk) (i : ℕ)
    → reset_loop n f i ≡ (if ltb i n then reset_chunk (f i) else f i)
unfolding reset_loop
reset_loop_lem zero f i = ground arith
reset_loop_lem (suc n) f i = ground (arith, reset_loop_lem n f i)

-- Every chunk in the array is reset.
pub at-reset :
    (b : Buffer) (i : ℕ)
    → i < b.nr_chunks
    → at (reset b) i ≡ reset_chunk (b.chunks (at_index b.nr_chunks 0 i))
unfolding reset at_index
at-reset b i h = ground (arith, reset_loop_lem b.nr_chunks b.chunks (at_index b.nr_chunks 0 i))

reset_chunk-IsOpen : (c : Chunk) → IsOpen (reset_chunk c)
unfolding reset_chunk
reset_chunk-IsOpen c = record { unmarked = refl; unread = refl; room = omega arith }

pub h-reset_chunk : (c : Chunk) → (reset_chunk c).h ≡ 0
unfolding reset_chunk
h-reset_chunk c = refl

-- `buffer_reset` leaves a ring without a filled chunk, whatever the chunks held.
pub reset-IsRing : (b : Buffer) → 0 < b.nr_chunks → IsRing (reset b) 0
unfolding reset
reset-IsRing b h = record {
  some_chunks = h;
  ridx_in = h;
  at_most = omega arith;
  widx_at = sym (at_index_zero b.nr_chunks 0 h) ∙ ap (at_index b.nr_chunks 0) (ground arith);
  full = λ i p. absurd (omega arith);
  opened = λ i p q. rw (at-reset b i q) (reset_chunk-IsOpen (b.chunks (at_index b.nr_chunks 0 i)));
  unused = λ i p q. rw (at-reset b i q) (h-reset_chunk (b.chunks (at_index b.nr_chunks 0 i)));
}

-- Whether the chunk at `ridx` is filled tells a full ring from one that is empty.
filled_iff : {b : Buffer} {k : ℕ} → IsRing b k → (b.chunks b.ridx).filled ≡ ltb 0 k
filled_iff {b} {k} v = elim (dec_lt 0 k) [
  | yes p ↦ (rw (at-zero v) at (v.full 0 p).marked) ∙ sym (lt→ltb 0 k p)
  | no p ↦ (rw (at-zero v) at (v.opened 0 (omega arith) v.some_chunks).unmarked) ∙ ground arith
]

-- `buffer_get_filled_chunks` returns the number of filled chunks.
pub get_filled_chunks-IsRing : {b : Buffer} {k : ℕ} → IsRing b k → get_filled_chunks b ≡ k
unfolding get_filled_chunks at_index
get_filled_chunks-IsRing v = ground (arith, filled_iff v)
