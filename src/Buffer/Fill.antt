-- ===== src/Buffer/Fill.antt =====
-- `buffer_fill`, `buffer_get_wpos` and the producer's store keep the ring.
use graceful_music.Common.{
  ℕ, ◌+◌, ◌≤◌, ◌<◌, ◌≡◌, inl, inr, Bool, true, false, some, arith, ◌==◌, if◌then◌else◌, Bool-cases,
  beq_of_ne,
}
use graceful_music.Buffer.{chunk_size, Chunk, Buffer, put_chunk, next_index, closes, fill}
use graceful_music.Buffer.Ring.{
  at_index, at, IsFull, IsOpen, IsRing, at_index_next, at-put, widx-open,
}

-- The chunk that `buffer_fill` leaves at `widx`.
abbrev pub filled_chunk : Chunk → ℕ → Chunk
filled_chunk c count = record c { h = c.h + count; filled = closes (c.h + count) count }

-- What `buffer_fill` returns and leaves, if the chunk at `widx` lies `k` places behind `ridx`.
abbrev pub after_fill : Buffer → ℕ → ℕ → Bool × Buffer
after_fill b k count =
    let w = at_index b.nr_chunks b.ridx k in
    let full = closes ((at b k).h + count) count in
    (
      full,
      record b {
        chunks = put_chunk b.chunks w (filled_chunk (at b k) count);
        widx = if full then next_index b w else w;
      },
    )

module _ {b : Buffer} {k : ℕ} (v : IsRing b k) (k_in : k < b.nr_chunks) where
  pub fill-eq : (count : ℕ) → fill b count ≡ some (after_fill b k count)
  unfolding fill
  fill-eq count = rw (widx-open v k_in, (v.opened k (omega arith) k_in).unmarked)

  filled_chunk-IsFull :
      (count : ℕ)
      → (at b k).h + count ≤ chunk_size
      → closes ((at b k).h + count) count ≡ true
      → IsFull (filled_chunk (at b k) count)
  unfolding closes
  filled_chunk-IsFull count fits e =
      let o = v.opened k (omega arith) k_in in
      record { marked = e; some_left = ground (arith, o.unread, o.room); in_data = fits }

  filled_chunk-IsOpen :
      (count : ℕ) → closes ((at b k).h + count) count ≡ false → IsOpen (filled_chunk (at b k) count)
  unfolding closes
  filled_chunk-IsOpen count e =
      let o = v.opened k (omega arith) k_in in
      record { unmarked = e; unread = o.unread; room = ground arith }

  -- What `at` shows after `buffer_fill`.
  pub at-fill :
      (count i w : ℕ)
      → i < b.nr_chunks
      → at
          (record b {
            chunks =
                put_chunk b.chunks (at_index b.nr_chunks b.ridx k) (filled_chunk (at b k) count);
            widx = w;
          })
          i
        ≡ (if i == k then filled_chunk (at b k) count else at b i)
  at-fill count i w h = at-put v (filled_chunk (at b k) count) k i k_in h

  -- The ring after `buffer_fill`, with the number of filled chunks.
  IsRing-closed :
      (count : ℕ)
      → (at b k).h + count ≤ chunk_size
      → closes ((at b k).h + count) count ≡ true
      → IsRing
          (record b {
            chunks =
                put_chunk b.chunks (at_index b.nr_chunks b.ridx k) (filled_chunk (at b k) count);
            widx = next_index b (at_index b.nr_chunks b.ridx k);
          })
          (k + 1)
  IsRing-closed count fits e = record {
    some_chunks = v.some_chunks;
    ridx_in = v.ridx_in;
    at_most = omega arith;
    widx_at = at_index_next b.nr_chunks b.ridx k v.ridx_in k_in;
    full = λ i h. rw (at-fill count i b.widx (omega arith)) (elim (Bool-cases (i == k)) [
      | inl t ↦ rw t (filled_chunk-IsFull count fits e)
      | inr f ↦ rw f (v.full i (ground arith))
    ]);
    opened = λ i h h'.
        rw (at-fill count i b.widx (omega arith))
          (rw (beq_of_ne i k (omega arith)) (v.opened i (omega arith) h'));
    unused = λ i h h'.
        rw (at-fill count i b.widx (omega arith))
          (rw (beq_of_ne i k (omega arith)) (v.unused i (omega arith) h'));
  }

  IsRing-open :
      (count : ℕ)
      → closes ((at b k).h + count) count ≡ false
      → IsRing
          (record b {
            chunks =
                put_chunk b.chunks (at_index b.nr_chunks b.ridx k) (filled_chunk (at b k) count);
            widx = at_index b.nr_chunks b.ridx k;
          })
          k
  IsRing-open count e = record {
    some_chunks = v.some_chunks;
    ridx_in = v.ridx_in;
    at_most = omega arith;
    widx_at = rw (beq_of_ne k b.nr_chunks (omega arith));
    full = λ i h.
        rw (at-fill count i b.widx (omega arith)) (rw (beq_of_ne i k (omega arith)) (v.full i h));
    opened = λ i h h'. rw (at-fill count i b.widx (omega arith)) (elim (Bool-cases (i == k)) [
      | inl t ↦ rw t (filled_chunk-IsOpen count e)
      | inr f ↦ rw f (v.opened i h h')
    ]);
    unused = λ i h h'.
        rw (at-fill count i b.widx (omega arith))
          (rw (beq_of_ne i k (omega arith)) (v.unused i h h'));
  }

  pub after_fill-IsRing :
      (count : ℕ)
      → (at b k).h + count ≤ chunk_size
      → IsRing (after_fill b k count).1 (if (after_fill b k count).0 then k + 1 else k)
  after_fill-IsRing count fits = elim (Bool-cases (closes ((at b k).h + count) count)) [
    | inl e ↦ rw e (rw e at (IsRing-closed count fits e))
    | inr e ↦ rw e (rw e at (IsRing-open count e))
  ]
