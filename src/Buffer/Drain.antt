-- ===== src/Buffer/Drain.antt =====
-- `buffer_get_rpos` and `buffer_consume` of app/buffer.c take the oldest bytes off the queue.
use graceful_music.Common.{
  ℕ, ◌+◌, ◌-◌, ◌≤◌, ◌<◌, ◌≡◌, sym, ap, ◌∙◌, inl, inr, true, false, some, List, ◌++◌, arith,
  if◌then◌else◌, Bool-cases, take, drop, drop-drop,
}
use graceful_music.Buffer.{Chunk, Buffer, put_chunk, next_index, get_rpos, consume_chunk, consume}
use graceful_music.Buffer.Ring.{at_index, at, IsRing, at-zero}
use graceful_music.Buffer.Consume.{
  empties, consume-eq, after_consume, after_consume-IsRing, get_rpos-full, at-put_zero,
  at-put_later, at-advance, at-advance_last, emptied_chunk,
}
use graceful_music.Buffer.Span.{span-front, span-rotate}
use graceful_music.Buffer.Fifo.{slice, contents, take-add, slice-empty}

-- The bytes at `*pos`, after `buffer_get_rpos`: `n` of them.
abbrev pub bytes_at_rpos : Buffer → ℕ → List ℕ
bytes_at_rpos b n = take n (drop (get_rpos b).1 (b.chunks b.ridx).bytes)

slice-split :
    (c : Chunk) (n : ℕ)
    → n ≤ c.h - c.l
    → slice c ≡ take n (drop c.l c.bytes) ++ slice (record c { l = c.l + n })
unfolding slice
slice-split c n h =
    let e : c.h - c.l ≡ n + (c.h - (c.l + n)) = omega arith in
    ap (λ m. take m (drop c.l c.bytes)) e
    ∙ take-add n (c.h - (c.l + n)) (drop c.l c.bytes)
    ∙ ap (λ ys. take n (drop c.l c.bytes) ++ take (c.h - (c.l + n)) ys) (drop-drop n c.l c.bytes)

module _ {b : Buffer} {k : ℕ} (v : IsRing b k) (some_filled : 0 < k) where
  module _ (n : ℕ) (fits : n ≤ (b.chunks b.ridx).h - (b.chunks b.ridx).l) where
    kept_chunk :
        empties b n ≡ false
        → consume_chunk (b.chunks b.ridx) n
          ≡ record (b.chunks b.ridx) { l = (b.chunks b.ridx).l + n }
    unfolding consume_chunk
    kept_chunk e = rw e

    first :
        empties b n ≡ false
        → record (b.chunks b.ridx) { l = (b.chunks b.ridx).l + n }
          ≡ put_chunk b.chunks b.ridx
              (consume_chunk (b.chunks b.ridx) n)
              (at_index b.nr_chunks b.ridx 0)
    first e = sym (
        at-put_zero v some_filled (consume_chunk (b.chunks b.ridx) n) 0 v.some_chunks
        ∙ kept_chunk e)

    -- The whole of the chunk is taken.
    all_taken :
        empties b n ≡ true
        → slice (at b 0) ≡ take n (drop (b.chunks b.ridx).l (b.chunks b.ridx).bytes)
    unfolding slice
    all_taken e =
        let e' : (b.chunks b.ridx).h - (b.chunks b.ridx).l ≡ n = ground (arith) in
        ap slice (at-zero v)
        ∙ ap (λ m. take m (drop (b.chunks b.ridx).l (b.chunks b.ridx).bytes)) e'

    contents-kept :
        empties b n ≡ false
        → contents b
          ≡ take n (drop (b.chunks b.ridx).l (b.chunks b.ridx).bytes)
            ++ contents (record b {
              chunks = put_chunk b.chunks b.ridx (consume_chunk (b.chunks b.ridx) n);
            })
    unfolding contents
    contents-kept e =
        span-front (λ i. slice (at b i)) _ _ b.nr_chunks v.some_chunks
          (ap slice (at-zero v)
            ∙ slice-split (b.chunks b.ridx) n fits
            ∙ ap (λ c. take n (drop (b.chunks b.ridx).l (b.chunks b.ridx).bytes) ++ slice c)
                (first e))
          (λ j p q. ap slice (at-put_later v some_filled (consume_chunk (b.chunks b.ridx) n) j p q))

    contents-advanced :
        empties b n ≡ true
        → contents b
          ≡ take n (drop (b.chunks b.ridx).l (b.chunks b.ridx).bytes)
            ++ contents (record b {
              chunks = put_chunk b.chunks b.ridx (consume_chunk (b.chunks b.ridx) n);
              ridx = next_index b b.ridx;
            })
    unfolding contents
    contents-advanced e =
        span-rotate (λ i. slice (at b i)) _ b.nr_chunks v.some_chunks
          (λ j p.
            ap slice (at-advance v some_filled n fits (consume_chunk (b.chunks b.ridx) n) j p))
          (λ j p.
            ap slice (at-advance_last v some_filled n fits (consume_chunk (b.chunks b.ridx) n) j p)
            ∙ slice-empty _ (ap (λ (c : Chunk). c.h) (emptied_chunk v some_filled n fits e)))
        ∙ ap
            (λ ys.
              ys
              ++ contents (record b {
                chunks = put_chunk b.chunks b.ridx (consume_chunk (b.chunks b.ridx) n);
                ridx = next_index b b.ridx;
              }))
            (all_taken e)

    -- The same on both branches, for the buffer that `buffer_consume` leaves.
    contents-consumed :
        contents b
        ≡ take n (drop (b.chunks b.ridx).l (b.chunks b.ridx).bytes) ++ contents (after_consume b n)
    contents-consumed = elim (Bool-cases (empties b n)) [
      | inl e ↦ rw e (contents-advanced e)
      | inr e ↦ rw e (contents-kept e)
    ]

  -- With a chunk filled, the consumer may take any number of bytes up to the size that
  -- `buffer_get_rpos` returned. BUG_ON is not met, the ring is kept and gives a chunk back just if
  -- it was read to its end, and what was stored is the bytes at `*pos` followed by what is left.
  pub consume_lem :
      (n : ℕ)
      → n ≤ (get_rpos b).0
      → (b' : Buffer) × (consume b n ≡ some b')
        × IsRing b' (if empties b n then k - 1 else k)
        × (contents b ≡ bytes_at_rpos b n ++ contents b')
  consume_lem n fits =
      let e = get_rpos-full v some_filled in
      let c : at b 0 ≡ b.chunks b.ridx = at-zero v in
      let fits' : n ≤ (b.chunks b.ridx).h - (b.chunks b.ridx).l =
        omega (
          arith,
          ap (λ (t : ℕ × ℕ). t.0) e,
          ap (λ (t : Chunk). t.h) c,
          ap (λ (t : Chunk). t.l) c,
        ) in
      (
        after_consume b n,
        consume-eq v some_filled n,
        after_consume-IsRing v some_filled n fits',
        rw (e, c) (contents-consumed n fits'),
      )
