-- ===== src/Buffer/Tests.antt =====
-- The functions of app/buffer.c on a buffer of two chunks, and the theorems at concrete inputs.
use graceful_music.Common.{
  ℕ, ◌≡◌, refl, Bool, true, false, none, some, List, [], ◌∷◌, ◌++◌, arith, ◌==◌, if◌then◌else◌,
  length, replicate, length-replicate, if_same,
}
use graceful_music.Buffer.{
  put_chunk, closes, chunk_size, Chunk, Buffer, get_rpos, get_wpos, consume, fill, store_wpos,
  reset, reset_chunk, reset_loop, get_filled_chunks,
}
use graceful_music.Buffer.Ring.{at_index, IsRing}
use graceful_music.Buffer.Fifo.{contents, HasData, produce_lem}
use graceful_music.Buffer.Drain.{bytes_at_rpos, consume_lem}
use graceful_music.Buffer.Held.{has_wpos, has_read, Play, Step, gets_wpos, reads, fills, here, next}
use graceful_music.Buffer.Trace.{started, played-append-contents}

blank : List ℕ
blank = replicate chunk_size 0

length-blank : length blank ≡ chunk_size
unfolding blank
length-blank = length-replicate {A = ℕ} chunk_size 0

abbrev full_chunk : Chunk
full_chunk = record { bytes = blank; l = 100; h = 60000; filled = true }

abbrev empty_chunk : Chunk
empty_chunk = record { bytes = blank; l = 0; h = 0; filled = false }

-- The first chunk is filled and partly read, the second is the producer's.
abbrev two : Buffer
two = record {
  chunks = λ i. if i == 0 then full_chunk else empty_chunk;
  nr_chunks = 2;
  ridx = 0;
  widx = 1;
}

two-IsRing : IsRing two 1
unfolding at_index
two-IsRing = record {
  some_chunks = omega arith;
  ridx_in = omega arith;
  at_most = omega arith;
  widx_at = refl;
  full = λ i h. ground arith;
  opened = λ i h h'. ground arith;
  unused = λ i h h'. ground arith;
}

two-HasData : HasData two
two-HasData i =
    if_same (λ (c : Chunk). length c.bytes ≡ chunk_size) (i == 0) (λ _. length-blank)
      (λ _. length-blank)

positions :
    (get_rpos two ≡ (59900, 100)) × (get_wpos two ≡ (60480, 0)) × (get_filled_chunks two ≡ 1)
unfolding get_rpos get_wpos get_filled_chunks
positions = (refl, refl, refl)

-- BUG_ON of `buffer_fill`: both chunks are filled.
fill_of_full : fill (record two { widx = 0 }) 1 ≡ none
unfolding fill
fill_of_full = refl

produce_lem_example :
    (r : Bool × Buffer) × (fill (store_wpos two (7 ∷ 8 ∷ [])) 2 ≡ some r)
    × IsRing r.1 (if r.0 then 2 else 1)
    × (contents r.1 ≡ contents two ++ 7 ∷ 8 ∷ [])
unfolding get_wpos
produce_lem_example = produce_lem two-IsRing (omega arith) (7 ∷ 8 ∷ []) two-HasData (omega arith)

consume_lem_example :
    (b' : Buffer) × (consume two 59900 ≡ some b')
    × IsRing b' 0
    × (contents two ≡ bytes_at_rpos two 59900 ++ contents b')
unfolding get_rpos
consume_lem_example = consume_lem two-IsRing (omega arith) 59900 (omega arith)

-- Two bytes are stored behind `buffer_reset`; the chunk is not yet handed over.
abbrev stored_two : Buffer
stored_two = store_wpos (reset two) (7 ∷ 8 ∷ [])

abbrev after_fill : Buffer
after_fill = record stored_two {
  chunks = put_chunk stored_two.chunks 0 (record (stored_two.chunks 0) { h = 2; filled = false });
  widx = 0;
}

-- The producer has a position, has stored the bytes, and has handed them over.
abbrev with_wpos : Play
with_wpos = record (started two) { producer = has_wpos 0 0 chunk_size }

abbrev with_bytes : Play
with_bytes = record (started two) { buffer = stored_two; producer = has_read (7 ∷ 8 ∷ []) }

abbrev with_data : Play
with_data = record (started two) { buffer = after_fill; written = 7 ∷ 8 ∷ [] }

gets_Step : Step (started two) with_wpos
unfolding get_wpos reset reset_loop reset_chunk
gets_Step = gets_wpos refl (omega arith) refl

reads_Step : Step with_wpos with_bytes
unfolding store_wpos reset reset_loop reset_chunk
reads_Step = reads 0 0 chunk_size (7 ∷ 8 ∷ []) refl (omega arith) refl

fills_Step : Step with_bytes with_data
unfolding fill reset reset_loop reset_chunk store_wpos closes
fills_Step = fills (7 ∷ 8 ∷ []) false after_fill refl refl refl

played-append-contents_example : 7 ∷ 8 ∷ [] ≡ [] ++ contents after_fill
played-append-contents_example =
    played-append-contents two (omega arith) two-HasData
      (next (next (next here gets_Step) reads_Step) fills_Step)
