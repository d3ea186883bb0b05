-- ===== src/Buffer.antt =====
-- The decoded-audio buffer of app/buffer.c: a ring of `buffer_nr_chunks` chunks that the producer
-- thread fills and the consumer thread empties. Each function runs under `buffer_mutex`, so it is
-- one step on the state. The chunk array is a function from the index; only the indices below
-- `nr_chunks` are ever used. BUG_ON is the result `none`.
pub mod Ring
pub mod Fill
pub mod Consume
pub mod Count
pub mod Span
pub mod Fifo
pub mod Drain
pub mod Between
pub mod Held
pub mod Trace
mod Tests
use graceful_music.Common.{
  ℕ, zero, suc, ◌+◌, ◌-◌, ◌*◌, ◌%◌, ◌^◌, Bool, true, false, ◌&&◌, ◌||◌, not, Option, none, some,
  List, [], ◌++◌, ltb, leb, ◌==◌, if◌then◌else◌, length, take, drop,
}

-- CHUNK_SIZE of app/buffer.h
abbrev pub chunk_size : ℕ
chunk_size = 12 * 840 * 6

-- `struct chunk`: `bytes` is `data`, and the filled part is `bytes[l .. h)`.
pub record Chunk : Type 0 where
  pub bytes : List ℕ
  pub l : ℕ
  pub h : ℕ
  pub filled : Bool

-- The static variables of the file.
pub record Buffer : Type 0 where
  pub chunks : ℕ → Chunk
  pub nr_chunks : ℕ
  pub ridx : ℕ
  pub widx : ℕ

-- `buffer_chunks[i] = c`
abbrev pub put_chunk : (ℕ → Chunk) → ℕ → Chunk → ℕ → Chunk
put_chunk f i c j = if j == i then c else f j

-- `idx++; idx %= buffer_nr_chunks`
abbrev pub next_index : Buffer → ℕ → ℕ
next_index b i = (i + 1) % b.nr_chunks

-- The size that `buffer_get_rpos` returns, and the offset of `*pos` in the chunk at `ridx`.
pub get_rpos : Buffer → ℕ × ℕ
get_rpos b = let c = b.chunks b.ridx in if c.filled then (c.h - c.l, c.l) else (0, 0)

-- The same of `buffer_get_wpos`, in the chunk at `widx`.
unfoldable pub get_wpos : Buffer → ℕ × ℕ
get_wpos b = let c = b.chunks b.widx in if not c.filled then (chunk_size - c.h, c.h) else (0, 0)

-- The chunk that `buffer_consume` leaves.
pub consume_chunk : Chunk → ℕ → Chunk
consume_chunk c count =
    if c.l + count == c.h
    then record c { l = 0; h = 0; filled = false }
    else record c { l = c.l + count }

-- `buffer_consume`; BUG_ON(count < 0) is that `count` is a natural number.
pub consume : Buffer → ℕ → Option Buffer
consume b count =
    let c = b.chunks b.ridx in
    if not c.filled
    then none
    else some (record b {
      chunks = put_chunk b.chunks b.ridx (consume_chunk c count);
      ridx = if c.l + count == c.h then next_index b b.ridx else b.ridx;
    })

-- Whether `buffer_fill` marks a chunk filled that holds `h` bytes after it.
pub closes : ℕ → ℕ → Bool
closes h count = ltb (chunk_size - h) 1024 || (count == 0 && ltb 0 h)

-- `buffer_fill`, with its return value.
pub fill : Buffer → ℕ → Option (Bool × Buffer)
fill b count =
    let c = b.chunks b.widx in
    let full = closes (c.h + count) count in
    if c.filled
    then none
    else some (
      full,
      record b {
        chunks = put_chunk b.chunks b.widx (record c { h = c.h + count; filled = full });
        widx = if full then next_index b b.widx else b.widx;
      },
    )

-- What `ip_read` does with the pointer that `buffer_get_wpos` gave it, into a chunk: the bytes that it stores
-- replace as many bytes of `data` from there on.
abbrev pub store_at : Buffer → (index offset : ℕ) → List ℕ → Buffer
store_at b i offset new =
    let c = b.chunks i in
    let kept = drop (offset + length new) c.bytes in
    record b {
      chunks = put_chunk b.chunks i (record c { bytes = take offset c.bytes ++ (new ++ kept) });
    }

-- The same at the position that `buffer_get_wpos` gives now.
pub store_wpos : Buffer → List ℕ → Buffer
store_wpos b new = store_at b b.widx (b.chunks b.widx).h new

-- The body of the loop of `buffer_reset`.
pub reset_chunk : Chunk → Chunk
reset_chunk c = record c { l = 0; h = 0; filled = false }

-- The loop of `buffer_reset`, from the last index down.
pub reset_loop : ℕ → (ℕ → Chunk) → ℕ → Chunk
reset_loop zero f = f
reset_loop (suc n) f = put_chunk (reset_loop n f) n (reset_chunk (f n))

-- `buffer_reset`
unfoldable pub reset : Buffer → Buffer
reset b = record b { chunks = reset_loop b.nr_chunks b.chunks; ridx = 0; widx = 0 }

-- `buffer_get_filled_chunks`
pub get_filled_chunks : Buffer → ℕ
get_filled_chunks b =
    if ltb b.ridx b.widx
    then b.widx - b.ridx
    else if ltb b.widx b.ridx
    then b.nr_chunks - b.ridx + b.widx
    else if (b.chunks b.ridx).filled
    then b.nr_chunks
    else 0
