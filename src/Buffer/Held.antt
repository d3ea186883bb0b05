-- ===== src/Buffer/Held.antt =====
-- The steps of the producer and the consumer of app/player.c on one buffer of app/buffer.c, and what each has in
-- its hands between two of them. Neither has the lock of the buffer between two calls of it. The scaling of
-- the bytes in front of `op_write` is left out.
use graceful_music.Common.{
  ℕ, ◌≤◌, ◌<◌, ◌≡◌, sym, ap, ◌∙◌, Bool, some, List, ◌++◌, arith, length, take, drop, some_inj,
}
use graceful_music.Buffer.{Chunk, Buffer, get_rpos, get_wpos, consume, fill, store_at, store_wpos}
use graceful_music.Buffer.Drain.{bytes_at_rpos}
use graceful_music.Buffer.Between.{
  bytes_at, apart, rpos-store, ridx-store, chunk-store, consume-store, wpos-consume, rpos-fill,
}

-- Where the producer is: between two rounds, behind `buffer_get_wpos` with a pointer and a size, or behind
-- `ip_read`, which has stored `new` at the pointer.
pub data Producer : Type 0 where
  idle : Producer
  has_wpos : (index offset size : ℕ) → Producer
  has_read : (new : List ℕ) → Producer

-- Where the consumer is: between two rounds, behind `buffer_get_rpos`, or behind `op_write`, which took `n`
-- bytes at the pointer.
pub data Consumer : Type 0 where
  idle : Consumer
  has_rpos : (index offset size : ℕ) → Consumer
  has_written : (n : ℕ) (taken : List ℕ) → Consumer

-- The buffer and the two threads, with all bytes that `buffer_fill` was told of and that `buffer_consume` was
-- told of so far.
pub record Play : Type 0 where
  pub buffer : Buffer
  pub producer : Producer
  pub consumer : Consumer
  pub written : List ℕ
  pub played : List ℕ

pub data Step (s t : Play) : Type 0 where
  gets_wpos :
      s.producer ≡ Producer.idle
      → 0 < (get_wpos s.buffer).0
      → t
        ≡ record s { producer = has_wpos s.buffer.widx (get_wpos s.buffer).1 (get_wpos s.buffer).0 }
      → Step s t
  reads :
      (index offset size : ℕ) (new : List ℕ)
      → s.producer ≡ has_wpos index offset size
      → length new ≤ size
      → t ≡ record s { buffer = store_at s.buffer index offset new; producer = has_read new }
      → Step s t
  -- `ip_read` returns -1 with EAGAIN.
  reads_nothing :
      (index offset size : ℕ)
      → s.producer ≡ has_wpos index offset size
      → t ≡ record s { producer = Producer.idle }
      → Step s t
  fills :
      (new : List ℕ) (full : Bool) (b : Buffer)
      → s.producer ≡ has_read new
      → fill s.buffer (length new) ≡ some (full, b)
      → t ≡ record s { buffer = b; producer = Producer.idle; written = s.written ++ new }
      → Step s t
  gets_rpos :
      s.consumer ≡ Consumer.idle
      → 0 < (get_rpos s.buffer).0
      → t
        ≡ record s { consumer = has_rpos s.buffer.ridx (get_rpos s.buffer).1 (get_rpos s.buffer).0 }
      → Step s t
  writes :
      (index offset size n : ℕ)
      → s.consumer ≡ has_rpos index offset size
      → n ≤ size
      → t ≡ record s { consumer = has_written n (bytes_at s.buffer index offset n) }
      → Step s t
  -- `op_write` fails.
  writes_nothing :
      (index offset size : ℕ)
      → s.consumer ≡ has_rpos index offset size
      → t ≡ record s { consumer = Consumer.idle }
      → Step s t
  consumes :
      (n : ℕ) (taken : List ℕ) (b : Buffer)
      → s.consumer ≡ has_written n taken
      → consume s.buffer n ≡ some b
      → t ≡ record s { buffer = b; consumer = Consumer.idle; played = s.played ++ taken }
      → Step s t

pub data Reach (s : Play) : Play → Type 0 where
  here : Reach s s
  next : {t u : Play} → Reach s t → Step t u → Reach s u

-- The buffer is `base`, but for what the producer has stored and not yet told `buffer_fill` of; the position
-- that it has is still the one to write.
abbrev pub IsProducing : Producer → (buffer base : Buffer) → Type 0
IsProducing idle buffer base = buffer ≡ base
IsProducing (has_wpos index offset size) buffer base =
    (buffer ≡ base)
    × (index ≡ base.widx)
    × (offset ≡ (get_wpos base).1)
    × (size ≡ (get_wpos base).0)
    × (0 < size)
IsProducing (has_read new) buffer base =
    (buffer ≡ store_wpos base new) × (length new ≤ (get_wpos base).0) × (0 < (get_wpos base).0)

-- The position that the consumer has is still the one to read, and what it took are the bytes there.
abbrev pub IsConsuming : Consumer → (base : Buffer) → Type 0
IsConsuming idle base = Unit
IsConsuming (has_rpos index offset size) base =
    (index ≡ base.ridx) × (offset ≡ (get_rpos base).1) × (size ≡ (get_rpos base).0) × (0 < size)
IsConsuming (has_written n taken) base =
    (n ≤ (get_rpos base).0) × (0 < (get_rpos base).0) × (taken ≡ bytes_at_rpos base n)

-- The call of `buffer_fill` leaves what the consumer has.
pub IsConsuming-fill :
    (c : Consumer) (base b : Buffer) (new : List ℕ) {full : Bool}
    → 0 < (get_wpos base).0
    → fill (store_wpos base new) (length new) ≡ some (full, b)
    → IsConsuming c base
    → IsConsuming c b
IsConsuming-fill idle base b new room e h = h
IsConsuming-fill (has_rpos index offset size) base b new room e h =
    let f = rpos-fill base b new (apart base (omega (arith, h.2, h.3)) room) e in
    (
      h.0 ∙ sym f.1,
      h.1 ∙ sym (ap (λ (p : ℕ × ℕ). p.1) f.0),
      h.2 ∙ sym (ap (λ (p : ℕ × ℕ). p.0) f.0),
      h.3,
    )
IsConsuming-fill (has_written n taken) base b new room e h =
    let f = rpos-fill base b new (apart base h.1 room) e in
    let size = ap (λ (p : ℕ × ℕ). p.0) f.0 in
    (
      omega (arith, size, h.0),
      omega (arith, size, h.1),
      h.2
          ∙ ap (λ (p : ℕ × ℕ). take n (drop p.1 (base.chunks base.ridx).bytes)) (sym f.0)
          ∙ ap (λ (c : Chunk). take n (drop (get_rpos b).1 c.bytes)) (sym f.2)
          ∙ ap (λ (i : ℕ). take n (drop (get_rpos b).1 (b.chunks i).bytes)) (sym f.1),
    )

-- The call of `buffer_consume` leaves what the producer has.
pub IsProducing-consume :
    (p : Producer) (buffer base b base' : Buffer) (n : ℕ)
    → 0 < (get_rpos base).0
    → consume base n ≡ some base'
    → consume buffer n ≡ some b
    → IsProducing p buffer base
    → IsProducing p b base'
IsProducing-consume idle buffer base b base' n some_there e e' h =
    some_inj b base' (sym e' ∙ ap (λ (x : Buffer). consume x n) h ∙ e)
IsProducing-consume (has_wpos index offset size) buffer base b base' n some_there e e' h =
    let w = wpos-consume base base' n (apart base some_there (omega (arith, h.3, h.4))) e in
    (
      some_inj b base' (sym e' ∙ ap (λ (x : Buffer). consume x n) h.0 ∙ e),
      h.1 ∙ sym w.1,
      h.2 ∙ sym (ap (λ (p : ℕ × ℕ). p.1) w.0),
      h.3 ∙ sym (ap (λ (p : ℕ × ℕ). p.0) w.0),
      h.4,
    )
IsProducing-consume (has_read new) buffer base b base' n some_there e e' h =
    let ne = apart base some_there h.2 in
    let w = ap (λ (p : ℕ × ℕ). p.0) (wpos-consume base base' n ne e).0 in
    (
      some_inj b (store_wpos base' new)
          (sym e' ∙ ap (λ (x : Buffer). consume x n) h.0 ∙ consume-store base base' new n ne e),
      omega (arith, w, h.1),
      omega (arith, w, h.2),
    )

-- The position to read, and the bytes there, do not depend on what the producer has stored.
pub rpos-base :
    (p : Producer) (buffer base : Buffer)
    → IsProducing p buffer base
    → (get_rpos buffer ≡ get_rpos base)
      × (buffer.ridx ≡ base.ridx)
      × (0 < (get_rpos base).0 → buffer.chunks base.ridx ≡ base.chunks base.ridx)
rpos-base idle buffer base h = (
  ap get_rpos h,
  ap (λ (b : Buffer). b.ridx) h,
  λ some_there. ap (λ (b : Buffer). b.chunks base.ridx) h,
)
rpos-base (has_wpos index offset size) buffer base h = (
  ap get_rpos h.0,
  ap (λ (b : Buffer). b.ridx) h.0,
  λ some_there. ap (λ (b : Buffer). b.chunks base.ridx) h.0,
)
rpos-base (has_read new) buffer base h = (
  ap get_rpos h.0 ∙ rpos-store base new,
  ap (λ (b : Buffer). b.ridx) h.0 ∙ ridx-store base new,
  λ some_there.
      ap (λ (b : Buffer). b.chunks base.ridx) h.0
      ∙ chunk-store base new (apart base some_there h.2),
)

-- The offset of a position to write is the end of the filled part.
wpos-offset : (b : Buffer) → 0 < (get_wpos b).0 → (get_wpos b).1 ≡ (b.chunks b.widx).h
unfolding get_wpos
wpos-offset b room = ground arith

pub reads-buffer :
    (buffer base : Buffer) (index offset size : ℕ) (new : List ℕ)
    → IsProducing (has_wpos index offset size) buffer base
    → store_at buffer index offset new ≡ store_wpos base new
unfolding store_wpos
reads-buffer buffer base index offset size new p =
    ap (λ (b : Buffer). store_at b index offset new) p.0
    ∙ ap (λ (i : ℕ). store_at base i offset new) p.1
    ∙ ap (λ (k : ℕ). store_at base base.widx k new)
        (p.2 ∙ wpos-offset base (omega (arith, p.3, p.4)))
