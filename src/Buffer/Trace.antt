-- ===== src/Buffer/Trace.antt =====
-- The producer and the consumer of app/player.c on one buffer of app/buffer.c: every interleaving of
-- their steps. Each asks for a position first, goes on only if the size returned is not 0, and has no lock
-- on the buffer until it calls it again. The scaling of the bytes in front of `op_write` is left out.
use graceful_music.Common.{
  ℕ, zero, suc, ◌+◌, ◌-◌, ◌≤◌, ◌<◌, ◌≡◌, refl, sym, ap, ◌∙◌, subst, Bool, true, some, List, [],
  ◌++◌, append_assoc, arith, if◌then◌else◌, ==_iff, length, take, drop, length-append, length-take,
  length-drop, some_inj,
}
use native.Mathlib.Decide.{dec_lt}
use graceful_music.Buffer.{
  Chunk, Buffer, get_rpos, get_wpos, consume_chunk, consume, fill, store_wpos, reset, reset_chunk,
}
use graceful_music.Buffer.Ring.{at, IsRing, at-zero, at_index, at_index_zero}
use graceful_music.Buffer.Consume.{get_rpos-empty, empties}
use graceful_music.Buffer.Fifo.{slice, slice-empty, contents, HasData, produce_lem, contents-store}
use graceful_music.Buffer.Drain.{consume_lem}
use graceful_music.Buffer.Count.{reset-IsRing, at-reset, reset_loop_lem, h-reset_chunk}
use graceful_music.Buffer.Span.{span-nil}
use graceful_music.Buffer.Held.{
  IsProducing, IsConsuming, Producer, Consumer, Play, Step, gets_wpos, reads, reads_nothing, fills,
  gets_rpos, writes, writes_nothing, consumes, Reach, here, next, IsConsuming-fill,
  IsProducing-consume, rpos-base, reads-buffer, idle, has_wpos, has_read,
}
use graceful_music.Buffer.Between.{bytes_at}

-- What holds of a buffer in use.
record IsLive (s : Play) : Type 0 where
  base : Buffer
  count : ℕ
  ring : IsRing base count
  sizes : HasData base
  order : s.written ≡ s.played ++ contents base
  producing : IsProducing s.producer s.buffer base
  consuming : IsConsuming s.consumer base

-- A size other than 0 from `buffer_get_wpos` means that a chunk is free.
free_of_wpos : {b : Buffer} {k : ℕ} → IsRing b k → 0 < (get_wpos b).0 → k < b.nr_chunks
unfolding get_wpos
free_of_wpos {b} {k} v h = elim (dec_lt k b.nr_chunks) [
  | yes p ↦ p
  | no p ↦
      let e : k ≡ b.nr_chunks = omega (arith, v.at_most) in
      let w : b.widx ≡ b.ridx =
        v.widx_at
        ∙ ap (λ t. at_index b.nr_chunks b.ridx (if t then 0 else k)) ((==_iff k b.nr_chunks).1 e)
        ∙ at_index_zero b.nr_chunks b.ridx v.ridx_in in
      let f : (b.chunks b.ridx).filled ≡ true =
        rw (at-zero v) at (v.full 0 (omega (arith, v.some_chunks))).marked in
      let m : (b.chunks b.widx).filled ≡ true = ap (λ i. (b.chunks i).filled) w ∙ f in
      absurd (ground arith)
]

-- A size other than 0 from `buffer_get_rpos` means that a chunk is filled.
filled_of_rpos : {b : Buffer} (k : ℕ) → IsRing b k → 0 < (get_rpos b).0 → 0 < k
filled_of_rpos zero v h = absurd (omega (arith, ap (λ (t : ℕ × ℕ). t.0) (get_rpos-empty v)))
filled_of_rpos (suc k) v h = omega arith

-- A store within the room keeps the size of `data`.
pub store-HasData :
    (b : Buffer) (new : List ℕ)
    → HasData b
    → length new ≤ (get_wpos b).0
    → 0 < (get_wpos b).0
    → HasData (store_wpos b new)
unfolding store_wpos get_wpos
store-HasData b new sizes fits room i =
    let c = b.chunks b.widx in
    ground (
      arith,
      sizes i,
      sizes b.widx,
      length-append (take c.h c.bytes) (new ++ drop (c.h + length new) c.bytes),
      length-append new (drop (c.h + length new) c.bytes),
      length-take c.h c.bytes,
      length-drop (c.h + length new) c.bytes,
    )

pub fill-HasData :
    (b b' : Buffer) {full : Bool} (count : ℕ)
    → HasData b
    → fill b count ≡ some (full, b')
    → HasData b'
unfolding fill
fill-HasData b b' count sizes e i = ground (arith, sizes i, sizes b.widx)

pub nr_chunks-fill :
    (b b' : Buffer) {full : Bool} (count : ℕ)
    → fill b count ≡ some (full, b')
    → b'.nr_chunks ≡ b.nr_chunks
unfolding fill
nr_chunks-fill b b' count e = ground arith

pub nr_chunks-store : (b : Buffer) (new : List ℕ) → (store_wpos b new).nr_chunks ≡ b.nr_chunks
unfolding store_wpos
nr_chunks-store b new = refl

consume-HasData : (b b' : Buffer) (count : ℕ) → HasData b → consume b count ≡ some b' → HasData b'
unfolding consume consume_chunk
consume-HasData b b' count sizes e i = ground (arith, sizes i, sizes b.ridx)

-- One step keeps what holds of a buffer in use.
Step-IsLive : {s t : Play} → IsLive s → Step s t → IsLive t
Step-IsLive {s} live (gets_wpos eq room e) =
    let p = subst (λ p. IsProducing p s.buffer live.base) eq live.producing in
    rw e (record {
      base = live.base;
      count = live.count;
      ring = live.ring;
      sizes = live.sizes;
      order = live.order;
      consuming = live.consuming;
      producing = (
        p,
        ap (λ (b : Buffer). b.widx) p,
        ap (λ (b : Buffer). (get_wpos b).1) p,
        ap (λ (b : Buffer). (get_wpos b).0) p,
        room,
      );
    })
Step-IsLive {s} live (reads index offset size new eq fits e) =
    let p = subst (λ p. IsProducing p s.buffer live.base) eq live.producing in
    rw e (record {
      base = live.base;
      count = live.count;
      ring = live.ring;
      sizes = live.sizes;
      order = live.order;
      consuming = live.consuming;
      producing = (
        reads-buffer s.buffer live.base index offset size new p,
        omega (arith, p.3, fits),
        omega (arith, p.3, p.4),
      );
    })
Step-IsLive {s} live (reads_nothing index offset size eq e) =
    let p = subst (λ p. IsProducing p s.buffer live.base) eq live.producing in
    rw e (record {
      base = live.base;
      count = live.count;
      ring = live.ring;
      sizes = live.sizes;
      order = live.order;
      consuming = live.consuming;
      producing = p.0;
    })
Step-IsLive {s} live (fills new full b eq e' e) =
    let base = live.base in
    let p = subst (λ p. IsProducing p s.buffer live.base) eq live.producing in
    let filled : fill (store_wpos base new) (length new) ≡ some (full, b) =
      ap (λ (x : Buffer). fill x (length new)) (sym p.0) ∙ e' in
    let (r, e'', ring, order) =
      produce_lem live.ring (free_of_wpos live.ring p.2) new live.sizes p.1 in
    let same : r ≡ (full, b) = some_inj r (full, b) (sym e'' ∙ filled) in
    rw e (record {
      base = b;
      count = if full then live.count + 1 else live.count;
      ring =
          subst (λ (t : Bool × Buffer). IsRing t.1 (if t.0 then live.count + 1 else live.count))
            same ring;
      sizes =
          fill-HasData (store_wpos base new) b (length new)
            (store-HasData base new live.sizes p.1 p.2) filled;
      order =
          ap (λ ys. ys ++ new) live.order
          ∙ append_assoc s.played (contents base) new
          ∙ ap (λ ys. s.played ++ ys) (sym order ∙ ap (λ (t : Bool × Buffer). contents t.1) same);
      producing = refl;
      consuming = IsConsuming-fill s.consumer base b new p.2 filled live.consuming;
    })
Step-IsLive {s} live (gets_rpos eq some_there e) =
    let h = rpos-base s.producer s.buffer live.base live.producing in
    rw e (record {
      base = live.base;
      count = live.count;
      ring = live.ring;
      sizes = live.sizes;
      order = live.order;
      producing = live.producing;
      consuming = (h.1, ap (λ (p : ℕ × ℕ). p.1) h.0, ap (λ (p : ℕ × ℕ). p.0) h.0, some_there);
    })
Step-IsLive {s} live (writes index offset size n eq fits e) =
    let base = live.base in
    let c = subst (λ c. IsConsuming c live.base) eq live.consuming in
    let there : 0 < (get_rpos base).0 = omega (arith, c.2, c.3) in
    let h = (rpos-base s.producer s.buffer base live.producing).2 there in
    rw e (record {
      base = live.base;
      count = live.count;
      ring = live.ring;
      sizes = live.sizes;
      order = live.order;
      producing = live.producing;
      consuming = (
        omega (arith, c.2, fits),
        there,
        ap (λ (i : ℕ). bytes_at s.buffer i offset n) c.0
            ∙ ap (λ (o : ℕ). bytes_at s.buffer base.ridx o n) c.1
            ∙ ap (λ (d : Chunk). take n (drop (get_rpos base).1 d.bytes)) h,
      );
    })
Step-IsLive {s} live (writes_nothing index offset size eq e) = rw e (record {
  base = live.base;
  count = live.count;
  ring = live.ring;
  sizes = live.sizes;
  order = live.order;
  producing = live.producing;
  consuming = tt;
})
Step-IsLive {s} live (consumes n taken b eq e' e) =
    let base = live.base in
    let c = subst (λ c. IsConsuming c live.base) eq live.consuming in
    let pos = filled_of_rpos live.count live.ring c.1 in
    let (b', e'', ring, order) = consume_lem live.ring pos n c.0 in
    rw e (record {
      base = b';
      count = if empties base n then live.count - 1 else live.count;
      ring = ring;
      sizes = consume-HasData base b' n live.sizes e'';
      order =
          live.order
          ∙ ap (λ ys. s.played ++ ys) (order ∙ ap (λ ys. ys ++ contents b') (sym c.2))
          ∙ sym (append_assoc s.played taken (contents b'));
      producing = IsProducing-consume s.producer s.buffer base b b' n c.1 e'' e' live.producing;
      consuming = tt;
    })

Reach-IsLive : {s t : Play} → IsLive s → Reach s t → IsLive t
Reach-IsLive live here = live
Reach-IsLive live (next r st) = Step-IsLive (Reach-IsLive live r) st

-- `buffer_reset` on chunks of the right size is where every play begins.
abbrev pub started : Buffer → Play
started b = record {
  buffer = reset b;
  producer = Producer.idle;
  consumer = Consumer.idle;
  written = [];
  played = [];
}

pub reset-HasData : (b : Buffer) → HasData b → HasData (reset b)
unfolding reset reset_chunk
reset-HasData b sizes i = ground (arith, reset_loop_lem b.nr_chunks b.chunks i, sizes i)

contents-reset : (b : Buffer) → 0 < b.nr_chunks → contents (reset b) ≡ []
unfolding contents reset
contents-reset b h =
    span-nil (λ i. slice (at (reset b) i)) 0 b.nr_chunks
      (λ j p q. slice-empty _ (h_zero j (omega arith)))
  where
    h_zero : (j : ℕ) → j < b.nr_chunks → (at (reset b) j).h ≡ 0
    h_zero j q =
        ap (λ (c : Chunk). c.h) (at-reset b j q)
        ∙ h-reset_chunk (b.chunks (at_index b.nr_chunks 0 j))

started-IsLive : (b : Buffer) → 0 < b.nr_chunks → HasData b → IsLive (started b)
started-IsLive b h sizes = record {
  base = reset b;
  count = 0;
  ring = reset-IsRing b h;
  sizes = reset-HasData b sizes;
  order = sym (contents-reset b h);
  producing = refl;
  consuming = tt;
}

-- What the producer has stored and not handed over is no contents yet.
contents-base :
    (p : Producer) (buffer base : Buffer) {k : ℕ}
    → IsRing base k
    → HasData base
    → IsProducing p buffer base
    → contents buffer ≡ contents base
contents-base idle buffer base v sizes h = ap contents h
contents-base (has_wpos index offset size) buffer base v sizes h = ap contents h.0
contents-base (has_read new) buffer base v sizes h =
    ap contents h.0 ∙ contents-store v (free_of_wpos v h.2) new sizes

-- From `buffer_reset` on, in every interleaving of the producer's and the consumer's steps, each of which asks
-- for a position, reads or writes there without a lock, and calls the buffer again: what was played so far
-- followed by what is stored is exactly what was written. No byte is lost, doubled or moved.
pub played-append-contents :
    (b : Buffer) {t : Play}
    → 0 < b.nr_chunks
    → HasData b
    → Reach (started b) t
    → t.written ≡ t.played ++ contents t.buffer
played-append-contents b {t} h sizes r =
    let live = Reach-IsLive (started-IsLive b h sizes) r in
    live.order
    ∙ ap (λ ys. t.played ++ ys)
        (sym (contents-base t.producer t.buffer live.base live.ring live.sizes live.producing))
