-- ===== src/Buffer/Fifo.antt =====
-- The buffer of app/buffer.c is a queue of bytes: what the producer stores comes out in its order.
use graceful_music.Common.{
  ℕ, zero, suc, ◌+◌, ◌-◌, ◌≤◌, ◌<◌, ◌≡◌, refl, sym, ap, ◌∙◌, ◌≢◌, Bool, some, List, [], ◌∷◌, ◌++◌,
  append-nil, arith, ◌==◌, if◌then◌else◌, ==_refl, length, take, drop, take-nil, beq_of_ne, if_same,
}
use graceful_music.Buffer.{chunk_size, Chunk, Buffer, put_chunk, get_wpos, fill, store_wpos}
use graceful_music.Buffer.Ring.{at_index, at, IsOpen, IsRing, at-put, widx-open}
use graceful_music.Buffer.Fill.{filled_chunk, at-fill, fill-eq, after_fill, after_fill-IsRing}
use graceful_music.Buffer.Span.{span, span-extend}
use native.Mathlib.Nat.{sub-zero}

-- The filled part of a chunk.
unfoldable pub slice : Chunk → List ℕ
slice c = take (c.h - c.l) (drop c.l c.bytes)

-- All bytes that are stored and not yet read, the oldest first.
unfoldable pub contents : Buffer → List ℕ
contents b = span (λ i. slice (at b i)) 0 b.nr_chunks

-- `data` of each chunk has its size.
abbrev pub HasData : Buffer → Type 0
HasData b = (i : ℕ) → length (b.chunks i).bytes ≡ chunk_size

pub slice-empty : (c : Chunk) → c.h ≡ 0 → slice c ≡ []
unfolding slice
slice-empty c e = let z : c.h - c.l ≡ 0 = omega arith in rw z

take-take-append :
    (n : ℕ) (xs new rest : List ℕ)
    → n ≤ length xs
    → take (n + length new) (take n xs ++ (new ++ rest)) ≡ take n xs ++ new
take-take-append zero xs new rest h =
    ap (λ k. take k (new ++ rest)) {x = 0 + length new} {y = length new} (omega arith)
    ∙ take-front new rest
  where
    take-front : (new rest : List ℕ) → take (length new) (new ++ rest) ≡ new
    take-front [] rest = refl
    take-front (x ∷ new) rest = ap (◌∷◌ x) (take-front new rest)
take-take-append (suc n) [] new rest h = absurd (omega arith)
take-take-append (suc n) (x ∷ xs) new rest h =
    ap (λ k. take k (x ∷ (take n xs ++ (new ++ rest)))) {x = suc n + length new}
      {y = suc (n + length new)} (omega arith)
    ∙ ap (◌∷◌ x) (take-take-append n xs new rest (omega arith))

pub take-add : (m n : ℕ) (xs : List ℕ) → take (m + n) xs ≡ take m xs ++ take n (drop m xs)
take-add zero n xs = ap (λ k. take k xs) {x = 0 + n} {y = n} (omega arith)
take-add (suc m) n [] = take-nil (suc m + n) ∙ sym (take-nil n)
take-add (suc m) n (x ∷ xs) =
    ap (λ k. take k (x ∷ xs)) {x = suc m + n} {y = suc (m + n)} (omega arith)
    ∙ ap (◌∷◌ x) (take-add m n xs)

-- The chunk after the producer's store.
abbrev stored : Chunk → List ℕ → Chunk
stored c new = record c { bytes = take c.h c.bytes ++ (new ++ drop (c.h + length new) c.bytes) }

-- The bytes that are stored from `h` on extend the filled part, once `buffer_fill` counts them.
slice-stored :
    (c : Chunk) (new : List ℕ)
    → c.l ≡ 0
    → c.h ≤ length c.bytes
    → slice (filled_chunk (stored c new) (length new)) ≡ slice c ++ new
unfolding slice
slice-stored c new unread fits =
    rw (unread, sub-zero, sub-zero)
      (take-take-append c.h c.bytes new (drop (c.h + length new) c.bytes) fits)

take-front_of : (n : ℕ) (xs rest : List ℕ) → n ≤ length xs → take n (take n xs ++ rest) ≡ take n xs
take-front_of zero xs rest h = refl
take-front_of (suc n) [] rest h = absurd (omega arith)
take-front_of (suc n) (x ∷ xs) rest h = ap (◌∷◌ x) (take-front_of n xs rest (omega arith))

slice-unfilled :
    (c : Chunk) (new : List ℕ) → c.l ≡ 0 → c.h ≤ length c.bytes → slice (stored c new) ≡ slice c
unfolding slice
slice-unfilled c new unread fits =
    rw (unread, sub-zero) (take-front_of c.h c.bytes (new ++ drop (c.h + length new) c.bytes) fits)

module _ {b : Buffer} {k : ℕ} (v : IsRing b k) (k_in : k < b.nr_chunks) where
  at-store :
      (new : List ℕ) (i : ℕ)
      → i < b.nr_chunks
      → at (store_wpos b new) i ≡ (if i == k then stored (at b k) new else at b i)
  unfolding store_wpos
  at-store new i h =
      ap (λ w. put_chunk b.chunks w (stored (b.chunks w) new) (at_index b.nr_chunks b.ridx i))
        (widx-open v k_in)
      ∙ at-put v (stored (at b k) new) k i k_in h

  stored-IsRing : (new : List ℕ) → IsRing (store_wpos b new) k
  unfolding store_wpos
  stored-IsRing new = record {
    some_chunks = v.some_chunks;
    ridx_in = v.ridx_in;
    at_most = v.at_most;
    widx_at = v.widx_at;
    full = λ i h. rw (at-store new i (omega arith), beq_of_ne i k (omega arith)) (v.full i h);
    opened = λ i h h'. rw (at-store new i h') (
        if_same IsOpen (i == k)
          (λ e.
            let o = v.opened k (omega arith) k_in in
            record { unmarked = o.unmarked; unread = o.unread; room = o.room })
          (λ _. v.opened i h h'));
    unused = λ i h h'. rw (at-store new i h', beq_of_ne i k (omega arith)) (v.unused i h h');
  }

  at-store_self : (new : List ℕ) → at (store_wpos b new) k ≡ stored (at b k) new
  at-store_self new = rw (at-store new k k_in, ==_refl k)

  at-store_ne : (new : List ℕ) (i : ℕ) → i ≢ k → i < b.nr_chunks → at (store_wpos b new) i ≡ at b i
  at-store_ne new i ne h = rw (at-store new i h, beq_of_ne i k ne)

  -- Bytes that are stored behind the filled part are no contents yet.
  pub contents-store : (new : List ℕ) → HasData b → contents (store_wpos b new) ≡ contents b
  unfolding contents store_wpos
  contents-store new sizes =
      span-extend (λ i. slice (at b i)) (λ i. slice (at (store_wpos b new) i)) [] k 0 b.nr_chunks
        (omega arith) (omega arith) (λ j p q. slice-empty (at b j) (v.unused j p (omega arith)))
        (λ j ne p q. ap slice (at-store_ne new j ne (omega arith)))
        (ap slice (at-store_self new)
          ∙ slice-unfilled (at b k) new o.unread
              (omega (arith, sizes (at_index b.nr_chunks b.ridx k), o.room))
          ∙ sym (append-nil (slice (at b k))))
      ∙ append-nil (span (λ i. slice (at b i)) 0 b.nr_chunks)
    where
      o : IsOpen (at b k)
      o = v.opened k (omega arith) k_in

  module _ (new : List ℕ) (w : ℕ) where
    produced : Buffer
    produced = record (store_wpos b new) {
      chunks =
          put_chunk (store_wpos b new).chunks
            (at_index (store_wpos b new).nr_chunks (store_wpos b new).ridx k)
            (filled_chunk (at (store_wpos b new) k) (length new));
      widx = w;
    }

    at-produced :
        (i : ℕ)
        → i < b.nr_chunks
        → at produced i ≡ (
            if i == k
            then filled_chunk (at (store_wpos b new) k) (length new)
            else at (store_wpos b new) i)
    unfolding produced store_wpos
    at-produced i h = at-fill (stored-IsRing new) k_in (length new) i w h

    contents-produced : HasData b → contents produced ≡ contents b ++ new
    unfolding produced contents store_wpos
    contents-produced sizes =
        span-extend (λ i. slice (at b i)) (λ i. slice (at produced i)) new k 0 b.nr_chunks
          (omega arith) (omega arith) (λ j p q. slice-empty (at b j) (v.unused j p (omega arith)))
          (λ j ne p q.
            ap slice (at-produced j (omega arith) ∙ pick j ne ∙ at-store_ne new j ne (omega arith)))
          (ap slice (at-produced k k_in ∙ pick_self)
            ∙ slice-stored (at b k) new o.unread
                (omega (arith, sizes (at_index b.nr_chunks b.ridx k), o.room)))
      where
        o : IsOpen (at b k)
        o = v.opened k (omega arith) k_in

        pick :
            (j : ℕ)
            → j ≢ k
            → (if j == k
                then filled_chunk (at (store_wpos b new) k) (length new)
                else at (store_wpos b new) j)
              ≡ at (store_wpos b new) j
        pick j ne = rw (beq_of_ne j k ne)

        pick_self :
            (if k == k
              then filled_chunk (at (store_wpos b new) k) (length new)
              else at (store_wpos b new) k)
            ≡ filled_chunk (stored (at b k) new) (length new)
        pick_self = rw (==_refl k) (ap (λ c. filled_chunk c (length new)) (at-store_self new))

  -- With `k` of the chunks filled and a free chunk left, `buffer_get_wpos` returns a size of 1024
  -- bytes or more, and the room at the write position: the size and the offset of the free part.
  pub get_wpos-room : (get_wpos b ≡ (chunk_size - (at b k).h, (at b k).h)) × (1024 ≤ (get_wpos b).0)
  unfolding get_wpos
  get_wpos-room =
      let o = v.opened k (omega arith) k_in in
      rw (widx-open v k_in, o.unmarked) (refl, omega (arith, o.room))

  -- The producer stores at most as many bytes as `buffer_get_wpos` returned and calls `buffer_fill`
  -- with their number. BUG_ON is not met, the ring is kept with as many filled chunks as
  -- `buffer_fill` says, and exactly the new bytes are appended to what is stored.
  pub produce_lem :
      (new : List ℕ)
      → HasData b
      → length new ≤ (get_wpos b).0
      → (r : Bool × Buffer) × (fill (store_wpos b new) (length new) ≡ some r)
        × IsRing r.1 (if r.0 then k + 1 else k)
        × (contents r.1 ≡ contents b ++ new)
  unfolding store_wpos produced
  produce_lem new sizes fits = (
    after_fill (store_wpos b new) k (length new),
    fill-eq (stored-IsRing new) k_in (length new),
    after_fill-IsRing (stored-IsRing new) k_in (length new) room,
    contents-produced new (after_fill (store_wpos b new) k (length new)).1.widx sizes,
  )
    where
      o : IsOpen (at b k)
      o = v.opened k (omega arith) k_in

      same_h : (at (store_wpos b new) k).h ≡ (at b k).h
      same_h = ap (λ (c : Chunk). c.h) (at-store_self new)

      room : (at (store_wpos b new) k).h + length new ≤ chunk_size
      room = omega (arith, same_h, ap (λ (t : ℕ × ℕ). t.0) get_wpos-room.0, o.room)
