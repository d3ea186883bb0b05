-- ===== src/Buffer/Consume.antt =====
-- `buffer_consume` keeps the ring.
use graceful_music.Common.{
  ℕ, zero, suc, ◌+◌, ◌-◌, ◌≤◌, ◌<◌, ◌≡◌, refl, sym, ap, ◌∙◌, inl, inr, Bool, true, false, some,
  arith, ◌==◌, if◌then◌else◌, ==_iff, ==_refl, Bool-cases,
}
use graceful_music.Buffer.{Chunk, Buffer, put_chunk, next_index, get_rpos, consume_chunk, consume}
use graceful_music.Buffer.Ring.{
  at_index, at, IsFull, IsOpen, IsRing, at_index_zero, at_index_shift, at_index_last, at-put,
  at-zero, widx-open,
}
use native.Mathlib.Decide.{dec_lt}

-- What `get_rpos` hands out is what the consumer may take.
pub get_rpos-full :
    {b : Buffer} {k : ℕ} → IsRing b k → 0 < k → get_rpos b ≡ ((at b 0).h - (at b 0).l, (at b 0).l)
unfolding get_rpos
get_rpos-full {b} v h =
    let m : (b.chunks b.ridx).filled ≡ true = rw (at-zero v) at (v.full 0 h).marked in
    rw (at-zero v) (rw m)

-- Without a filled chunk there is nothing to read.
pub get_rpos-empty : {b : Buffer} → IsRing b 0 → get_rpos b ≡ (0, 0)
unfolding get_rpos
get_rpos-empty {b} v =
    let m : (b.chunks b.ridx).filled ≡ false =
      rw (at-zero v) at (v.opened 0 (omega arith) v.some_chunks).unmarked in
    rw m

beq_of_pos : (i : ℕ) → (suc i == 0) ≡ false
beq_of_pos i = ground arith

beq_of_lt : (i k : ℕ) → i < k → (i == k) ≡ false
beq_of_lt i k h = ground arith

-- Whether `buffer_consume` empties the chunk at `ridx`.
abbrev pub empties : Buffer → ℕ → Bool
empties b count = (b.chunks b.ridx).l + count == (b.chunks b.ridx).h

-- What `buffer_consume` leaves, if the chunk at `ridx` is filled.
abbrev pub after_consume : Buffer → ℕ → Buffer
after_consume b count = record b {
  chunks = put_chunk b.chunks b.ridx (consume_chunk (b.chunks b.ridx) count);
  ridx = if empties b count then next_index b b.ridx else b.ridx;
}

module _ {b : Buffer} {k : ℕ} (v : IsRing b k) (some_filled : 0 < k) where
  pub consume-eq : (count : ℕ) → consume b count ≡ some (after_consume b count)
  unfolding consume
  consume-eq count =
      let m : (b.chunks b.ridx).filled ≡ true = rw (at-zero v) at (v.full 0 some_filled).marked in
      rw m

  -- A write to the chunk at `ridx` is seen at offset 0 alone.
  pub at-put_zero :
      (c : Chunk) (i : ℕ)
      → i < b.nr_chunks
      → put_chunk b.chunks b.ridx c (at_index b.nr_chunks b.ridx i) ≡ (if i == 0 then c else at b i)
  at-put_zero c i h =
      ap (λ j. put_chunk b.chunks j c (at_index b.nr_chunks b.ridx i))
        (sym (at_index_zero b.nr_chunks b.ridx v.ridx_in))
      ∙ at-put v c 0 i v.some_chunks h

  pub at-put_later :
      (c : Chunk) (i : ℕ)
      → 0 < i
      → i < b.nr_chunks
      → put_chunk b.chunks b.ridx c (at_index b.nr_chunks b.ridx i) ≡ at b i
  at-put_later c i p h = at-put_zero c i h ∙ first-ne c i p
    where
      first-ne : (c : Chunk) (i : ℕ) → 0 < i → (if i == 0 then c else at b i) ≡ at b i
      first-ne c zero p = absurd (omega arith)
      first-ne c (suc i) p = rw (beq_of_pos i)

  module _ (count : ℕ) (fits : count ≤ (b.chunks b.ridx).h - (b.chunks b.ridx).l) where
    kept-IsFull : empties b count ≡ false → IsFull (consume_chunk (b.chunks b.ridx) count)
    unfolding consume_chunk
    kept-IsFull e =
        let f : IsFull (b.chunks b.ridx) = rw (at-zero v) at (v.full 0 some_filled) in
        rw e (record {
          marked = f.marked;
          some_left = ground (arith, f.some_left);
          in_data = f.in_data;
        })

    kept_all :
        empties b count ≡ false
        → (i : ℕ) → i < k
        → IsFull (
            put_chunk b.chunks b.ridx
              (consume_chunk (b.chunks b.ridx) count)
              (at_index b.nr_chunks b.ridx i))
    kept_all e zero h =
        rw (at-put_zero (consume_chunk (b.chunks b.ridx) count) zero v.some_chunks) (kept-IsFull e)
    kept_all e (suc i) h =
        rw
          (at-put_later (consume_chunk (b.chunks b.ridx) count) (suc i) (omega arith)
            (omega (arith, v.at_most)))
          (v.full (suc i) h)

    IsRing-kept :
        empties b count ≡ false
        → IsRing
            (record b {
              chunks = put_chunk b.chunks b.ridx (consume_chunk (b.chunks b.ridx) count);
            })
            k
    IsRing-kept e = record {
      some_chunks = v.some_chunks;
      ridx_in = v.ridx_in;
      at_most = v.at_most;
      widx_at = v.widx_at;
      full = kept_all e;
      opened = λ i h h'. rw (at-put_later _ i (omega arith) h') (v.opened i h h');
      unused = λ i h h'. rw (at-put_later _ i (omega arith) h') (v.unused i h h');
    }

    -- The offsets move by one, and the chunk that was read comes last.
    pub at-advance :
        (c : Chunk) (i : ℕ)
        → i + 1 < b.nr_chunks
        → put_chunk b.chunks b.ridx c (at_index b.nr_chunks (next_index b b.ridx) i) ≡ at b (i + 1)
    at-advance c i h =
        ap (put_chunk b.chunks b.ridx c) (at_index_shift b.nr_chunks b.ridx i v.ridx_in h)
        ∙ at-put_later c (i + 1) (omega arith) h

    pub at-advance_last :
        (c : Chunk) (i : ℕ)
        → i + 1 ≡ b.nr_chunks
        → put_chunk b.chunks b.ridx c (at_index b.nr_chunks (next_index b b.ridx) i) ≡ c
    at-advance_last c i e =
        let e' : i ≡ b.nr_chunks - 1 = omega arith in
        ap (λ j. put_chunk b.chunks b.ridx c (at_index b.nr_chunks (next_index b b.ridx) j)) e'
        ∙ ap (put_chunk b.chunks b.ridx c) (at_index_last b.nr_chunks b.ridx v.ridx_in)
        ∙ same c
      where
        same : (c : Chunk) → put_chunk b.chunks b.ridx c b.ridx ≡ c
        same c = rw (==_refl b.ridx)

    pub emptied_chunk :
        empties b count ≡ true
        → consume_chunk (b.chunks b.ridx) count
          ≡ record (b.chunks b.ridx) { l = 0; h = 0; filled = false }
    unfolding consume_chunk
    emptied_chunk e = rw e

    emptied-IsOpen : empties b count ≡ true → IsOpen (consume_chunk (b.chunks b.ridx) count)
    emptied-IsOpen e =
        rw (emptied_chunk e) (record { unmarked = refl; unread = refl; room = omega arith })

    -- The write index, seen from the new read index.
    widx_after : b.widx ≡ at_index b.nr_chunks (next_index b b.ridx) (k - 1)
    widx_after = elim (dec_lt k b.nr_chunks) [
      | yes p ↦
          widx-open v p
          ∙ ap (at_index b.nr_chunks b.ridx) (omega arith)
          ∙ sym (at_index_shift b.nr_chunks b.ridx (k - 1) v.ridx_in (omega arith))
      | no p ↦
          let e : k ≡ b.nr_chunks = omega (arith, v.at_most) in
          v.widx_at
          ∙ ap (λ t. at_index b.nr_chunks b.ridx (if t then 0 else k)) ((==_iff k b.nr_chunks).1 e)
          ∙ at_index_zero b.nr_chunks b.ridx v.ridx_in
          ∙ sym (at_index_last b.nr_chunks b.ridx v.ridx_in)
          ∙ ap (at_index b.nr_chunks (next_index b b.ridx)) (omega arith)
    ]

    IsRing-advanced :
        empties b count ≡ true
        → IsRing
            (record b {
              chunks = put_chunk b.chunks b.ridx (consume_chunk (b.chunks b.ridx) count);
              ridx = next_index b b.ridx;
            })
            (k - 1)
    IsRing-advanced e = record {
      some_chunks = v.some_chunks;
      ridx_in = omega (arith, v.ridx_in);
      at_most = omega (arith, v.at_most);
      widx_at =
          widx_after
          ∙ ap (at_index b.nr_chunks (next_index b b.ridx)) (
              sym (
                ap (λ t. if t then 0 else k - 1)
                  (beq_of_lt (k - 1) b.nr_chunks (omega (arith, v.at_most)))));
      full = λ i h. rw (at-advance _ i (omega (arith, v.at_most))) (v.full (i + 1) (omega arith));
      opened = λ i h h'. elim (dec_lt (i + 1) b.nr_chunks) [
        | yes p ↦
            rw (at-advance (consume_chunk (b.chunks b.ridx) count) i p)
              (v.opened (i + 1) (omega arith) p)
        | no p ↦
            rw (at-advance_last (consume_chunk (b.chunks b.ridx) count) i (omega arith))
              (emptied-IsOpen e)
      ];
      unused = λ i h h'. elim (dec_lt (i + 1) b.nr_chunks) [
        | yes p ↦
            rw (at-advance (consume_chunk (b.chunks b.ridx) count) i p)
              (v.unused (i + 1) (omega arith) p)
        | no p ↦
            rw (at-advance_last (consume_chunk (b.chunks b.ridx) count) i (omega arith))
              (ap (λ (c : Chunk). c.h) (emptied_chunk e))
      ];
    }

    pub after_consume-IsRing : IsRing (after_consume b count) (if empties b count then k - 1 else k)
    after_consume-IsRing = elim (Bool-cases (empties b count)) [
      | inl e ↦ rw e (IsRing-advanced e)
      | inr e ↦ rw e (IsRing-kept e)
    ]
