-- ===== src/Buffer/Between.antt =====
-- What the producer and the consumer of app/buffer.c may do between two calls of the other: the one changes
-- the chunk at `widx`, which is not filled, the other the chunk at `ridx`, which is.
use graceful_music.Common.{
  ℕ, ◌+◌, ◌<◌, ◌≡◌, refl, sym, ap, ◌∙◌, fun_ext, ◌≢◌, Bool, true, false, not, Option, none, some,
  List, ◌++◌, arith, if◌then◌else◌, ==_iff, ◌==◌, beq_of_ne, Bool-cases, inl, inr, length, take,
  drop, some_inj,
}
use graceful_music.Buffer.{
  Chunk, Buffer, put_chunk, get_rpos, get_wpos, consume_chunk, consume, fill, store_wpos,
  next_index, closes,
}

-- The `n` bytes at a pointer into a chunk.
abbrev pub bytes_at : Buffer → (index offset n : ℕ) → List ℕ
bytes_at b i offset n = take n (drop offset (b.chunks i).bytes)

-- A position to read and one to write are in two chunks.
pub apart : (b : Buffer) → 0 < (get_rpos b).0 → 0 < (get_wpos b).0 → b.ridx ≢ b.widx
unfolding get_rpos get_wpos
apart b r w e = elim (Bool-cases (b.chunks b.ridx).filled) [
  | inl f ↦ let g : (b.chunks b.widx).filled ≡ true = rw e at f in omega (arith, rw g at w)
  | inr f ↦ omega (arith, rw f at r)
]

pub rpos-store : (b : Buffer) (new : List ℕ) → get_rpos (store_wpos b new) ≡ get_rpos b
unfolding get_rpos store_wpos
rpos-store b new = ground arith

pub ridx-store : (b : Buffer) (new : List ℕ) → (store_wpos b new).ridx ≡ b.ridx
unfolding store_wpos
ridx-store b new = refl

pub chunk-store :
    (b : Buffer) (new : List ℕ)
    → b.ridx ≢ b.widx
    → (store_wpos b new).chunks b.ridx ≡ b.chunks b.ridx
unfolding store_wpos
chunk-store b new ne = rw (beq_of_ne b.ridx b.widx ne) refl

pick_not {ℓ} : {A : Type ℓ} (t : Bool) (x y : A) → t ≡ true → (if not t then x else y) ≡ y
pick_not true x y h = refl
pick_not false x y h = absurd (cc)

pick_else {ℓ} : {A : Type ℓ} (t : Bool) (x y : A) → t ≡ false → (if t then x else y) ≡ y
pick_else true x y h = absurd (cc)
pick_else false x y h = refl

-- The buffer that `buffer_consume` leaves
abbrev consumed : Buffer → ℕ → Buffer
consumed b n = record b {
  chunks = put_chunk b.chunks b.ridx (consume_chunk (b.chunks b.ridx) n);
  ridx = if (b.chunks b.ridx).l + n == (b.chunks b.ridx).h then next_index b b.ridx else b.ridx;
}

consume-consumed :
    (b b' : Buffer) (n : ℕ)
    → consume b n ≡ some b'
    → ((b.chunks b.ridx).filled ≡ true) × (consumed b n ≡ b')
unfolding consume
consume-consumed b b' n e = elim (Bool-cases (b.chunks b.ridx).filled) [
  | inl f ↦ (
    f,
    some_inj (consumed b n) b'
        (sym (pick_not (b.chunks b.ridx).filled none (some (consumed b n)) f) ∙ e),
  )
  | inr f ↦ let g : ◌≡◌ {A = Option Buffer} none (some b') = rw f at e in absurd (cc)
]

-- Two chunks may be put in any order.
put_chunk_comm :
    (f : ℕ → Chunk) (i k : ℕ) (c d : Chunk)
    → i ≢ k
    → put_chunk (put_chunk f k d) i c ≡ put_chunk (put_chunk f i c) k d
put_chunk_comm f i k c d ne = fun_ext λ j. elim (Bool-cases (j == i)) [
  | inl p ↦ let q : j ≡ i = (==_iff j i).0 p in rw (p, q, beq_of_ne i k ne) refl
  | inr p ↦ rw p refl
]

-- The producer's store and the consumer's call come to the same in both orders.
pub consume-store :
    (b b' : Buffer) (new : List ℕ) (n : ℕ)
    → b.ridx ≢ b.widx
    → consume b n ≡ some b'
    → consume (store_wpos b new) n ≡ some (store_wpos b' new)
unfolding consume store_wpos
consume-store b b' new n ne e =
    let (f, c) = consume-consumed b b' n e in
    let w = b.chunks b.widx in
    let stored : Chunk = record w {
      bytes = take w.h w.bytes ++ (new ++ drop (w.h + length new) w.bytes);
    } in
    pick_not ((store_wpos b new).chunks b.ridx).filled none (some (consumed (store_wpos b new) n))
      (ap (λ (c : Chunk). c.filled) (chunk-store b new ne) ∙ f)
    ∙ rw (sym c, beq_of_ne b.ridx b.widx ne, beq_of_ne b.widx b.ridx (λ h. ne (sym h)))
        (ap (λ (chunks : ℕ → Chunk). some (record (consumed b n) { chunks = chunks }))
          (put_chunk_comm b.chunks b.ridx b.widx (consume_chunk (b.chunks b.ridx) n) stored ne))

-- The call of the consumer leaves the position to write.
pub wpos-consume :
    (b b' : Buffer) (n : ℕ)
    → b.ridx ≢ b.widx
    → consume b n ≡ some b'
    → (get_wpos b' ≡ get_wpos b) × (b'.widx ≡ b.widx)
unfolding get_wpos
wpos-consume b b' n ne e =
    let (f, c) = consume-consumed b b' n e in
    rw (sym c, beq_of_ne b.widx b.ridx (λ h. ne (sym h))) (refl, refl)

-- The buffer that `buffer_fill` leaves
abbrev filled_by : Buffer → ℕ → Buffer
filled_by b n =
    let c = b.chunks b.widx in
    let full = closes (c.h + n) n in
    record b {
      chunks = put_chunk b.chunks b.widx (record c { h = c.h + n; filled = full });
      widx = if full then next_index b b.widx else b.widx;
    }

fill-filled_by :
    (b b' : Buffer) (n : ℕ) {full : Bool} → fill b n ≡ some (full, b') → filled_by b n ≡ b'
unfolding fill
fill-filled_by b b' n {full} e = elim (Bool-cases (b.chunks b.widx).filled) [
  | inl f ↦
      let g : ◌≡◌ {A = Option (Bool × Buffer)} none (some (full, b')) = rw f at e in absurd (cc)
  | inr f ↦
      ap (λ (r : Bool × Buffer). r.1)
        (some_inj (closes ((b.chunks b.widx).h + n) n, filled_by b n) (full, b')
          (sym (
              pick_else (b.chunks b.widx).filled none
                (some (closes ((b.chunks b.widx).h + n) n, filled_by b n)) f)
            ∙ e))
]

-- `buffer_fill` leaves the position to read, and the chunk there.
pub rpos-fill :
    (b b' : Buffer) (new : List ℕ) {full : Bool}
    → b.ridx ≢ b.widx
    → fill (store_wpos b new) (length new) ≡ some (full, b')
    → (get_rpos b' ≡ get_rpos b) × (b'.ridx ≡ b.ridx) × (b'.chunks b.ridx ≡ b.chunks b.ridx)
unfolding get_rpos store_wpos
rpos-fill b b' new ne e =
    let c = fill-filled_by (store_wpos b new) b' (length new) e in
    rw (sym c, beq_of_ne b.ridx b.widx ne) (refl, refl, refl)
