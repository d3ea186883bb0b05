-- ===== src/Buffer/Ring.antt =====
-- The ring of app/buffer.c: which chunks are filled, and what each function does to the two indices.
use graceful_music.Common.{
  ℕ, ◌+◌, ◌-◌, ◌%◌, ◌≤◌, ◌<◌, ◌≡◌, ap, ◌∙◌, inl, inr, true, false, arith, ltb, ◌==◌, if◌then◌else◌,
  ==_iff, Bool-cases,
}
use native.Mathlib.Nat.{mod-eq_of_lt, mod_self}
use graceful_music.Buffer.{chunk_size, Chunk, Buffer, put_chunk}

-- The index of the chunk that lies `i` places behind the read index.
unfoldable pub at_index : ℕ → ℕ → ℕ → ℕ
at_index n r i = if ltb (r + i) n then r + i else r + i - n

abbrev pub at : Buffer → ℕ → Chunk
at b i = b.chunks (at_index b.nr_chunks b.ridx i)

pub record IsFull (c : Chunk) : Type 0 where
  pub marked : c.filled ≡ true
  pub some_left : c.l < c.h
  pub in_data : c.h ≤ chunk_size

-- A chunk that the producer may write: nothing of it is consumed, and it has room.
pub record IsOpen (c : Chunk) : Type 0 where
  pub unmarked : c.filled ≡ false
  pub unread : c.l ≡ 0
  pub room : c.h + 1024 ≤ chunk_size

-- `k` chunks from `ridx` on are filled, the next one is at `widx`, and those behind it are empty.
pub record IsRing (b : Buffer) (k : ℕ) : Type 0 where
  pub some_chunks : 0 < b.nr_chunks
  pub ridx_in : b.ridx < b.nr_chunks
  pub at_most : k ≤ b.nr_chunks
  pub widx_at : b.widx ≡ at_index b.nr_chunks b.ridx (if k == b.nr_chunks then 0 else k)
  pub full : (i : ℕ) → i < k → IsFull (at b i)
  pub opened : (i : ℕ) → k ≤ i → i < b.nr_chunks → IsOpen (at b i)
  pub unused : (i : ℕ) → k < i → i < b.nr_chunks → (at b i).h ≡ 0

next_lem : (n r : ℕ) → r < n → (r + 1) % n ≡ (if r + 1 == n then 0 else r + 1)
next_lem n r h = elim (Bool-cases (r + 1 == n)) [
  | inl e ↦ rw e (let e' : r + 1 ≡ n = (==_iff (r + 1) n).0 e in rw e' (mod_self n))
  | inr e ↦ rw e (mod-eq_of_lt (ground arith))
]

pub at_index_zero : (n r : ℕ) → r < n → at_index n r 0 ≡ r
unfolding at_index
at_index_zero n r h = ground arith

pub at_index-lt : (n r i : ℕ) → r < n → i < n → at_index n r i < n
unfolding at_index
at_index-lt n r i hr hi = ground arith

pub at_index_inj : (n r i j : ℕ) → r < n → i < n → j < n → at_index n r i ≡ at_index n r j → i ≡ j
unfolding at_index
at_index_inj n r i j hr hi hj e = ground arith

-- The index behind that of offset `i`.
pub at_index_next :
    (n r i : ℕ)
    → r < n
    → i < n
    → (at_index n r i + 1) % n ≡ at_index n r (if i + 1 == n then 0 else i + 1)
unfolding at_index
at_index_next n r i hr hi = next_lem n (at_index n r i) (at_index-lt n r i hr hi) ∙ step
  where
    step :
        (if at_index n r i + 1 == n then 0 else at_index n r i + 1)
        ≡ at_index n r (if i + 1 == n then 0 else i + 1)
    step = ground arith

pub at_index_shift :
    (n r i : ℕ) → r < n → i + 1 < n → at_index n ((r + 1) % n) i ≡ at_index n r (i + 1)
unfolding at_index
at_index_shift n r i hr hi = rw (next_lem n r hr) (ground arith)

pub at_index_last : (n r : ℕ) → r < n → at_index n ((r + 1) % n) (n - 1) ≡ r
unfolding at_index
at_index_last n r hr = rw (next_lem n r hr) (ground arith)

module _ {b : Buffer} {k : ℕ} (v : IsRing b k) where
  -- A write at offset `j` is seen at that offset alone.
  pub at-put :
      (c : Chunk) (j i : ℕ)
      → j < b.nr_chunks
      → i < b.nr_chunks
      → put_chunk b.chunks (at_index b.nr_chunks b.ridx j) c (at_index b.nr_chunks b.ridx i)
        ≡ (if i == j then c else at b i)
  at-put c j i hj hi = ground (arith, at_index_inj b.nr_chunks b.ridx i j v.ridx_in hi hj)

  -- The chunk at `widx` is the first that is not filled.
  pub widx-open : k < b.nr_chunks → b.widx ≡ at_index b.nr_chunks b.ridx k
  widx-open h = v.widx_at ∙ ap (at_index b.nr_chunks b.ridx) (ground arith)

  -- The chunk at `ridx`.
  pub at-zero : at b 0 ≡ b.chunks b.ridx
  at-zero = ap b.chunks (at_index_zero b.nr_chunks b.ridx v.ridx_in)
