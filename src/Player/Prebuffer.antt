-- ===== src/Player/Prebuffer.antt =====
-- `_prebuffer` of app/player.c fills the buffer without meeting a BUG_ON, if it has chunks enough.
use graceful_music.Common.{
  ℕ, suc, ◌≤◌, ◌<◌, ◌≡◌, sym, ap, ◌∙◌, subst, inl, inr, Bool, false, some, List, [], ◌∷◌, arith,
  leb, ◌==◌, Bool-cases, length, take, length-take, beq_of_ne,
}
use graceful_music.Buffer.{Buffer, get_wpos, get_filled_chunks, store_wpos}
use graceful_music.Buffer.Ring.{IsRing}
use graceful_music.Buffer.Count.{get_filled_chunks-IsRing}
use graceful_music.Buffer.Fifo.{HasData, get_wpos-room, produce_lem}
use graceful_music.Buffer.Trace.{store-HasData, fill-HasData, nr_chunks-fill, nr_chunks-store}
use graceful_music.Player.State.{Read, delivers, again, fails, ◌>>=◌}
use graceful_music.Player.Producer.{prebuffer_read, prebuffer_loop}
use native.Mathlib.Bridge.{le_prop}

-- A buffer in use, with its number of chunks.
pub record IsReady (nr : ℕ) (b : Buffer) : Type 0 where
  pub ring : IsRing b (get_filled_chunks b)
  pub sizes : HasData b
  pub nr_chunks : b.nr_chunks ≡ nr

pub IsReady-of_ring :
    {nr k : ℕ} {b : Buffer} → IsRing b k → HasData b → b.nr_chunks ≡ nr → IsReady nr b
IsReady-of_ring {b} v sizes e = record {
  ring = subst (IsRing b) (sym (get_filled_chunks-IsRing v)) v;
  sizes = sizes;
  nr_chunks = e;
}

module _ {nr : ℕ} {b : Buffer} (v : IsReady nr b) where
  room-true : get_filled_chunks b < nr → ((get_wpos b).0 == 0) ≡ false
  room-true h =
      let room = get_wpos-room v.ring (omega (arith, v.nr_chunks)) in ground (arith, room.1)

  -- One read with a chunk free: the bytes that fit are stored.
  pub read-IsReady :
      (bytes : List ℕ)
      → get_filled_chunks b < nr
      → (r : Bool × Buffer) × (prebuffer_read b bytes ≡ some r) × IsReady nr r.1
  unfolding prebuffer_read
  read-IsReady bytes h =
      let k_in : get_filled_chunks b < b.nr_chunks = omega (arith, v.nr_chunks) in
      let size = (get_wpos b).0 in
      let new = take size bytes in
      let fits : length new ≤ size = omega (arith, length-take size bytes) in
      let room : 0 < size = omega (arith, (get_wpos-room v.ring k_in).1) in
      let (r, e, ring, _) = produce_lem v.ring k_in new v.sizes fits in
      (
        r,
        rw (room-true h) e,
        IsReady-of_ring ring
            (fill-HasData (store_wpos b new) r.1 (length new)
              (store-HasData b new v.sizes fits room) e)
            (nr_chunks-fill (store_wpos b new) r.1 (length new) e
              ∙ nr_chunks-store b new
              ∙ v.nr_chunks),
      )

-- What the loop needs: it ends, BUG_ON is not met, and the buffer stays in use.
abbrev pub Fills : ℕ → ℕ → List Read → Buffer → Type 0
Fills nr limit reads b = (b' : Buffer) × (prebuffer_loop limit reads b ≡ some b') × IsReady nr b'

module _ (nr limit : ℕ) (enough : limit ≤ nr) where
  last-Fills :
      {b : Buffer} (v : IsReady nr b)
      → leb limit (get_filled_chunks b) ≡ false
      → (b' : Buffer) × ((prebuffer_read b [] >>= λ r. some r.1) ≡ some b') × IsReady nr b'
  last-Fills v more =
      let (r, e, ready) = read-IsReady v [] (ground arith) in
      (r.1, ap (λ o. o >>= λ r. some r.1) e, ready)

  pub loop-Fills : (reads : List Read) {b : Buffer} → IsReady nr b → Fills nr limit reads b
  unfolding prebuffer_loop
  loop-Fills [] {b} v = elim (Bool-cases (leb limit (get_filled_chunks b))) [
    | inl t ↦ (b, rw t, v)
    | inr f ↦ let (b', e, ready) = last-Fills v f in (b', rw f e, ready)
  ]
  loop-Fills (fails ∷ rest) {b} v = elim (Bool-cases (leb limit (get_filled_chunks b))) [
    | inl t ↦ (b, rw t, v)
    | inr f ↦ let (b', e, ready) = last-Fills v f in (b', rw f e, ready)
  ]
  loop-Fills (again ∷ rest) {b} v =
      let (b', e, ready) = loop-Fills rest v in
      elim (Bool-cases (leb limit (get_filled_chunks b))) [
        | inl t ↦ (b, rw t, v)
        | inr f ↦ (b', rw (f, room-true v (ground arith)) e, ready)
      ]
  loop-Fills (delivers [] ∷ rest) {b} v = elim (Bool-cases (leb limit (get_filled_chunks b))) [
    | inl t ↦ (b, rw t, v)
    | inr f ↦ let (b', e, ready) = last-Fills v f in (b', rw f e, ready)
  ]
  loop-Fills (delivers (x ∷ xs) ∷ rest) {b} v =
      elim (Bool-cases (leb limit (get_filled_chunks b))) [
        | inl t ↦ (b, rw t, v)
        | inr f ↦
            let (r, e, ready) = read-IsReady v (x ∷ xs) (ground arith) in
            let (b', e', ready') = loop-Fills rest ready in
            (b', rw (f, beq_of_ne (suc (length xs)) 0 (omega arith), e) e', ready')
      ]

pub IsReady-prop : (nr : ℕ) (b : Buffer) → IsProp (IsReady nr b)
IsReady-prop nr b = hlevel (le_prop)
