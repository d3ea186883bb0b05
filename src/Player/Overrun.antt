-- ===== src/Player/Overrun.antt =====
-- `_prebuffer` of app/player.c when 250 ms of sound are more than the buffer holds.
use graceful_music.Common.{
  ℕ, ◌<◌, ◌≡◌, ap, ◌∙◌, true, none, List, [], ◌∷◌, arith, if◌then◌else◌, ==_refl,
}
use graceful_music.Buffer.{Buffer, get_wpos}
use graceful_music.Buffer.Ring.{IsRing, at-zero, at_index, at_index_zero}
use graceful_music.Buffer.Count.{get_filled_chunks-IsRing}
use graceful_music.Player.State.{Read, delivers, again, fails}
use graceful_music.Player.Producer.{prebuffer_read, prebuffer_loop}

-- With every chunk filled there is no room.
wpos-full : {b : Buffer} → IsRing b b.nr_chunks → (get_wpos b).0 ≡ 0
unfolding get_wpos
wpos-full {b} v =
    let w : b.widx ≡ b.ridx =
      v.widx_at
      ∙ ap (λ t. at_index b.nr_chunks b.ridx (if t then 0 else b.nr_chunks)) (==_refl b.nr_chunks)
      ∙ at_index_zero b.nr_chunks b.ridx v.ridx_in in
    let f : (b.chunks b.ridx).filled ≡ true = rw (at-zero v) at (v.full 0 v.some_chunks).marked in
    let m : (b.chunks b.widx).filled ≡ true = ap (λ i. (b.chunks i).filled) w ∙ f in rw m

-- The loop of `_prebuffer` with all chunks filled and a limit above their number: whatever `ip_read`
-- would deliver, the program stops at BUG_ON(count <= 0).
pub prebuffer_loop-full :
    (limit : ℕ) (reads : List Read) (b : Buffer)
    → IsRing b b.nr_chunks
    → b.nr_chunks < limit
    → prebuffer_loop limit reads b ≡ none
unfolding prebuffer_loop prebuffer_read
prebuffer_loop-full limit [] b v h = ground (arith, get_filled_chunks-IsRing v, wpos-full v)
prebuffer_loop-full limit (again ∷ rest) b v h =
    ground (arith, get_filled_chunks-IsRing v, wpos-full v)
prebuffer_loop-full limit (fails ∷ rest) b v h =
    ground (arith, get_filled_chunks-IsRing v, wpos-full v)
prebuffer_loop-full limit (delivers bytes ∷ rest) b v h =
    ground (arith, get_filled_chunks-IsRing v, wpos-full v)
