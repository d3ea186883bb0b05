-- ===== src/History/Lines.antt =====
-- The lines that app/history.c keeps, and the search that an added line leaves behind.
use graceful_music.Common.{
  ℕ, zero, suc, ◌+◌, ◌-◌, ◌≤◌, ◌≡◌, refl, sym, ap, ◌∙◌, ◌≢◌, inl, inr, Bool, true, false, ◌&&◌,
  ◌||◌, not, none, some, List, [], ◌∷◌, arith, ltb, ◌==◌, if◌then◌else◌, Bool-cases, length, take,
  length-take, take-all, beq_of_ne,
}
use graceful_music.History.{
  Entry, History, same_text, remove_identical, drop_last, remove_oldest, history_add_line,
  behind_node, forward_start, history_search_forward,
}

-- `lines` counts the entries, and there are at most `max_lines`.
pub record IsHistory (h : History) : Type 0 where
  pub counted : h.lines ≡ length h.entries
  pub bounded : h.lines ≤ h.max_lines

-- The entries whose text differs from a new line, in their order.
unfoldable pub others : List ℕ → List Entry → List Entry
others line [] = []
others line (e ∷ entries) =
    let rest = others line entries in if same_text e.text line then rest else e ∷ rest

remove_identical_lem :
    (line : List ℕ) (l : List Entry)
    → ((remove_identical line l).0 ≡ others line l)
      × (length (others line l) + (remove_identical line l).1 ≡ length l)
unfolding remove_identical others
remove_identical_lem line [] = (refl, refl)
remove_identical_lem line (e ∷ l) =
    let (same, count) = remove_identical_lem line l in
    elim (Bool-cases (same_text e.text line)) [
      | inl t ↦ rw t (same, omega (arith, count))
      | inr f ↦ rw f (ap (λ (m : List Entry). e ∷ m) same, omega (arith, count))
    ]

drop_last-take : (n : ℕ) (l : List Entry) → length l ≡ suc n → drop_last l ≡ take n l
unfolding drop_last
drop_last-take n [] h = absurd (omega (arith, h))
drop_last-take zero (e ∷ []) h = refl
drop_last-take (suc n) (e ∷ []) h = absurd (omega (arith, h))
drop_last-take zero (e ∷ f ∷ l) h = absurd (omega (arith, h))
drop_last-take (suc n) (e ∷ f ∷ l) h =
    ap (λ (m : List Entry). e ∷ m) (drop_last-take n (f ∷ l) (omega (arith, h)))

-- The end of `history_add_line` with at most one entry too many.
remove_oldest_lem :
    (h : History)
    → h.lines ≡ length h.entries
    → h.lines ≤ suc h.max_lines
    → IsHistory (remove_oldest h) × ((remove_oldest h).entries ≡ take h.max_lines h.entries)
unfolding remove_oldest
remove_oldest_lem h counted small = elim (Bool-cases (ltb h.max_lines h.lines)) [
  | inl t ↦
      let full : length h.entries ≡ suc h.max_lines = ground (arith, counted, small) in
      let cut = drop_last-take h.max_lines h.entries full in
      rw (t, cut)
        (
          record {
            counted = omega (arith, length-take h.max_lines h.entries, full, counted);
            bounded = omega (arith, full, counted);
          },
          refl,
        )
  | inr f ↦ rw f (
    record { counted = counted; bounded = ground arith },
    sym (take-all h.max_lines h.entries (ground (arith, counted))),
  )
]

-- `history_add_line`: the new line comes first, then the old ones that differ from it in their order, and
-- of these at most `max_lines` are kept; `lines` counts them.
pub history_add_line_lem :
    (new : Entry) (h : History)
    → IsHistory h
    → IsHistory (history_add_line new h)
      × ((history_add_line new h).entries ≡ take h.max_lines (new ∷ others new.text h.entries))
unfolding history_add_line
history_add_line_lem new h v =
    let (same, count) = remove_identical_lem new.text h.entries in
    let r = remove_identical new.text h.entries in
    rw same (
      remove_oldest_lem
        (record h { entries = new ∷ others new.text h.entries; lines = h.lines + 1 - r.1 })
        (omega (arith, count, v.counted)) (omega (arith, v.bounded)))

-- The entry at an address has the given text.
unfoldable pub only_at : (p : ℕ) (line : List ℕ) → List Entry → Bool
only_at p line [] = true
only_at p line (e ∷ l) = (not (e.node == p) || same_text e.text line) && only_at p line l

behind_node-others :
    (p : ℕ) (line : List ℕ) (l : List Entry)
    → only_at p line l ≡ true
    → behind_node p (others line l) ≡ none
unfolding only_at behind_node others
behind_node-others p line [] h = refl
behind_node-others p line (e ∷ l) h =
    let rest = behind_node-others p line l (ground arith) in
    elim (Bool-cases (same_text e.text line)) [
      | inl t ↦ rw t rest
      | inr f ↦ let other : (e.node == p) ≡ false = ground arith in rw (f, other) rest
    ]

behind_node-take :
    (p n : ℕ) (l : List Entry) → behind_node p l ≡ none → behind_node p (take n l) ≡ none
unfolding behind_node
behind_node-take p zero l h = refl
behind_node-take p (suc n) [] h = refl
behind_node-take p (suc n) (e ∷ l) h = elim (Bool-cases (e.node == p)) [
  | inl t ↦ absurd (ground arith)
  | inr f ↦ rw f (behind_node-take p n l (rw f at h))
]

behind_node-new :
    (p : ℕ) (new : Entry) (l : List Entry)
    → behind_node p l ≡ none
    → new.node ≢ p
    → behind_node p (new ∷ l) ≡ none
unfolding behind_node
behind_node-new p new l gone fresh = rw (beq_of_ne new.node p fresh) gone

search_forward-stale :
    (text : List ℕ) (h : History) (p : ℕ)
    → h.search_pos ≡ some p
    → behind_node p h.entries ≡ none
    → history_search_forward text h ≡ none
unfolding history_search_forward forward_start
search_forward-stale text h p found gone = ground (arith, found, gone)

search_pos-add_line :
    (new : Entry) (h : History) → (history_add_line new h).search_pos ≡ h.search_pos
unfolding history_add_line remove_oldest
search_pos-add_line new h = ground arith

-- `history_add_line` of the line that the search has found, with no reset of the search behind it, as
-- when the mouse leaves the command line: the entry at `search_pos` is freed, and the next
-- `history_search_forward` follows the pointer.
pub history_add_line-dangling :
    (new : Entry) (h : History) (p : ℕ) (text : List ℕ)
    → IsHistory h
    → h.search_pos ≡ some p
    → new.node ≢ p
    → only_at p new.text h.entries ≡ true
    → history_search_forward text (history_add_line new h) ≡ none
history_add_line-dangling new h p text v found fresh there =
    let l = others new.text h.entries in
    let gone = behind_node-new p new l (behind_node-others p new.text h.entries there) fresh in
    search_forward-stale text (history_add_line new h) p (search_pos-add_line new h ∙ found) (
      ap (behind_node p) (history_add_line_lem new h v).1
      ∙ behind_node-take p h.max_lines (new ∷ l) gone)
