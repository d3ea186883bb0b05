-- ===== src/History.antt =====
-- The history of typed lines: app/history.c. The list has the entries from the newest on.
-- A pointer to an entry is its address, a number; a search from an entry that was freed is `none`.
pub mod Lines
mod Tests
use graceful_music.Common.{
  ℕ, zero, suc, ◌+◌, ◌-◌, ◌*◌, ◌/◌, ◌%◌, ◌^◌, ◌≤◌, ◌<◌, min, max, ◌≡◌, refl, sym, ap, ◌∙◌, subst,
  fun_ext, ◌≢◌, ◌↔◌, ◌⊎◌, inl, inr, Bool, true, false, ◌&&◌, ◌||◌, not, Option, none, some, List,
  [], ◌∷◌, ◌++◌, map, append-nil, append_assoc, arith, ltb, leb, ◌==◌, if◌then◌else◌, ltb→lt,
  lt→ltb, ltb→ge, leb→le, ==_iff, ==_refl, Bool-cases, Option-cases, length, get_elem?, get_or,
  take, drop, replicate, length-append, take-append-drop, length-take, length-drop,
  length-replicate, take-all, drop-drop, take-nil, drop-nil, beq_of_ne, ltb_of_ge, if_same,
  some_inj,
}

-- `struct history_entry`, with its address
pub record Entry : Type 0 where
  pub node : ℕ
  pub text : List ℕ

-- `struct history`, without the name of its file
pub record History : Type 0 where
  pub entries : List Entry
  pub search_pos : Option ℕ
  pub max_lines : ℕ
  pub lines : ℕ

-- `strcmp(a, b) == 0`
unfoldable pub same_text : List ℕ → List ℕ → Bool
same_text [] [] = true
same_text (c ∷ a) (d ∷ b) = if c == d then same_text a b else false
same_text _ _ = false

-- `strncmp(text, line, strlen(text)) == 0`
unfoldable pub has_prefix : (text line : List ℕ) → Bool
has_prefix [] line = true
has_prefix (c ∷ text) [] = false
has_prefix (c ∷ text) (d ∷ line) = if c == d then has_prefix text line else false

-- `history_add_tail`, which makes the entry `new`
unfoldable pub history_add_tail : Entry → History → History
history_add_tail new h =
    if ltb h.lines h.max_lines
    then record h { entries = h.entries ++ new ∷ []; lines = h.lines + 1 }
    else h

-- The calls of `history_add_tail` from `file_for_each_line`, for the lines of a file as entries.
unfoldable pub add_lines : List Entry → History → History
add_lines [] h = h
add_lines (new ∷ file) h = add_lines file (history_add_tail new h)

-- `history_load`
unfoldable pub history_load : List Entry → (max_lines : ℕ) → History
history_load file max_lines =
    add_lines file (record { entries = []; search_pos = none; max_lines = max_lines; lines = 0 })

-- The loop of `history_add_line` that frees the entries identical to the new one, with what it takes off
-- `lines`.
unfoldable pub remove_identical : List ℕ → List Entry → List Entry × ℕ
remove_identical line [] = ([], 0)
remove_identical line (e ∷ entries) =
    let rest = remove_identical line entries in
    if same_text e.text line then (rest.0, rest.1 + 1) else (e ∷ rest.0, rest.1)

-- The list without its last entry.
unfoldable pub drop_last : List Entry → List Entry
drop_last [] = []
drop_last (e ∷ []) = []
drop_last (e ∷ f ∷ entries) = e ∷ drop_last (f ∷ entries)

-- The end of `history_add_line`: the oldest entry goes if there are too many.
unfoldable pub remove_oldest : History → History
remove_oldest h =
    if ltb h.max_lines h.lines
    then record h { entries = drop_last h.entries; lines = h.lines - 1 }
    else h

-- `history_add_line`, which makes the entry `new` and leaves `search_pos` as it is
unfoldable pub history_add_line : Entry → History → History
history_add_line new h =
    let r = remove_identical new.text h.entries in
    remove_oldest (record h { entries = new ∷ r.0; lines = h.lines + 1 - r.1 })

-- `history_reset_search`
unfoldable pub history_reset_search : History → History
history_reset_search h = record h { search_pos = none }

-- The entries behind a node; `none` is that the node was freed.
unfoldable pub behind_node : ℕ → List Entry → Option (List Entry)
behind_node p [] = none
behind_node p (e ∷ entries) =
    let rest = behind_node p entries in if e.node == p then some entries else rest

-- The entries in front of a node, from the nearest on; `seen` are those in front of the list.
unfoldable pub front_of_node : ℕ → (seen entries : List Entry) → Option (List Entry)
front_of_node p seen [] = none
front_of_node p seen (e ∷ entries) =
    let rest = front_of_node p (e ∷ seen) entries in if e.node == p then some seen else rest

-- The loop of both searches, over the entries in the order in which they come.
unfoldable pub search_loop : List ℕ → List Entry → Option Entry
search_loop text [] = none
search_loop text (e ∷ entries) =
    let rest = search_loop text entries in if has_prefix text e.text then some e else rest

-- Where `history_search_forward` begins.
unfoldable pub forward_start : History → Option (List Entry)
forward_start h = elim h.search_pos [ none ↦ some h.entries | some p ↦ behind_node p h.entries ]

-- `history_search_forward`, with the text that it returns
unfoldable pub history_search_forward : List ℕ → History → Option (Option (List ℕ) × History)
history_search_forward text h = elim (forward_start h) [
  | none ↦ none
  | some l ↦ elim (search_loop text l) [
    | none ↦ some (none, h)
    | some e ↦ some (some e.text, record h { search_pos = some e.node })
  ]
]

-- `history_search_backward`
unfoldable pub history_search_backward : List ℕ → History → Option (Option (List ℕ) × History)
history_search_backward text h = elim h.search_pos [
  | none ↦ some (none, h)
  | some p ↦ elim (front_of_node p [] h.entries) [
    | none ↦ none
    | some l ↦ elim (search_loop text l) [
      | none ↦ some (none, record h { search_pos = none })
      | some e ↦ some (some e.text, record h { search_pos = some e.node })
    ]
  ]
]
