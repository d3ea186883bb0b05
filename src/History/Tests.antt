-- ===== src/History/Tests.antt =====
-- The functions of app/history.c on short histories, and the theorems at concrete inputs.
use graceful_music.Common.{◌≡◌, refl, none, some, [], ◌∷◌, arith}
use graceful_music.History.{
  Entry, History, same_text, has_prefix, history_add_tail, add_lines, history_load,
  history_add_line, front_of_node, search_loop, forward_start, history_search_forward,
  history_search_backward,
}
use graceful_music.History.Lines.{
  IsHistory, others, history_add_line_lem, only_at, history_add_line-dangling,
}

abbrev ab : Entry
ab = record { node = 1; text = 97 ∷ 98 ∷ [] }

abbrev ac : Entry
ac = record { node = 2; text = 97 ∷ 99 ∷ [] }

abbrev ac_again : Entry
ac_again = record { node = 3; text = 97 ∷ 99 ∷ [] }

abbrev two_lines : History
two_lines = record { entries = ab ∷ ac ∷ []; search_pos = none; max_lines = 2; lines = 2 }

loaded : history_load (ab ∷ ac ∷ ac_again ∷ []) 2 ≡ two_lines
unfolding history_load add_lines history_add_tail
loaded = refl

-- The first line that begins with "ac", and the one in front of it that begins with "a".
forward_and_back :
    (history_search_forward (97 ∷ 99 ∷ []) two_lines
      ≡ some (some (97 ∷ 99 ∷ []), record two_lines { search_pos = some 2 }))
    × (history_search_backward (97 ∷ []) (record two_lines { search_pos = some 2 })
        ≡ some (some (97 ∷ 98 ∷ []), record two_lines { search_pos = some 1 }))
unfolding history_search_forward forward_start search_loop has_prefix history_search_backward
    front_of_node
forward_and_back = (refl, refl)

two_lines-IsHistory : IsHistory two_lines
two_lines-IsHistory = record { counted = refl; bounded = omega arith }

history_add_line_lem_example :
    IsHistory (history_add_line ac_again two_lines)
    × ((history_add_line ac_again two_lines).entries ≡ ac_again ∷ ab ∷ [])
unfolding others same_text
history_add_line_lem_example = history_add_line_lem ac_again two_lines two_lines-IsHistory

history_add_line-dangling_example :
    history_search_forward
      (97 ∷ [])
      (history_add_line ac_again (record two_lines { search_pos = some 2 }))
    ≡ none
unfolding only_at same_text
history_add_line-dangling_example =
    history_add_line-dangling ac_again (record two_lines { search_pos = some 2 }) 2 (97 ∷ [])
      (record { counted = refl; bounded = omega arith }) refl (omega arith) refl
