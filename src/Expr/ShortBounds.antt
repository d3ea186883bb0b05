-- ===== src/Expr/ShortBounds.antt =====
-- Each round of `expand_short_expr` of app/expr.c keeps to the stacks of Expr/Stack and to the bytes that
-- it may write.
use graceful_music.Common.{
  ℕ, suc, ◌+◌, ◌*◌, ◌≤◌, ◌<◌, ◌≡◌, refl, ap, inl, inr, Bool, true, ◌&&◌, ◌||◌, not, Option, none,
  some, List, [], ◌∷◌, ◌++◌, arith, leb, ◌==◌, leb→le, Bool-cases, length, length-append, ℤ, pos,
  ◌+ℤ◌, ◌-ℤ◌, ltb_ℤ, codes, isdigit, bind,
}
use graceful_music.Expr.{
  ExprType, type_and, type_or, type_not, type_str, type_int, type_id, type_bool,
}
use graceful_music.Expr.Short.{
  in_int, expect_str, in_quote_str, state_number, stack4_push, stack4_pop, stack4_replace_top,
  Short, Round, push_state, pop_state, replace_state, write, write_key, next, again, add_digit,
  clear_num, in_top, with_type, in_expect_int, in_mem_int, in_second_int, strip_spaces, ends_str,
  in_in_str, step_in,
}
use graceful_music.Expr.Stack.{
  v_expect_int, v_in_int, v_mem_int, v_in_2nd_int, v_expect_str, v_in_quote_str, v_in_str, Phase,
  at_top, before_top, before_op, at_key, behind_flag, before_int, before_str, at_value, word,
  value_cost, cost, rounds_of, vars, IsRound, write-ok, write_key-ok, IsNext, Runs, runs, stops,
  overflows, Runs-if,
}
use graceful_music.Expr.Lookup.{is_value_type}

-- A round leads to a phase.
pub to_phase :
    (size len n : ℕ) (p q : Phase) (out num : List ℕ) (level : ℤ) (key : List ℕ) (w : ℕ)
    → w ≡ word q
    → length out + cost q (length num) ≤ 7 * suc n
    → length key ≤ 11
    → Runs size len (IsRound size n p) (next (vars size out num level key w))
to_phase size len n p q out num level key w e h k =
    runs (q, (out, num, level, key, ap (vars size out num level key) e, h, k))

-- A round leaves the character to a phase.
pub back_to :
    (size len n : ℕ) (p q : Phase) (out num : List ℕ) (level : ℤ) (key : List ℕ) (w : ℕ)
    → w ≡ word q
    → rounds_of q < rounds_of p
    → length out + cost q (length num) ≤ 7 * n
    → length key ≤ 11
    → Runs size len (IsRound size n p) (again (vars size out num level key w))
back_to size len n p q out num level key w e r h k =
    runs (q, r, (out, num, level, key, ap (vars size out num level key) e, h, k))

pub write_then :
    {Q : Bool × Short → Type 0} (size len : ℕ) (out num : List ℕ) (level : ℤ) (key : List ℕ) (w : ℕ)
    (bytes : List ℕ) (f : Short → Round)
    → length out + length bytes ≤ 7 * len + 1
    → Runs size len Q (f (vars size (out ++ bytes) num level key w))
    → Runs size len Q (bind (write bytes (vars size out num level key w)) f)
unfolding write
write_then size len out num level key w bytes f h y =
    elim (Bool-cases (leb (length out + length bytes) size)) [
      | inl t ↦ rw (write-ok bytes (vars size out num level key w) (leb→le _ size t)) y
      | inr t ↦ rw (write, t) (overflows (ground arith))
    ]

length-strip_spaces : (s : List ℕ) → length (strip_spaces s) ≤ length s
unfolding strip_spaces
length-strip_spaces [] = omega arith
length-strip_spaces (c ∷ s) = ground (arith, length-strip_spaces s)

pub write_key_then :
    {Q : Bool × Short → Type 0} (size len : ℕ) (out num : List ℕ) (level : ℤ) (key : List ℕ) (w : ℕ)
    (f : Short → Round)
    → length out + length key + 1 ≤ 7 * len + 1
    → Runs size len Q (f (vars size (out ++ key) num level key w))
    → Runs size len Q (bind (write_key (vars size out num level key w)) f)
unfolding write_key
write_key_then size len out num level key w f h y =
    elim (Bool-cases (leb (length out + length key + 1) size)) [
      | inl t ↦ rw (write_key-ok (vars size out num level key w) (leb→le _ size t)) y
      | inr t ↦ rw (write_key, t) (overflows (ground arith))
    ]

module _ (size len n c : ℕ) (is_next : IsNext len n c) (out num : List ℕ) (level : ℤ) (key : List ℕ)
    (k : length key ≤ 11) where
  pub top-IsRound :
      length out + length num ≤ 7 * n
      → Runs size len (IsRound size n at_top) (in_top c (vars size out num level key (word at_top)))
  unfolding in_top word push_state stack4_push state_number cost
  top-IsRound h =
      Runs-if (c == b'~')
        (λ e. to_phase size len n at_top at_key out num level key _ refl (omega arith) k)
        λ _.
          Runs-if (c == b'(')
            (λ e. write_then size len out num (level +ℤ pos 1) key _ (c ∷ []) _ (ground arith) (
              to_phase size len n at_top before_top (out ++ c ∷ []) num (level +ℤ pos 1) key _ refl
                (omega (arith, length-append out (c ∷ []))) k))
            λ _.
              Runs-if (c == b'!' || c == b'|')
                (λ e. write_then size len out num level key _ (c ∷ []) _ (ground arith) (
                  to_phase size len n at_top before_top (out ++ c ∷ []) num level key _ refl
                    (omega (arith, length-append out (c ∷ []))) k))
                λ _.
                  Runs-if (c == b')')
                    (λ e.
                      write_then size len out num (level -ℤ pos 1) key _ (c ∷ []) _ (ground arith) (
                        to_phase size len n at_top before_op (out ++ c ∷ []) num (level -ℤ pos 1)
                          key _ refl (omega (arith, length-append out (c ∷ []))) k))
                    λ _.
                      Runs-if (c == 0)
                        (λ e.
                          Runs-if (ltb_ℤ (pos 0) level) (λ _. stops)
                            λ _. write_then size len out num level key _ (c ∷ []) _ (ground arith) (
                              to_phase size len n at_top at_top (out ++ c ∷ []) num level key _ refl
                                (omega (arith, length-append out (c ∷ []))) k))
                        λ _. stops

  pub with_type-IsRound :
      (type : Option ExprType)
      → is_value_type type ≡ true
      → n < len
      → length out + (7 + length num) ≤ 7 * n
      → Runs size len (IsRound size n at_key) (with_type type (vars size out num level key 577))
  unfolding with_type word push_state stack4_push state_number cost value_cost
  with_type-IsRound (some type_int) t l h =
      write_then size len out num level key _ (b'(' ∷ []) _ (omega arith) (
        write_key_then size len (out ++ b'(' ∷ []) num level key _ _
          (omega (arith, length-append out (b'(' ∷ [])))
          (to_phase size len n at_key before_int ((out ++ b'(' ∷ []) ++ key) num level key _ refl
            (omega (arith, length-append out (b'(' ∷ []), length-append (out ++ b'(' ∷ []) key)) k))
  with_type-IsRound (some type_str) t l h =
      write_key_then size len out num level key _ _ (omega arith) (
        to_phase size len n at_key before_str (out ++ key) num level key _ refl
          (omega (arith, length-append out key)) k)
  with_type-IsRound (some type_bool) t l h =
      write_key_then size len out num level key _ _ (omega arith) (
        to_phase size len n at_key behind_flag (out ++ key) num level key _ refl
          (omega (arith, length-append out key)) k)
  with_type-IsRound (some type_and) t l h = absurd (cc)
  with_type-IsRound (some type_or) t l h = absurd (cc)
  with_type-IsRound (some type_not) t l h = absurd (cc)
  with_type-IsRound (some type_id) t l h = absurd (cc)
  with_type-IsRound none t l h = absurd (cc)

  pub expect_int-IsRound :
      length out + (2 + length num) ≤ 7 * n
      → Runs size len
          (IsRound size n (at_value v_expect_int))
          (in_expect_int c (vars size out num level key 9237))
  unfolding in_expect_int word replace_state stack4_replace_top state_number cost value_cost
      add_digit
  expect_int-IsRound h =
      Runs-if (c == b'<' || c == b'>')
        (λ e. write_then size len out num level key _ (c ∷ []) _ (ground arith) (
          to_phase size len n (at_value v_expect_int) (at_value v_in_int) (out ++ c ∷ []) num level
            key _ refl (omega (arith, length-append out (c ∷ []))) k))
        λ _.
          Runs-if (c == b'-')
            (λ e. write_then size len out num level key _ (codes "<=") _ (ground arith) (
              to_phase size len n (at_value v_expect_int) (at_value v_in_int) (out ++ codes "<=")
                num level key _ refl (omega (arith, length-append out (codes "<="))) k))
            λ _.
              Runs-if (isdigit c)
                (λ e.
                  to_phase size len n (at_value v_expect_int) (at_value v_mem_int) out
                    (num ++ c ∷ []) level key _ refl (omega (arith, length-append num (c ∷ []))) k)
                λ _. stops

  pub in_int-IsRound :
      length out + (2 + length num) ≤ 7 * n
      → Runs size len
          (IsRound size n (at_value v_in_int))
          (step_in in_int 0 c (vars size out num level key 9238))
  unfolding step_in word pop_state stack4_pop state_number cost value_cost rounds_of
  in_int-IsRound h =
      Runs-if (isdigit c)
        (λ e. write_then size len out num level key _ (c ∷ []) _ (ground arith) (
          to_phase size len n (at_value v_in_int) (at_value v_in_int) (out ++ c ∷ []) num level key
            _ refl (omega (arith, length-append out (c ∷ []))) k))
        λ _. write_then size len out num level key _ (b')' ∷ []) _ (ground arith) (
          back_to size len n (at_value v_in_int) before_op (out ++ b')' ∷ []) num level key _ refl
            (omega arith) (omega (arith, length-append out (b')' ∷ []))) k)

  pub mem_int-IsRound :
      length out + (8 + length num) ≤ 7 * n
      → Runs size len
          (IsRound size n (at_value v_mem_int))
          (in_mem_int c (vars size out num level key 9239))
  unfolding in_mem_int word pop_state stack4_pop replace_state stack4_replace_top state_number cost
      value_cost rounds_of add_digit clear_num
  mem_int-IsRound h =
      Runs-if (isdigit c)
        (λ e.
          to_phase size len n (at_value v_mem_int) (at_value v_mem_int) out (num ++ c ∷ []) level
            key _ refl (omega (arith, length-append num (c ∷ []))) k)
        λ _.
          Runs-if (c == b'-')
            (λ e. write_then size len out num level key _ (codes ">=") _ (ground arith) (
              write_then size len (out ++ codes ">=") num level key _ num _
                (ground (arith, length-append out (codes ">=")))
                (to_phase size len n (at_value v_mem_int) (at_value v_in_2nd_int)
                  ((out ++ codes ">=") ++ num) [] level key _ refl
                  (omega
                    (arith, length-append out (codes ">="), length-append (out ++ codes ">=") num))
                  k)))
            λ _. write_then size len out num level key _ (b'=' ∷ []) _ (ground arith) (
              write_then size len (out ++ b'=' ∷ []) num level key _ num _
                (ground (arith, length-append out (b'=' ∷ [])))
                (write_then size len ((out ++ b'=' ∷ []) ++ num) [] level key _ (b')' ∷ []) _
                  (ground
                    (arith, length-append out (b'=' ∷ []), length-append (out ++ b'=' ∷ []) num))
                  (back_to size len n (at_value v_mem_int) before_op
                    (((out ++ b'=' ∷ []) ++ num) ++ b')' ∷ []) [] level key _ refl (omega arith)
                    (omega (
                      arith,
                      length-append out (b'=' ∷ []),
                      length-append (out ++ b'=' ∷ []) num,
                      length-append ((out ++ b'=' ∷ []) ++ num) (b')' ∷ []),
                    ))
                    k)))

  pub second_int-IsRound :
      length out + (13 + 7 * length num) ≤ 7 * n
      → Runs size len
          (IsRound size n (at_value v_in_2nd_int))
          (in_second_int c (vars size out num level key 9240))
  unfolding in_second_int word pop_state stack4_pop state_number cost value_cost rounds_of add_digit
  second_int-IsRound h =
      Runs-if (isdigit c)
        (λ e.
          to_phase size len n (at_value v_in_2nd_int) (at_value v_in_2nd_int) out (num ++ c ∷ [])
            level key _ refl (omega (arith, length-append num (c ∷ []))) k)
        λ _.
          Runs-if (length num == 0)
            (λ e. write_then size len out num level key _ (b')' ∷ []) _ (ground arith) (
              back_to size len n (at_value v_in_2nd_int) before_op (out ++ b')' ∷ []) num level key
                _ refl (omega arith) (omega (arith, length-append out (b')' ∷ []))) k))
            λ e.
              let some_digits : 0 < length num = ground arith in
              let out₁ : List ℕ = out ++ b'&' ∷ [] in
              let out₂ : List ℕ = out₁ ++ key in
              let out₃ : List ℕ = out₂ ++ codes "<=" in
              let out₄ : List ℕ = out₃ ++ num in
              let l₁ = length-append out (b'&' ∷ []) in
              let l₂ = length-append out₁ key in
              let l₃ = length-append out₂ (codes "<=") in
              let l₄ = length-append out₃ num in
              write_then size len out num level key _ (b'&' ∷ []) _ (ground arith) (
                write_key_then size len out₁ num level key _ _ (ground (arith, l₁)) (
                  write_then size len out₂ num level key _ (codes "<=") _ (ground (arith, l₁, l₂)) (
                    write_then size len out₃ num level key _ num _ (ground (arith, l₁, l₂, l₃)) (
                      write_then size len out₄ num level key _ (b')' ∷ []) _
                        (ground (arith, l₁, l₂, l₃, l₄))
                        (back_to size len n (at_value v_in_2nd_int) before_op (out₄ ++ b')' ∷ [])
                          num level key _ refl (omega arith)
                          (omega (arith, l₁, l₂, l₃, l₄, length-append out₄ (b')' ∷ []))) k)))))

  pub expect_str-IsRound :
      length out + (3 + length num) ≤ 7 * n
      → Runs size len
          (IsRound size n (at_value v_expect_str))
          (step_in expect_str 0 c (vars size out num level key 9241))
  unfolding step_in word replace_state stack4_replace_top state_number cost value_cost
  expect_str-IsRound h =
      Runs-if (c == b'"')
        (λ e. write_then size len out num level key _ (codes "=\"") _ (ground arith) (
          to_phase size len n (at_value v_expect_str) (at_value v_in_quote_str) (out ++ codes "=\"")
            num level key _ refl (omega (arith, length-append out (codes "=\""))) k))
        λ _. write_then size len out num level key _ (codes "=\"*" ++ c ∷ []) _ (ground arith) (
          to_phase size len n (at_value v_expect_str) (at_value v_in_str)
            (out ++ (codes "=\"*" ++ c ∷ [])) num level key _ refl
            (omega (arith, length-append out (codes "=\"*" ++ c ∷ []))) k)

  pub quote_str-IsRound :
      (prev : ℕ)
      → length out + (1 + length num) ≤ 7 * n
      → Runs size len
          (IsRound size n (at_value v_in_quote_str))
          (step_in in_quote_str prev c (vars size out num level key 9242))
  unfolding step_in word pop_state stack4_pop state_number cost value_cost
  quote_str-IsRound prev h = elim (Bool-cases (c == b'"' && not (prev == b'\\'))) [
    | inl e ↦ rw e (
        write_then size len out num level key _ (c ∷ []) _ (ground arith) (
          to_phase size len n (at_value v_in_quote_str) before_op (out ++ c ∷ []) num level key _
            refl (omega (arith, length-append out (c ∷ []))) k))
    | inr e ↦ rw e (
        write_then size len out num level key _ (c ∷ []) _ (ground arith) (
          to_phase size len n (at_value v_in_quote_str) (at_value v_in_quote_str) (out ++ c ∷ [])
            num level key _ refl (omega (arith, length-append out (c ∷ []))) k))
  ]

  pub in_str-IsRound :
      length out + (3 + length num) ≤ 7 * n
      → Runs size len
          (IsRound size n (at_value v_in_str))
          (in_in_str c (vars size out num level key 9243))
  unfolding in_in_str word pop_state stack4_pop state_number cost value_cost rounds_of
  in_str-IsRound h =
      let l = length-strip_spaces out in
      Runs-if (ends_str c)
        (λ e.
          write_then size len (strip_spaces out) num level key _ (codes "*\"") _ (ground (arith, l))
            (back_to size len n (at_value v_in_str) before_op (strip_spaces out ++ codes "*\"") num
              level key _ refl (omega arith)
              (omega (arith, l, length-append (strip_spaces out) (codes "*\""))) k))
        λ e. write_then size len out num level key _ (c ∷ []) _ (ground arith) (
          to_phase size len n (at_value v_in_str) (at_value v_in_str) (out ++ c ∷ []) num level key
            _ refl (omega (arith, length-append out (c ∷ []))) k)
