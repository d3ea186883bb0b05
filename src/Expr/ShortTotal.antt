-- ===== src/Expr/ShortTotal.antt =====
-- `expand_short_expr` of app/expr.c ends on every string, without the default case of its switch, and
-- writes at most one byte more than it allocates.
use graceful_music.Common.{
  ℕ, zero, suc, ◌+◌, ◌*◌, ◌/◌, ◌≤◌, ◌<◌, ◌≡◌, refl, ◌≢◌, inl, inr, Bool, true, false, ◌||◌, some,
  List, [], ◌∷◌, ◌++◌, arith, ◌==◌, if◌then◌else◌, Option-cases, length, length-append, ℤ, pos,
  Result, bug, out_of_fuel,
}
use graceful_music.Expr.{Error}
use graceful_music.Expr.Keys.{lookup_long_key, lookup_key_type}
use graceful_music.Expr.Short.{
  skip_space, expect_op, state_number, state_of, stack4_push, stack4_pop, stack4_top,
  stack4_replace_top, Short, pop_state, replace_state, in_expect_key, step_in, run_state,
  expand_from, start_short, expand_in, expand_short_expr,
}
use graceful_music.Expr.Stack.{
  v_expect_int, v_in_int, v_mem_int, v_in_2nd_int, v_expect_str, v_in_quote_str, v_in_str, Phase,
  at_top, before_top, at_op, before_op, at_key, behind_flag, before_int, before_str, at_value, word,
  value_cost, cost, value_rounds, rounds_of, vars, IsAt, Follows, IsRound, IsNext, Runs, runs,
  stops, Runs-if, Runs-bind, Runs-out_of_fuel, Runs-bug,
}
use graceful_music.Expr.Lookup.{lookup_long_key_fits, lookup_long_key-zero}
use graceful_music.Expr.ShortBounds.{
  to_phase, back_to, write_then, top-IsRound, with_type-IsRound, expect_int-IsRound, in_int-IsRound,
  mem_int-IsRound, second_int-IsRound, expect_str-IsRound, quote_str-IsRound, in_str-IsRound,
}

module _ (size len n c : ℕ) (is_next : IsNext len n c) (out num : List ℕ) (level : ℤ) (key : List ℕ)
    (k : length key ≤ 11) where
  key-IsRound :
      length out + (7 + length num) ≤ 7 * n
      → Runs size len (IsRound size n at_key) (in_expect_key c (vars size out num level key 9235))
  unfolding in_expect_key pop_state stack4_pop
  key-IsRound h = elim (Option-cases (lookup_long_key c)) [
    | inl e ↦ rw (in_expect_key, e) stops
    | inr (long, e) ↦
        let fit = lookup_long_key_fits c long e in
        rw (in_expect_key, e)
          (with_type-IsRound size len n c is_next out num level long fit.0 (lookup_key_type long)
            fit.1 (taken is_next e) h)
  ]
    where
      taken : {long : List ℕ} → IsNext len n c → lookup_long_key c ≡ some long → n < len
      taken (inl lt) e = lt
      taken (inr (_, z)) e = absurd (cc (z, e, lookup_long_key-zero))

  op-IsRound :
      length out + (1 + length num) ≤ 7 * n
      → Runs size len
          (IsRound size n at_op)
          (step_in expect_op 0 c (vars size out num level key 36))
  unfolding step_in word replace_state stack4_replace_top state_number cost rounds_of
  op-IsRound h =
      Runs-if (c == b'~' || c == b'(' || c == b'!')
        (λ e. write_then size len out num level key _ (b'&' ∷ []) _ (ground arith) (
          back_to size len n at_op before_top (out ++ b'&' ∷ []) num level key _ refl (omega arith)
            (omega (arith, length-append out (b'&' ∷ []))) k))
        λ _.
          back_to size len n at_op before_top out num level key _ refl (omega arith) (omega arith) k

  -- ST_SKIP_SPACE above another state
  skip-IsRound :
      (p q : Phase) (prev w : ℕ)
      → w ≡ word p
      → w / 16 ≡ word q
      → rounds_of q < rounds_of p
      → cost q (length num) ≤ cost p (length num)
      → length out + cost p (length num) ≤ 7 * n
      → Runs size len (IsRound size n p) (step_in skip_space prev c (vars size out num level key w))
  unfolding step_in pop_state stack4_pop
  skip-IsRound p q prev w e f r l h =
      Runs-if (c == b' ') (λ _. to_phase size len n p p out num level key w e (omega arith) k)
        λ _. back_to size len n p q out num level key (w / 16) f r (omega arith) k

  run_state-IsRound :
      (p : Phase) (prev : ℕ)
      → length out + cost p (length num) ≤ 7 * n
      → Runs size len (IsRound size n p) (run_state prev c (vars size out num level key (word p)))
  unfolding run_state state_of stack4_top word cost value_cost rounds_of value_rounds step_in
  run_state-IsRound at_top prev h = top-IsRound size len n c is_next out num level key k h
  run_state-IsRound before_top prev h =
      skip-IsRound before_top at_top prev 33 refl refl (omega arith) (omega arith) h
  run_state-IsRound at_op prev h = op-IsRound h
  run_state-IsRound before_op prev h =
      skip-IsRound before_op at_op prev 577 refl refl (omega arith) (omega arith) h
  run_state-IsRound at_key prev h = key-IsRound h
  run_state-IsRound behind_flag prev h =
      skip-IsRound behind_flag before_op prev 9233 refl refl (omega arith) (omega arith) h
  run_state-IsRound (at_value v_expect_int) prev h =
      expect_int-IsRound size len n c is_next out num level key k h
  run_state-IsRound (at_value v_in_int) prev h =
      in_int-IsRound size len n c is_next out num level key k h
  run_state-IsRound (at_value v_mem_int) prev h =
      mem_int-IsRound size len n c is_next out num level key k h
  run_state-IsRound (at_value v_in_2nd_int) prev h =
      second_int-IsRound size len n c is_next out num level key k h
  run_state-IsRound (at_value v_expect_str) prev h =
      expect_str-IsRound size len n c is_next out num level key k h
  run_state-IsRound (at_value v_in_quote_str) prev h =
      quote_str-IsRound size len n c is_next out num level key k prev h
  run_state-IsRound (at_value v_in_str) prev h =
      in_str-IsRound size len n c is_next out num level key k h
  run_state-IsRound before_int prev h =
      skip-IsRound before_int (at_value v_expect_int) prev 147793 refl refl (omega arith)
        (omega arith) h
  run_state-IsRound before_str prev h =
      skip-IsRound before_str (at_value v_expect_str) prev 147857 refl refl (omega arith)
        (omega arith) h

rounds_of-bounds : (p : Phase) → (0 < rounds_of p) × (rounds_of p ≤ 5)
unfolding rounds_of value_rounds
rounds_of-bounds at_top = (omega arith, omega arith)
rounds_of-bounds before_top = (omega arith, omega arith)
rounds_of-bounds at_op = (omega arith, omega arith)
rounds_of-bounds before_op = (omega arith, omega arith)
rounds_of-bounds at_key = (omega arith, omega arith)
rounds_of-bounds behind_flag = (omega arith, omega arith)
rounds_of-bounds before_int = (omega arith, omega arith)
rounds_of-bounds before_str = (omega arith, omega arith)
rounds_of-bounds (at_value v_expect_int) = (omega arith, omega arith)
rounds_of-bounds (at_value v_in_int) = (omega arith, omega arith)
rounds_of-bounds (at_value v_mem_int) = (omega arith, omega arith)
rounds_of-bounds (at_value v_in_2nd_int) = (omega arith, omega arith)
rounds_of-bounds (at_value v_expect_str) = (omega arith, omega arith)
rounds_of-bounds (at_value v_in_quote_str) = (omega arith, omega arith)
rounds_of-bounds (at_value v_in_str) = (omega arith, omega arith)

abbrev Ends : {A : Type 0} → A → Type 0
Ends a = 0 ≤ 0

IsNext-zero : (len n : ℕ) → n + 0 ≡ len → IsNext len n 0
IsNext-zero len n e = inr (omega arith, refl)

IsNext-more : (len n c : ℕ) (rest : List ℕ) → n + length (c ∷ rest) ≡ len → IsNext len n c
IsNext-more len n c rest e = inl (omega arith)

-- What follows a round is enough for both outcomes.
resume :
    (size len n : ℕ) (p : Phase) (taken : Bool) (s : Short) {x y : Result Error Short}
    → Follows size n p taken s
    → ((q : Phase) → IsAt size (suc n) q s → Runs size len Ends x)
    → ((q : Phase) → rounds_of q < rounds_of p → IsAt size n q s → Runs size len Ends y)
    → Runs size len Ends (if taken then x else y)
resume size len n p true s (q, at) f g = f q at
resume size len n p false s (q, lt, at) f g = g q lt at

-- The loop, on what is left of the string and the 0 behind it.
expand_from-Runs :
    (fuel size len n prev : ℕ) (rest : List ℕ) (p : Phase) (s : Short)
    → n + length rest ≡ len
    → 5 * length rest + rounds_of p ≤ fuel
    → IsAt size n p s
    → Runs size len Ends (expand_from fuel prev (rest ++ 0 ∷ []) s)
unfolding expand_from
expand_from-Runs zero size len n prev rest p s e f at =
    absurd (omega (arith, (rounds_of-bounds p).0))
expand_from-Runs (suc fuel) size len n prev [] p s e f (out, num, level, key, eq, h, k) = rw eq (
    Runs-bind (run_state-IsRound size len n 0 (IsNext-zero len n e) out num level key k p prev h)
      λ r g.
        resume size len n p r.0 r.1 g (λ q at. runs (omega arith))
          λ q lt at. expand_from-Runs fuel size len n prev [] q r.1 e (omega arith) at)
expand_from-Runs (suc fuel) size len n prev (c ∷ rest) p s e f (out, num, level, key, eq, h, k) =
    rw eq (
      Runs-bind
        (run_state-IsRound size len n c (IsNext-more len n c rest e) out num level key k p prev h)
        λ r g.
          resume size len n p r.0 r.1 g
            (λ q at.
              expand_from-Runs fuel size len (suc n) c rest q r.1 (omega arith)
                (omega (arith, (rounds_of-bounds p).0, (rounds_of-bounds q).1)) at)
            λ q lt at. expand_from-Runs fuel size len n prev (c ∷ rest) q r.1 e (omega arith) at)

start-IsAt : (size : ℕ) → IsAt size 0 before_top (start_short size)
unfolding start_short stack4_push state_number word cost
start-IsAt size = ([], [], pos 0, [], refl, omega arith, omega arith)

expand_in-Runs : (size : ℕ) (str : List ℕ) → Runs size (length str) Ends (expand_in size str)
unfolding expand_in rounds_of
expand_in-Runs size str =
    Runs-bind
      (expand_from-Runs (suc (length str) * 5) size (length str) 0 0 str before_top
        (start_short size) (omega arith) (omega arith) (start-IsAt size))
      λ s _. runs (omega arith)

-- With one byte more for `out` than the seven for each character that are allocated, no write goes behind its
-- end, for any string, and the stack of states never holds one that the switch does not cover.
pub expand_in-room : (size : ℕ) (str : List ℕ) → 7 * length str < size → expand_in size str ≢ bug
expand_in-room size str h = Runs-bug h (expand_in-Runs size str)

-- `expand_short_expr` ends on every string: no character takes more than five rounds.
pub expand_short_expr_ends : (str : List ℕ) → expand_short_expr str ≢ out_of_fuel
unfolding expand_short_expr
expand_short_expr_ends str = Runs-out_of_fuel (expand_in-Runs (length str * 7) str)
