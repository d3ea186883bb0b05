-- ===== src/Expr/Stack.antt =====
-- The stacks of states that `expand_short_expr` of app/expr.c can have, and what each leaves to write.
use graceful_music.Common.{
  ℕ, suc, ◌+◌, ◌*◌, ◌≤◌, ◌<◌, ◌≡◌, refl, ◌≢◌, ◌⊎◌, Bool, true, false, List, ◌++◌, arith, leb,
  if◌then◌else◌, length, ℤ, Result, ok, failed, bug, out_of_fuel, bind,
}
use graceful_music.Expr.{Error}
use graceful_music.Expr.Short.{Short, write, write_key}

-- The states of the value behind a key
pub data Value : Type 0 where
  v_expect_int v_in_int v_mem_int v_in_2nd_int v_expect_str v_in_quote_str v_in_str : Value

-- The stacks, from ST_TOP on: there are no others.
pub data Phase : Type 0 where
  at_top before_top at_op before_op at_key behind_flag before_int before_str : Phase
  at_value : Value → Phase

unfoldable pub word : Phase → ℕ
word at_top = 2
word before_top = 33
word at_op = 36
word before_op = 577
word at_key = 9235
word behind_flag = 9233
word (at_value v_expect_int) = 9237
word (at_value v_in_int) = 9238
word (at_value v_mem_int) = 9239
word (at_value v_in_2nd_int) = 9240
word (at_value v_expect_str) = 9241
word (at_value v_in_quote_str) = 9242
word (at_value v_in_str) = 9243
word before_int = 147793
word before_str = 147857

-- What the characters read so far must have left of their seven bytes each, with `n` digits in `num`.
unfoldable pub value_cost : Value → ℕ → ℕ
value_cost v_expect_int n = 2 + n
value_cost v_in_int n = 2 + n
value_cost v_mem_int n = 8 + n
value_cost v_in_2nd_int n = 13 + 7 * n
value_cost v_expect_str n = 3 + n
value_cost v_in_quote_str n = 1 + n
value_cost v_in_str n = 3 + n

unfoldable pub cost : Phase → ℕ → ℕ
unfolding value_cost
cost at_top n = n
cost before_top n = n
cost at_op n = 1 + n
cost before_op n = 1 + n
cost at_key n = 7 + n
cost behind_flag n = 1 + n
cost (at_value v) n = value_cost v n
cost before_int n = 2 + n
cost before_str n = 3 + n

-- The rounds until a character is taken.
unfoldable pub value_rounds : Value → ℕ
value_rounds v_expect_int = 1
value_rounds v_in_int = 5
value_rounds v_mem_int = 5
value_rounds v_in_2nd_int = 5
value_rounds v_expect_str = 1
value_rounds v_in_quote_str = 1
value_rounds v_in_str = 5

unfoldable pub rounds_of : Phase → ℕ
unfolding value_rounds
rounds_of at_top = 1
rounds_of before_top = 2
rounds_of at_op = 3
rounds_of before_op = 4
rounds_of at_key = 1
rounds_of behind_flag = 5
rounds_of (at_value v) = value_rounds v
rounds_of before_int = 2
rounds_of before_str = 2

-- The variables of `expand_short_expr`.
abbrev pub vars : (size : ℕ) (out num : List ℕ) (level : ℤ) (key : List ℕ) (state_stack : ℕ) → Short
vars size out num level key state_stack = record {
  out = out;
  size = size;
  num = num;
  level = level;
  key = key;
  state_stack = state_stack;
}

-- `n` characters were read, and the variables are those of a phase.
abbrev pub IsAt : (size n : ℕ) → Phase → Short → Type 0
IsAt size n p s =
    (out : List ℕ) × (num : List ℕ) × (level : ℤ) × (key : List ℕ) × (s
      ≡ vars size out num level key (word p))
    × (length out + cost p (length num) ≤ 7 * n)
    × (length key ≤ 11)

abbrev pub Follows : (size n : ℕ) → Phase → (taken : Bool) → Short → Type 0
Follows size n p true s = (q : Phase) × IsAt size (suc n) q s
Follows size n p false s = (q : Phase) × (rounds_of q < rounds_of p) × IsAt size n q s

abbrev pub IsRound : (size n : ℕ) → Phase → Bool × Short → Type 0
IsRound size n p r = Follows size n p r.0 r.1

pub write-ok :
    (bytes : List ℕ) (s : Short)
    → length s.out + length bytes ≤ s.size
    → write bytes s ≡ ok (record s { out = s.out ++ bytes })
unfolding write
write-ok bytes s h = let t : leb (length s.out + length bytes) s.size ≡ true = ground arith in rw t

pub write_key-ok :
    (s : Short)
    → length s.out + length s.key + 1 ≤ s.size
    → write_key s ≡ ok (record s { out = s.out ++ s.key })
unfolding write_key
write_key-ok s h =
    let t : leb (length s.out + length s.key + 1) s.size ≡ true = ground arith in
    rw t (write-ok s.key s (omega arith))

-- The characters that are left are enough: another one, or the 0 at the end.
abbrev pub IsNext : (len n c : ℕ) → Type 0
IsNext len n c = (n < len) ⊎ ((n ≡ len) × (c ≡ 0))

-- The call comes to a value with `P` or to an error; or it writes behind the end of an `out` that has no more
-- than seven bytes for each of `len` characters.
pub data Runs {ℓ} (size len : ℕ) {A : Type ℓ} (P : A → Type 0) : Result Error A → Type ℓ where
  runs : {a : A} → P a → Runs size len P (ok a)
  stops : {e : Error} → Runs size len P (failed e)
  overflows : size ≤ 7 * len → Runs size len P bug

module _ {ℓ} {size len : ℕ} {A : Type ℓ} {P : A → Type 0} where
  pub Runs-if :
      (t : Bool) {x y : Result Error A}
      → (t ≡ true → Runs size len P x)
      → (t ≡ false → Runs size len P y)
      → Runs size len P (if t then x else y)
  Runs-if true f g = f refl
  Runs-if false f g = g refl

  pub Runs-bind {ℓ'} :
      {B : Type ℓ'} {Q : B → Type 0} {r : Result Error A} {f : A → Result Error B}
      → Runs size len P r
      → ((a : A) → P a → Runs size len Q (f a))
      → Runs size len Q (bind r f)
  Runs-bind (runs {a} h) k = k a h
  Runs-bind stops k = stops
  Runs-bind (overflows h) k = overflows h

  pub Runs-out_of_fuel : {r : Result Error A} → Runs size len P r → r ≢ out_of_fuel
  Runs-out_of_fuel (runs h) = cc
  Runs-out_of_fuel stops = cc
  Runs-out_of_fuel (overflows h) = cc

  pub Runs-bug : {r : Result Error A} → 7 * len < size → Runs size len P r → r ≢ bug
  Runs-bug l (runs h) = cc
  Runs-bug l stops = cc
  Runs-bug l (overflows h) = absurd (omega arith)
