-- ===== src/Expr/Short.antt =====
-- Short filter expressions such as "~y1990-1995~aradiohead": `expr_is_short`, the stack of states in a
-- word, and `expand_short_expr` of app/expr.c.
use graceful_music.Common.{
  ℕ, zero, suc, ◌+◌, ◌*◌, ◌/◌, ◌%◌, ◌^◌, Bool, true, false, ◌&&◌, ◌||◌, not, Option, none, some,
  List, [], ◌∷◌, ◌++◌, leb, ◌==◌, if◌then◌else◌, length, ℤ, pos, ◌+ℤ◌, ◌-ℤ◌, ltb_ℤ, codes, isdigit,
  Result, ok, failed, bug, out_of_fuel, bind,
}
use graceful_music.Expr.{
  ExprType, type_str, type_int, type_bool, Error, integer_expected, rparen_expected, unexpected,
  unknown_short_key,
}
use graceful_music.Expr.Keys.{lookup_long_key, lookup_key_type}

-- `expr_is_short`
unfoldable pub expr_is_short : List ℕ → Bool
expr_is_short [] = false
expr_is_short (c ∷ str) =
    let rest = expr_is_short str in
    if c == b'~' then true else if c == b'!' || c == b'(' || c == b' ' then rest else false

-- `enum state_type`
pub data State : Type 0 where
  skip_space top expect_key expect_op expect_int in_int mem_int in_2nd_int : State
  expect_str in_quote_str in_str : State

unfoldable pub state_number : State → ℕ
state_number skip_space = 1
state_number top = 2
state_number expect_key = 3
state_number expect_op = 4
state_number expect_int = 5
state_number in_int = 6
state_number mem_int = 7
state_number in_2nd_int = 8
state_number expect_str = 9
state_number in_quote_str = 10
state_number in_str = 11

-- The cases of the switch; `none` is the default, BUG.
unfoldable pub state_of : ℕ → Option State
state_of n =
    if n == 1
    then some skip_space
    else if n == 2
    then some top
    else if n == 3
    then some expect_key
    else if n == 4
    then some expect_op
    else if n == 5
    then some expect_int
    else if n == 6
    then some in_int
    else if n == 7
    then some mem_int
    else if n == 8
    then some in_2nd_int
    else if n == 9
    then some expect_str
    else if n == 10
    then some in_quote_str
    else if n == 11
    then some in_str
    else none

-- The stack, an `unsigned long` of 64 bits
unfoldable pub stack4_push : ℕ → State → ℕ
stack4_push s e = (s * 16) % 2 ^ 64 + state_number e

unfoldable pub stack4_pop : ℕ → ℕ
stack4_pop s = s / 16

unfoldable pub stack4_top : ℕ → ℕ
stack4_top s = s % 16

unfoldable pub stack4_replace_top : ℕ → State → ℕ
stack4_replace_top s e = s / 16 * 16 + state_number e

-- The variables of `expand_short_expr`: the bytes of `out` up to `k` and its size, those of `num` up to
-- `i_num`, `level`, `key`, and the stack.
pub record Short : Type 0 where
  pub out : List ℕ
  pub size : ℕ
  pub num : List ℕ
  pub level : ℤ
  pub key : List ℕ
  pub state_stack : ℕ

-- What a round comes to: the variables, and whether `i` moves on.
abbrev pub Round : Type 0
Round = Result Error (Bool × Short)

unfoldable pub push_state : State → Short → Short
push_state e s = record s { state_stack = stack4_push s.state_stack e }

unfoldable pub pop_state : Short → Short
pop_state s = record s { state_stack = stack4_pop s.state_stack }

unfoldable pub replace_state : State → Short → Short
replace_state e s = record s { state_stack = stack4_replace_top s.state_stack e }

-- out[k++] = ..., once or more; `bug` is a write behind the end of `out`.
unfoldable pub write : List ℕ → Short → Result Error Short
write bytes s =
    if leb (length s.out + length bytes) s.size then ok (record s { out = s.out ++ bytes }) else bug

-- strcpy(out + k, key); k += strlen(key)
unfoldable pub write_key : Short → Result Error Short
write_key s = if leb (length s.out + length s.key + 1) s.size then write s.key s else bug

abbrev pub next : Short → Round
next s = ok (true, s)

abbrev pub again : Short → Round
again s = ok (false, s)

-- num[i_num++] = c
unfoldable pub add_digit : ℕ → Short → Short
add_digit c s = record s { num = s.num ++ c ∷ [] }

unfoldable pub clear_num : Short → Short
clear_num s = record s { num = [] }

-- case ST_TOP
unfoldable pub in_top : ℕ → Short → Round
in_top c s =
    if c == b'~'
    then next (push_state expect_key (push_state skip_space (push_state expect_op s)))
    else if c == b'('
    then bind (write (c ∷ []) (record s { level = s.level +ℤ pos 1 }))
        (λ t. next (push_state skip_space t))
    else if c == b'!' || c == b'|'
    then bind (write (c ∷ []) s) (λ t. next (push_state skip_space t))
    else if c == b')'
    then bind (write (c ∷ []) (record s { level = s.level -ℤ pos 1 }))
        (λ t. next (push_state skip_space (push_state expect_op t)))
    else if c == 0
    then (if ltb_ℤ (pos 0) s.level then failed rparen_expected else bind (write (c ∷ []) s) next)
    else failed (unexpected c)

-- case ST_EXPECT_KEY, behind the lookup of the type
unfoldable pub with_type : Option ExprType → Short → Round
with_type (some type_int) s =
    bind (write (b'(' ∷ []) (push_state expect_int s))
      λ t. bind (write_key t) λ u. next (push_state skip_space u)
with_type (some type_str) s =
    bind (write_key (push_state expect_str s)) λ u. next (push_state skip_space u)
with_type (some type_bool) s = bind (write_key s) λ u. next (push_state skip_space u)
with_type _ s = bug

-- case ST_EXPECT_KEY
unfoldable pub in_expect_key : ℕ → Short → Round
in_expect_key c s = elim (lookup_long_key c) [
  | none ↦ failed (unknown_short_key c)
  | some key ↦ with_type (lookup_key_type key) (record (pop_state s) { key = key })
]

-- case ST_EXPECT_INT
unfoldable pub in_expect_int : ℕ → Short → Round
in_expect_int c s =
    if c == b'<' || c == b'>'
    then bind (write (c ∷ []) s) (λ t. next (replace_state in_int t))
    else if c == b'-'
    then bind (write (codes "<=") s) (λ t. next (replace_state in_int t))
    else if isdigit c
    then next (replace_state mem_int (add_digit c s))
    else failed integer_expected

-- case ST_MEM_INT
unfoldable pub in_mem_int : ℕ → Short → Round
in_mem_int c s =
    if isdigit c
    then next (add_digit c s)
    else if c == b'-'
    then bind (write (codes ">=") (replace_state in_2nd_int s))
        (λ t. bind (write t.num t) (λ u. next (clear_num u)))
    else bind (write (b'=' ∷ []) (pop_state s))
        (λ t. bind (write t.num t) (λ u. bind (write (b')' ∷ []) (clear_num u)) again))

-- case ST_IN_2ND_INT: `i_num` stays as it is.
unfoldable pub in_second_int : ℕ → Short → Round
in_second_int c s =
    if isdigit c
    then next (add_digit c s)
    else if length s.num == 0
    then bind (write (b')' ∷ []) (pop_state s)) again
    else bind (write (b'&' ∷ []) (pop_state s)) (λ t. bind (write_key t) (λ u.
      bind (write (codes "<=") u)
        (λ v. bind (write v.num v) (λ w. bind (write (b')' ∷ []) w) again))))

-- while (k > 0 && out[k-1] == ' ') k--
unfoldable pub strip_spaces : List ℕ → List ℕ
strip_spaces [] = []
strip_spaces (c ∷ s) =
    let rest = strip_spaces s in if c == b' ' && length rest == 0 then [] else c ∷ rest

abbrev pub ends_str : ℕ → Bool
ends_str c = c == b'~' || c == b'!' || c == b'|' || c == b'(' || c == b')' || c == 0

-- case ST_IN_STR
unfoldable pub in_in_str : ℕ → Short → Round
in_in_str c s =
    if ends_str c
    then bind (write (codes "*\"") (record s { out = strip_spaces s.out }))
        (λ t. again (pop_state t))
    else bind (write (c ∷ []) s) next

-- The switch; `prev` is expr_short[i - 1].
unfoldable pub step_in : State → (prev c : ℕ) → Short → Round
step_in skip_space prev c s = if c == b' ' then next s else again (pop_state s)
step_in top prev c s = in_top c s
step_in expect_key prev c s = in_expect_key c s
step_in expect_op prev c s =
    if c == b'~' || c == b'(' || c == b'!'
    then bind (write (b'&' ∷ []) s) (λ t. again (replace_state skip_space t))
    else again (replace_state skip_space s)
step_in expect_int prev c s = in_expect_int c s
step_in in_int prev c s =
    if isdigit c then bind (write (c ∷ []) s) next else bind (write (b')' ∷ []) (pop_state s)) again
step_in mem_int prev c s = in_mem_int c s
step_in in_2nd_int prev c s = in_second_int c s
step_in expect_str prev c s =
    if c == b'"'
    then bind (write (codes "=\"") (replace_state in_quote_str s)) next
    else bind (write (codes "=\"*" ++ c ∷ []) (replace_state in_str s)) next
step_in in_quote_str prev c s =
    bind (write (c ∷ []) (if c == b'"' && not (prev == b'\\') then pop_state s else s)) next
step_in in_str prev c s = in_in_str c s

unfoldable pub run_state : (prev c : ℕ) → Short → Round
run_state prev c s = elim (state_of (stack4_top s.state_stack)) [
  | none ↦ bug
  | some e ↦ step_in e prev c s
]

-- The loop, over the characters with the 0 at the end. A round may leave `i` as it is.
unfoldable pub expand_from : (fuel prev : ℕ) → List ℕ → Short → Result Error Short
expand_from fuel prev [] s = ok s
expand_from zero prev (c ∷ cs) s = out_of_fuel
expand_from (suc fuel) prev (c ∷ cs) s =
    bind (run_state prev c s)
      λ r. if r.0 then expand_from fuel c cs r.1 else expand_from fuel prev (c ∷ cs) r.1

unfoldable pub start_short : (size : ℕ) → Short
start_short size = record {
  out = [];
  size = size;
  num = [];
  level = pos 0;
  key = [];
  state_stack = stack4_push (stack4_push 0 top) skip_space;
}

-- A string up to its 0.
unfoldable pub until_zero : List ℕ → List ℕ
until_zero [] = []
until_zero (c ∷ s) = let rest = until_zero s in if c == 0 then [] else c ∷ rest

-- `expand_short_expr` with an `out` of a size. No character takes more than five rounds.
unfoldable pub expand_in : (size : ℕ) → List ℕ → Result Error (List ℕ)
expand_in size str =
    bind (expand_from (suc (length str) * 5) 0 (str ++ 0 ∷ []) (start_short size))
      λ s. ok (until_zero s.out)

-- `expand_short_expr`
unfoldable pub expand_short_expr : List ℕ → Result Error (List ℕ)
expand_short_expr str = expand_in (length str * 7) str
