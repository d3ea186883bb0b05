-- ===== src/Expr/ShortTests.antt =====
-- Short filter expressions of app/expr.c on small strings.
use graceful_music.Common.{◌≡◌, refl, ◌+ℤ◌, ◌-ℤ◌, codes, strcmp, ok, bug}
use graceful_music.Expr.Keys.{
  map_short2long, builtin, long_key_in, lookup_long_key, key_type_in, lookup_key_type,
}
use graceful_music.Expr.Short.{
  state_number, state_of, stack4_push, stack4_pop, stack4_top, stack4_replace_top, push_state,
  pop_state, replace_state, write, write_key, add_digit, clear_num, in_top, with_type,
  in_expect_key, in_expect_int, in_mem_int, in_second_int, strip_spaces, in_in_str, step_in,
  run_state, expand_from, start_short, until_zero, expand_in, expand_short_expr,
}

expand_run :
    expand_short_expr (codes "~aradiohead ~y1990-1995|(!~g metal)")
    ≡ ok (codes "artist=\"*radiohead*\"&(date>=1990&date<=1995)|(!genre=\"*metal*\")")
unfolding expand_short_expr expand_in expand_from start_short run_state state_of stack4_top
    stack4_push stack4_pop stack4_replace_top state_number step_in in_top in_expect_key
    in_expect_int in_mem_int in_second_int in_in_str strip_spaces write write_key add_digit
    clear_num push_state pop_state replace_state with_type lookup_long_key lookup_key_type
    long_key_in key_type_in map_short2long builtin until_zero ◌+ℤ◌ ◌-ℤ◌ strcmp
expand_run = refl

-- The buffer is one byte too small for "~A".
expand_overflow : expand_short_expr (codes "~A") ≡ bug
unfolding expand_short_expr expand_in expand_from start_short run_state state_of stack4_top
    stack4_push stack4_pop stack4_replace_top state_number step_in in_top in_expect_key write
    write_key push_state pop_state replace_state with_type lookup_long_key lookup_key_type
    long_key_in key_type_in map_short2long builtin until_zero ◌+ℤ◌ ◌-ℤ◌ strcmp
expand_overflow = refl

-- The second range begins with the digit that the first one left.
expand_second_range :
    expand_short_expr (codes "~y1-2~d3") ≡ ok (codes "(date>=1&date<=2)&(duration=23)")
unfolding expand_short_expr expand_in expand_from start_short run_state state_of stack4_top
    stack4_push stack4_pop stack4_replace_top state_number step_in in_top in_expect_key
    in_expect_int in_mem_int in_second_int in_in_str strip_spaces write write_key add_digit
    clear_num push_state pop_state replace_state with_type lookup_long_key lookup_key_type
    long_key_in key_type_in map_short2long builtin until_zero ◌+ℤ◌ ◌-ℤ◌ strcmp
expand_second_range = refl
