-- ===== src/Filters/Tests.antt =====
-- Named filters of app/filters.c on small inputs, and the theorems on them at concrete inputs.
use graceful_music.Common.{
  ◌⊎◌, ℕ, ◌≡◌, refl, ◌≢◌, true, false, none, some, List, [], ◌∷◌, arith, if◌then◌else◌, codes,
  strcmp, Result, ok, failed, out_of_fuel, is_str,
}
use graceful_music.Expr.{Expr, null, expr_and, expr_not, expr_bool, Error, key_expected, tok_to_op}
use graceful_music.Expr.Keys.{builtin, key_type_in, lookup_key_type}
use graceful_music.Expr.Tokens.{
  special, combined, word_from, get_int_or_key, combine, get_token, tokenize_from, tokenize,
}
use graceful_music.Expr.Parse.{
  is_incomplete, set_right, set_left, add, behind_key, after_operand, parse_one, parse,
  parse_tokens,
}
use graceful_music.Expr.Read.{parse_long, expr_parse}
use graceful_music.Filters.{
  fs_ignore, fs_yes, fs_no, FilterEntry, Filters, find_filter, set_visited, get_filter, and_then,
  check_leaf, check_tree,
}
use graceful_music.Filters.Check.{replace_by, expr_check_leaves}
use graceful_music.Filters.Store.{
  Store, name_chars, validate_filter_name, split_at_eq, filters_set_filter, filters_activate,
  parse_filter,
}
use graceful_music.Filters.Select.{drop_spaces, take_name, names_from}
use graceful_music.Filters.Expand.{text_of, Expands}
use graceful_music.Filters.Typed.{expr_check_leaves-Expands, is_typed, expr_check_leaves-is_typed}
use graceful_music.Filters.Twice.{occurrences, expr_check_leaves-twice}
use graceful_music.Filters.Sorted.{IsBelow, IsSorted, filters_set_filter_lem}
use graceful_music.Filters.Stats.{acts, sels}
use graceful_music.Filters.Activate.{
  SameButMarks, IsActivated, IsRefused, filters_activate-IsActivated, parse_filter_ends,
}

abbrev same_bytes : List ℕ → List ℕ
same_bytes s = s

-- The filter "web", for streams.
abbrev small_entries : List FilterEntry
small_entries =
    record {
      name = codes "web";
      filter = codes "stream";
      visited = false;
      sel_stat = fs_yes;
      act_stat = fs_ignore;
    }
    ∷ []

abbrev small_filters : Filters
small_filters = record { entries = small_entries; recursive_filter = none }

-- A parser that knows one filter.
abbrev small_parse : List ℕ → Result Error Expr
small_parse s =
    if is_str s (codes "stream") then ok (expr_bool (codes "stream")) else failed key_expected

abbrev small_store : Store
small_store = record { filters = small_filters; lib_filter = null }

-- The text of a filter is parsed by the program's own parser.
parse_run :
    parse_long (codes "stream & !web")
    ≡ ok (expr_and (expr_bool (codes "stream")) (expr_not (expr_bool (codes "web"))))
unfolding parse_long tokenize tokenize_from get_token get_int_or_key word_from special combine
    combined parse_tokens parse parse_one behind_key tok_to_op after_operand add is_incomplete
    set_right set_left
parse_run = refl

names_run :
    names_from 9 (codes " web !tag") ≡ ok ((codes "web", fs_yes) ∷ (codes "tag", fs_no) ∷ [])
unfolding names_from drop_spaces take_name
names_run = refl

small_check :
    (expr_check_leaves small_parse 2 (expr_bool (codes "web")) small_filters).0
    ≡ ok (expr_bool (codes "stream"))
unfolding expr_check_leaves check_tree check_leaf replace_by get_filter find_filter set_visited
    and_then lookup_key_type key_type_in builtin strcmp
small_check = refl

-- The same table, with the mark that an earlier call left.
abbrev marked_filters : Filters
marked_filters = record {
  entries =
      record {
        name = codes "web";
        filter = codes "stream";
        visited = true;
        sel_stat = fs_yes;
        act_stat = fs_ignore;
      }
      ∷ [];
  recursive_filter = some (codes "web");
}

parse_filter_ends_example :
    ((parse_filter (expr_parse same_bytes) (codes "web & stream") marked_filters).0 ≢ out_of_fuel)
    × ((parse_filter (expr_parse same_bytes) (codes "web & stream") marked_filters).0
        ≡ (parse_filter (expr_parse same_bytes) (codes "web & stream") small_filters).0)
unfolding SameButMarks
parse_filter_ends_example =
    parse_filter_ends same_bytes (codes "web & stream") marked_filters small_filters
      (refl, refl, refl, refl, tt)

expr_check_leaves-is_typed_example : is_typed (expr_bool (codes "stream")) ≡ true
expr_check_leaves-is_typed_example =
    expr_check_leaves-is_typed small_parse 2 (expr_bool (codes "web")) (expr_bool (codes "stream"))
      small_filters small_check

expr_check_leaves-Expands_example :
    Expands small_parse
      (λ name. text_of name small_filters.entries)
      (expr_bool (codes "web"))
      (expr_bool (codes "stream"))
expr_check_leaves-Expands_example =
    expr_check_leaves-Expands small_parse 2 (expr_bool (codes "web")) (expr_bool (codes "stream"))
      small_filters small_check

-- !web & (stream & web), though the filter "web" names no filter.
abbrev web_twice : Expr
web_twice =
    expr_and (expr_not (expr_bool (codes "web")))
      (expr_and (expr_bool (codes "stream")) (expr_bool (codes "web")))

expr_check_leaves-twice_example :
    (expr_check_leaves small_parse 2 web_twice small_filters).0
    ≢ ok (
        expr_and
          (expr_not (expr_bool (codes "stream")))
          (expr_and (expr_bool (codes "stream")) (expr_bool (codes "stream"))))
unfolding lookup_key_type key_type_in builtin strcmp occurrences
expr_check_leaves-twice_example =
    expr_check_leaves-twice small_parse 2 (codes "web") small_filters web_twice
      (expr_and (expr_not (expr_bool (codes "stream")))
        (expr_and (expr_bool (codes "stream")) (expr_bool (codes "stream"))))
      refl (omega arith)

filters_set_filter_lem_example :
    let entries =
      (filters_set_filter small_parse false (codes "net=stream") small_store).filters.entries in
    IsSorted entries
    × ((other : List ℕ)
        → text_of other entries ≡ (
            if is_str (codes "net") other
            then some (codes "stream")
            else text_of other small_store.filters.entries))
unfolding split_at_eq validate_filter_name name_chars strcmp IsSorted IsBelow
filters_set_filter_lem_example =
    filters_set_filter_lem small_parse false (codes "net=stream") (codes "net") (codes "stream")
      small_store refl refl refl (omega arith, omega arith)

filters_activate-IsActivated_example :
    ((false ≡ false)
      × (acts small_entries ≡ sels small_entries)
      × (filters_activate small_parse false small_store ≡ small_store))
    ⊎ (((false ≡ true) ⊎ (acts small_entries ≢ sels small_entries))
        × (IsActivated small_parse small_store (filters_activate small_parse false small_store)
            ⊎ IsRefused small_parse small_store (filters_activate small_parse false small_store)))
filters_activate-IsActivated_example = filters_activate-IsActivated small_parse false small_store
