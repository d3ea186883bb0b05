-- ===== src/Tags/Dates.antt =====
-- The numbers that comment.c reads from tags: a date has the form YYYYMMDD, or is -1.
use graceful_music.Common.{
  ℕ, ◌+◌, ◌*◌, ◌≤◌, ◌≡◌, refl, ap, subst, ◌⊎◌, inl, inr, true, List, arith, Option-cases, if_same,
  ℤ, pos, negsuc, to_int32, strtol, sum_pos,
}
use graceful_music.Tags.{
  KeyValue, key_value_get_value, behind_separator, is_between, with_day, with_month, date_of,
  comments_get_date,
}

-- YYYYMMDD, where the month or the day may be 00
abbrev pub IsDate : ℤ → Type 0
IsDate d =
    (year : ℕ) × (month : ℕ) × (day : ℕ) × (d ≡ pos (10000 * year + 100 * month + day))
    × (1000 ≤ year)
    × (year ≤ 9999)
    × (month ≤ 12)
    × (day ≤ 31)

-- A value between two bounds is a natural number.
is_between-bounds :
    (low high : ℕ) (d : ℤ)
    → is_between low high d ≡ true
    → (n : ℕ) × (d ≡ pos n) × (low ≤ n) × (n ≤ high)
is_between-bounds low high (pos n) h = (n, refl, ground arith, ground arith)
is_between-bounds low high (negsuc n) h = absurd (cc)

with_day-IsDate :
    (year month : ℕ) (s : List ℕ)
    → 1000 ≤ year
    → year ≤ 9999
    → month ≤ 12
    → IsDate (with_day (pos (10000 * year + 100 * month)) s)
unfolding with_day
with_day-IsDate year month s a b m = elim (Option-cases (behind_separator s)) [
  | inl e ↦ rw (with_day, e) (year, month, 0, ap pos (omega arith), a, b, m, omega arith)
  | inr (t, e) ↦
      rw (with_day, e)
        (if_same IsDate (is_between 1 31 (to_int32 (strtol t).0))
          (λ h.
            let (day, f, low, high) = is_between-bounds 1 31 (to_int32 (strtol t).0) h in
            rw f (year, month, day, sum_pos (10000 * year + 100 * month) day, a, b, m, high))
          λ h. (year, month, 0, ap pos (omega arith), a, b, m, omega arith))
]

with_month-IsDate :
    (year : ℕ) (s : List ℕ) → 1000 ≤ year → year ≤ 9999 → IsDate (with_month (pos (10000 * year)) s)
unfolding with_month
with_month-IsDate year s a b = elim (Option-cases (behind_separator s)) [
  | inl e ↦
      rw (with_month, e)
        (subst (λ y. IsDate (with_day (pos y) s)) {x = 10000 * year + 100 * 0} {y = 10000 * year}
          (omega arith) (with_day-IsDate year 0 s a b (omega arith)))
  | inr (t, e) ↦
      rw (with_month, e)
        (if_same IsDate (is_between 1 12 (to_int32 (strtol t).0))
          (λ h.
            let (month, f, low, high) = is_between-bounds 1 12 (to_int32 (strtol t).0) h in
            rw (f, sum_pos (10000 * year) (100 * month))
              (with_day-IsDate year month (strtol t).1 a b high))
          λ h. (year, 0, 0, ap pos (omega arith), a, b, omega arith, omega arith))
]

-- Whatever the tag holds, `comments_get_date` gives -1 or a number YYYYMMDD with a year of four digits, a
-- month up to 12 and a day up to 31.
pub comments_get_date-IsDate :
    (c : List KeyValue) (key : List ℕ)
    → (comments_get_date c key ≡ negsuc 0) ⊎ IsDate (comments_get_date c key)
unfolding comments_get_date date_of
comments_get_date-IsDate c key = elim (Option-cases (key_value_get_value c key)) [
  | inl e ↦ rw e (inl refl)
  | inr (val, e) ↦ rw e (
      if_same (λ d. (d ≡ negsuc 0) ⊎ IsDate d) (is_between 1000 9999 (to_int32 (strtol val).0))
        (λ h.
          let (year, f, low, high) = is_between-bounds 1000 9999 (to_int32 (strtol val).0) h in
          rw f (inr (with_month-IsDate year (strtol val).1 low high)))
        λ h. inl refl)
]
