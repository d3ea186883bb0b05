-- ===== src/Tags/Comments.antt =====
-- What comment.c and common/key-value.c promise of the tags of a track: no key twice, keys by their
-- proper names, room in the array, and the first value that was added for a key.
use graceful_music.Common.{
  ℕ, ◌≤◌, ◌≡◌, refl, ◌∙◌, inl, inr, Bool, true, false, ◌||◌, Option, none, some, List, [], ◌∷◌,
  ◌++◌, arith, if◌then◌else◌, Bool-cases, Option-cases, length, length-append, if_same, pos, ◌==ℤ◌,
  codes, strcmp,
}
use graceful_music.Tags.{
  same_letters, KeyValue, GrowingKeyValues, key_value_get_value, key_value_add, fix_key,
  until_slash, add_fixed, comments_add,
}
use graceful_music.Tags.Names.{IsProper, fix_key-IsProper}

same_letters_sym : (a b : List ℕ) → same_letters a b ≡ same_letters b a
unfolding same_letters
same_letters_sym [] [] = refl
same_letters_sym [] (d ∷ b) = refl
same_letters_sym (c ∷ a) [] = refl
same_letters_sym (c ∷ a) (d ∷ b) = ground (arith, same_letters_sym a b)

-- No key comes again, in whatever case its letters are.
unfoldable pub IsSingle : List KeyValue → Type 0
IsSingle [] = 0 ≤ 0
IsSingle (kv ∷ c) = (key_value_get_value c kv.key ≡ none) × IsSingle c

unfoldable pub IsAllProper : List KeyValue → Type 0
IsAllProper [] = 0 ≤ 0
IsAllProper (kv ∷ c) = IsProper kv.key × IsAllProper c

-- The invariant of the tags while they are read.
pub record IsTags (c : GrowingKeyValues) : Type 0 where
  pub single : IsSingle c.key_values
  pub proper : IsAllProper c.key_values
  pub room : length c.key_values ≤ c.alloc

-- A lookup in one more entry
key_value_get_value-append :
    (c : List KeyValue) (kv : KeyValue) (key : List ℕ)
    → key_value_get_value (c ++ kv ∷ []) key ≡ elim (key_value_get_value c key) [
      | some v ↦ some v
      | none ↦ if same_letters kv.key key then some kv.value else none
    ]
unfolding key_value_get_value
key_value_get_value-append [] kv key = refl
key_value_get_value-append (x ∷ c) kv key = elim (Bool-cases (same_letters x.key key)) [
  | inl e ↦ rw e
  | inr e ↦ rw e (key_value_get_value-append c kv key)
]

append-IsSingle :
    (c : List KeyValue) (kv : KeyValue)
    → IsSingle c
    → key_value_get_value c kv.key ≡ none
    → IsSingle (c ++ kv ∷ [])
unfolding IsSingle key_value_get_value
append-IsSingle [] kv h e = (refl, omega arith)
append-IsSingle (x ∷ c) kv (n, h) e =
    let d : same_letters x.key kv.key ≡ false = ground arith in
    let f : key_value_get_value c kv.key ≡ none = ground (arith, d) in
    (
      key_value_get_value-append c kv x.key ∙ rw (n, same_letters_sym kv.key x.key, d),
      append-IsSingle c kv h f,
    )

append-IsAllProper :
    (c : List KeyValue) (kv : KeyValue)
    → IsAllProper c
    → IsProper kv.key
    → IsAllProper (c ++ kv ∷ [])
unfolding IsAllProper
append-IsAllProper [] kv h p = (p, omega arith)
append-IsAllProper (x ∷ c) kv (q, h) p = (q, append-IsAllProper c kv h p)

key_value_add-IsTags :
    (c : GrowingKeyValues) (key val : List ℕ)
    → IsTags c
    → IsProper key
    → key_value_get_value c.key_values key ≡ none
    → IsTags (key_value_add c key val)
unfolding key_value_add
key_value_add-IsTags c key val t p e = record {
  single = append-IsSingle c.key_values (record { key = key; value = val }) t.single e;
  proper = append-IsAllProper c.key_values (record { key = key; value = val }) t.proper p;
  room =
      ground (arith, length-append c.key_values (record { key = key; value = val } ∷ []), t.room);
}

-- What `add_fixed` does with a proper name.
add_proper-IsTags :
    (key val : List ℕ) (c : GrowingKeyValues)
    → IsTags c
    → IsProper key
    → IsTags (add_fixed (some key) val c).1
unfolding add_fixed
add_proper-IsTags key val c t p = elim (Option-cases (key_value_get_value c.key_values key)) [
  | inr (old, e) ↦ rw (add_fixed, e) t
  | inl e ↦ rw (add_fixed, e) (key_value_add-IsTags c key _ t p e)
]

add_fixed-IsTags :
    (key val : List ℕ) (c : GrowingKeyValues) → IsTags c → IsTags (add_fixed (fix_key key) val c).1
unfolding add_fixed
add_fixed-IsTags key val c t = elim (Option-cases (fix_key key)) [
  | inl e ↦ rw e t
  | inr (k, e) ↦ rw e (add_proper-IsTags k val c t (fix_key-IsProper key k e))
]

-- `comments_add` keeps the tags of a track free of a second entry for a key in whatever case, every key
-- by the name that `fix_key` gives it, and the array no longer than it is allocated.
pub comments_add-IsTags :
    (c : GrowingKeyValues) (key val : List ℕ) → IsTags c → IsTags (comments_add c key val).1
unfolding comments_add
comments_add-IsTags c key val t =
    if_same {A = Bool × GrowingKeyValues} (λ r. IsTags r.1) (same_letters key (codes "songwriter"))
      (λ _.
        add_fixed-IsTags (codes "composer") val (add_fixed (fix_key (codes "lyricist")) val c).1
          (add_fixed-IsTags (codes "lyricist") val c t))
      λ _. add_fixed-IsTags key val c t

-- A value that is there stays.
abbrev IsLater : GrowingKeyValues → GrowingKeyValues → Type 0
IsLater c d =
    (key v : List ℕ)
    → key_value_get_value c.key_values key ≡ some v
    → key_value_get_value d.key_values key ≡ some v

add_fixed-IsLater :
    (k : Option (List ℕ)) (val : List ℕ) (c : GrowingKeyValues) → IsLater c (add_fixed k val c).1
unfolding add_fixed key_value_add
add_fixed-IsLater none val c key v e = e
add_fixed-IsLater (some k) val c key v e =
    elim (Option-cases (key_value_get_value c.key_values k)) [
      | inr (old, f) ↦ rw (add_fixed, f) e
      | inl f ↦ rw (add_fixed, f) (key_value_get_value-append c.key_values _ key ∙ rw e)
    ]

-- No call of `comments_add` changes the value that a lookup of any key finds: the first value counts.
pub comments_add-kept :
    (c : GrowingKeyValues) (key val other v : List ℕ)
    → key_value_get_value c.key_values other ≡ some v
    → key_value_get_value (comments_add c key val).1.key_values other ≡ some v
unfolding comments_add
comments_add-kept c key val other v e =
    if_same {A = Bool × GrowingKeyValues} (λ r. key_value_get_value r.1.key_values other ≡ some v)
      (same_letters key (codes "songwriter"))
      (λ _.
        add_fixed-IsLater (fix_key (codes "composer")) val
          (add_fixed (fix_key (codes "lyricist")) val c).1 other v
          (add_fixed-IsLater (fix_key (codes "lyricist")) val c other v e))
      λ _. add_fixed-IsLater (fix_key key) val c other v e

same_letters_refl : (a : List ℕ) → same_letters a a ≡ true
unfolding same_letters
same_letters_refl [] = refl
same_letters_refl (c ∷ a) = ground (arith, same_letters_refl a)

key_value_add-found :
    (c : GrowingKeyValues) (k w : List ℕ)
    → key_value_get_value c.key_values k ≡ none
    → key_value_get_value (key_value_add c k w).key_values k ≡ some w
unfolding key_value_add
key_value_add-found c k w e =
    key_value_get_value-append c.key_values (record { key = k; value = w }) k
    ∙ rw (e, same_letters_refl k)

-- "tracknumber" and "discnumber", of which `comments_add` takes what stands in front of a slash.
abbrev cut_at_slash : (key val : List ℕ) → List ℕ
cut_at_slash key val =
    if strcmp key (codes "tracknumber") ==ℤ pos 0 || strcmp key (codes "discnumber") ==ℤ pos 0
    then until_slash val
    else val

add_fixed-new :
    (k val : List ℕ) (c : GrowingKeyValues)
    → key_value_get_value c.key_values k ≡ none
    → add_fixed (some k) val c ≡ (true, key_value_add c k (cut_at_slash k val))
unfolding add_fixed
add_fixed-new k val c e = rw (add_fixed, e)

-- For a key other than "songwriter" whose proper name has no value yet, `comments_add` says that it was
-- added, and a lookup of the name then finds the value, of a track or disc number what is in front of the
-- slash.
pub comments_add-found :
    (c : GrowingKeyValues) (key val k : List ℕ)
    → same_letters key (codes "songwriter") ≡ false
    → fix_key key ≡ some k
    → key_value_get_value c.key_values k ≡ none
    → ((comments_add c key val).0 ≡ true)
      × (key_value_get_value (comments_add c key val).1.key_values k ≡ some (cut_at_slash k val))
unfolding comments_add
comments_add-found c key val k s f e =
    rw (s, f, add_fixed-new k val c e) (refl, key_value_add-found c k (cut_at_slash k val) e)
