-- ===== src/Filters/Expand.antt =====
-- What `expr_check_leaves` of app/expr.c makes of an expression: the names of filters are replaced by
-- their trees, and every leaf has a key of the right type.
use graceful_music.Common.{
  ℕ, ◌≡◌, refl, ap, subst, true, Option, none, some, List, [], ◌∷◌, arith, if_same, ℤ, Result, ok,
  failed, bug, out_of_fuel,
}
use graceful_music.Expr.{
  Op, ExprType, type_and, type_or, type_not, type_str, type_int, type_id, type_bool, Expr, null,
  expr_and, expr_or, expr_not, expr_str, expr_int, expr_id, expr_bool, is_null, Error,
}
use graceful_music.Glob.{GlobItem}
use graceful_music.Expr.Keys.{lookup_key_type}
use graceful_music.Filters.{
  FilterEntry, Filters, find_filter, set_visited, Outcome, and_then, same_type, check_leaf,
  check_both, check_tree,
}

-- The text of a filter, by its name
unfoldable pub text_of : List ℕ → List FilterEntry → Option (List ℕ)
text_of name entries = elim (find_filter name entries) [ none ↦ none | some e ↦ some e.filter ]

-- The tree on the left, with the names in it replaced, is the one on the right; `text` gives the text of a
-- filter and `parse` its tree.
pub data Expands (parse : List ℕ → Result Error Expr) (text : List ℕ → Option (List ℕ))
    : Expr → Expr → Type 0 where
  missing : Expands parse text null null
  kept_str :
      {key : List ℕ} {glob_head : List GlobItem} {op : Op}
      → lookup_key_type key ≡ some type_str
      → Expands parse text (expr_str key glob_head op) (expr_str key glob_head op)
  kept_int :
      {key : List ℕ} {val : ℤ} {op : Op}
      → lookup_key_type key ≡ some type_int
      → Expands parse text (expr_int key val op) (expr_int key val op)
  kept_id :
      {key other : List ℕ} {op : Op}
      → lookup_key_type key ≡ some type_id
      → Expands parse text (expr_id key other op) (expr_id key other op)
  kept_bool :
      {key : List ℕ}
      → lookup_key_type key ≡ some type_bool
      → Expands parse text (expr_bool key) (expr_bool key)
  replaced :
      {key filter : List ℕ} {e e' : Expr}
      → lookup_key_type key ≡ none
      → text key ≡ some filter
      → parse filter ≡ ok e
      → Expands parse text e e'
      → Expands parse text (expr_bool key) e'
  under_not :
      {l l' : Expr} → Expands parse text l l' → Expands parse text (expr_not l) (expr_not l')
  under_and :
      {l l' r r' : Expr}
      → Expands parse text l l'
      → Expands parse text r r'
      → Expands parse text (expr_and l r) (expr_and l' r')
  under_or :
      {l l' r r' : Expr}
      → Expands parse text l l'
      → Expands parse text r r'
      → Expands parse text (expr_or l r) (expr_or l' r')

-- The filters have the texts that `text` says.
abbrev pub HasTexts : (List ℕ → Option (List ℕ)) → Filters → Type 0
HasTexts text fs = (name : List ℕ) → text_of name fs.entries ≡ text name

-- A call that succeeds leaves the texts as they are, and a tree with `P`.
pub data Fits (text : List ℕ → Option (List ℕ)) (P : Expr → Type 0) : Outcome → Type 0 where
  fits : {e : Expr} {fs : Filters} → HasTexts text fs → P e → Fits text P (ok e, fs)
  wrong : {err : Error} {fs : Filters} → Fits text P (failed err, fs)
  crash : {fs : Filters} → Fits text P (bug, fs)
  unknown : {fs : Filters} → Fits text P (out_of_fuel, fs)

module _ (text : List ℕ → Option (List ℕ)) where
  pub Fits-map :
      (P Q : Expr → Type 0) (o : Outcome) → ((e : Expr) → P e → Q e) → Fits text P o → Fits text Q o
  Fits-map P Q o f (fits {e} {fs} t p) = fits t (f e p)
  Fits-map P Q o f wrong = wrong
  Fits-map P Q o f crash = crash
  Fits-map P Q o f unknown = unknown

  pub Fits-ok : (P : Expr → Type 0) (o : Outcome) (e : Expr) → Fits text P o → o.0 ≡ ok e → P e
  Fits-ok P o e (fits t p) h = subst P (cc) p
  Fits-ok P o e wrong h = absurd (cc)
  Fits-ok P o e crash h = absurd (cc)
  Fits-ok P o e unknown h = absurd (cc)

  pub and_then-Fits :
      (P Q : Expr → Type 0) (o : Outcome) (f : Expr → Filters → Outcome)
      → Fits text P o
      → ((e : Expr) (fs : Filters) → HasTexts text fs → P e → Fits text Q (f e fs))
      → Fits text Q (and_then o f)
  unfolding and_then
  and_then-Fits P Q o f (fits {e} {fs} t p) k = k e fs t p
  and_then-Fits P Q o f wrong k = wrong
  and_then-Fits P Q o f crash k = crash
  and_then-Fits P Q o f unknown k = unknown

  check_both-Fits :
      (P Q R : Expr → Type 0) (make : Expr → Expr → Expr) (right : Expr) (o : Outcome)
      (check_right : Filters → Outcome)
      → Fits text P o
      → ((fs : Filters) → HasTexts text fs → Fits text Q (check_right fs))
      → (is_null right ≡ true → (l : Expr) → P l → R (make l null))
      → ((l r : Expr) → P l → Q r → R (make l r))
      → Fits text R (check_both make (is_null right) o check_right)
  unfolding check_both
  check_both-Fits P Q R make right o check_right h k n m = and_then-Fits P R o _ h λ l gs t p.
      if_same {A = Outcome} (Fits text R) (is_null right) (λ z. fits t (n z l p))
        λ _. and_then-Fits Q R (check_right gs) _ (k gs t) λ r hs u q. fits u (m l r p q)

pub text_of-set_visited :
    (other name : List ℕ) (entries : List FilterEntry)
    → text_of name (set_visited other entries) ≡ text_of name entries
unfolding text_of find_filter set_visited
text_of-set_visited other name [] = refl
text_of-set_visited other name (x ∷ entries) =
    ground (arith, text_of-set_visited other name entries)

same_type_eq : (s t : ExprType) → same_type s t ≡ true → s ≡ t
same_type_eq type_and type_and h = refl
same_type_eq type_or type_or h = refl
same_type_eq type_not type_not h = refl
same_type_eq type_str type_str h = refl
same_type_eq type_int type_int h = refl
same_type_eq type_id type_id h = refl
same_type_eq type_bool type_bool h = refl
same_type_eq _ _ h = absurd (cc)

module _ (parse : List ℕ → Result Error Expr) (text : List ℕ → Option (List ℕ)) where
  check_leaf-Fits :
      (P : Expr → Type 0) (type : ExprType) (key : List ℕ) (leaf : Expr) (found : Option ExprType)
      (replace : Filters → Outcome) (fs : Filters)
      → HasTexts text fs
      → (found ≡ some type → P leaf)
      → (type ≡ type_bool → found ≡ none → Fits text P (replace fs))
      → Fits text P (check_leaf type key leaf found replace fs)
  unfolding check_leaf
  check_leaf-Fits P type key leaf (some t) replace fs h p r =
      if_same {A = Outcome} (Fits text P) (same_type t type)
        (λ e. fits h (p (ap some (same_type_eq t type e)))) λ _. wrong
  check_leaf-Fits P type_bool key leaf none replace fs h p r = r refl refl
  check_leaf-Fits P type_and key leaf none replace fs h p r = wrong
  check_leaf-Fits P type_or key leaf none replace fs h p r = wrong
  check_leaf-Fits P type_not key leaf none replace fs h p r = wrong
  check_leaf-Fits P type_str key leaf none replace fs h p r = wrong
  check_leaf-Fits P type_int key leaf none replace fs h p r = wrong
  check_leaf-Fits P type_id key leaf none replace fs h p r = wrong

  of_null : (e : Expr) → is_null e ≡ true → Expands parse text e null
  of_null null z = missing
  of_null _ z = absurd (cc)

  module _ (replace : List ℕ → Filters → Outcome)
      (r : (key : List ℕ) (fs : Filters)
        → HasTexts text fs
        → lookup_key_type key ≡ none
        → Fits text (Expands parse text (expr_bool key)) (replace key fs)) where
    pub check_tree-Fits :
        (e : Expr) (fs : Filters)
        → HasTexts text fs
        → Fits text (Expands parse text e) (check_tree lookup_key_type replace e fs)
    unfolding check_tree
    check_tree-Fits null fs h = crash
    check_tree-Fits (expr_and left right) fs h =
        check_both-Fits text (Expands parse text left) (Expands parse text right) _ expr_and right _
          (check_tree lookup_key_type replace right) (check_tree-Fits left fs h)
          (check_tree-Fits right) (λ z l p. under_and p (of_null right z)) λ l r p q. under_and p q
    check_tree-Fits (expr_or left right) fs h =
        check_both-Fits text (Expands parse text left) (Expands parse text right) _ expr_or right _
          (check_tree lookup_key_type replace right) (check_tree-Fits left fs h)
          (check_tree-Fits right) (λ z l p. under_or p (of_null right z)) λ l r p q. under_or p q
    check_tree-Fits (expr_not left) fs h =
        and_then-Fits text (Expands parse text left) _ _ _ (check_tree-Fits left fs h)
          λ l gs t p. fits t (under_not p)
    check_tree-Fits (expr_str key glob_head op) fs h =
        check_leaf-Fits _ type_str key _ (lookup_key_type key) (replace key) fs h kept_str
          λ z. absurd (cc)
    check_tree-Fits (expr_int key val op) fs h =
        check_leaf-Fits _ type_int key _ (lookup_key_type key) (replace key) fs h kept_int
          λ z. absurd (cc)
    check_tree-Fits (expr_id key other op) fs h =
        check_leaf-Fits _ type_id key _ (lookup_key_type key) (replace key) fs h kept_id
          λ z. absurd (cc)
    check_tree-Fits (expr_bool key) fs h =
        check_leaf-Fits _ type_bool key _ (lookup_key_type key) (replace key) fs h kept_bool
          λ z n. r key fs h n
