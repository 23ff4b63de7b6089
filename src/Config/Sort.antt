-- ===== src/Config/Sort.antt =====
-- `sort.Strings`: the bytewise order of strings, and a list in that order.
use Prim.Native.Nat.{Ordering, compare as compare_nat}
use Prim.Native.Char.{code}
use Prim.Native.String.compare
use Prim.Native.String.{String, compare, then as first_of}
use text.Mathlib.Text.{is_le}
use mathlib.Core.Bool.{false≢true}
use mathlib.Core.List.{Permᴰ}
use text.Mathlib.TextEquality.{path_by_compare}
use replicator.Base.{
  ℕ, Bool, true, false, List, [], ◌∷◌, ◌≡◌, refl, sym, ap, ◌∙◌, if◌then◌else◌, if_property, ◌≢◌,
  arith,
}

unfoldable pub string_le : String → String → Bool
string_le s t = is_le (compare s t)

unfoldable pub insert_sorted : String → List String → List String
insert_sorted s [] = s ∷ []
insert_sorted s (t ∷ ts) = if string_le s t then s ∷ t ∷ ts else t ∷ insert_sorted s ts

unfoldable pub sort_strings : List String → List String
unfolding insert_sorted
sort_strings [] = []
sort_strings (s ∷ ss) = insert_sorted s (sort_strings ss)

then_le_total :
    (m n : ℕ) (o p : Ordering)
    → (is_le o ≡ false → is_le p ≡ true)
    → is_le (first_of (compare_nat m n) o) ≡ false
    → is_le (first_of (compare_nat n m) p) ≡ true
then_le_total m n o p k h = ground arith

then_le_trans :
    (l m n : ℕ) (o p q : Ordering)
    → (is_le o ≡ true → is_le p ≡ true → is_le q ≡ true)
    → is_le (first_of (compare_nat l m) o) ≡ true
    → is_le (first_of (compare_nat m n) p) ≡ true
    → is_le (first_of (compare_nat l n) q) ≡ true
then_le_trans l m n o p q k h j = ground arith

string_le_total : (s t : String) → string_le s t ≡ false → string_le t s ≡ true
unfolding string_le
string_le_total String.[] String.[] h = ap is_le compare.nil-nil
string_le_total String.[] (String.◌∷◌ d t) h =
    absurd (false≢true (sym h ∙ ap is_le (compare.nil-cons d t)))
string_le_total (String.◌∷◌ c s) String.[] h = ap is_le (compare.nil-cons c s)
string_le_total (String.◌∷◌ c s) (String.◌∷◌ d t) h =
    ap is_le (compare.cons-cons d c t s)
    ∙ then_le_total (code c) (code d) (compare s t) (compare t s) (string_le_total s t)
        (sym (ap is_le (compare.cons-cons c d s t)) ∙ h)

string_le_trans :
    (s t u : String) → string_le s t ≡ true → string_le t u ≡ true → string_le s u ≡ true
unfolding string_le
string_le_trans String.[] t String.[] h k = ap is_le compare.nil-nil
string_le_trans String.[] t (String.◌∷◌ e u) h k = ap is_le (compare.nil-cons e u)
string_le_trans (String.◌∷◌ c s) String.[] u h k =
    absurd (false≢true (sym (ap is_le (compare.cons-nil c s)) ∙ h))
string_le_trans (String.◌∷◌ c s) (String.◌∷◌ d t) String.[] h k =
    absurd (false≢true (sym (ap is_le (compare.cons-nil d t)) ∙ k))
string_le_trans (String.◌∷◌ c s) (String.◌∷◌ d t) (String.◌∷◌ e u) h k =
    ap is_le (compare.cons-cons c e s u)
    ∙ then_le_trans (code c) (code d) (code e) (compare s t) (compare t u) (compare s u)
        (string_le_trans s t u) (sym (ap is_le (compare.cons-cons c d s t)) ∙ h)
        (sym (ap is_le (compare.cons-cons d e t u)) ∙ k)

then_le_antisym :
    (m n : ℕ) (o p : Ordering)
    → (is_le o ≡ true → is_le p ≡ true → o ≡ Ordering.eq)
    → is_le (first_of (compare_nat m n) o) ≡ true
    → is_le (first_of (compare_nat n m) p) ≡ true
    → first_of (compare_nat m n) o ≡ Ordering.eq
then_le_antisym m n o p k h j = ground arith

compare_antisym :
    (s t : String) → string_le s t ≡ true → string_le t s ≡ true → compare s t ≡ Ordering.eq
unfolding string_le
compare_antisym String.[] String.[] h k = compare.nil-nil
compare_antisym String.[] (String.◌∷◌ d t) h k =
    absurd (false≢true (sym (ap is_le (compare.cons-nil d t)) ∙ k))
compare_antisym (String.◌∷◌ c s) String.[] h k =
    absurd (false≢true (sym (ap is_le (compare.cons-nil c s)) ∙ h))
compare_antisym (String.◌∷◌ c s) (String.◌∷◌ d t) h k =
    compare.cons-cons c d s t
    ∙ then_le_antisym (code c) (code d) (compare s t) (compare t s) (compare_antisym s t)
        (sym (ap is_le (compare.cons-cons c d s t)) ∙ h)
        (sym (ap is_le (compare.cons-cons d c t s)) ∙ k)

string_le_antisym : (s t : String) → string_le s t ≡ true → string_le t s ≡ true → s ≡ t
string_le_antisym s t h k = path_by_compare s t (compare_antisym s t h k)

insert_sorted_comm :
    (s t : String) (us : List String)
    → insert_sorted s (insert_sorted t us) ≡ insert_sorted t (insert_sorted s us)
unfolding insert_sorted
insert_sorted_comm s t [] = ground (arith, string_le_total s t, string_le_antisym s t)
insert_sorted_comm s t (u ∷ us) = ground (
  arith,
  string_le_total s t,
  string_le_antisym s t,
  string_le_trans s t u,
  string_le_trans t s u,
  string_le_total s u,
  string_le_total t u,
  string_le_trans s u t,
  string_le_trans t u s,
  insert_sorted_comm s t us,
)

-- Sorting gives the same list for every order in which the strings are listed.
pub sort_strings_perm : {ss ts : List String} → Permᴰ ss ts → sort_strings ss ≡ sort_strings ts
unfolding sort_strings
sort_strings_perm Permᴰ.nil = refl
sort_strings_perm (Permᴰ.cons {a} {b} e p) = rw e (ap (insert_sorted b) (sort_strings_perm p))
sort_strings_perm (Permᴰ.swap {a} {b} {a'} {b'} {l} e k) =
    rw (e, k) (insert_sorted_comm b' a' (sort_strings l))
sort_strings_perm (Permᴰ.trans p q) = sort_strings_perm p ∙ sort_strings_perm q

insert_sorted-ne-nil : (s : String) (ts : List String) → insert_sorted s ts ≢ []
unfolding insert_sorted
insert_sorted-ne-nil s [] = λ e. cc
insert_sorted-ne-nil s (t ∷ ts) =
    if_property (λ l. l ≢ []) (string_le s t) (λ le. λ e. cc) (λ gt. λ e. cc)

pub sort_strings-ne-nil : (s : String) (ss : List String) → sort_strings (s ∷ ss) ≢ []
unfolding sort_strings
sort_strings-ne-nil s ss = insert_sorted-ne-nil s (sort_strings ss)
