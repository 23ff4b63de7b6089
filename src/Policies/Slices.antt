-- ===== src/Policies/Slices.antt =====
-- Go slices that are changed while a loop ranges over them. The loop keeps the length that the slice
-- had when it began and reads the array as it is at each index.
use replicator.Base.{
  ℕ, zero, suc, ◌-◌, Bool, Option, none, some, List, [], ◌∷◌, ◌++◌, if◌then◌else◌, ltb, length,
  get_elem?, take, drop,
}

module _ {A : Type 0} where
  -- `append(s[:i], s[i+1:]...)` for the slice of the first `len` elements of an array: the elements
  -- after `i` move down by one, and those from `len - 1` on stay in the array.
  unfoldable pub shift : ℕ → ℕ → List A → List A
  shift i len array = take i array ++ (drop (suc i) (take len array) ++ drop (len - 1) array)

  -- `for i, a := range s { if matches(a) { s = append(s[:i], s[i+1:]...) } }` from the index `i` on:
  -- the array and the length of `s`. `none` is the panic of `s[i+1:]` past the end.
  unfoldable pub remove_loop : (A → Bool) → ℕ → ℕ → List A → ℕ → Option (List A × ℕ)
  unfolding shift
  remove_loop matches zero i array len = some (array, len)
  remove_loop matches (suc left) i array len = elim (get_elem? array i) [
    | none ↦ none
    | some a ↦
        if matches a
        then (if ltb len (suc i)
            then none
            else remove_loop matches left (suc i) (shift i len array) (len - 1))
        else remove_loop matches left (suc i) array len
  ]

  unfoldable pub remove_matching : (A → Bool) → List A → Option (List A)
  unfolding remove_loop
  remove_matching matches array = elim (remove_loop matches (length array) 0 array (length array)) [
    | none ↦ none
    | some (array', len) ↦ some (take len array')
  ]

  -- `array[i] = a`
  unfoldable pub write : ℕ → A → List A → List A
  write i a [] = []
  write zero a (b ∷ bs) = a ∷ bs
  write (suc i) a (b ∷ bs) = b ∷ write i a bs
