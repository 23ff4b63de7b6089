-- ===== src/Policies/Panics.antt =====
-- When removing the policy of a group panics, and when it does not.
use mathlib.Core.List.{append_assoc}
use replicator.Base.{
  ℕ, zero, suc, ◌+◌, ◌-◌, ◌≤◌, Bool, true, false, none, some, List, [], ◌∷◌, ◌++◌, ◌≡◌, refl, ap,
  sym, ◌∙◌, string_eq, inl, inr, Bool-cases, Option-cases, ltb, length, length-append, get_elem?,
  take, drop, arith,
}
use replicator.Policies.{shift, remove_loop, remove_matching}
use replicator.Policies.Removal.{
  get_at, take_at, length-drop, length-take, IsClear, remove_loop_pass, remove_loop_hit, shift_lem,
  size_less_one,
}

drop_short :
    {A : Type 0} (n : ℕ) (xs ys : List A) → n ≤ length xs → drop n (xs ++ ys) ≡ drop n xs ++ ys
drop_short zero xs ys h = refl
drop_short (suc n) [] ys h = absurd (omega (arith, h))
drop_short (suc n) (x ∷ xs) ys h = drop_short n xs ys (omega (arith, h))

module _ {A : Type 0} (matches : A → Bool) where
  -- The one element that matches is taken out, and the others stay in their order.
  pub remove_matching-one :
      (pre post : List A) (a : A)
      → matches a ≡ true
      → IsClear matches pre
      → IsClear matches post
      → remove_matching matches (pre ++ (a ∷ post)) ≡ some (pre ++ post)
  unfolding remove_matching
  remove_matching-one pre post a hit clear clear' =
      let array = pre ++ (a ∷ post) in
      rw
        (
          remove_loop_pass matches (length array) (suc (length post)) 0 (length pre) (length array)
                [] pre (a ∷ post) array refl refl (length-append pre (a ∷ post)) (omega arith) clear
              ∙ remove_loop_hit matches pre post a hit clear',
          remove_matching,
        )
        (ap some (
          ap (take (length array - 1))
            (shift_lem matches pre post a ∙ sym (append_assoc pre post _))
          ∙ take_at (length array - 1) (pre ++ post) _
              (size_less_one matches pre post a ∙ sym (length-append pre post))))

  -- An array that ends with an element still ends with it after a shift, at the same length.
  shift_ends :
      (i len : ℕ) (init : List A) (z : A)
      → suc i ≤ len
      → len ≤ suc (length init)
      → (init' : List A) × (shift i len (init ++ (z ∷ [])) ≡ init' ++ (z ∷ []))
        × (length init' ≡ length init)
  unfolding shift
  shift_ends i len init z h k =
      let array = init ++ (z ∷ []) in
      let size = length-append init (z ∷ []) in
      let front = take i array in
      let middle = drop (suc i) (take len array) in
      let back = drop (len - 1) init in
      let fronts = length-take i array (omega (arith, size, h, k)) in
      let taken = length-take len array (omega (arith, size, k)) in
      let middles = length-drop (suc i) (take len array) (omega (arith, taken, h)) in
      let backs = length-drop (len - 1) init (omega (arith, k)) in
      (
        front ++ (middle ++ back),
        ap (λ l. front ++ (middle ++ l)) (drop_short (len - 1) init (z ∷ []) (omega (arith, k)))
            ∙ ap (λ l. front ++ l) (sym (append_assoc middle back (z ∷ [])))
            ∙ sym (append_assoc front (middle ++ back) (z ∷ [])),
        omega (
          arith,
          length-append front (middle ++ back),
          length-append middle back,
          fronts,
          taken,
          middles,
          backs,
          h,
          k,
        ),
      )

  -- Once the slice is shorter than the array, an element to be removed at the array's end makes the
  -- loop panic.
  remove_loop_ends :
      (left i len : ℕ) (init : List A) (z : A) (array : List A)
      → array ≡ init ++ (z ∷ [])
      → matches z ≡ true
      → i + suc left ≡ suc (length init)
      → len ≤ length init
      → remove_loop matches (suc left) i array len ≡ none
  unfolding remove_loop
  remove_loop_ends zero i len init z array e hit at short =
      rw (ap (λ a. get_elem? a i) e ∙ get_at i init z [] (omega (arith, at)), hit, remove_loop)
        (ground (arith, at, short))
  remove_loop_ends (suc left) i len init z array e hit at short =
      elim (Option-cases (get_elem? array i)) [
        | inl none_here ↦ rw (none_here, remove_loop) refl
        | inr (x, here) ↦ elim (Bool-cases (matches x)) [
          | inr pass ↦
              rw (here, pass, remove_loop)
                (remove_loop_ends left (suc i) len init z array e hit (omega (arith, at)) short)
          | inl found ↦ elim (Bool-cases (ltb len (suc i))) [
            | inl over ↦ rw (here, found, over, remove_loop) refl
            | inr room ↦
                let (init', same, sized) =
                  shift_ends i len init z (ground (arith, room)) (omega (arith, short)) in
                rw (here, found, room, remove_loop)
                  (remove_loop_ends left (suc i) (len - 1) init' z (shift i len array)
                    (ap (shift i len) e ∙ same) hit (omega (arith, at, sized))
                    (omega (arith, short, sized)))
          ]
        ]
      ]

  -- A second element to be removed at the end of the list is a panic.
  pub remove_matching-two :
      (pre mid : List A) (a z : A)
      → IsClear matches pre
      → matches a ≡ true
      → matches z ≡ true
      → remove_matching matches (pre ++ (a ∷ (mid ++ (z ∷ [])))) ≡ none
  unfolding remove_matching remove_loop
  remove_matching-two pre mid a z clear hit hit' =
      let init = pre ++ (a ∷ mid) in
      let array = pre ++ (a ∷ (mid ++ (z ∷ []))) in
      let split = append_assoc pre (a ∷ mid) (z ∷ []) in
      let size = length-append pre (a ∷ (mid ++ (z ∷ []))) in
      let mids = length-append mid (z ∷ []) in
      let inits = length-append pre (a ∷ mid) in
      let (init', same, sized) =
        shift_ends (length pre) (length array) init z (omega (arith, size, mids))
          (omega (arith, size, mids, inits)) in
      let room : ltb (length array) (suc (length pre)) ≡ false = ground (arith, size) in
      let passed =
        remove_loop_pass matches (length array) (suc (suc (length mid))) 0 (length pre)
          (length array) [] pre (a ∷ (mid ++ (z ∷ []))) array refl refl (omega (arith, size, mids))
          (omega arith) clear in
      let ends =
        remove_loop_ends (length mid) (suc (length pre)) (length array - 1) init' z
          (shift (length pre) (length array) array)
          (ap (shift (length pre) (length array)) (sym split) ∙ same) hit'
          (omega (arith, sized, inits)) (omega (arith, size, mids, inits, sized)) in
      rw (passed, remove_matching)
        (rw (get_at (length pre) pre a (mid ++ (z ∷ [])) refl, hit, room, remove_loop)
          (rw ends refl))
