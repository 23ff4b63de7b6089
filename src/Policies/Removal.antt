-- ===== src/Policies/Removal.antt =====
-- What removing the policy of a group leaves of a job's policies.
use mathlib.Core.List.{append_assoc, append-nil}
use mathlib.Core.Path.{subst}
use replicator.Base.{
  ℕ, zero, suc, ◌+◌, ◌-◌, ◌≤◌, Bool, true, false, some, List, [], ◌∷◌, ◌++◌, ◌≡◌, refl, ap, sym,
  ◌∙◌, All, ltb, length, length-append, get_elem?, take, drop, arith,
}
use replicator.Policies.{shift, remove_loop}

module _ {A : Type 0} where
  pub get_at :
      (i : ℕ) (xs : List A) (y : A) (ys : List A)
      → i ≡ length xs
      → get_elem? (xs ++ (y ∷ ys)) i ≡ some y
  get_at zero [] y ys e = refl
  get_at zero (x ∷ xs) y ys e = absurd (omega (arith, e))
  get_at (suc i) [] y ys e = absurd (omega (arith, e))
  get_at (suc i) (x ∷ xs) y ys e = get_at i xs y ys (omega (arith, e))

  pub take_at : (i : ℕ) (xs ys : List A) → i ≡ length xs → take i (xs ++ ys) ≡ xs
  take_at zero [] ys e = refl
  take_at zero (x ∷ xs) ys e = absurd (omega (arith, e))
  take_at (suc i) [] ys e = absurd (omega (arith, e))
  take_at (suc i) (x ∷ xs) ys e = ap (λ zs. x ∷ zs) (take_at i xs ys (omega (arith, e)))

  pub drop_past : (k n : ℕ) (xs ys : List A) → k ≡ length xs + n → drop k (xs ++ ys) ≡ drop n ys
  drop_past k n [] ys e = ap (λ k. drop k ys) (omega (arith, e))
  drop_past zero n (x ∷ xs) ys e = absurd (omega (arith, e))
  drop_past (suc k) n (x ∷ xs) ys e = drop_past k n xs ys (omega (arith, e))

  take_all : (i : ℕ) (xs : List A) → i ≡ length xs → take i xs ≡ xs
  take_all i xs e = ap (take i) (sym (append-nil xs)) ∙ take_at i xs [] e

  pub length-drop : (n : ℕ) (xs : List A) → n ≤ length xs → length (drop n xs) + n ≡ length xs
  length-drop zero xs h = omega arith
  length-drop (suc n) [] h = absurd (omega (arith, h))
  length-drop (suc n) (x ∷ xs) h = omega (arith, length-drop n xs (omega (arith, h)))

  pub length-take : (n : ℕ) (xs : List A) → n ≤ length xs → length (take n xs) ≡ n
  length-take zero xs h = refl
  length-take (suc n) [] h = absurd (omega (arith, h))
  length-take (suc n) (x ∷ xs) h = ap suc (length-take n xs (omega (arith, h)))

  All-drop : (P : A → Type 0) (n : ℕ) (xs : List A) → All P xs → All P (drop n xs)
  All-drop P zero xs h = h
  All-drop P (suc n) [] h = tt
  All-drop P (suc n) (x ∷ xs) h = All-drop P n xs h.1

  All-append : (P : A → Type 0) (xs ys : List A) → All P xs → All P ys → All P (xs ++ ys)
  All-append P [] ys h k = k
  All-append P (x ∷ xs) ys h k = (h.0, All-append P xs ys h.1 k)

  module _ (matches : A → Bool) where
    -- No element of a list is one to remove.
    abbrev pub IsClear : List A → Type 0
    IsClear = All (λ x. matches x ≡ false)

    -- The loop passes over elements that are not to be removed.
    pub remove_loop_pass :
        (left m i k len : ℕ) (front pre tail array : List A)
        → array ≡ front ++ (pre ++ tail)
        → i ≡ length front
        → left ≡ length pre + m
        → k ≡ i + length pre
        → IsClear pre
        → remove_loop matches left i array len ≡ remove_loop matches m k array len
    unfolding remove_loop
    remove_loop_pass left m i k len front [] tail array e at lefts ks clear =
        ap (λ l. remove_loop matches l i array len) (omega (arith, lefts))
        ∙ ap (λ j. remove_loop matches m j array len) (omega (arith, ks))
    remove_loop_pass zero m i k len front (x ∷ pre) tail array e at lefts ks clear =
        absurd (omega (arith, lefts))
    remove_loop_pass (suc left) m i k len front (x ∷ pre) tail array e at lefts ks clear =
        rw (ap (λ a. get_elem? a i) e ∙ get_at i front x (pre ++ tail) at, clear.0, remove_loop)
          (remove_loop_pass left m (suc i) k len (front ++ (x ∷ [])) pre tail array
            (e ∙ sym (append_assoc front (x ∷ []) (pre ++ tail)))
            (omega (arith, at, length-append front (x ∷ []))) (omega (arith, lefts))
            (omega (arith, ks)) clear.1)

    module _ (pre post : List A) (a : A) where
      -- What stays in the array at its end when the element `a` is taken out.
      abbrev pub leftover : List A
      leftover = drop (length pre + length post) (pre ++ (a ∷ post))

      size : length (pre ++ (a ∷ post)) ≡ length pre + suc (length post)
      size = length-append pre (a ∷ post)

      pub size_less_one : length (pre ++ (a ∷ post)) - 1 ≡ length pre + length post
      size_less_one = omega (arith, size)

      tail_lem :
          drop (suc (length pre)) (take (length (pre ++ (a ∷ post))) (pre ++ (a ∷ post))) ≡ post
      tail_lem =
          ap (drop (suc (length pre))) (take_all _ (pre ++ (a ∷ post)) refl)
          ∙ drop_past (suc (length pre)) 1 pre (a ∷ post) (omega arith)

      pub shift_lem :
          shift (length pre) (length (pre ++ (a ∷ post))) (pre ++ (a ∷ post))
          ≡ pre ++ (post ++ leftover)
      unfolding shift
      shift_lem = λ i.
          take_at (length pre) pre (a ∷ post) refl i
          ++ (tail_lem i ++ drop (size_less_one i) (pre ++ (a ∷ post)))

      length-leftover : length leftover ≡ 1
      length-leftover = omega (
        arith,
        size,
        length-drop (length pre + length post) (pre ++ (a ∷ post)) (omega (arith, size)),
      )

    leftover-IsClear :
        (pre post : List A) (a b : A) → IsClear (b ∷ post) → IsClear (leftover pre (b ∷ post) a)
    leftover-IsClear pre post a b clear =
        subst IsClear
          (sym (
            drop_past (length pre + length (b ∷ post)) (length (b ∷ post)) pre (a ∷ b ∷ post) refl))
          (All-drop (λ x. matches x ≡ false) (length post) (b ∷ post) clear)

    -- The loop from the element that is to be removed on, when it is the only one.
    pub remove_loop_hit :
        (pre post : List A) (a : A)
        → matches a ≡ true
        → IsClear post
        → let array = pre ++ (a ∷ post) in
          remove_loop matches (suc (length post)) (length pre) array (length array)
          ≡ some (shift (length pre) (length array) array, length array - 1)
    unfolding remove_loop
    remove_loop_hit pre post a hit clear =
        rw (get_at (length pre) pre a post refl, hit, room, remove_loop) (go post clear)
      where
        room : ltb (length (pre ++ (a ∷ post))) (suc (length pre)) ≡ false
        room = ground (arith, length-append pre (a ∷ post))

        go :
            (post : List A)
            → IsClear post
            → remove_loop matches
                (length post)
                (suc (length pre))
                (shift (length pre) (length (pre ++ (a ∷ post))) (pre ++ (a ∷ post)))
                (length (pre ++ (a ∷ post)) - 1)
              ≡ some (
                shift (length pre) (length (pre ++ (a ∷ post))) (pre ++ (a ∷ post)),
                length (pre ++ (a ∷ post)) - 1,
              )
        go [] clear = refl
        go (b ∷ post) clear =
            let rest = post ++ leftover pre (b ∷ post) a in
            remove_loop_pass (length (b ∷ post)) 0 (suc (length pre))
              (suc (length pre) + length rest) _ (pre ++ (b ∷ [])) rest [] _
              (shift_lem pre (b ∷ post) a
                ∙ sym (
                    ap (λ l. (pre ++ (b ∷ [])) ++ l) (append-nil rest)
                    ∙ append_assoc pre (b ∷ []) rest))
              (omega (arith, length-append pre (b ∷ [])))
              (omega (
                arith,
                length-append post (leftover pre (b ∷ post) a),
                length-leftover pre (b ∷ post) a,
              ))
              refl
              (All-append (λ x. matches x ≡ false) post (leftover pre (b ∷ post) a) clear.1
                (leftover-IsClear pre post a b clear))
