-- ===== src/Base/Lists.antt =====
-- Lemmas on pages, tests and sorting of lists.
use mathlib.Core.List.{reverse-cons}
use tool_permission_enforcer.Base.{
  ℕ, ◌+◌, ◌≤◌, zero, suc, Bool, true, ◌&&◌, List, [], ◌∷◌, ◌++◌, ◌≡◌, refl, sym, ◌∙◌, ap, arith,
  all, all_where, take, drop, length, order_by, insert_by, reverse,
}

suc_add : (a b : ℕ) → suc a + b ≡ suc (a + b)
suc_add a b = omega arith

module _ {A : Type 0} where
  take-nil : (n : ℕ) → take {A = A} n [] ≡ []
  take-nil zero = refl
  take-nil (suc n) = refl

  drop-nil : (n : ℕ) → drop {A = A} n [] ≡ []
  drop-nil zero = refl
  drop-nil (suc n) = refl

  pub length-take : (n : ℕ) (xs : List A) → length (take n xs) ≤ n
  length-take zero xs = ground arith
  length-take (suc n) [] = ground arith
  length-take (suc n) (x ∷ xs) = ground (arith, length-take n xs)

  pub take-add : (a b : ℕ) (xs : List A) → take (a + b) xs ≡ take a xs ++ take b (drop a xs)
  take-add zero b xs = ap (λ n. take n xs) (omega arith)
  take-add (suc a) b [] = take-nil (suc a + b) ∙ sym (take-nil b)
  take-add (suc a) b (x ∷ xs) =
      ap (λ n. take n (x ∷ xs)) (suc_add a b) ∙ ap (λ ys. x ∷ ys) (take-add a b xs)

  pub drop-add : (a b : ℕ) (xs : List A) → drop (a + b) xs ≡ drop b (drop a xs)
  drop-add zero b xs = ap (λ n. drop n xs) (omega arith)
  drop-add (suc a) b [] = drop-nil (suc a + b) ∙ sym (drop-nil b)
  drop-add (suc a) b (x ∷ xs) = ap (λ n. drop n (x ∷ xs)) (suc_add a b) ∙ drop-add a b xs

  pub all-take : (p : A → Bool) (n : ℕ) (xs : List A) → all p xs ≡ true → all p (take n xs) ≡ true
  all-take p zero xs h = refl
  all-take p (suc n) [] h = refl
  all-take p (suc n) (x ∷ xs) h = ground (arith, all-take p n xs)

  pub all-drop : (p : A → Bool) (n : ℕ) (xs : List A) → all p xs ≡ true → all p (drop n xs) ≡ true
  all-drop p zero xs h = h
  all-drop p (suc n) [] h = refl
  all-drop p (suc n) (x ∷ xs) h = all-drop p n xs (ground arith)

  pub all-all_where : (p : A → Bool) (xs : List A) → all p (all_where p xs) ≡ true
  all-all_where p [] = refl
  all-all_where p (x ∷ xs) = ground (arith, all-all_where p xs)

  all-insert_by :
      (p : A → Bool) (le : A → A → Bool) (x : A) (xs : List A)
      → all p (insert_by le x xs) ≡ (p x && all p xs)
  all-insert_by p le x [] = refl
  all-insert_by p le x (y ∷ ys) = ground (arith, all-insert_by p le x ys)

  -- Sorting keeps what holds of all elements.
  pub all-order_by :
      (p : A → Bool) (le : A → A → Bool) (xs : List A) → all p (order_by le xs) ≡ all p xs
  all-order_by p le [] = refl
  all-order_by p le (x ∷ xs) =
      ground (arith, all-insert_by p le x (order_by le xs), all-order_by p le xs)

  pub all-append : (p : A → Bool) (xs ys : List A) → all p (xs ++ ys) ≡ (all p xs && all p ys)
  all-append p [] ys = refl
  all-append p (x ∷ xs) ys = ground (arith, all-append p xs ys)

  pub all-reverse : (p : A → Bool) (xs : List A) → all p (reverse xs) ≡ all p xs
  all-reverse p [] = refl
  all-reverse p (x ∷ xs) =
      rw (reverse-cons x xs) (ground (arith, all-append p (reverse xs) (x ∷ []), all-reverse p xs))

  all_where-append :
      (q : A → Bool) (xs ys : List A) → all_where q (xs ++ ys) ≡ all_where q xs ++ all_where q ys
  all_where-append q [] ys = refl
  all_where-append q (x ∷ xs) ys = ground (arith, all_where-append q xs ys)

  pub length-append : (xs ys : List A) → length (xs ++ ys) ≡ length xs + length ys
  length-append [] ys = ground arith
  length-append (x ∷ xs) ys = ground (arith, length-append xs ys)

  -- How many elements pass a test.
  abbrev pub number : (A → Bool) → List A → ℕ
  number q xs = length (all_where q xs)

  number-append : (q : A → Bool) (xs ys : List A) → number q (xs ++ ys) ≡ number q xs + number q ys
  number-append q xs ys = rw (all_where-append q xs ys) (length-append (all_where q xs) _)

  number-insert_by :
      (q : A → Bool) (le : A → A → Bool) (x : A) (xs : List A)
      → number q (insert_by le x xs) ≡ number q (x ∷ xs)
  number-insert_by q le x [] = refl
  number-insert_by q le x (y ∷ ys) = ground (arith, number-insert_by q le x ys)

  number-cons :
      (q : A → Bool) (x : A) (xs ys : List A)
      → number q xs ≡ number q ys
      → number q (x ∷ xs) ≡ number q (x ∷ ys)
  number-cons q x xs ys h = ground arith

  -- Sorting and reversing keep the number of elements that pass a test.
  pub number-order_by :
      (q : A → Bool) (le : A → A → Bool) (xs : List A) → number q (order_by le xs) ≡ number q xs
  number-order_by q le [] = refl
  number-order_by q le (x ∷ xs) =
      number-insert_by q le x (order_by le xs)
      ∙ number-cons q x (order_by le xs) xs (number-order_by q le xs)

  pub number-reverse : (q : A → Bool) (xs : List A) → number q (reverse xs) ≡ number q xs
  number-reverse q [] = refl
  number-reverse q (x ∷ xs) =
      rw (reverse-cons x xs)
        (ground (arith, number-append q (reverse xs) (x ∷ []), number-reverse q xs))

  pub number-all_where :
      (q p : A → Bool) (xs : List A) → number q (all_where p xs) ≡ number (λ x. p x && q x) xs
  number-all_where q p [] = refl
  number-all_where q p (x ∷ xs) = ground (arith, number-all_where q p xs)

  number-any : (xs : List A) → number (λ x. true) xs ≡ length xs
  number-any [] = refl
  number-any (x ∷ xs) = ground (arith, number-any xs)

  pub length-order_by : (le : A → A → Bool) (xs : List A) → length (order_by le xs) ≡ length xs
  length-order_by le xs =
      sym (number-any (order_by le xs)) ∙ number-order_by (λ x. true) le xs ∙ number-any xs

  pub length-reverse : (xs : List A) → length (reverse xs) ≡ length xs
  length-reverse xs = sym (number-any (reverse xs)) ∙ number-reverse (λ x. true) xs ∙ number-any xs

  pub length-all_where : (p : A → Bool) (xs : List A) → length (all_where p xs) ≤ length xs
  length-all_where p [] = ground arith
  length-all_where p (x ∷ xs) = ground (arith, length-all_where p xs)

  pub take-length : (n : ℕ) (xs : List A) → length xs ≤ n → take n xs ≡ xs
  take-length zero [] h = refl
  take-length zero (x ∷ xs) h = absurd (ground arith)
  take-length (suc n) [] h = refl
  take-length (suc n) (x ∷ xs) h = ap (λ ys. x ∷ ys) (take-length n xs (ground arith))
