-- ===== src/Base/Order.antt =====
-- Lists of which every element is in order with the next.
use mathlib.Core.List.{reverse-cons}
use tool_permission_enforcer.Base.{
  ℕ, zero, suc, Bool, true, ◌&&◌, List, [], ◌∷◌, ◌++◌, ◌≡◌, refl, ◌⊎◌, arith, take, drop, order_by,
  insert_by, reverse,
}

module _ {A : Type 0} where
  abbrev pub is_ordered : (A → A → Bool) → List A → Bool
  is_ordered le [] = true
  is_ordered le (x ∷ []) = true
  is_ordered le (x ∷ y ∷ ys) = le x y && is_ordered le (y ∷ ys)

  insert_by-ordered :
      (le : A → A → Bool) (total : (x y : A) → (le x y ≡ true) ⊎ (le y x ≡ true)) (x : A)
      (xs : List A)
      → is_ordered le xs ≡ true
      → is_ordered le (insert_by le x xs) ≡ true
  insert_by-ordered le total x [] h = refl
  insert_by-ordered le total x (y ∷ []) h = ground (arith, total x y)
  insert_by-ordered le total x (y ∷ z ∷ zs) h =
      ground (arith, total x y, total x z, insert_by-ordered le total x (z ∷ zs) (ground arith))

  pub order_by-ordered :
      (le : A → A → Bool) (total : (x y : A) → (le x y ≡ true) ⊎ (le y x ≡ true)) (xs : List A)
      → is_ordered le (order_by le xs) ≡ true
  order_by-ordered le total [] = refl
  order_by-ordered le total (x ∷ xs) =
      insert_by-ordered le total x (order_by le xs) (order_by-ordered le total xs)

  ordered-append :
      (le : A → A → Bool) (xs : List A) (y z : A)
      → is_ordered le (xs ++ (y ∷ [])) ≡ true
      → le y z ≡ true
      → is_ordered le ((xs ++ (y ∷ [])) ++ (z ∷ [])) ≡ true
  ordered-append le [] y z h g = ground arith
  ordered-append le (x ∷ []) y z h g = ground arith
  ordered-append le (x ∷ w ∷ ws) y z h g =
      ground (arith, ordered-append le (w ∷ ws) y z (ground arith) g)

  pub reverse-ordered :
      (le : A → A → Bool) (xs : List A)
      → is_ordered le xs ≡ true
      → is_ordered (λ x y. le y x) (reverse xs) ≡ true
  reverse-ordered le [] h = refl
  reverse-ordered le (x ∷ []) h = refl
  reverse-ordered le (x ∷ y ∷ ys) h =
      rw (reverse-cons x (y ∷ ys), reverse-cons y ys)
        (ordered-append (λ a b. le b a) (reverse ys) y x
          (rw (reverse-cons y ys) at (reverse-ordered le (y ∷ ys) (ground arith))) (ground arith))

  pub drop-ordered :
      (le : A → A → Bool) (n : ℕ) (xs : List A)
      → is_ordered le xs ≡ true
      → is_ordered le (drop n xs) ≡ true
  drop-ordered le zero xs h = h
  drop-ordered le (suc n) [] h = refl
  drop-ordered le (suc n) (x ∷ []) h = drop-ordered le n [] refl
  drop-ordered le (suc n) (x ∷ y ∷ ys) h = drop-ordered le n (y ∷ ys) (ground arith)

  pub take-ordered :
      (le : A → A → Bool) (n : ℕ) (xs : List A)
      → is_ordered le xs ≡ true
      → is_ordered le (take n xs) ≡ true
  take-ordered le zero xs h = refl
  take-ordered le (suc n) [] h = refl
  take-ordered le (suc zero) (x ∷ xs) h = refl
  take-ordered le (suc (suc n)) (x ∷ []) h = refl
  take-ordered le (suc (suc n)) (x ∷ y ∷ ys) h =
      ground (arith, take-ordered le (suc n) (y ∷ ys) (ground arith))
