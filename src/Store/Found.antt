-- ===== src/Store/Found.antt =====
-- `first_where` in a table to which rows are added or in which a row is replaced.
use tool_permission_enforcer.Base.{
  Bool, true, false, none, some, List, [], ◌∷◌, ◌++◌, map, ◌≡◌, refl, arith, first_where,
  if◌then◌else◌,
}

-- The row that was found or added.
pub first_where-snoc :
    {A : Type 0} (p : A → Bool) (x : A) (xs : List A)
    → first_where p xs ≡ none
    → p x ≡ true
    → first_where p (xs ++ (x ∷ [])) ≡ some x
first_where-snoc p x [] h e = rw e
first_where-snoc p x (y ∷ ys) h e = ground (arith, first_where-snoc p x ys)

pub first_where-append :
    {A : Type 0} (p : A → Bool) (x : A) (xs ys : List A)
    → first_where p xs ≡ some x
    → first_where p (xs ++ ys) ≡ some x
first_where-append p x [] ys h = absurd (ground arith)
first_where-append p x (z ∷ zs) ys h = ground (arith, first_where-append p x zs ys)

-- The row that was found passes the test.
pub first_where-passes :
    {A : Type 0} (p : A → Bool) (x : A) (xs : List A) → first_where p xs ≡ some x → p x ≡ true
first_where-passes p x [] h = absurd (ground arith)
first_where-passes p x (z ∷ zs) h = ground (arith, first_where-passes p x zs)

-- Where the tested rows are replaced by one that passes too, it is found.
pub first_where-map :
    {A : Type 0} (p : A → Bool) (x new : A) (xs : List A)
    → first_where p xs ≡ some x
    → p new ≡ true
    → first_where p (map (λ y. if p y then new else y) xs) ≡ some new
first_where-map p x new [] h e = absurd (ground arith)
first_where-map p x new (z ∷ zs) h e = ground (arith, first_where-map p x new zs)

-- Other rows may be replaced.
pub first_where-others :
    {A : Type 0} (p q : A → Bool) (new : A) (xs : List A)
    → ((y : A) → q y ≡ true → p y ≡ false)
    → p new ≡ false
    → first_where p (map (λ y. if q y then new else y) xs) ≡ first_where p xs
first_where-others p q new [] apart e = refl
first_where-others p q new (z ∷ zs) apart e =
    ground (arith, apart z, first_where-others p q new zs apart e)
