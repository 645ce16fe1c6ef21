-- ===== src/Base/Dict.antt =====
-- A Python `dict` with text keys, as its entries in order. A key that occurs once is found.
use tool_permission_enforcer.Base.{
  String, Bool, true, not, ◌&&◌, Option, none, some, List, [], ◌∷◌, ◌≡◌, ◌≢◌, ◌↔◌, inl, inr, refl,
  arith, ◌==◌, string_eq, if◌then◌else◌, contains, Option-cases,
}

abbrev pub Dict {ℓ} : Type ℓ → Type ℓ
Dict V = List (String × V)

module _ {ℓ} {V : Type ℓ} where
  -- `d.get(k)`
  abbrev pub lookup : String → Dict V → Option V
  lookup k [] = none
  lookup k ((j, v) ∷ d) = if k == j then some v else lookup k d

  -- `set(d)`, in order
  abbrev pub keys : Dict V → List String
  keys [] = []
  keys ((j, v) ∷ d) = j ∷ keys d

  -- `k in d`
  abbrev pub has_key : String → Dict V → Bool
  has_key k d = contains (keys d) k

  abbrev pub keys_differ : Dict V → Bool
  keys_differ [] = true
  keys_differ ((k, v) ∷ d) = not (has_key k d) && keys_differ d

  pub has_key_iff : (k : String) (d : Dict V) → (has_key k d ≡ true) ↔ (lookup k d ≢ none)
  has_key_iff k [] = (λ h. cc, λ h. absurd (h refl))
  has_key_iff k ((j, v) ∷ d) = ground (arith, has_key_iff k d)

  pub lookup_of_has_key :
      (k : String) (d : Dict V) → has_key k d ≡ true → (v : V) × (lookup k d ≡ some v)
  lookup_of_has_key k d h = elim (Option-cases (lookup k d)) [
    | inl e ↦ absurd ((has_key_iff k d).0 h e)
    | inr found ↦ found
  ]
