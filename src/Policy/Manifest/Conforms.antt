-- ===== src/Policy/Manifest/Conforms.antt =====
-- What it means for parameters to match a schema, and that `validate_parameters` decides it.
use tool_permission_enforcer.Base.{
  ℕ, ◌≤◌, String, Bool, true, false, not, Option, none, some, List, [], ◌∷◌, ◌≡◌, ◌↔◌, refl, any,
  arith, string_eq, contains, All,
}
use tool_permission_enforcer.Base.Dict.{Dict, lookup, keys, has_key}
use tool_permission_enforcer.Base.Json.{Json, str, obj, Fields}
use tool_permission_enforcer.Base.Text.{len}
use tool_permission_enforcer.Policy.Manifest.{
  PropertyConstraint, string_constraint, object_constraint, ParameterSchema, accepts, is_too_long,
  check_values, validate_parameters,
}

-- A text that is not too long, or an object.
abbrev pub Satisfies : PropertyConstraint → Json → Type 0
Satisfies (string_constraint c) v =
    (s : String) × (v ≡ str s) × ((n : ℕ) → c.max_length ≡ some n → len s ≤ n)
Satisfies object_constraint v = (fs : Fields) × (v ≡ obj fs)

abbrev pub Allowed : Dict PropertyConstraint → String × Json → Type 0
Allowed properties (name, v) =
    (c : PropertyConstraint) → lookup name properties ≡ some c → Satisfies c v

pub record Conforms (schema : ParameterSchema) (parameters : Dict Json) : Type 0 where
  pub required : (k : String) → contains schema.required k ≡ true → has_key k parameters ≡ true
  pub declared :
      schema.additional_properties ≡ false
      → (k : String) → has_key k parameters ≡ true
      → has_key k schema.properties ≡ true
  pub typed : All (Allowed schema.properties) parameters

holds_of_any-not :
    (p : String → Bool) (xs : List String) (x : String)
    → any (λ y. not (p y)) xs ≡ false
    → contains xs x ≡ true
    → p x ≡ true
holds_of_any-not p [] x h m = cc
holds_of_any-not p (y ∷ ys) x h m = elim (string_eq.dec x y) [
  | yes e ↦ rw e (ground arith)
  | no n ↦ holds_of_any-not p ys x (ground arith) (ground arith)
]

any-not_of_holds :
    (p : String → Bool) (xs : List String)
    → ((x : String) → contains xs x ≡ true → p x ≡ true)
    → any (λ y. not (p y)) xs ≡ false
any-not_of_holds p [] h = refl
any-not_of_holds p (y ∷ ys) h =
    let first : p y ≡ true = h y (ground arith) in
    let rest : any (λ z. not (p z)) ys ≡ false =
      any-not_of_holds p ys (λ x m. h x (ground arith)) in
    rw (first, rest)

accepts-Satisfies :
    (o : Option PropertyConstraint) (v : Json)
    → accepts o v ≡ true
    → (c : PropertyConstraint) → o ≡ some c
    → Satisfies c v
unfolding accepts
accepts-Satisfies none v h c e = cc
accepts-Satisfies (some (string_constraint k)) (str s) h (string_constraint c) e =
    (s, refl, λ n m. ground arith)
accepts-Satisfies (some object_constraint) (obj fs) h object_constraint e = (fs, refl)
accepts-Satisfies (some (string_constraint k)) _ h c e = cc
accepts-Satisfies (some object_constraint) _ h c e = cc

fits_lem :
    (o : Option ℕ) (s : String) → ((n : ℕ) → o ≡ some n → len s ≤ n) → not (is_too_long o s) ≡ true
fits_lem none s h = refl
fits_lem (some n) s h = ground (arith, h n refl)

Satisfies-accepts : (c : PropertyConstraint) (v : Json) → Satisfies c v → accepts (some c) v ≡ true
unfolding accepts
Satisfies-accepts (string_constraint c) v (s, e, fits) = rw e (fits_lem c.max_length s fits)
Satisfies-accepts object_constraint v (fs, e) = rw e

Allowed-accepts :
    (o : Option PropertyConstraint) (v : Json)
    → ((c : PropertyConstraint) → o ≡ some c → Satisfies c v)
    → accepts o v ≡ true
Allowed-accepts none v h = unfold accepts in refl
Allowed-accepts (some c) v h = Satisfies-accepts c v (h c refl)

module _ (properties : Dict PropertyConstraint) where
  check_values-All :
      (parameters : Dict Json)
      → check_values properties parameters ≡ true
      → All (Allowed properties) parameters
  unfolding check_values
  check_values-All [] h = tt
  check_values-All ((name, v) ∷ rest) h = (
    accepts-Satisfies (lookup name properties) v (ground arith),
    check_values-All rest (ground arith),
  )

  All-check_values :
      (parameters : Dict Json)
      → All (Allowed properties) parameters
      → check_values properties parameters ≡ true
  unfolding check_values
  All-check_values [] h = refl
  All-check_values ((name, v) ∷ rest) (first, others) =
      ground (arith, Allowed-accepts (lookup name properties) v first, All-check_values rest others)

-- `validate_parameters` accepts exactly the parameters that hold every required name, hold no
-- undeclared name unless the schema admits these, and have a value of the declared kind and length
-- under each declared name.
pub validate_parameters_iff :
    (schema : ParameterSchema) (parameters : Dict Json)
    → (validate_parameters schema parameters ≡ true) ↔ Conforms schema parameters
unfolding validate_parameters
validate_parameters_iff schema parameters = (
  λ h. record {
    required =
        λ k m. holds_of_any-not (λ r. has_key r parameters) schema.required k (ground arith) m;
    declared = λ closed k m.
        holds_of_any-not (λ n. has_key n schema.properties) (keys parameters) k (ground arith) m;
    typed = check_values-All schema.properties parameters (ground arith);
  },
  λ c.
      let needed : any (λ r. not (has_key r parameters)) schema.required ≡ false =
        any-not_of_holds (λ r. has_key r parameters) schema.required c.required in
      ground (
        arith,
        needed,
        any-not_of_holds (λ n. has_key n schema.properties) (keys parameters),
        c.declared,
        All-check_values schema.properties parameters c.typed,
      ),
)
