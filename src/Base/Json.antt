-- ===== src/Base/Json.antt =====
-- The values that a JSON column, a request body or a token holds (`Any` in the source).
use tool_permission_enforcer.Base.{
  ℕ, String, Bool, true, false, List, [], ◌∷◌, Option, none, some, string_eq,
}
use tool_permission_enforcer.Base.Dict.{Dict}
use native.Mathlib.Decide.{ℕ_discrete}

-- `negsuc n` is -(n + 1).
pub data ℤ : Type 0 where
  pos : ℕ → ℤ
  negsuc : ℕ → ℤ

-- A number that is no integer is kept as its text.
mutual
  pub data Json : Type 0 where
    null : Json
    bool : Bool → Json
    int : ℤ → Json
    float : String → Json
    str : String → Json
    arr : Items → Json
    obj : Fields → Json

  pub data Items : Type 0 where
    nil : Items
    cons : Json → Items → Items

  pub data Fields : Type 0 where
    end : Fields
    field : String → Json → Fields → Fields

-- The entries of an object, and the object of given entries.
abbrev pub entries : Fields → Dict Json
entries end = []
entries (field k v fs) = (k, v) ∷ entries fs

abbrev pub fields : Dict Json → Fields
fields [] = end
fields ((k, v) ∷ d) = field k v (fields d)

abbrev pub items : Items → List Json
items nil = []
items (cons x xs) = x ∷ items xs

abbrev pub from_list : List Json → Items
from_list [] = nil
from_list (x ∷ xs) = cons x (from_list xs)

-- `isinstance(v, str)` and `isinstance(v, dict)`, with what they found
abbrev pub as_str : Json → Option String
as_str (str s) = some s
as_str _ = none

abbrev pub as_dict : Json → Option Fields
as_dict (obj fs) = some fs
as_dict _ = none

abbrev pub is_str : Json → Bool
is_str (str s) = true
is_str _ = false

abbrev pub is_dict : Json → Bool
is_dict (obj fs) = true
is_dict _ = false

String-discrete : Discrete String
String-discrete = string_eq.dec

pub Json-discrete : Discrete Json
Json-discrete = hlevel (ℕ_discrete, String-discrete)
