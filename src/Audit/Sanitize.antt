-- ===== src/Audit/Sanitize.antt =====
-- `sanitize_parameters` of audit/service.py.
use tool_permission_enforcer.Base.{
  String, not, Option, none, some, List, [], ◌∷◌, ◌++◌, ◌≡◌, map, string_eq, contains, all_where,
  order_by, arith,
}
use tool_permission_enforcer.Base.Dict.{Dict, lookup, keys}
use tool_permission_enforcer.Base.Json.{Json, str, arr, obj, Fields, entries, fields, from_list}
use tool_permission_enforcer.Base.Text.{leb_text}

-- `sorted(…)` as a JSON list
abbrev sorted_texts : List String → Json
sorted_texts names = arr (from_list (map str (order_by leb_text names)))

customer_part : Option Json → Dict Json
customer_part (some (str s)) = ("customer_id", str s) ∷ []
customer_part _ = []

-- A key of a JSON object is a text, which `str` leaves as it is.
change_fields : Json → Json
change_fields (obj fs) = sorted_texts (keys (entries fs))
change_fields _ = str "[INVALID]"

changes_part : Option Json → Dict Json
unfolding change_fields
changes_part none = []
changes_part (some changes) =
    ("change_fields", change_fields changes) ∷ ("changes", str "[REDACTED]") ∷ []

ignored_part : List String → Dict Json
ignored_part [] = []
ignored_part (name ∷ names) = ("ignored_parameter_names", sorted_texts (name ∷ names)) ∷ []

-- The names that are neither `customer_id` nor `changes`.
abbrev unknown : Dict Json → List String
unknown parameters =
    all_where (λ name. not (contains ("customer_id" ∷ "changes" ∷ []) name)) (keys parameters)

unfoldable pub sanitize_parameters : Dict Json → Fields
unfolding customer_part changes_part ignored_part
sanitize_parameters parameters = fields (
    customer_part (lookup "customer_id" parameters)
    ++ (changes_part (lookup "changes" parameters) ++ ignored_part (unknown parameters)))

-- What may be stored of a parameter: the customer, and of the changes only the names.
pub data Shape : Type 0 where
  absent invalid : Shape
  names : List String → Shape

abbrev pub shape : Option Json → Shape
shape none = absent
shape (some (obj fs)) = names (keys (entries fs))
shape (some _) = invalid

abbrev pub customer_text : Option Json → Option String
customer_text (some (str s)) = some s
customer_text _ = none

changes_part_by_shape : (a b : Option Json) → shape a ≡ shape b → changes_part a ≡ changes_part b
unfolding changes_part
changes_part_by_shape a b h = ground arith

customer_part_by_text :
    (a b : Option Json) → customer_text a ≡ customer_text b → customer_part a ≡ customer_part b
unfolding customer_part
customer_part_by_text a b h = ground arith

-- Nothing else is stored: parameters with the same names, the same customer if it is a text, and
-- changes of the same field names are sanitized alike, whatever their other values are.
pub sanitize_hides_values :
    (p q : Dict Json)
    → keys p ≡ keys q
    → customer_text (lookup "customer_id" p) ≡ customer_text (lookup "customer_id" q)
    → shape (lookup "changes" p) ≡ shape (lookup "changes" q)
    → sanitize_parameters p ≡ sanitize_parameters q
unfolding sanitize_parameters
sanitize_hides_values p q same_names same_customer same_shape = rw (
  same_names,
  customer_part_by_text (lookup "customer_id" p) (lookup "customer_id" q) same_customer,
  changes_part_by_shape (lookup "changes" p) (lookup "changes" q) same_shape,
)
