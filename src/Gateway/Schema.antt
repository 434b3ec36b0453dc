-- ===== src/Gateway/Schema.antt =====
-- server/engine/tool_gateway.py: `_validate_input_schema` and `_matches_json_type`. A schema is read into
-- a record of the parts that the code looks at; an error keeps the parts of its message. `<` and `==`
-- between values are Python's, and are parameters.
use aezab.Prelude.{
  ℕ, suc, String, string_eq, Bool, true, false, not, ◌&&◌, ◌||◌, Option, none, some, List, [], ◌∷◌,
  any, ltb, ◌==◌, if◌then◌else◌,
}
use aezab.Prelude.Dict.{Dict, get, has}
use aezab.Value.{Value, null, bool, int, float, str, arr, obj}

-- The schema of a field: the types it may have (one or a list; empty if it names none), the allowed
-- values, and the bounds.
pub record FieldSchema : Type 0 where
  pub types : List String
  pub one_of : Option (List Value)
  pub minimum : Option Value
  pub maximum : Option Value
  pub min_length : Option ℕ
  pub max_length : Option ℕ

-- A property whose schema is no object is `none`; `is_closed` is `additionalProperties is False`.
pub record InputSchema : Type 0 where
  pub schema_type : Option String
  pub properties : Dict String (Option FieldSchema)
  pub required : List String
  pub is_closed : Bool

pub data SchemaError : Type 0 where
  missing unknown : List String → SchemaError
  wrong_type : String → List String → SchemaError
  not_allowed : String → List Value → SchemaError
  below above : String → Value → SchemaError
  too_short too_long : String → ℕ → SchemaError

unfoldable pub matches_item : Value → String → Bool
matches_item null item = item == "null"
matches_item (bool _) item = item == "boolean"
matches_item (int _) item = (item == "number") || (item == "integer")
matches_item (float _) item = item == "number"
matches_item (str _) item = item == "string"
matches_item (arr _) item = item == "array"
matches_item (obj _) item = item == "object"

unfoldable pub matches_json_type : Value → List String → Bool
unfolding matches_item
matches_json_type v types = any (matches_item v) types

-- The names of a list that fail a test.
unfoldable pub failing : (String → Bool) → List String → List String
failing test [] = []
failing test (k ∷ ks) = let rest = failing test ks in if test k then rest else k ∷ rest

unfoldable pub keys {ℓ} : {A : Type ℓ} → Dict String A → List String
keys [] = []
keys ((k, v) ∷ d) = k ∷ keys d

abbrev pub names_none {ℓ} : {A : Type ℓ} → List A → Bool
names_none [] = true
names_none (_ ∷ _) = false

-- `len(text)`
abbrev pub text_length : String → ℕ
text_length String.[] = 0
text_length (String.◌∷◌ c s) = suc (text_length s)

abbrev pub or_error : Option SchemaError → Option SchemaError → Option SchemaError
or_error none next = next
or_error (some e) next = some e

unfoldable pub check_type : String → Value → FieldSchema → Option SchemaError
unfolding matches_json_type
check_type field v s =
    if not (names_none s.types) && not (matches_json_type v s.types)
    then some (wrong_type field s.types)
    else none

abbrev pub long_enough : Option ℕ → ℕ → Bool
long_enough none n = true
long_enough (some m) n = not (ltb n m)

abbrev pub short_enough : Option ℕ → ℕ → Bool
short_enough none n = true
short_enough (some m) n = not (ltb m n)

abbrev number_or_zero : Option ℕ → ℕ
number_or_zero none = 0
number_or_zero (some n) = n

unfoldable pub check_length : String → ℕ → FieldSchema → Option SchemaError
check_length field n s =
    if not (long_enough s.min_length n)
    then some (too_short field (number_or_zero s.min_length))
    else if not (short_enough s.max_length n)
    then some (too_long field (number_or_zero s.max_length))
    else none

-- `some` of the names, if there are any.
abbrev pub names_error : (List String → SchemaError) → List String → Option SchemaError
names_error e [] = none
names_error e (k ∷ ks) = some (e (k ∷ ks))

abbrev pub is_object_type : Option String → Bool
is_object_type none = true
is_object_type (some t) = (t == "") || (t == "object")

unfoldable pub known_error :
    Bool → Dict String (Option FieldSchema) → List String → Option SchemaError
unfolding failing
known_error false properties names = none
known_error true properties names = names_error unknown (failing (λ k. has properties k) names)

module _ (lt equals : Value → Value → Bool) where
  abbrev pub check_enum_of : String → Value → Option (List Value) → Option SchemaError
  check_enum_of field v none = none
  check_enum_of field v (some vs) =
      if any (λ x. equals x v) vs then none else some (not_allowed field vs)

  abbrev pub bounded_below : Option Value → Value → Bool
  bounded_below none v = true
  bounded_below (some m) v = not (lt v m)

  abbrev pub bounded_above : Option Value → Value → Bool
  bounded_above none v = true
  bounded_above (some m) v = not (lt m v)

  abbrev value_or_null : Option Value → Value
  value_or_null none = null
  value_or_null (some v) = v

  unfoldable pub check_number : String → Value → FieldSchema → Option SchemaError
  check_number field v s =
      if not (bounded_below s.minimum v)
      then some (below field (value_or_null s.minimum))
      else if not (bounded_above s.maximum v)
      then some (above field (value_or_null s.maximum))
      else none

  -- The bounds are looked at for a number that is no `bool`, the lengths for a text.
  unfoldable pub check_bounds : String → Value → FieldSchema → Option SchemaError
  unfolding check_number check_length
  check_bounds field (int n) s = check_number field (int n) s
  check_bounds field (float t) s = check_number field (float t) s
  check_bounds field (str t) s = check_length field (text_length t) s
  check_bounds field _ s = none

  unfoldable pub check_field : String → Value → FieldSchema → Option SchemaError
  unfolding check_type check_bounds
  check_field field v s =
      or_error (check_type field v s)
        (or_error (check_enum_of field v s.one_of) (check_bounds field v s))

  abbrev pub check_property : String → Value → Option (Option FieldSchema) → Option SchemaError
  check_property field v (some (some s)) = check_field field v s
  check_property field v _ = none

  unfoldable pub check_fields : InputSchema → Dict String Value → Option SchemaError
  unfolding check_field
  check_fields schema [] = none
  check_fields schema ((field, v) ∷ input) =
      or_error (check_property field v (get schema.properties field)) (check_fields schema input)

  unfoldable pub validate_object : InputSchema → Dict String Value → Option SchemaError
  unfolding failing keys check_fields
  validate_object schema input =
      or_error (names_error missing (failing (λ k. has input k) schema.required)) (
        or_error (known_error schema.is_closed schema.properties (keys input))
          (check_fields schema input))

  -- A schema that is missing or empty is `none`.
  unfoldable pub validate_input_schema : Option InputSchema → Dict String Value → Option SchemaError
  unfolding validate_object
  validate_input_schema none input = none
  validate_input_schema (some schema) input =
      if is_object_type schema.schema_type then validate_object schema input else none
