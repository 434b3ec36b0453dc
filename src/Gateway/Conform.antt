-- ===== src/Gateway/Conform.antt =====
-- The validation of a tool's input against a description of what conforms.
use aezab.Prelude.{
  ℕ, ◌≤◌, ◌≡◌, ◌⊎◌, String, string_eq, Bool, true, false, Option, none, some, List, [], ◌∷◌, any,
  All,
}
use aezab.Prelude.Dict.{Dict, get, has}
use aezab.Value.{Value, int, float, str}
use aezab.Gateway.Schema.{FieldSchema, InputSchema, matches_item, keys, text_length, is_object_type}

abbrev pub HasType : List String → Value → Type 0
HasType [] v = Unit
HasType (t ∷ ts) v = any (matches_item v) (t ∷ ts) ≡ true

abbrev pub LongEnough : Option ℕ → ℕ → Type 0
LongEnough none n = Unit
LongEnough (some m) n = m ≤ n

abbrev pub ShortEnough : Option ℕ → ℕ → Type 0
ShortEnough none n = Unit
ShortEnough (some m) n = n ≤ m

module _ (lt equals : Value → Value → Bool) where
  abbrev pub AtLeast : Option Value → Value → Type 0
  AtLeast none v = Unit
  AtLeast (some m) v = lt v m ≡ false

  abbrev pub AtMost : Option Value → Value → Type 0
  AtMost none v = Unit
  AtMost (some m) v = lt m v ≡ false

  abbrev pub IsListed : Option (List Value) → Value → Type 0
  IsListed none v = Unit
  IsListed (some vs) v = any (λ x. equals x v) vs ≡ true

  -- The bounds hold for a number, the lengths for a text.
  abbrev pub InBounds : FieldSchema → Value → Type 0
  InBounds s (int n) = AtLeast s.minimum (int n) × AtMost s.maximum (int n)
  InBounds s (float t) = AtLeast s.minimum (float t) × AtMost s.maximum (float t)
  InBounds s (str t) =
      LongEnough s.min_length (text_length t) × ShortEnough s.max_length (text_length t)
  InBounds s _ = Unit

  abbrev pub Allows : Option (Option FieldSchema) → Value → Type 0
  Allows (some (some s)) v = HasType s.types v × IsListed s.one_of v × InBounds s v
  Allows _ v = Unit

  -- A closed schema has no other field than its properties.
  abbrev pub OnlyKnown : Bool → Dict String (Option FieldSchema) → List String → Type 0
  OnlyKnown false properties names = Unit
  OnlyKnown true properties names = All (λ k. has properties k ≡ true) names

  -- An input that conforms: it has every required field, no unknown one where the schema is closed, and
  -- each value is allowed.
  pub record Conforms (schema : InputSchema) (input : Dict String Value) : Type 0 where
    pub has_required : All (λ k. has input k ≡ true) schema.required
    pub known : OnlyKnown schema.is_closed schema.properties (keys input)
    pub allowed : All (λ f. Allows (get schema.properties f.0) f.1) input

  -- What a tool takes: everything if it has no schema or one that is not for objects.
  abbrev pub Takes : Option InputSchema → Dict String Value → Type 0
  Takes none input = Unit
  Takes (some schema) input = (is_object_type schema.schema_type ≡ false) ⊎ Conforms schema input
