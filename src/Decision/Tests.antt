-- ===== src/Decision/Tests.antt =====
-- A decision between two routes, and an instance of the theorem about it.
use aezab.Prelude.{
  ℕ, ◌≡◌, refl, String, string_eq, true, false, none, some, [], ◌∷◌, ◌==◌, ltb, leb, if◌then◌else◌,
  ◌⊎◌, inl, inr, Bool-cases, arith,
}
use aezab.Prelude.Dict.{has}
use aezab.Prelude.Int.{show_int}
use aezab.Value.{Value, float, str, obj, entry, end, Runtime, entries}
use aezab.Gateway.Schema.{keys}
use aezab.Workflow.State.{DecisionConfig}
use aezab.Decision.{
  FloatMath, DecisionResult, body, unavailable, chosen, Service, decide, parse_choice,
}
use aezab.Decision.Valid.{FloatOrder, IsValid}
use aezab.Decision.Laws.{WasAsked, decide-chosen}

-- The floats of these runs are "0.1", "0.8", "0.9" and the bounds.
abbrev tenth : String → ℕ
tenth t =
    if t == "0.0"
    then 0
    else if t == "0.1"
    then 1
    else if t == "0.8"
    then 8
    else if t == "0.9"
    then 9
    else 10

ltb_irrefl : (a : ℕ) → ltb a a ≡ false
ltb_irrefl a = ground arith

ltb_trans : (a b c : ℕ) → ltb a b ≡ true → ltb b c ≡ true → ltb a c ≡ true
ltb_trans a b c h k = ground (arith, h, k)

ltb_compare : (a b c : ℕ) → ltb a c ≡ true → (ltb a b ≡ true) ⊎ (ltb b c ≡ true)
ltb_compare a b c h = elim (Bool-cases (ltb a b)) [
  | inl y ↦ inl y
  | inr n ↦ inr (ground (arith, n, h))
]

abbrev py : Runtime
py = record {
  repr = λ v. "";
  lower = λ t. t;
  upper = λ t. t;
  strip = λ t. t;
  rstrip = λ cs t. t;
  re_match = λ p t. some true;
  re_search = λ p t. some true;
  parse_float = λ t. none;
  float_of_int = show_int;
  float_lt = λ a b. ltb (tenth a) (tenth b);
  float_le = λ a b. leb (tenth a) (tenth b);
  split_commas = λ t. t ∷ [];
  join = λ s ts. "";
  is_in = λ a b. a == b;
  extension = λ t. "";
  parse_int = λ t. none;
  int_of_float = λ t. none;
}

abbrev math : FloatMath
math = record { is_finite = λ t. true; sum = λ ps. "1.0"; is_close_to_one = λ t. t == "1.0" }

abbrev config : DecisionConfig
config = record {
  instructions = "Route the request.";
  input_fields = "text" ∷ [];
  choices = ("repair", "a repair") ∷ ("other", "anything else") ∷ [];
  result_key = "route";
  min_confidence = "0.8";
  min_probability = "0.8";
}

abbrev answer : String → Value
answer choice = obj (
    entry "model" (str "m1") (
      entry "answers"
        (obj (
          entry "route"
            (obj (
              entry "type" (str "choice") (
                entry "choice" (str choice) (
                  entry "confidence" (float "0.8") (
                    entry "probabilities"
                      (obj (entry "repair" (float "0.9") (entry "other" (float "0.1") end)))
                      end)))))
            end))
        end))

abbrev repair : DecisionResult
repair = record {
  model = "m1";
  choice = "repair";
  confidence = "0.8";
  probabilities = ("repair", "0.9") ∷ ("other", "0.1") ∷ [];
}

abbrev service : Service
service = record {
  typesafe_enabled = true;
  typesafe_api_key = "k";
  typesafe_model = "system-one";
  dumps = λ v. some (123 ∷ 125 ∷ []);
  post = λ t. body (answer "repair");
}

repair_chosen : (decide py math service config (("text", str "broken") ∷ [])).0 ≡ chosen repair
unfolding decide entries has keys
repair_chosen = refl

-- The less probable choice is refused.
not_top : parse_choice py math (answer "other") config ≡ none
unfolding parse_choice entries has keys
not_top = refl

missing_text : decide py math service config [] ≡ (unavailable "missing_input", [])
unfolding decide entries has keys
missing_text = refl

tenths : FloatOrder py math
tenths = record {
  lt_irrefl = λ a ha. ltb_irrefl (tenth a);
  lt_trans = λ a b c ha hb hc. ltb_trans (tenth a) (tenth b) (tenth c);
  lt_compare = λ a b c ha hb hc x. ltb_compare (tenth a) (tenth b) (tenth c) x;
}

decide-chosen_example :
    IsValid py math config repair
    × WasAsked py math service config
        (("text", str "broken") ∷ [])
        (decide py math service config (("text", str "broken") ∷ [])).1
decide-chosen_example =
    decide-chosen py math service config (("text", str "broken") ∷ []) repair tenths repair_chosen
