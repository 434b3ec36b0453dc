-- ===== src/Decision.antt =====
-- server/engine/decision_service.py: the request to the typed choice API and the validation of its answer.
-- All failures of the answer raise the same `DecisionUnavailable`, so `none` stands for it. A result keeps
-- the probabilities by the text of their floats; its latency is left out.
pub mod Valid
pub mod Laws
pub mod Tests
use aezab.Prelude.{
  ℕ, String, string_eq, Bool, true, false, not, ◌&&◌, ◌||◌, Option, none, some, List, [], ◌∷◌, any,
  ltb, leb, ◌==◌, if◌then◌else◌,
}
use aezab.Prelude.Dict.{Dict, get, has}
use aezab.Prelude.Int.{ℤ, pos}
use aezab.Value.{
  Value, null, bool, int, float, str, arr, obj, nil, Entries, entry, end, entries, Runtime,
}
use aezab.Budget.{Text, estimate_tokens}
use aezab.Gateway.Schema.{text_length, keys}
use aezab.Workflow.State.{DecisionConfig}

-- `math.isfinite`, `sum`, and `math.isclose(total, 1.0, abs_tol=0.001)`
pub record FloatMath : Type 0 where
  pub is_finite : String → Bool
  pub sum : List String → String
  pub is_close_to_one : String → Bool

pub record DecisionResult : Type 0 where
  pub model : String
  pub choice : String
  pub confidence : String
  pub probabilities : Dict String String

-- `value[key]`; `none` is a `KeyError` or a `TypeError`.
abbrev pub at : String → Value → Option Value
at key (obj es) = get (entries es) key
at key _ = none

abbrev pub text_at : Option Value → Option String
text_at (some (str t)) = some t
text_at _ = none

abbrev pub entries_at : Option Value → Option (Dict String Value)
entries_at (some (obj es)) = some (entries es)
entries_at _ = none

abbrev pub value_at : String → Option Value → Option Value
value_at key none = none
value_at key (some v) = at key v

abbrev pub same_keys {ℓ κ} : {A : Type ℓ} {B : Type κ} → Dict String A → Dict String B → Bool
same_keys d e = not (any (λ k. not (has e k)) (keys d)) && not (any (λ k. not (has d k)) (keys e))

abbrev pub is_empty_input : Option Value → Bool
is_empty_input none = true
is_empty_input (some null) = true
is_empty_input (some (str t)) = t == ""
is_empty_input (some (arr nil)) = true
is_empty_input (some _) = false

abbrev pub max_decision_input_tokens : ℕ
max_decision_input_tokens = 8000

module _ (py : Runtime) (math : FloatMath) where
  -- An integer between 0 and 1, or a finite float there.
  unfoldable pub probability : Value → Option String
  probability (int (pos ℕ.zero)) = some (py.float_of_int (pos 0))
  probability (int (pos (ℕ.suc ℕ.zero))) = some (py.float_of_int (pos 1))
  probability (float t) =
      if py.float_le "0.0" t && py.float_le t "1.0" && math.is_finite t then some t else none
  probability _ = none

  abbrev pub and_probability :
      String → Option String → Option (Dict String String) → Option (Dict String String)
  and_probability k none rest = none
  and_probability k (some p) none = none
  and_probability k (some p) (some rest) = some ((k, p) ∷ rest)

  unfoldable pub probabilities_of : Dict String Value → Option (Dict String String)
  unfolding probability
  probabilities_of [] = some []
  probabilities_of ((k, v) ∷ d) = and_probability k (probability v) (probabilities_of d)

  unfoldable pub values : Dict String String → List String
  values [] = []
  values ((k, p) ∷ d) = p ∷ values d

  -- `max` of a value and more of them
  unfoldable pub max_from : String → List String → String
  max_from best [] = best
  max_from best (p ∷ ps) = max_from (if py.float_lt best p then p else best) ps

  abbrev pub max_of : List String → String
  max_of [] = ""
  max_of (p ∷ ps) = max_from p ps

  abbrev pub is_top : Option String → List String → Bool
  is_top none ps = false
  is_top (some p) ps = not (py.float_lt p (max_of ps))

  abbrev pub with_confidence :
      String → String → Dict String String → Option String → Option DecisionResult
  with_confidence model choice probabilities none = none
  with_confidence model choice probabilities (some c) =
      some
        (record { model = model; choice = choice; confidence = c; probabilities = probabilities })

  -- The checks on the distribution, and the confidence.
  unfoldable pub check_distribution :
      String → String → Option Value → Option (Dict String String) → Option DecisionResult
  unfolding values max_from probability
  check_distribution model choice confidence none = none
  check_distribution model choice none (some ps) = none
  check_distribution model choice (some confidence) (some ps) =
      if math.is_close_to_one (math.sum (values ps)) && is_top (get ps choice) (values ps)
      then with_confidence model choice ps (probability confidence)
      else none

  unfoldable pub check_answer :
      DecisionConfig
      → Option Value
      → Option String
      → Option String
      → Option String
      → Option (Dict String Value)
      → Option DecisionResult
  unfolding check_distribution probabilities_of
  check_answer config confidence (some model) (some kind) (some choice) (some ps) =
      if not (model == "")
        && leb (text_length model) 128
        && (kind == "choice")
        && has config.choices choice
        && same_keys ps config.choices
      then check_distribution model choice confidence (probabilities_of ps)
      else none
  check_answer config confidence _ _ _ _ = none

  unfoldable pub parse_choice : Value → DecisionConfig → Option DecisionResult
  unfolding check_answer get
  parse_choice payload config =
      let route = value_at "route" (at "answers" payload) in
      check_answer config (value_at "confidence" route) (text_at (at "model" payload))
        (text_at (value_at "type" route)) (text_at (value_at "choice" route))
        (entries_at (value_at "probabilities" route))

-- What comes of the post: a timeout, an HTTP error or a status that is none of 2xx, a body that is no JSON,
-- or a body.
pub data ApiReply : Type 0 where
  timeout http_error no_json : ApiReply
  body : Value → ApiReply

pub data Decided : Type 0 where
  unavailable : String → Decided
  chosen : DecisionResult → Decided

abbrev pub or_invalid : Option DecisionResult → Decided
or_invalid none = unavailable "invalid_response"
or_invalid (some r) = chosen r

-- The settings, `json.dumps` without NaN (`none` is a `ValueError`), and the API's answer to a payload.
pub record Service : Type 0 where
  pub typesafe_enabled : Bool
  pub typesafe_api_key : String
  pub typesafe_model : String
  pub dumps : Value → Option Text
  pub post : Value → ApiReply

-- `{field: collected[field] for field in config.input_fields}`; no field is missing there.
unfoldable pub state_entries : List String → Dict String Value → Entries
unfolding get
state_entries [] collected = end
state_entries (field ∷ fields) collected = elim (get collected field) [
  | none ↦ state_entries fields collected
  | some v ↦ entry field v (state_entries fields collected)
]

unfoldable pub criteria : Dict String String → Entries
criteria [] = end
criteria ((value, description) ∷ choices) = entry value (str description) (criteria choices)

unfoldable pub payload_of : Service → DecisionConfig → Dict String Value → Value
unfolding state_entries criteria
payload_of s config collected =
    let route = entry "type" (str "choice") (
      entry "instructions" (str config.instructions)
        (entry "criteria" (obj (criteria config.choices)) end)) in
    obj (
      entry "model" (str s.typesafe_model) (
        entry "state" (obj (state_entries config.input_fields collected))
          (entry "questions" (obj (entry "route" (obj route) end)) end)))

unfoldable pub outcome_of_reply : Runtime → FloatMath → DecisionConfig → ApiReply → Decided
unfolding parse_choice
outcome_of_reply py math config timeout = unavailable "timeout"
outcome_of_reply py math config http_error = unavailable "provider_error"
outcome_of_reply py math config no_json = unavailable "invalid_response"
outcome_of_reply py math config (body v) = or_invalid (parse_choice py math v config)

-- The outcome, and the payloads that were sent; the serialized text is checked against the limit.
unfoldable pub send_decision :
    Runtime → FloatMath → Service → DecisionConfig → Value → Option Text → Decided × List Value
unfolding outcome_of_reply estimate_tokens
send_decision py math s config payload none = (unavailable "invalid_input", [])
send_decision py math s config payload (some serialized) =
    if ltb max_decision_input_tokens (estimate_tokens serialized)
    then (unavailable "input_budget_exceeded", [])
    else (outcome_of_reply py math config (s.post payload), payload ∷ [])

unfoldable pub decide :
    Runtime → FloatMath → Service → DecisionConfig → Dict String Value → Decided × List Value
unfolding send_decision payload_of get
decide py math s config collected =
    let payload = payload_of s config collected in
    if not s.typesafe_enabled || (s.typesafe_api_key == "")
    then (unavailable "not_configured", [])
    else if any (λ field. is_empty_input (get collected field)) config.input_fields
    then (unavailable "missing_input", [])
    else send_decision py math s config payload (s.dumps payload)
