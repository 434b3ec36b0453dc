-- ===== src/Rules.antt =====
-- server/engine/rule_evaluator.py: conditional branching on the collected data.
pub mod Laws
pub mod Tests
use aezab.Prelude.{
  String, string_eq, Bool, true, false, not, Option, none, some, List, [], ◌∷◌, map, any, ◌==◌,
  if◌then◌else◌, ◌||◌, ◌&&◌,
}
use aezab.Prelude.Dict.{Dict, get}
use aezab.Value.{Value, null, bool, int, float, str, arr, obj, Runtime, to_text, items}
use aezab.Prelude.Int.{pos}

-- `{"field": ..., "op": ..., "value": ...}`, with the defaults of the reads put in.
pub record Condition : Type 0 where
  pub field : String
  pub op : String
  pub value : Value

pub record Rule : Type 0 where
  pub condition : Option Condition
  pub goto_step : Value

-- `float(value)`; `none` is the `TypeError` or the `ValueError`. An integer is taken to lie within the
-- range of a float, since the `OverflowError` of a larger one is not caught.
unfoldable pub to_float : Runtime → Value → Option String
to_float py null = none
to_float py (bool true) = some (py.float_of_int (pos 1))
to_float py (bool false) = some (py.float_of_int (pos 0))
to_float py (int n) = some (py.float_of_int n)
to_float py (float t) = some t
to_float py (str t) = py.parse_float t
to_float py (arr _) = none
to_float py (obj _) = none

unfoldable pub compare_floats :
    (String → String → Bool) → Option String → Option String → Option Bool
compare_floats test none _ = none
compare_floats test (some a) none = none
compare_floats test (some a) (some b) = some (test a b)

unfoldable pub op_eq : Runtime → Value → Value → Bool
op_eq py actual expected = py.strip (to_text py actual) == py.strip (to_text py expected)

unfoldable pub op_ne : Runtime → Value → Value → Bool
op_ne py actual expected = not (py.strip (to_text py actual) == py.strip (to_text py expected))

unfoldable pub op_gt : Runtime → Value → Value → Option Bool
unfolding compare_floats
op_gt py actual expected =
    compare_floats (λ a b. py.float_lt b a) (to_float py actual) (to_float py expected)

unfoldable pub op_lt : Runtime → Value → Value → Option Bool
unfolding compare_floats
op_lt py actual expected = compare_floats py.float_lt (to_float py actual) (to_float py expected)

unfoldable pub op_gte : Runtime → Value → Value → Option Bool
unfolding compare_floats
op_gte py actual expected =
    compare_floats (λ a b. py.float_le b a) (to_float py actual) (to_float py expected)

unfoldable pub op_lte : Runtime → Value → Value → Option Bool
unfolding compare_floats
op_lte py actual expected = compare_floats py.float_le (to_float py actual) (to_float py expected)

unfoldable pub op_contains : Runtime → Value → Value → Bool
op_contains py actual expected = py.is_in (to_text py expected) (to_text py actual)

unfoldable pub op_not_contains : Runtime → Value → Value → Bool
op_not_contains py actual expected = not (py.is_in (to_text py expected) (to_text py actual))

-- `none` is the `re.error` of an expression that does not compile.
unfoldable pub op_regex : Runtime → Value → Value → Option Bool
op_regex py actual expected = py.re_search (to_text py expected) (to_text py actual)

unfoldable pub op_in : Runtime → Value → Value → Bool
op_in py actual (arr vs) =
    any (λ v. py.strip (to_text py v) == py.strip (to_text py actual)) (items vs)
op_in py actual expected =
    any (λ t. t == py.strip (to_text py actual)) (py.split_commas (to_text py expected))

unfoldable pub op_not_in : Runtime → Value → Value → Bool
op_not_in py actual expected = not (op_in py actual expected)

-- `_OPERATORS[op](actual, expected)`; `none` is an exception that the caller catches.
unfoldable pub apply_op : Runtime → String → Value → Value → Option Bool
apply_op py op actual expected =
    if op == "eq"
    then some (op_eq py actual expected)
    else if op == "ne"
    then some (op_ne py actual expected)
    else if op == "gt"
    then op_gt py actual expected
    else if op == "lt"
    then op_lt py actual expected
    else if op == "gte"
    then op_gte py actual expected
    else if op == "lte"
    then op_lte py actual expected
    else if op == "contains"
    then some (op_contains py actual expected)
    else if op == "not_contains"
    then some (op_not_contains py actual expected)
    else if op == "regex"
    then op_regex py actual expected
    else if op == "in"
    then some (op_in py actual expected)
    else if op == "not_in"
    then some (op_not_in py actual expected)
    else none

abbrev pub is_none : Value → Bool
is_none null = true
is_none _ = false

-- The `except` branch: a rule that cannot be evaluated does not match.
abbrev pub or_false : Option Bool → Bool
or_false none = false
or_false (some b) = b

abbrev pub or_null : Option Value → Value
or_null none = null
or_null (some v) = v

-- A missing field and a `None` are one case.
unfoldable pub evaluate_actual : Runtime → Condition → Value → Bool
evaluate_actual py c null = (c.op == "eq" || c.op == "is") && is_none c.value
evaluate_actual py c actual = or_false (apply_op py c.op actual c.value)

unfoldable pub evaluate_condition : Runtime → Condition → Dict String Value → Bool
unfolding evaluate_actual
evaluate_condition py c values = evaluate_actual py c (or_null (get values c.field))

abbrev pub matches : Runtime → Dict String Value → Option Condition → Bool
matches py values none = true
matches py values (some c) = evaluate_condition py c values

-- The target of the first rule that matches; a rule without a condition always does. A rule whose
-- target is `None` returns `None` too.
unfoldable pub evaluate_rules : Runtime → List Rule → Dict String Value → Value
evaluate_rules py [] values = null
evaluate_rules py (rule ∷ rules) values =
    if matches py values rule.condition then rule.goto_step else evaluate_rules py rules values
