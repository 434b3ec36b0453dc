-- ===== src/Rules/Tests.antt =====
-- Rules on a small set of collected data, and an instance of the theorem about them.
use aezab.Prelude.{
  ◌≡◌, ◌⊎◌, refl, string_eq, String, true, none, some, List, [], ◌∷◌, All, ◌==◌, false,
}
use aezab.Prelude.Dict.{Dict, get}
use aezab.Prelude.Int.{show_int}
use aezab.Value.{Value, null, str, Runtime, to_text}
use aezab.Rules.{Rule, matches, evaluate_rules, evaluate_condition, op_eq, op_regex, apply_op}
use aezab.Rules.Laws.{Decided, evaluate_rules_lem}

abbrev py : Runtime
py = record {
  repr = λ v. "";
  lower = λ t. t;
  upper = λ t. t;
  strip = λ t. t;
  rstrip = λ cs t. t;
  re_match = λ p t. none;
  re_search = λ p t. none;
  parse_float = λ t. none;
  float_of_int = show_int;
  float_lt = λ a b. false;
  float_le = λ a b. true;
  split_commas = λ t. t ∷ [];
  join = λ s ts. "";
  is_in = λ a b. a == b;
  extension = λ t. "";
  parse_int = λ t. none;
  int_of_float = λ t. none;
}

abbrev collected : Dict String Value
collected = ("user_type", str "enterprise") ∷ []

abbrev enterprise : Rule
enterprise = record {
  condition = some (record { field = "user_type"; op = "eq"; value = str "enterprise" });
  goto_step = str "review";
}

-- An expression that does not compile matches nothing.
abbrev broken : Rule
broken = record {
  condition = some (record { field = "user_type"; op = "regex"; value = str "(" });
  goto_step = str "broken";
}

abbrev rules : List Rule
rules = broken ∷ enterprise ∷ record { condition = none; goto_step = str "end" } ∷ []

second_rule : evaluate_rules py rules collected ≡ str "review"
unfolding evaluate_rules evaluate_condition get op_eq to_text apply_op op_regex
second_rule = refl

default_rule : evaluate_rules py rules [] ≡ str "end"
unfolding evaluate_rules evaluate_condition get
default_rule = refl

evaluate_rules_lem_example :
    Decided py collected rules (evaluate_rules py rules collected)
    ⊎ (All (λ r. matches py collected r.condition ≡ false) rules
        × (evaluate_rules py rules collected ≡ null))
evaluate_rules_lem_example = evaluate_rules_lem py collected rules
