-- ===== src/Flow/Tests.antt =====
-- Two small workflows, and an instance of the theorem about the cycles of automatic steps.
use aezab.Prelude.{
  ℕ, ◌≡◌, ◌↔◌, refl, String, string_eq, nat_eq, true, false, none, some, List, [], ◌∷◌,
}
use aezab.Prelude.Dict.{put}
use aezab.Prelude.Int.{show_nat}
use aezab.Flow.{
  Route, StepPayload, graph_of, validate_automatic_cycles, enumerate, sort_steps, automatic,
  is_automatic, refs_of,
}
use aezab.Flow.Acyclic.{Chain, AutomaticRoute, validate_automatic_cycles_lem}

abbrev step : String → ℕ → String → List Route → StepPayload
step name order step_type rules = record {
  id = none;
  name = name;
  order = order;
  step_type = step_type;
  has_fields = false;
  requires_human_confirm = false;
  next_step_rules = rules;
  fallback_step_id = "";
}

-- A check that leads on to a tool, and a tool that leads back to the check.
abbrev looping : List StepPayload
looping =
    step "book" 2 "tool_call" (record { goto_step = "check"; is_default = true } ∷ [])
    ∷ step "check" 1 "validate" []
    ∷ step "end" 3 "complete" []
    ∷ []

-- The tool leads to the end.
abbrev straight : List StepPayload
straight =
    step "book" 2 "tool_call" (record { goto_step = "3"; is_default = true } ∷ [])
    ∷ step "check" 1 "validate" []
    ∷ step "end" 3 "complete" []
    ∷ []

refused :
    validate_automatic_cycles looping
    ≡ some ("Workflow has a cycle of automatic steps with no user input or manual pause." ∷ [])
unfolding validate_automatic_cycles graph_of refs_of show_nat enumerate sort_steps is_automatic put
    automatic
refused = refl

straight_passes : validate_automatic_cycles straight ≡ some []
unfolding validate_automatic_cycles graph_of refs_of show_nat enumerate sort_steps is_automatic put
    automatic
straight_passes = refl

-- A name with a space behind it passes the checks before this one, which strip it, and its rule is then
-- a `KeyError` here.
abbrev spaced : List StepPayload
spaced =
    step "book" 1 "tool_call" (record { goto_step = "done"; is_default = true } ∷ [])
    ∷ step "done " 2 "complete" []
    ∷ []

key_error : validate_automatic_cycles spaced ≡ none
unfolding validate_automatic_cycles graph_of refs_of show_nat enumerate sort_steps is_automatic put
    automatic
key_error = refl

validate_automatic_cycles_lem_example :
    (◌≡◌ {A = List String} [] []) ↔ ((n : ℕ) → ¬ (Chain (AutomaticRoute straight) n n))
validate_automatic_cycles_lem_example = validate_automatic_cycles_lem straight [] straight_passes
