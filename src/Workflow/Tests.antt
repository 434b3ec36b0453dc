-- ===== src/Workflow/Tests.antt =====
-- A small workflow, runs of it, and instances of the theorems about the executor.
use aezab.Prelude.{
  ℕ, ◌≤◌, ◌≡◌, ◌≢◌, ◌⊎◌, refl, String, string_eq, true, false, Option, none, some, List, [], ◌∷◌,
  arith, ◌==◌, if◌then◌else◌, length, get_elem?, All,
}
use aezab.Prelude.Dict.{Dict, get, put, remove}
use aezab.Prelude.Int.{ℤ, pos, show_int}
use aezab.Value.{Value, str, Runtime}
use aezab.Workflow.State.{
  StepType, OnFailure, FieldDef, ToolConfig, WorkflowStep, Status, no_state, Handled, World, Run,
  state_of, returned, unavailable, answered,
}
use aezab.Workflow.Fields.{
  confirmation_intent, intent_of, contains_any, validate_field, check_builtin, builtin_validator,
  check_rule,
}
use aezab.Rules.{evaluate_rules}
use aezab.Workflow.Collect.{handle_collect, collect_fields}
use aezab.Workflow.Tool.{handle_tool_call}
use aezab.Workflow.Moves.{
  perform_rollback, resolve_step_target, max_snapshots, take_snapshot, pop_until, editable,
  index_of, int_beq,
}
use aezab.Workflow.Finish.{handle_complete}
use aezab.Workflow.Process.{process_step}
use aezab.Workflow.Confirm.{EmptyText, count_gated, process_step-gated}
use aezab.Workflow.Snapshots.{process_step-snapshots}
use aezab.Workflow.Rollback.{RolledBack, NoTarget, perform_rollback_lem}
use aezab.Workflow.Targets.{resolve_step_target_lem}
use aezab.Workflow.Webhook.{Submitted, Unsubmitted, handle_complete-honest}

-- ASCII texts without white space; no regular expression is used in the runs.
abbrev py : Runtime
py = record {
  repr = λ v. "";
  lower = λ t. t;
  upper = λ t. t;
  strip = λ t. t;
  rstrip = λ cs t. t;
  re_match = λ p t. some true;
  re_search = λ p t. some true;
  parse_float = λ t. none;
  float_of_int = show_int;
  float_lt = λ a b. false;
  float_le = λ a b. true;
  split_commas = λ t. t ∷ [];
  join = λ s ts. "";
  is_in = λ a b. a == b;
  extension = λ t. "";
  parse_int = λ t. if t == "2" then some (pos 2) else none;
  int_of_float = λ t. none;
}

py-EmptyText : EmptyText py
py-EmptyText = record {
  strip_empty = refl;
  lower_empty = refl;
  rstrip_empty = λ cs. refl;
  in_empty = λ word h. h;
}

abbrev phone : FieldDef
phone = record {
  name = "phone";
  label = "phone";
  field_type = "text";
  required = true;
  options = [];
  validation_rule = "";
  llm_validate = false;
  llm_validate_prompt = "";
  allowed_extensions = [];
  max_size_mb = 0;
}

abbrev no_tool : ToolConfig
no_tool = record {
  input_mapping = [];
  output_mapping = [];
  webhook_url = "";
  webhook_enabled = false;
  webhook_method = "POST";
  webhook_headers = [];
  decision = none;
}

abbrev blank : String → String → ℕ → StepType → WorkflowStep
blank id name order step_type = record {
  id = id;
  name = name;
  order = pos order;
  step_type = step_type;
  prompt_template = "";
  fields = [];
  validation_rules = [];
  tool_id = none;
  tool_config = no_tool;
  on_failure = OnFailure.retry;
  fallback_step_id = none;
  requires_human_confirm = false;
  next_step_rules = [];
}

abbrev ask_phone : WorkflowStep
ask_phone = record (blank "s1" "phone" 1 StepType.collect) { fields = phone ∷ [] }

abbrev order_repair : WorkflowStep
order_repair = record (blank "s2" "repair" 2 StepType.tool_call) {
  tool_id = some "repair_tool";
  requires_human_confirm = true;
}

abbrev submit : WorkflowStep
submit = record (blank "s3" "submit" 3 StepType.complete) {
  tool_config = record no_tool { webhook_url = "http://crm"; webhook_enabled = true };
}

abbrev steps : List WorkflowStep
steps = ask_phone ∷ order_repair ∷ submit ∷ []

-- Every tool answers and every webhook is refused.
abbrev world : World
world = record {
  runtime = py;
  audited = true;
  steps = λ id. steps;
  owned_tool = λ c. some (record { additional_properties = true; properties = [] });
  tool = λ c. returned (("ticket", str "T1") ∷ []);
  extracted = λ c. none;
  semantic_error = λ c. none;
  decided = λ c. unavailable "timeout";
  webhook = λ c. answered 503;
}

abbrev start : Run
start = record {
  session = record {
    id = "session";
    tenant_id = "tenant";
    agent_id = "agent";
    workflow_state =
        some (record no_state { workflow_id = some "wf"; idempotency_key = some "key" });
    collected_data = [];
    active_skill_id = none;
  };
  pending_events = [];
  audit = [];
  calls = [];
}

abbrev form : Dict String Value
form = ("phone", str "555") ∷ []

-- What a run computes with.
opened : World → String → Option (Dict String Value) → Run → Handled
unfolding process_step get put remove confirmation_intent intent_of contains_any handle_collect
    collect_fields validate_field check_builtin builtin_validator check_rule evaluate_rules
    handle_tool_call handle_complete take_snapshot perform_rollback pop_until editable
opened w input form r = process_step w input form r

-- The phone is stored and the gate of the next step is shown.
abbrev at_gate : Run
at_gate = (process_step world "" (some form) start).0

asks_for_confirmation :
    ((state_of at_gate).pending_confirmation_step ≡ some "s2")
    × (get at_gate.session.collected_data "phone" ≡ some (str "555"))
    × (count_gated at_gate.calls ≡ 0)
unfolding opened
asks_for_confirmation = (refl, refl, refl)

-- Then "ok" makes the tool run, and the webhook fails four times.
runs_on_ok :
    let after = (process_step world "ok" none at_gate).0 in
    (count_gated after.calls ≡ 1)
    × ((state_of after).status ≡ some Status.await_retry)
    × (length (state_of after).snapshots ≡ 3)
unfolding opened
runs_on_ok = (refl, refl, refl)

-- And "no" leads back to the phone.
goes_back_on_no :
    let after = (process_step world "no" none at_gate).0 in
    (count_gated after.calls ≡ 0) × ((state_of after).current_step_index ≡ 0)
unfolding opened
goes_back_on_no = (refl, refl)

no_is_no : confirmation_intent py "no" ≢ some true
unfolding opened
no_is_no e = cc

process_step-gated_example :
    count_gated (process_step world "no" none at_gate).0.calls ≡ count_gated at_gate.calls
process_step-gated_example =
    process_step-gated world "no" none at_gate py-EmptyText (λ s at p. no_is_no)

few : length (state_of at_gate).snapshots ≤ max_snapshots
unfolding opened
few = omega arith

process_step-snapshots_example :
    length (state_of (process_step world "ok" none at_gate).0).snapshots ≤ max_snapshots
process_step-snapshots_example = process_step-snapshots world "ok" none at_gate few

perform_rollback_lem_example :
    RolledBack at_gate steps 1 (state_of at_gate).snapshots (perform_rollback at_gate steps 1).0
    ⊎ NoTarget at_gate steps 1 (state_of at_gate).snapshots (perform_rollback at_gate steps 1).0
perform_rollback_lem_example = perform_rollback_lem at_gate steps 1

resolves : resolve_step_target py steps (str "2") ≡ some 1
unfolding resolve_step_target index_of
resolves = refl

resolve_step_target_lem_example :
    (step : WorkflowStep) × (get_elem? steps 1 ≡ some step)
    × (((step.id == "2") ≡ true)
        ⊎ (All (λ s. (s.id == "2") ≡ false) steps × ((step.name == "2") ≡ true))
        ⊎ (All (λ s. (s.id == "2") ≡ false) steps
            × All (λ s. (s.name == "2") ≡ false) steps
            × ((n : ℤ) × (py.parse_int "2" ≡ some n) × (int_beq step.order n ≡ true))))
resolve_step_target_lem_example = resolve_step_target_lem py steps "2" 1 resolves

handle_complete-honest_example :
    Submitted world at_gate (handle_complete world submit steps 2 form at_gate)
    ⊎ Unsubmitted world at_gate 2 (handle_complete world submit steps 2 form at_gate)
handle_complete-honest_example = handle_complete-honest world submit steps 2 form at_gate refl
