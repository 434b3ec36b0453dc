-- ===== src/Workflow/Advance.antt =====
-- server/engine/workflow_executor.py: `_advance`, `_enter_step` and `_follow_fallback`. `process` is
-- `process_step` one level deeper, on an empty message and without form data.
use Prim.Native.String.{◌++◌ as ◌+++◌}
use text.Mathlib.Text.{starts_with}
use aezab.Prelude.{
  ℕ, ◌+◌, String, string_eq, Bool, true, false, not, ◌&&◌, Option, none, some, List, [], ◌∷◌,
  length, get_elem?, ◌==◌, if◌then◌else◌,
}
use aezab.Prelude.Dict.{Dict, get}
use aezab.Value.{Value, null, str, obj, Runtime, to_text, truthy, entries}
use aezab.Rules.{evaluate_rules}
use aezab.Workflow.State.{
  StepType, collect, validate, tool_call, decision, complete, human_review, confirm, other,
  FieldDef, WorkflowStep, WorkflowCard, Run, World, Handled, Outcome, answer, say, show, error,
  waiting_input, completed, Status, state_of, set_state, log, workflow_branch,
}
use aezab.Workflow.Moves.{resolve_step_target, make_card, has_fields}

-- The steps that run without the user: all but `confirm`, unknown types, and `collect` with fields.
abbrev pub is_auto : StepType → List FieldDef → Bool
is_auto validate fields = true
is_auto tool_call fields = true
is_auto decision fields = true
is_auto complete fields = true
is_auto human_review fields = true
is_auto collect fields = not (has_fields fields)
is_auto confirm fields = false
is_auto (other _) fields = false

abbrev pub or_text : String → String → String
or_text text default = if text == "" then default else text

unfoldable pub enter : Run → ℕ → Run
enter r idx =
    set_state r (record (state_of r) { current_step_index = idx; status = some Status.in_progress })

module _ (process : Run → Handled) (w : World) (steps : List WorkflowStep) where
  unfoldable pub enter_found : ℕ → Run → Option WorkflowStep → Handled
  enter_found idx r none = (r, Outcome.raised)
  enter_found idx r (some step) =
      if is_auto step.step_type step.fields
      then process r
      else answer r (
          show waiting_input (or_text step.prompt_template ("请继续: " +++ step.name))
            (make_card step steps idx none))

  -- `steps[next_idx]` is there at every call.
  unfoldable pub enter_step : ℕ → Run → Handled
  unfolding enter enter_found
  enter_step idx r = enter_found idx (enter r idx) (get_elem? steps idx)

-- The keys that do not begin with an underscore.
unfoldable pub user_data : Dict String Value → Dict String Value
user_data [] = []
user_data ((k, v) ∷ d) = let rest = user_data d in if starts_with k "_" then rest else (k, v) ∷ rest

abbrev dict_of : Value → Option (Dict String Value)
dict_of (obj es) = some (entries es)
dict_of _ = none

-- The dicts under `_tool_result_...`, and the last of them.
unfoldable pub last_tool_result : Dict String Value → Option (Dict String Value)
last_tool_result [] = none
last_tool_result ((k, v) ∷ d) = elim (last_tool_result d) [
  | some result ↦ some result
  | none ↦ if starts_with k "_tool_result_" then dict_of v else none
]

-- The first of the keys that has a value which is not falsy.
unfoldable pub display : Dict String Value → List String → Option Value
display result [] = none
display result (k ∷ ks) = elim (get result k) [
  | none ↦ display result ks
  | some v ↦ if truthy v then some v else display result ks
]

unfoldable pub summary_parts : Runtime → Dict String Value → List String
summary_parts py [] = []
summary_parts py ((k, v) ∷ d) =
    let rest = summary_parts py d in
    if not (k == "success") && truthy v then (k +++ ": " +++ to_text py v) ∷ rest else rest

abbrev all_done : String
all_done = "流程已全部完成！"

unfoldable pub completion_message : Runtime → Option (Dict String Value) → String
unfolding display summary_parts
completion_message py none = all_done
completion_message py (some result) =
    elim (display result ("formatted" ∷ "forecast" ∷ "result" ∷ "datetime" ∷ [])) [
      | some v ↦ to_text py v
      | none ↦
          let parts = summary_parts py result in
          elim parts [ [] ↦ all_done | p ∷ ps ↦ py.join "\n" (p ∷ ps) ]
    ]

unfoldable pub completion_card : List WorkflowStep → Dict String Value → WorkflowCard
unfolding user_data
completion_card steps collected = record {
  step_name = "完成";
  step_type = complete;
  prompt = all_done;
  fields = [];
  current_step = length steps;
  total_steps = length steps;
  collected_data = some (user_data collected);
  webhook_result = none;
}

abbrev pub step_id : Option WorkflowStep → Option String
step_id none = none
step_id (some s) = some s.id

-- Past the last step: the workflow is completed.
unfoldable pub run_out : World → List WorkflowStep → ℕ → Run → Handled
unfolding completion_message completion_card last_tool_result
run_out w steps idx r =
    let done =
      set_state r
        (record (state_of r) { current_step_index = idx; status = some Status.completed }) in
    answer done (
      show completed (completion_message w.runtime (last_tool_result r.session.collected_data))
        (completion_card steps r.session.collected_data))

-- Where `_advance` goes: on by one, or to the target of a rule; `none` if the target is no step.
unfoldable pub next_index : World → List WorkflowStep → WorkflowStep → ℕ → Run → Option ℕ
next_index w steps step idx r =
    elim (evaluate_rules w.runtime step.next_step_rules r.session.collected_data) [
      | null ↦ some (idx + 1)
      | goto ↦ resolve_step_target w.runtime steps goto
    ]

-- The steps that a failed decision may lead to.
abbrev pub safe_after_decision : WorkflowStep → StepType → Bool
safe_after_decision s collect = has_fields s.fields
safe_after_decision s human_review = true
safe_after_decision s complete = not s.tool_config.webhook_enabled
safe_after_decision s _ = false

abbrev target_value : Option String → Value
target_value none = null
target_value (some t) = str t

module _ (process : Run → Handled) (w : World) (steps : List WorkflowStep) where
  -- The step at `idx` is entered, or the workflow has run out of steps.
  unfoldable pub proceed : ℕ → Run → Handled
  unfolding enter_step run_out
  proceed idx r = elim (get_elem? steps idx) [
    | none ↦ run_out w steps idx r
    | some step ↦ enter_step process w steps idx r
  ]

  unfoldable pub advance_to : WorkflowStep → Run → Option ℕ → Handled
  unfolding proceed
  advance_to step r none = answer r (say error "分支指向不存在的步骤，已停止执行。")
  advance_to step r (some idx) =
      proceed idx (log w r (workflow_branch step.id (step_id (get_elem? steps idx)) "next"))

  unfoldable pub advance : WorkflowStep → ℕ → Run → Handled
  unfolding advance_to next_index
  advance step idx r = advance_to step r (next_index w steps step idx r)

  unfoldable pub fall_back : Bool → WorkflowStep → ℕ → Option WorkflowStep → Run → Handled
  unfolding enter_step
  fall_back after_decision step target none r = (r, Outcome.raised)
  fall_back after_decision step target (some fallback) r =
      if after_decision && not (safe_after_decision fallback fallback.step_type)
      then answer r (say error "判定失败去向必须补充信息、暂停或结束。")
      else enter_step process w steps target
          (log w r (workflow_branch step.id (some fallback.id) "fallback"))

  unfoldable pub follow_target : Bool → WorkflowStep → Option ℕ → Run → Handled
  unfolding fall_back
  follow_target after_decision step none r = answer r (say error "流程缺少有效的失败去向，已停止执行。")
  follow_target after_decision step (some target) r =
      fall_back after_decision step target (get_elem? steps target) r

  unfoldable pub follow_fallback : Bool → WorkflowStep → Run → Handled
  unfolding follow_target
  follow_fallback after_decision step r =
      follow_target after_decision step
        (resolve_step_target w.runtime steps (target_value step.fallback_step_id)) r
