-- ===== src/Workflow/Tool.antt =====
-- server/engine/workflow_executor.py: `_handle_validate`, `_handle_confirm` and
-- `_handle_tool_call`.
use Prim.Native.String.{◌++◌ as ◌+++◌}
use aezab.Prelude.{
  ℕ, String, string_eq, Bool, true, false, not, ◌&&◌, ◌||◌, Option, none, some, List, [], ◌∷◌, ◌++◌,
  map, ◌==◌, if◌then◌else◌,
}
use aezab.Prelude.Dict.{Dict, get, put}
use aezab.Value.{Value, str, arr, obj, Runtime, to_text, truthy, to_entries}
use aezab.Workflow.State.{
  FieldRule, WorkflowStep, Run, World, Handled, Outcome, answer, say, show, waiting_input, error,
  escalated, asked, log, set_collected, queue_event, state_of, workflow_escalated, workflow_step,
  OnFailure, retry, skip, rollback, escalate, find_tool, invoke_tool, OwnedTool, ToolReply,
  returned, failed,
}
use aezab.Workflow.Fields.{confirmation_intent, is_one_of}
use aezab.Workflow.Moves.{make_card, perform_rollback}
use aezab.Workflow.Advance.{or_text, advance, follow_fallback}

-- `if step.fallback_step_id`
abbrev pub has_fallback : Option String → Bool
has_fallback none = false
has_fallback (some t) = not (t == "")

abbrev pub or_blank : Option Value → Value
or_blank none = str ""
or_blank (some v) = v

-- One rule: the errors that it adds, or `none` if its expression does not compile.
unfoldable pub rule_errors : Runtime → FieldRule → Value → Option (List String)
rule_errors py rule v =
    let missing =
      if rule.required && not (truthy v) then ("缺少必填字段: " +++ rule.field) ∷ [] else [] in
    if not (rule.regex == "") && truthy v
    then elim (py.re_match rule.regex (to_text py v)) [
      | none ↦ none
      | some matched ↦
          some (missing ++ (if matched then [] else ("字段 " +++ rule.field +++ " 格式不正确") ∷ []))
    ]
    else some missing

abbrev append_errors : Option (List String) → Option (List String) → Option (List String)
append_errors none rest = none
append_errors (some es) none = none
append_errors (some es) (some rest) = some (es ++ rest)

unfoldable pub all_rule_errors : Runtime → List FieldRule → Dict String Value → Option (List String)
unfolding rule_errors
all_rule_errors py [] collected = some []
all_rule_errors py (rule ∷ rules) collected =
    append_errors (rule_errors py rule (or_blank (get collected rule.field)))
      (all_rule_errors py rules collected)

module _ (process : Run → Handled) (w : World) (steps : List WorkflowStep) where
  unfoldable pub on_invalid : WorkflowStep → ℕ → List String → OnFailure → Run → Handled
  on_invalid step idx errors rollback r = perform_rollback r steps idx
  on_invalid step idx errors _ r =
      answer r
        (say waiting_input ("校验失败:\n" +++ w.runtime.join "\n" (map (λ m. "- " +++ m) errors)))

  unfoldable pub validated : WorkflowStep → ℕ → Option (List String) → Run → Handled
  unfolding on_invalid
  validated step idx none r = (r, Outcome.raised)
  validated step idx (some []) r = advance process w steps step idx r
  validated step idx (some (e ∷ es)) r =
      if has_fallback step.fallback_step_id
      then follow_fallback process w steps false step r
      else on_invalid step idx (e ∷ es) step.on_failure r

  unfoldable pub handle_validate : WorkflowStep → ℕ → Dict String Value → Run → Handled
  unfolding validated
  handle_validate step idx collected r =
      validated step idx (all_rule_errors w.runtime step.validation_rules collected) r

  unfoldable pub confirmed : WorkflowStep → ℕ → Option Bool → Run → Handled
  confirmed step idx (some false) r = perform_rollback r steps idx
  confirmed step idx (some true) r = advance process w steps step idx r
  confirmed step idx none r = answer r (
      show waiting_input (or_text step.prompt_template "请确认以上信息是否正确？（回复\"确认\"继续，或\"取消\"修改）")
        (make_card step steps idx none))

  unfoldable pub handle_confirm : WorkflowStep → ℕ → String → Run → Handled
  unfolding confirmed
  handle_confirm step idx user_input r =
      confirmed step idx (confirmation_intent w.runtime user_input) r

-- A source is a key of the collected data, or else a literal; a list or a dict is no key and raises.
abbrev source_value : Dict String Value → Value → Option Value
source_value collected (str k) = elim (get collected k) [ none ↦ some (str k) | some v ↦ some v ]
source_value collected (arr _) = none
source_value collected (obj _) = none
source_value collected v = some v

abbrev put_source : String → Option Value → Option (Dict String Value) → Option (Dict String Value)
put_source field none rest = none
put_source field (some v) none = none
put_source field (some v) (some rest) = some ((field, v) ∷ rest)

-- The keys of the mapping are distinct, so the result lists them in its order.
unfoldable pub map_input : Dict String Value → Dict String Value → Option (Dict String Value)
map_input [] collected = some []
map_input ((field, source) ∷ mapping) collected =
    put_source field (source_value collected source) (map_input mapping collected)

unfoldable pub tool_input : Dict String Value → Dict String Value → Option (Dict String Value)
unfolding map_input
tool_input [] collected = some collected
tool_input (m ∷ mapping) collected = map_input (m ∷ mapping) collected

-- `f"{key}:{step.id}"` if the workflow has a key.
unfoldable pub idempotency_value : Option String → String → Option String
idempotency_value none id = none
idempotency_value (some key) id = if key == "" then none else some (key +++ ":" +++ id)

-- The key goes into the body only where the schema of the tool permits it.
unfoldable pub with_key : OwnedTool → Option String → Dict String Value → Dict String Value
with_key tool none input = input
with_key tool (some key) input =
    if tool.additional_properties || is_one_of tool.properties "idempotency_key"
    then put input "idempotency_key" (str key)
    else input

unfoldable pub map_output :
    Dict String String → Dict String Value → Dict String Value → Dict String Value
map_output [] result collected = collected
map_output ((local, field) ∷ mapping) result collected =
    map_output mapping result (put collected local (or_blank (get result field)))

module _ (process : Run → Handled) (w : World) (steps : List WorkflowStep) where
  -- The workflow is given up to the staff: its state and its data are cleared.
  unfoldable pub escalate_tool : WorkflowStep → String → Run → Handled
  escalate_tool step e r =
      let r' = queue_event r (
        workflow_escalated r.session.tenant_id r.session.id (state_of r).workflow_id step.name
          ("工具调用失败: " +++ e)) in
      (
        record r' {
          session = record (r'.session) {
            workflow_state = none;
            collected_data = [];
            active_skill_id = none;
          };
        },
        Outcome.reply (record {
          status = escalated;
          message = "工具调用失败，已转人工处理。原因: " +++ e;
          card = none;
          escalated = true;
        }),
      )

  unfoldable pub on_tool_failure : WorkflowStep → ℕ → String → OnFailure → Run → Handled
  unfolding escalate_tool
  on_tool_failure step idx e skip r = advance process w steps step idx r
  on_tool_failure step idx e escalate r = escalate_tool step e r
  on_tool_failure step idx e rollback r = perform_rollback r steps idx
  on_tool_failure step idx e retry r =
      answer r (show error ("操作失败: " +++ e +++ "。请稍后重试。") (make_card step steps idx none))

  unfoldable pub tool_failed : WorkflowStep → ℕ → String → Run → Handled
  unfolding on_tool_failure
  tool_failed step idx e r =
      let r' = log w r (workflow_step step.id "tool_failed") in
      if has_fallback step.fallback_step_id
      then follow_fallback process w steps false step r'
      else on_tool_failure step idx e step.on_failure r'

  unfoldable pub tool_answered : WorkflowStep → ℕ → Dict String Value → ToolReply → Run → Handled
  unfolding tool_failed map_output
  tool_answered step idx collected (failed e) r = tool_failed step idx e r
  tool_answered step idx collected (returned result) r =
      let collected' =
        put (map_output step.tool_config.output_mapping result collected)
          ("_tool_result_" +++ step.name) (obj (to_entries result)) in
      advance process w steps step idx
        (log w (set_collected r collected') (workflow_step step.id "tool_success"))

  unfoldable pub call_owned :
      WorkflowStep
      → ℕ
      → String
      → Dict String Value
      → Dict String Value
      → Option OwnedTool
      → Run
      → Handled
  unfolding tool_answered with_key idempotency_value
  call_owned step idx tool_id input collected none r =
      tool_failed step idx ("Tool '" +++ tool_id +++ "': Tool not found or disabled") r
  call_owned step idx tool_id input collected (some tool) r =
      let key = idempotency_value (state_of r).idempotency_key step.id in
      let r' = asked r (invoke_tool step (with_key tool key input) key) in
      tool_answered step idx collected (w.tool r'.calls) r'

  unfoldable pub call_tool :
      WorkflowStep → ℕ → String → Dict String Value → Option (Dict String Value) → Run → Handled
  unfolding call_owned
  call_tool step idx tool_id collected none r = (r, Outcome.raised)
  call_tool step idx tool_id collected (some input) r =
      let r' = asked r (find_tool tool_id r.session.tenant_id) in
      call_owned step idx tool_id input collected (w.owned_tool r'.calls) r'

  unfoldable pub handle_tool_call :
      WorkflowStep → ℕ → Option String → Dict String Value → Run → Handled
  unfolding call_tool tool_input
  handle_tool_call step idx none collected r = advance process w steps step idx r
  handle_tool_call step idx (some tool_id) collected r =
      if tool_id == ""
      then advance process w steps step idx r
      else call_tool step idx tool_id collected
          (tool_input step.tool_config.input_mapping collected) r
