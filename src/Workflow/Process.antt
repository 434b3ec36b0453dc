-- ===== src/Workflow/Process.antt =====
-- server/engine/workflow_executor.py: `process_step` and `resume_after_review`. The depth of the
-- automatic steps is counted down: `process f` is `process_step` at depth 21 - f.
use Prim.Native.String.{◌++◌ as ◌+++◌}
use aezab.Prelude.{
  ℕ, zero, suc, ◌+◌, String, string_eq, Bool, true, false, Option, none, some, List, [], ◌∷◌,
  get_elem?, ◌==◌, if◌then◌else◌,
}
use aezab.Prelude.Dict.{Dict}
use aezab.Value.{Value}
use aezab.Workflow.State.{
  StepType, WorkflowStep, WorkflowCard, Run, World, Handled, answer, say, show, error,
  waiting_input, completed, state_of, set_state,
}
use aezab.Workflow.Fields.{confirmation_intent}
use aezab.Workflow.Moves.{make_card, take_snapshot, perform_rollback}
use aezab.Workflow.Advance.{or_text, user_data, advance}
use aezab.Workflow.Collect.{handle_collect}
use aezab.Workflow.Tool.{handle_validate, handle_confirm, handle_tool_call}
use aezab.Workflow.Finish.{handle_decision, handle_human_review, handle_complete}

abbrev pub max_auto_advance_depth : ℕ
max_auto_advance_depth = 20

abbrev pub set_pending : Run → Option String → Run
set_pending r p = set_state r (record (state_of r) { pending_confirmation_step = p })

abbrev pub is_pending : Option String → String → Bool
is_pending none id = false
is_pending (some p) id = p == id

unfoldable pub gate_card : WorkflowStep → List WorkflowStep → ℕ → Dict String Value → WorkflowCard
gate_card step steps idx collected =
    let card = make_card step steps idx (some (user_data collected)) in
    record card {
      step_type = StepType.confirm;
      prompt = or_text step.prompt_template "请确认是否执行此操作。回复“确认”继续。";
    }

unfoldable pub show_gate : WorkflowStep → List WorkflowStep → ℕ → Dict String Value → Run → Handled
show_gate step steps idx collected r = answer (set_pending r (some step.id)) (
    show waiting_input (or_text step.prompt_template "请确认是否执行此操作。回复“确认”继续。")
      (gate_card step steps idx collected))

module _ (process : Run → Handled) (w : World) (steps : List WorkflowStep) where
  -- The gate of a step that wants the requester's confirmation: it opens only for an affirmative
  -- answer to its own prompt.
  unfoldable pub gate : WorkflowStep → ℕ → Dict String Value → Bool → Option Bool → Run → Handled
  unfolding show_gate
  gate step idx collected true (some true) r =
      handle_tool_call process w steps step idx step.tool_id collected (set_pending r none)
  gate step idx collected true (some false) r = perform_rollback (set_pending r none) steps idx
  gate step idx collected _ _ r = show_gate step steps idx collected r

  unfoldable pub confirm_tool : WorkflowStep → ℕ → String → Dict String Value → Run → Handled
  unfolding gate
  confirm_tool step idx user_input collected r =
      if step.requires_human_confirm
      then gate step idx collected (is_pending (state_of r).pending_confirmation_step step.id)
          (confirmation_intent w.runtime user_input) r
      else handle_tool_call process w steps step idx step.tool_id collected r

  unfoldable pub dispatch :
      StepType
      → WorkflowStep
      → ℕ
      → String
      → Option (Dict String Value)
      → Dict String Value
      → Run
      → Handled
  unfolding confirm_tool
  dispatch StepType.collect step idx user_input form_data collected r =
      handle_collect process w steps step step.fields idx user_input form_data collected r
  dispatch StepType.validate step idx user_input form_data collected r =
      handle_validate process w steps step idx collected r
  dispatch StepType.tool_call step idx user_input form_data collected r =
      confirm_tool step idx user_input collected r
  dispatch StepType.decision step idx user_input form_data collected r =
      handle_decision process w steps step idx step.tool_config.decision collected r
  dispatch StepType.confirm step idx user_input form_data collected r =
      handle_confirm process w steps step idx user_input r
  dispatch StepType.human_review step idx user_input form_data collected r =
      handle_human_review w step idx r
  dispatch StepType.complete step idx user_input form_data collected r =
      handle_complete w step steps idx collected r
  dispatch (StepType.other t) step idx user_input form_data collected r =
      answer r (say error ("未知步骤类型: " +++ t))

  abbrev pub snap : ℕ → Run → Run
  snap idx r = set_state r (record (state_of r) {
    snapshots = take_snapshot idx r.session.collected_data (state_of r).snapshots;
  })

  unfoldable pub run_step :
      Option WorkflowStep → ℕ → String → Option (Dict String Value) → Run → Handled
  unfolding dispatch
  run_step none idx user_input form_data r = answer r (say completed "流程已完成")
  run_step (some step) idx user_input form_data r =
      dispatch step.step_type step idx user_input form_data r.session.collected_data (snap idx r)

abbrev pub workflow_steps : World → Option String → Option (List WorkflowStep)
workflow_steps w none = none
workflow_steps w (some id) = if id == "" then none else some (w.steps id)

unfoldable pub run_steps :
    (Run → Handled)
    → World
    → Option (List WorkflowStep)
    → String
    → Option (Dict String Value)
    → Run
    → Handled
unfolding run_step
run_steps process w none user_input form_data r = answer r (say error "会话未关联工作流")
run_steps process w (some []) user_input form_data r = answer r (say error "工作流无步骤配置")
run_steps process w (some (s ∷ steps)) user_input form_data r =
    let idx = (state_of r).current_step_index in
    run_step process w (s ∷ steps) (get_elem? (s ∷ steps) idx) idx user_input form_data r

unfoldable pub process : World → ℕ → String → Option (Dict String Value) → Run → Handled
unfolding run_steps
process w zero user_input form_data r = answer r (say error "流程自动推进超过最大深度 (20)，已停止执行。请检查流程配置。")
process w (suc f) user_input form_data r =
    run_steps (process w f "" none) w (workflow_steps w (state_of r).workflow_id) user_input
      form_data r

unfoldable pub process_step : World → String → Option (Dict String Value) → Run → Handled
unfolding process
process_step w user_input form_data r =
    process w (max_auto_advance_depth + 1) user_input form_data r

unfoldable pub resume_found : World → List WorkflowStep → ℕ → Option WorkflowStep → Run → Handled
unfolding process
resume_found w steps idx none r = answer r (say error "无法恢复：工作流状态无效。")
resume_found w steps idx (some step) r =
    advance (process w max_auto_advance_depth "" none) w steps step idx r

abbrev pub resume_steps : World → Option (List WorkflowStep) → Run → Handled
resume_steps w none r = answer r (say error "会话未关联工作流")
resume_steps w (some steps) r =
    resume_found w steps (state_of r).current_step_index
      (get_elem? steps (state_of r).current_step_index) r

unfoldable pub resume_after_review : World → Run → Handled
unfolding resume_found
resume_after_review w r = resume_steps w (workflow_steps w (state_of r).workflow_id) r
