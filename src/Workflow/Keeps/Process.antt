-- ===== src/Workflow/Keeps/Process.antt =====
-- The dispatch and the auto-advance, for any property of `Keeps` that also survives the snapshot of
-- a step. A step behind the confirmation gate may run its tool only where `Opens` permits it.
use aezab.Prelude.{
  ℕ, zero, suc, ◌≡◌, refl, String, string_eq, Bool, true, false, Option, none, some, List, [], ◌∷◌,
  get_elem?,
}
use aezab.Prelude.Dict.{Dict}
use aezab.Value.{Value}
use aezab.Workflow.State.{WorkflowStep, StepType, Snapshot, Run, World, Handled, Call, state_of}
use aezab.Workflow.Fields.{confirmation_intent}
use aezab.Workflow.Moves.{take_snapshot}
use aezab.Workflow.Process.{
  gate, confirm_tool, dispatch, run_step, run_steps, process, is_pending, set_pending, snap,
  workflow_steps,
}
use aezab.Workflow.Keeps.{Keeper, Holds, Holds-if_eq, rollback_keeps}
use aezab.Workflow.Keeps.Turn.{collect_keeps, validate_keeps, confirm_keeps}
use aezab.Workflow.Keeps.Calls.{May, tool_call_keeps, decision_keeps, review_keeps, complete_keeps}

-- The property survives the snapshot that a step takes.
pub record Snaps (P : List Snapshot → List Call → Type 0) : Type 0 where
  pub take :
      (idx : ℕ) (d : Dict String Value) (s : List Snapshot) (c : List Call)
      → P s c
      → P (take_snapshot idx d s) c

-- What runs without a gate may invoke its tool.
pub record Free (P : List Snapshot → List Call → Type 0) : Type 0 where
  pub ungated : (step : WorkflowStep) → step.requires_human_confirm ≡ false → May P step

-- If the step's gate is open, its tool may be invoked.
abbrev pub Opens :
    (P : List Snapshot → List Call → Type 0) → World → String → Run → WorkflowStep → Type 0
Opens P w input r step =
    is_pending (state_of r).pending_confirmation_step step.id ≡ true
    → confirmation_intent w.runtime input ≡ some true
    → May P step

module _ (P : List Snapshot → List Call → Type 0) (k : Keeper P) (free : Free P)
    (next : Run → Handled) (keep : (r : Run) → Holds P r → Holds P (next r).0) (w : World)
    (steps : List WorkflowStep) where
  gate_keeps :
      (step : WorkflowStep) (idx : ℕ) (d : Dict String Value) (pending : Bool)
      (intent : Option Bool) (r : Run)
      → (pending ≡ true → intent ≡ some true → May P step)
      → Holds P r
      → Holds P (gate next w steps step idx d pending intent r).0
  unfolding gate
  gate_keeps step idx d true (some true) r o h =
      tool_call_keeps P k next keep w steps step idx step.tool_id d (set_pending r none)
        (o refl refl) h
  gate_keeps step idx d true (some false) r o h =
      rollback_keeps P k next keep w steps (set_pending r none) idx h
  gate_keeps step idx d true none r o h = h
  gate_keeps step idx d false intent r o h = h

  confirm_tool_keeps :
      (step : WorkflowStep) (idx : ℕ) (input : String) (d : Dict String Value) (r : Run)
      → Opens P w input r step
      → Holds P r
      → Holds P (confirm_tool next w steps step idx input d r).0
  unfolding confirm_tool
  confirm_tool_keeps step idx input d r o h =
      Holds-if_eq P step.requires_human_confirm _ _
        (λ e.
          gate_keeps step idx d (is_pending (state_of r).pending_confirmation_step step.id)
            (confirmation_intent w.runtime input) r o h)
        (λ e.
          tool_call_keeps P k next keep w steps step idx step.tool_id d r (free.ungated step e) h)

  dispatch_keeps :
      (t : StepType) (step : WorkflowStep) (idx : ℕ) (input : String)
      (form : Option (Dict String Value)) (d : Dict String Value) (r : Run)
      → Opens P w input r step
      → Holds P r
      → Holds P (dispatch next w steps t step idx input form d r).0
  unfolding dispatch
  dispatch_keeps StepType.collect step idx input form d r o h =
      collect_keeps P k next keep w steps step step.fields idx input form d r h
  dispatch_keeps StepType.validate step idx input form d r o h =
      validate_keeps P k next keep w steps step idx d r h
  dispatch_keeps StepType.tool_call step idx input form d r o h =
      confirm_tool_keeps step idx input d r o h
  dispatch_keeps StepType.decision step idx input form d r o h =
      decision_keeps P k next keep w steps step idx step.tool_config.decision d r h
  dispatch_keeps StepType.confirm step idx input form d r o h =
      confirm_keeps P k next keep w steps step idx input r h
  dispatch_keeps StepType.human_review step idx input form d r o h = review_keeps P k w step idx r h
  dispatch_keeps StepType.complete step idx input form d r o h =
      complete_keeps P k w step steps idx d r h
  dispatch_keeps (StepType.other t) step idx input form d r o h = h

  run_step_keeps :
      (step : Option WorkflowStep) (idx : ℕ) (input : String) (form : Option (Dict String Value))
      (r : Run)
      → ((s : WorkflowStep) → step ≡ some s → Opens P w input r s)
      → Snaps P
      → Holds P r
      → Holds P (run_step next w steps step idx input form r).0
  unfolding run_step
  run_step_keeps none idx input form r o t h = h
  run_step_keeps (some step) idx input form r o t h =
      dispatch_keeps step.step_type step idx input form r.session.collected_data
        (snap next w steps idx r) (o step refl)
        (t.take idx r.session.collected_data (state_of r).snapshots r.calls h)

-- The step that the session stands at.
abbrev step_at : ℕ → Option (List WorkflowStep) → Option WorkflowStep
step_at idx none = none
step_at idx (some steps) = get_elem? steps idx

unfoldable pub current_step : World → Run → Option WorkflowStep
current_step w r =
    step_at (state_of r).current_step_index (workflow_steps w (state_of r).workflow_id)

module _ (P : List Snapshot → List Call → Type 0) (k : Keeper P) (free : Free P) (t : Snaps P)
    (w : World) where
  run_steps_keeps :
      (next : Run → Handled)
      → ((r : Run) → Holds P r → Holds P (next r).0)
      → (o : Option (List WorkflowStep)) (input : String) (form : Option (Dict String Value))
        (r : Run)
      → ((s : WorkflowStep)
          → step_at (state_of r).current_step_index o ≡ some s
          → Opens P w input r s)
      → Holds P r
      → Holds P (run_steps next w o input form r).0
  unfolding run_steps
  run_steps_keeps next keep none input form r o h = h
  run_steps_keeps next keep (some []) input form r o h = h
  run_steps_keeps next keep (some (s ∷ steps)) input form r o h =
      run_step_keeps P k free next keep w (s ∷ steps)
        (get_elem? (s ∷ steps) (state_of r).current_step_index) (state_of r).current_step_index
        input form r o t h

  -- The automatic steps are entered on an empty message.
  pub auto_keeps :
      (f : ℕ) (r : Run)
      → ((s : WorkflowStep) → confirmation_intent w.runtime "" ≡ some true → May P s)
      → Holds P r
      → Holds P (process w f "" none r).0
  unfolding process
  auto_keeps zero r q h = h
  auto_keeps (suc f) r q h =
      run_steps_keeps (process w f "" none) (λ r' h'. auto_keeps f r' q h')
        (workflow_steps w (state_of r).workflow_id) "" none r (λ s e p i. q s i) h

  pub process_keeps :
      (f : ℕ) (input : String) (form : Option (Dict String Value)) (r : Run)
      → ((s : WorkflowStep) → confirmation_intent w.runtime "" ≡ some true → May P s)
      → ((s : WorkflowStep) → current_step w r ≡ some s → Opens P w input r s)
      → Holds P r
      → Holds P (process w f input form r).0
  unfolding process current_step
  process_keeps zero input form r q o h = h
  process_keeps (suc f) input form r q o h =
      run_steps_keeps (process w f "" none) (λ r' h'. auto_keeps f r' q h')
        (workflow_steps w (state_of r).workflow_id) input form r o h
