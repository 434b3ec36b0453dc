-- ===== src/Workflow/Moves.antt =====
-- server/engine/workflow_executor.py: `_resolve_step_target`, `_make_card`, `_perform_rollback`,
-- `cancel_workflow`, and the snapshot that `process_step` takes.
use Prim.Native.String.{◌++◌ as ◌+++◌}
use aezab.Prelude.{
  ℕ, suc, ◌+◌, ◌-◌, String, string_eq, nat_eq, Bool, true, false, not, ◌&&◌, Option, none, some,
  List, [], ◌∷◌, ◌++◌, length, get_elem?, drop, ◌==◌, if◌then◌else◌,
}
use mathlib.Core.Option
use aezab.Prelude.Dict.{Dict}
use aezab.Prelude.Int.{ℤ, pos, negsuc}
use aezab.Value.{Value, bool, int, float, str, Runtime}
use aezab.Workflow.State.{
  collect, StepType, WorkflowStep, Snapshot, WorkflowState, Run, Handled, WorkflowCard, say, show,
  error, waiting_input, state_of, set_state, set_collected, answer, in_progress, cancelled,
  FieldDef,
}

abbrev pub int_beq : ℤ → ℤ → Bool
int_beq (pos a) (pos b) = a == b
int_beq (negsuc a) (negsuc b) = a == b
int_beq _ _ = false

-- The index of the first step that passes a test.
unfoldable pub index_of : (WorkflowStep → Bool) → List WorkflowStep → Option ℕ
index_of test [] = none
index_of test (s ∷ steps) =
    let rest = index_of test steps in if test s then some 0 else Option.map suc rest

abbrev pub or_try : Option ℕ → Option ℕ → Option ℕ
or_try (some i) next = some i
or_try none next = next

abbrev pub by_order : List WorkflowStep → Option ℤ → Option ℕ
by_order steps none = none
by_order steps (some n) = index_of (λ s. int_beq s.order n) steps

-- An id, else a name, else an order number; a target that is no text and no number is none of them.
unfoldable pub resolve_step_target : Runtime → List WorkflowStep → Value → Option ℕ
resolve_step_target py steps (str target) =
    or_try (index_of (λ s. s.id == target) steps)
      (or_try (index_of (λ s. s.name == target) steps) (by_order steps (py.parse_int target)))
resolve_step_target py steps (int n) = by_order steps (some n)
resolve_step_target py steps (bool true) = by_order steps (some (pos 1))
resolve_step_target py steps (bool false) = by_order steps (some (pos 0))
resolve_step_target py steps (float t) = by_order steps (py.int_of_float t)
resolve_step_target py steps _ = none

unfoldable pub make_card :
    WorkflowStep → List WorkflowStep → ℕ → Option (Dict String Value) → WorkflowCard
make_card step steps idx data_ = record {
  step_name = step.name;
  step_type = step.step_type;
  prompt = step.prompt_template;
  fields = step.fields;
  current_step = idx + 1;
  total_steps = length steps;
  collected_data = data_;
  webhook_result = none;
}

abbrev pub max_snapshots : ℕ
max_snapshots = 5

-- `snapshots[-1]`
abbrev pub last? : List Snapshot → Option Snapshot
last? [] = none
last? (s ∷ []) = some s
last? (s ∷ t ∷ rest) = last? (t ∷ rest)

abbrev pub is_at : ℕ → Option Snapshot → Bool
is_at idx none = false
is_at idx (some s) = s.step_index == idx

-- `snapshots[-5:]` if there are more than five.
unfoldable pub keep_last : List Snapshot → List Snapshot
keep_last snapshots = drop (length snapshots - max_snapshots) snapshots

-- A snapshot is appended unless the last one is of this step.
unfoldable pub take_snapshot : ℕ → Dict String Value → List Snapshot → List Snapshot
unfolding keep_last
take_snapshot idx collected snapshots = keep_last (
    if is_at idx (last? snapshots)
    then snapshots
    else snapshots ++ (record { step_index = idx; collected_data = collected } ∷ []))

abbrev pub is_collect : StepType → Bool
is_collect collect = true
is_collect _ = false

abbrev pub has_fields : List FieldDef → Bool
has_fields [] = false
has_fields _ = true

abbrev pub editable_step : Option WorkflowStep → Bool
editable_step none = false
editable_step (some step) = is_collect step.step_type && has_fields step.fields

-- A snapshot that a rollback may go to: of another step, which collects fields.
unfoldable pub editable : List WorkflowStep → ℕ → Snapshot → Bool
editable steps current s =
    not (s.step_index == current) && editable_step (get_elem? steps s.step_index)

-- `while snapshots: if test(snapshots[-1]): break; snapshots.pop()`
unfoldable pub pop_one : (Snapshot → Bool) → Snapshot → List Snapshot → List Snapshot
pop_one test s [] = if test s then s ∷ [] else []
pop_one test s (t ∷ rest) = s ∷ t ∷ rest

unfoldable pub pop_until : (Snapshot → Bool) → List Snapshot → List Snapshot
unfolding pop_one
pop_until test [] = []
pop_until test (s ∷ rest) = pop_one test s (pop_until test rest)

unfoldable pub rolled_back : WorkflowState → List Snapshot → ℕ → WorkflowState
rolled_back state snapshots target = record state {
  current_step_index = target;
  snapshots = snapshots;
  status = some in_progress;
  pending_confirmation_step = none;
}

abbrev no_snapshot : String
no_snapshot = "无法回退：没有可用的步骤快照。"

abbrev nothing_to_edit : String
nothing_to_edit = "无法回退：没有可重新填写的步骤。"

-- The step at the target exists, since the snapshot is editable.
unfoldable pub go_back :
    Run → List WorkflowStep → List Snapshot → Option Snapshot → Option WorkflowStep → Handled
unfolding rolled_back
go_back r steps snapshots (some prev) (some step) =
    answer
      (set_collected (set_state r (rolled_back (state_of r) snapshots prev.step_index))
        prev.collected_data)
      (show waiting_input ("已回退到步骤: " +++ step.name +++ "。请重新填写。")
        (make_card step steps prev.step_index none))
go_back r steps snapshots _ _ = answer r (say error nothing_to_edit)

abbrev pub step_of : List WorkflowStep → Option Snapshot → Option WorkflowStep
step_of steps none = none
step_of steps (some s) = get_elem? steps s.step_index

unfoldable pub rollback_among : Run → List WorkflowStep → ℕ → List Snapshot → Handled
unfolding go_back
rollback_among r steps current [] = answer r (say error no_snapshot)
rollback_among r steps current (s ∷ rest) =
    let kept = pop_until (editable steps current) (s ∷ rest) in
    go_back r steps kept (last? kept) (step_of steps (last? kept))

unfoldable pub perform_rollback : Run → List WorkflowStep → ℕ → Handled
unfolding rollback_among
perform_rollback r steps current = rollback_among r steps current (state_of r).snapshots

-- The message of `cancel_workflow` is constant.
unfoldable pub cancel_workflow : Run → Run
cancel_workflow r = set_collected (set_state r (record (state_of r) { status = some cancelled })) []
