-- ===== src/Workflow/State.antt =====
-- The data of server/models/workflow.py and server/models/session.py that the executor of
-- server/engine/workflow_executor.py reads and writes, its results, and what it calls.
use aezab.Prelude.{ℕ, String, Bool, false, Option, none, some, List, [], ◌∷◌, ◌++◌, if◌then◌else◌}
use aezab.Prelude.Dict.{Dict}
use aezab.Prelude.Int.{ℤ}
use aezab.Value.{Value, Runtime}
use aezab.Rules.{Rule}

pub data StepType : Type 0 where
  collect validate tool_call decision confirm human_review complete : StepType
  other : String → StepType

pub data OnFailure : Type 0 where
  retry skip rollback escalate : OnFailure

-- One form field; `file_extensions` and `max_size_mb` are its `file_config`.
pub record FieldDef : Type 0 where
  pub name : String
  pub label : String
  pub field_type : String
  pub required : Bool
  pub options : List Value
  pub validation_rule : String
  pub llm_validate : Bool
  pub llm_validate_prompt : String
  pub allowed_extensions : List String
  pub max_size_mb : ℕ

-- One entry of a validate step's rules: the field, whether it is required, and its expression.
pub record FieldRule : Type 0 where
  pub field : String
  pub required : Bool
  pub regex : String

-- `choices` has the description of each value.
pub record DecisionConfig : Type 0 where
  pub instructions : String
  pub input_fields : List String
  pub choices : Dict String String
  pub result_key : String
  pub min_confidence : String
  pub min_probability : String

-- `decision` is the config of a decision step after its validation, `none` if that fails.
pub record ToolConfig : Type 0 where
  pub input_mapping : Dict String Value
  pub output_mapping : Dict String String
  pub webhook_url : String
  pub webhook_enabled : Bool
  pub webhook_method : String
  pub webhook_headers : Dict String String
  pub decision : Option DecisionConfig

pub record WorkflowStep : Type 0 where
  pub id : String
  pub name : String
  pub order : ℤ
  pub step_type : StepType
  pub prompt_template : String
  pub fields : List FieldDef
  pub validation_rules : List FieldRule
  pub tool_id : Option String
  pub tool_config : ToolConfig
  pub on_failure : OnFailure
  pub fallback_step_id : Option String
  pub requires_human_confirm : Bool
  pub next_step_rules : List Rule

pub record Snapshot : Type 0 where
  pub step_index : ℕ
  pub collected_data : Dict String Value

pub data Status : Type 0 where
  in_progress paused_for_review await_retry completed cancelled : Status

-- What a decision step keeps under its id, less the model, the other probabilities and the latency.
pub record Decision : Type 0 where
  pub accepted : Bool
  pub reason : String
  pub choice : Option String
  pub confidence : Option String
  pub config : DecisionConfig

-- The dict `workflow_state`; an absent key is `none`, 0 or the empty list, as the reads default.
pub record WorkflowState : Type 0 where
  pub workflow_id : Option String
  pub current_step_index : ℕ
  pub status : Option Status
  pub snapshots : List Snapshot
  pub pending_confirmation_step : Option String
  pub idempotency_key : Option String
  pub decisions : Dict String Decision
  pub webhook_ok : Option Bool

abbrev pub no_state : WorkflowState
no_state = record {
  workflow_id = none;
  current_step_index = 0;
  status = none;
  snapshots = [];
  pending_confirmation_step = none;
  idempotency_key = none;
  decisions = [];
  webhook_ok = none;
}

pub record Session : Type 0 where
  pub id : String
  pub tenant_id : String
  pub agent_id : String
  pub workflow_state : Option WorkflowState
  pub collected_data : Dict String Value
  pub active_skill_id : Option String

-- `session.workflow_state or {}`
abbrev pub or_empty : Option WorkflowState → WorkflowState
or_empty none = no_state
or_empty (some s) = s

pub data ResultStatus : Type 0 where
  waiting_input completed escalated error await_retry : ResultStatus

pub record WorkflowCard : Type 0 where
  pub step_name : String
  pub step_type : StepType
  pub prompt : String
  pub fields : List FieldDef
  pub current_step : ℕ
  pub total_steps : ℕ
  pub collected_data : Option (Dict String Value)
  pub webhook_result : Option Value

pub record WorkflowStepResult : Type 0 where
  pub status : ResultStatus
  pub message : String
  pub card : Option WorkflowCard
  pub escalated : Bool

abbrev pub say : ResultStatus → String → WorkflowStepResult
say status message = record { status = status; message = message; card = none; escalated = false }

abbrev pub show : ResultStatus → String → WorkflowCard → WorkflowStepResult
show status message card = record {
  status = status;
  message = message;
  card = some card;
  escalated = false;
}

-- A method returns its result, or an exception passes through it.
pub data Outcome : Type 0 where
  reply : WorkflowStepResult → Outcome
  raised : Outcome

-- The entries that the payloads of the events share.
pub record EventSource : Type 0 where
  pub session_id : String
  pub workflow_id : Option String
  pub agent_id : String
  pub idempotency_key : Option String

-- An entry of `pending_events`: the tenant and the payload, by the type of the event.
pub data OutEvent : Type 0 where
  workflow_escalated :
      String
      → (session_id : String) (workflow_id : Option String) (step_name reason : String) → OutEvent
  workflow_submit_failed : String → EventSource → Dict String Value → (error : Value) → OutEvent
  workflow_completed : String → EventSource → Dict String Value → OutEvent

-- An entry of the audit log: a branch taken, a tool's outcome, a decision, an escalation.
pub data AuditEntry : Type 0 where
  workflow_branch : String → Option String → String → AuditEntry
  workflow_step : String → String → AuditEntry
  workflow_decision : Decision → AuditEntry
  escalation : String → AuditEntry

-- What the executor asks of the world outside, in order.
pub data Call : Type 0 where
  find_tool : String → String → Call
  invoke_tool : WorkflowStep → Dict String Value → Option String → Call
  extract_fields : String → List FieldDef → Dict String Value → Call
  llm_validate : FieldDef → Value → Call
  decide : DecisionConfig → Dict String Value → Call
  post_webhook : WorkflowStep → Dict String Value → Option String → ℕ → Call
  sleep : ℕ → Call

-- A tool's answer; any other exception than `ToolInvocationError` is not caught.
pub data ToolReply : Type 0 where
  returned : Dict String Value → ToolReply
  failed : String → ToolReply

pub record OwnedTool : Type 0 where
  pub additional_properties : Bool
  pub properties : List String

pub data DecisionReply : Type 0 where
  unavailable : String → DecisionReply
  chosen : (choice confidence probability : String) → DecisionReply

pub data WebhookReply : Type 0 where
  answered : ℕ → WebhookReply
  thrown : String → WebhookReply

-- The answers may depend on all that was asked before. `steps` is `get_steps`: the definition is
-- taken to stay the same while one message is processed.
pub record World : Type 0 where
  pub runtime : Runtime
  pub audited : Bool
  pub steps : String → List WorkflowStep
  pub owned_tool : List Call → Option OwnedTool
  pub tool : List Call → ToolReply
  -- the fields read from a message; `none` if the model fails or its answer does not parse
  pub extracted : List Call → Option (Dict String Value)
  -- the error of the semantic validation of a field
  pub semantic_error : List Call → Option String
  pub decided : List Call → DecisionReply
  pub webhook : List Call → WebhookReply

-- The executor, its session, and what was asked of the world so far, the latest call last.
pub record Run : Type 0 where
  pub session : Session
  pub pending_events : List OutEvent
  pub audit : List AuditEntry
  pub calls : List Call

abbrev pub state_of : Run → WorkflowState
state_of r = or_empty r.session.workflow_state

abbrev pub set_state : Run → WorkflowState → Run
set_state r s = record r { session = record (r.session) { workflow_state = some s } }

abbrev pub set_collected : Run → Dict String Value → Run
set_collected r d = record r { session = record (r.session) { collected_data = d } }

abbrev pub queue_event : Run → OutEvent → Run
queue_event r e = record r { pending_events = r.pending_events ++ (e ∷ []) }

abbrev pub source_of : Run → EventSource
source_of r = record {
  session_id = r.session.id;
  workflow_id = (state_of r).workflow_id;
  agent_id = r.session.agent_id;
  idempotency_key = (state_of r).idempotency_key;
}

abbrev pub log : World → Run → AuditEntry → Run
log w r e = record r { audit = if w.audited then r.audit ++ (e ∷ []) else r.audit }

abbrev pub asked : Run → Call → Run
asked r c = record r { calls = r.calls ++ (c ∷ []) }

-- A handler's result, and a method that enters the step at an index.
abbrev pub Handled : Type 0
Handled = Run × Outcome

abbrev pub answer : Run → WorkflowStepResult → Handled
answer r result = (r, reply result)
