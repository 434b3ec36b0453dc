-- ===== src/Workflow/Keeps/Calls.antt =====
-- The handlers of tool_call, decision, human_review and complete steps, for any property of `Keeps`.
-- A tool's invocation has to be permitted by `May`.
use Prim.Native.String.{◌++◌ as ◌+++◌}
use aezab.Prelude.{
  ℕ, zero, suc, ◌+◌, refl, inl, inr, String, string_eq, true, false, Option, none, some, List, [],
  ◌∷◌, ◌++◌, Bool-cases, ◌==◌, ltb,
}
use aezab.Prelude.Dict.{Dict, get, put, remove}
use aezab.Value.{Value, null, obj, to_entries}
use aezab.Workflow.State.{
  WorkflowStep, Snapshot, Run, World, Handled, Call, find_tool, invoke_tool, state_of, OnFailure,
  retry, skip, rollback, escalate, OwnedTool, ToolReply, returned, failed, set_collected, set_state,
  asked, log, workflow_step, decide, post_webhook, Decision, DecisionConfig, workflow_decision,
  Status,
}
use aezab.Workflow.Advance.{user_data}
use aezab.Workflow.Tool.{
  on_tool_failure, tool_failed, tool_answered, call_owned, call_tool, handle_tool_call,
  has_fallback, tool_input, map_output, with_key, idempotency_value,
}
use aezab.Workflow.Finish.{
  decided_step, handle_decision, judge, store_choice, handle_human_review, Delivery, delivered,
  exhausted, Delivery-cases, delivery, pause, attempt_delivery, webhook_body, finished, conclude,
  deliver, handle_complete, wants_webhook, complete_card, webhook_max_retries,
}
use aezab.Workflow.Keeps.{
  Keeper, Holds, Holds-if, rollback_keeps, advance_keeps, follow_fallback_keeps,
}

-- An invocation of the step's tool keeps the property.
pub record May (P : List Snapshot → List Call → Type 0) (step : WorkflowStep) : Type 0 where
  pub invoke :
      (s : List Snapshot) (c : List Call) (input : Dict String Value) (key : Option String)
      → P s c
      → P s (c ++ (invoke_tool step input key ∷ []))

module _ (P : List Snapshot → List Call → Type 0) (k : Keeper P) (next : Run → Handled)
    (keep : (r : Run) → Holds P r → Holds P (next r).0) (w : World)
    (steps : List WorkflowStep) where
  on_tool_failure_keeps :
      (step : WorkflowStep) (idx : ℕ) (e : String) (f : OnFailure) (r : Run)
      → Holds P r
      → Holds P (on_tool_failure next w steps step idx e f r).0
  unfolding on_tool_failure
  on_tool_failure_keeps step idx e skip r h = advance_keeps P k next keep w steps step idx r h
  on_tool_failure_keeps step idx e escalate r h = k.clear (state_of r).snapshots r.calls h
  on_tool_failure_keeps step idx e rollback r h = rollback_keeps P k next keep w steps r idx h
  on_tool_failure_keeps step idx e retry r h = h

  tool_failed_keeps :
      (step : WorkflowStep) (idx : ℕ) (e : String) (r : Run)
      → Holds P r
      → Holds P (tool_failed next w steps step idx e r).0
  unfolding tool_failed
  tool_failed_keeps step idx e r h =
      let r' = log w r (workflow_step step.id "tool_failed") in
      Holds-if P (has_fallback step.fallback_step_id) _ _
        (follow_fallback_keeps P k next keep w steps false step r' h)
        (on_tool_failure_keeps step idx e step.on_failure r' h)

  tool_answered_keeps :
      (step : WorkflowStep) (idx : ℕ) (d : Dict String Value) (a : ToolReply) (r : Run)
      → Holds P r
      → Holds P (tool_answered next w steps step idx d a r).0
  unfolding tool_answered
  tool_answered_keeps step idx d (failed e) r h = tool_failed_keeps step idx e r h
  tool_answered_keeps step idx d (returned result) r h =
      let d' =
        put (map_output step.tool_config.output_mapping result d) ("_tool_result_" +++ step.name)
          (obj (to_entries result)) in
      advance_keeps P k next keep w steps step idx
        (log w (set_collected r d') (workflow_step step.id "tool_success")) h

  call_owned_keeps :
      (step : WorkflowStep) (idx : ℕ) (id : String) (input d : Dict String Value)
      (o : Option OwnedTool) (r : Run)
      → May P step
      → Holds P r
      → Holds P (call_owned next w steps step idx id input d o r).0
  unfolding call_owned
  call_owned_keeps step idx id input d none r m h = tool_failed_keeps step idx _ r h
  call_owned_keeps step idx id input d (some tool) r m h =
      let key = idempotency_value (state_of r).idempotency_key step.id in
      let r' = asked r (invoke_tool step (with_key tool key input) key) in
      tool_answered_keeps step idx d (w.tool r'.calls) r'
        (m.invoke (state_of r).snapshots r.calls (with_key tool key input) key h)

  call_tool_keeps :
      (step : WorkflowStep) (idx : ℕ) (id : String) (d : Dict String Value)
      (input : Option (Dict String Value)) (r : Run)
      → May P step
      → Holds P r
      → Holds P (call_tool next w steps step idx id d input r).0
  unfolding call_tool
  call_tool_keeps step idx id d none r m h = h
  call_tool_keeps step idx id d (some input) r m h =
      let r' = asked r (find_tool id r.session.tenant_id) in
      call_owned_keeps step idx id input d (w.owned_tool r'.calls) r' m
        (k.ask (state_of r).snapshots r.calls (find_tool id r.session.tenant_id) refl h)

  pub tool_call_keeps :
      (step : WorkflowStep) (idx : ℕ) (id : Option String) (d : Dict String Value) (r : Run)
      → May P step
      → Holds P r
      → Holds P (handle_tool_call next w steps step idx id d r).0
  unfolding handle_tool_call
  tool_call_keeps step idx none d r m h = advance_keeps P k next keep w steps step idx r h
  tool_call_keeps step idx (some id) d r m h =
      Holds-if P (id == "") _ _ (advance_keeps P k next keep w steps step idx r h)
        (call_tool_keeps step idx id d (tool_input step.tool_config.input_mapping d) r m h)

  decided_step_keeps :
      (step : WorkflowStep) (idx : ℕ) (c : DecisionConfig) (j : Decision) (d : Dict String Value)
      (r : Run)
      → Holds P r
      → Holds P (decided_step next w steps step idx c j d r).0
  unfolding decided_step
  decided_step_keeps step idx c j d r h =
      let r' =
        log w
          (set_collected
            (set_state r (record (state_of r) { decisions = put (state_of r).decisions step.id j }))
            (store_choice c.result_key j.accepted j.choice d))
          (workflow_decision j) in
      Holds-if P j.accepted _ _ (advance_keeps P k next keep w steps step idx r' h)
        (follow_fallback_keeps P k next keep w steps true step r' h)

  pub decision_keeps :
      (step : WorkflowStep) (idx : ℕ) (c : Option DecisionConfig) (d : Dict String Value) (r : Run)
      → Holds P r
      → Holds P (handle_decision next w steps step idx c d r).0
  unfolding handle_decision
  decision_keeps step idx none d r h = h
  decision_keeps step idx (some c) d r h =
      let cleared = remove d c.result_key in
      let r' = asked r (decide c cleared) in
      decided_step_keeps step idx c (judge w.runtime c (w.decided r'.calls)) cleared r'
        (k.ask (state_of r).snapshots r.calls (decide c cleared) refl h)

module _ (P : List Snapshot → List Call → Type 0) (k : Keeper P) (w : World) where
  pub review_keeps :
      (step : WorkflowStep) (idx : ℕ) (r : Run)
      → Holds P r
      → Holds P (handle_human_review w step idx r).0
  unfolding handle_human_review
  review_keeps step idx r h = h

  pause_keeps : (n : ℕ) (r : Run) → Holds P r → Holds P (pause n r)
  unfolding pause
  pause_keeps n r h = elim (Bool-cases (ltb n webhook_max_retries)) [
    | inl e ↦ rw e (k.ask (state_of r).snapshots r.calls _ refl h)
    | inr e ↦ rw e h
  ]

  attempt_keeps :
      (step : WorkflowStep) (body : Dict String Value) (key : Option String) (left n : ℕ)
      (last : Delivery) (r : Run)
      → Holds P r
      → Holds P (attempt_delivery w step body key left n last r).0
  unfolding attempt_delivery
  attempt_keeps step body key zero n last r h = h
  attempt_keeps step body key (suc left) n last r h =
      let r' = asked r (post_webhook step body key n) in
      let h' : Holds P r' =
        k.ask (state_of r).snapshots r.calls (post_webhook step body key n) refl h in
      elim (Delivery-cases (delivery (w.webhook r'.calls))) [
        | inl (code, e) ↦ rw (e, attempt_delivery) h'
        | inr (code, v, e) ↦
            rw (e, attempt_delivery)
              (attempt_keeps step body key left (n + 1) (exhausted code v) (pause n r')
                (pause_keeps n r' h'))
      ]

  conclude_keeps :
      (step : WorkflowStep) (steps : List WorkflowStep) (idx : ℕ) (d : Dict String Value) (r : Run)
      (e : Delivery)
      → Holds P r
      → Holds P (conclude w step steps idx d r e).0
  unfolding conclude
  conclude_keeps step steps idx d r (delivered code) h = h
  conclude_keeps step steps idx d r (exhausted code v) h = h

  deliver_keeps :
      (step : WorkflowStep) (steps : List WorkflowStep) (idx : ℕ) (d : Dict String Value) (r : Run)
      → Holds P r
      → Holds P (deliver w step steps idx d r).0
  unfolding deliver
  deliver_keeps step steps idx d r h =
      let key = idempotency_value (state_of r).idempotency_key step.id in
      let body = webhook_body key (user_data d) in
      let (r', e) =
        attempt_delivery w step body key (webhook_max_retries + 1) 0 (exhausted 0 null) r in
      conclude_keeps step steps idx d r' e
        (attempt_keeps step body key (webhook_max_retries + 1) 0 (exhausted 0 null) r h)

  pub complete_keeps :
      (step : WorkflowStep) (steps : List WorkflowStep) (idx : ℕ) (d : Dict String Value) (r : Run)
      → Holds P r
      → Holds P (handle_complete w step steps idx d r).0
  unfolding handle_complete
  complete_keeps step steps idx d r h =
      let r' =
        set_state r
          (record (state_of r) { current_step_index = idx; status = some Status.completed }) in
      Holds-if P (wants_webhook step) (deliver w step steps idx d r')
        (finished step (user_data d)
          (complete_card step steps idx (user_data d) (get d "_webhook_result")) r')
        (deliver_keeps step steps idx d r' h) h
