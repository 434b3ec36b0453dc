-- ===== src/Workflow/Finish.antt =====
-- server/engine/workflow_executor.py: `_handle_decision`, `_handle_human_review`, `_handle_complete`
-- and `_deliver_complete_webhook`.
use aezab.Prelude.{
  ℕ, zero, suc, ◌+◌, ◌^◌, String, string_eq, Bool, true, false, not, ◌&&◌, Option, none, some, List,
  ltb, leb, ◌==◌, ◌≡◌, ◌⊎◌, inl, inr, refl, if◌then◌else◌,
}
use aezab.Prelude.Dict.{Dict, get, put, remove}
use aezab.Prelude.Int.{pos}
use aezab.Value.{Value, null, bool, int, str, obj, end, entry, Runtime, truthy}
use aezab.Workflow.State.{
  WorkflowStep, WorkflowCard, Run, World, Handled, Outcome, answer, say, show, error, asked, log,
  set_state, set_collected, queue_event, source_of, state_of, Status, ResultStatus,
  workflow_escalated, workflow_submit_failed, workflow_completed, escalation, workflow_step,
  workflow_decision, decide, post_webhook, sleep, DecisionConfig, DecisionReply, unavailable,
  chosen, Decision, WebhookReply, answered, thrown,
}
use aezab.Workflow.Moves.{make_card}
use aezab.Workflow.Advance.{or_text, advance, follow_fallback, user_data}
use aezab.Workflow.Tool.{idempotency_value}

-- `DecisionResult.accepted` of server/engine/decision_service.py; the probability is the choice's.
unfoldable pub accepted : Runtime → DecisionConfig → (choice confidence probability : String) → Bool
accepted py c choice confidence probability =
    not (choice == "other")
    && py.float_le c.min_confidence confidence
    && py.float_le c.min_probability probability

unfoldable pub judge : Runtime → DecisionConfig → DecisionReply → Decision
judge py c (unavailable reason) = record {
  accepted = false;
  reason = reason;
  choice = none;
  confidence = none;
  config = c;
}
judge py c (chosen choice confidence probability) =
    let pass = accepted py c choice confidence probability in
    record {
      accepted = pass;
      reason =
          if pass then "accepted" else if choice == "other" then "no_match" else "below_threshold";
      choice = some choice;
      confidence = some confidence;
      config = c;
    }

-- Only an accepted choice is stored under the result key, from which an older one was removed.
abbrev pub store_choice : String → Bool → Option String → Dict String Value → Dict String Value
store_choice key true (some choice) collected = put collected key (str choice)
store_choice key _ _ collected = collected

module _ (process : Run → Handled) (w : World) (steps : List WorkflowStep) where
  unfoldable pub decided_step :
      WorkflowStep → ℕ → DecisionConfig → Decision → Dict String Value → Run → Handled
  decided_step step idx c d collected r =
      let r' =
        log w
          (set_collected
            (set_state r (record (state_of r) { decisions = put (state_of r).decisions step.id d }))
            (store_choice c.result_key d.accepted d.choice collected))
          (workflow_decision d) in
      if d.accepted
      then advance process w steps step idx r'
      else follow_fallback process w steps true step r'

  unfoldable pub handle_decision :
      WorkflowStep → ℕ → Option DecisionConfig → Dict String Value → Run → Handled
  unfolding decided_step judge
  handle_decision step idx none collected r = answer r (say error "判定节点配置无效，请联系管理员。")
  handle_decision step idx (some c) collected r =
      let cleared = remove collected c.result_key in
      let r' = asked r (decide c cleared) in
      decided_step step idx c (judge w.runtime c (w.decided r'.calls)) cleared r'

unfoldable pub handle_human_review : World → WorkflowStep → ℕ → Run → Handled
handle_human_review w step idx r =
    let logged = log w r (escalation step.name) in
    let paused = set_state logged (record (state_of logged) {
      current_step_index = idx;
      status = some Status.paused_for_review;
    }) in
    (
      queue_event paused (
          workflow_escalated r.session.tenant_id r.session.id (state_of paused).workflow_id
            step.name "human_review"),
      Outcome.reply (record {
        status = ResultStatus.escalated;
        message = or_text step.prompt_template "该步骤需要人工审核，请等待工作人员处理。";
        card = none;
        escalated = true;
      }),
    )

abbrev pub webhook_max_retries : ℕ
webhook_max_retries = 3

-- How the delivery ended: the status of the success, or the last status and error.
pub data Delivery : Type 0 where
  delivered : ℕ → Delivery
  exhausted : ℕ → Value → Delivery

-- `resp.is_success`; a refusal keeps the status and clears the error, an exception the other way.
unfoldable pub delivery : WebhookReply → Delivery
delivery (answered code) =
    if leb 200 code && ltb code 300 then delivered code else exhausted code null
delivery (thrown e) = exhausted 0 (str e)

pub Delivery-cases :
    (d : Delivery)
    → ((code : ℕ) × (d ≡ delivered code)) ⊎ ((code : ℕ) × (e : Value) × (d ≡ exhausted code e))
Delivery-cases (delivered code) = inl (code, refl)
Delivery-cases (exhausted code e) = inr (code, e, refl)

unfoldable pub pause : ℕ → Run → Run
pause attempt r = if ltb attempt webhook_max_retries then asked r (sleep (2 ^ attempt)) else r

-- The loop over the attempts that are left, with the outcome of the last one.
unfoldable pub attempt_delivery :
    World
    → WorkflowStep
    → Dict String Value
    → Option String
    → ℕ
    → ℕ
    → Delivery
    → Run
    → Run × Delivery
unfolding delivery pause
attempt_delivery w step body key zero attempt last r = (r, last)
attempt_delivery w step body key (suc left) attempt last r =
    let r' = asked r (post_webhook step body key attempt) in
    elim (delivery (w.webhook r'.calls)) [
      | delivered code ↦ (r', delivered code)
      | exhausted code e ↦
          attempt_delivery w step body key left (attempt + 1) (exhausted code e) (pause attempt r')
    ]

unfoldable pub webhook_body : Option String → Dict String Value → Dict String Value
webhook_body none data_ = data_
webhook_body (some key) data_ = put data_ "idempotency_key" (str key)

abbrev pub webhook_result : Delivery → Value
webhook_result (delivered code) = obj (entry "status" (int (pos code)) (entry "ok" (bool true) end))
webhook_result (exhausted code e) = obj (
    entry "status" (int (pos code)) (
      entry "ok" (bool false)
        (entry "error" e (entry "attempts" (int (pos (webhook_max_retries + 1))) end))))

-- The result is kept in the collected data; after the last failure the step waits for a retry.
unfoldable pub record_delivery : World → WorkflowStep → ℕ → Dict String Value → Delivery → Run → Run
record_delivery w step idx collected (delivered code) r =
    set_collected r (put collected "_webhook_result" (webhook_result (delivered code)))
record_delivery w step idx collected (exhausted code e) r =
    let r' =
      set_collected r (put collected "_webhook_result" (webhook_result (exhausted code e))) in
    log w
      (set_state r' (record (state_of r') {
        current_step_index = idx;
        status = some Status.await_retry;
        webhook_ok = some false;
      }))
      (workflow_step step.id "webhook_failed")

abbrev pub error_of : Delivery → Value
error_of (delivered _) = null
error_of (exhausted _ e) = e

abbrev pub is_exhausted : Delivery → Bool
is_exhausted (delivered _) = false
is_exhausted (exhausted _ _) = true

abbrev with_result : Option Value → WorkflowCard → WorkflowCard
with_result none card = card
with_result (some v) card = if truthy v then record card { webhook_result = some v } else card

unfoldable pub complete_card :
    WorkflowStep → List WorkflowStep → ℕ → Dict String Value → Option Value → WorkflowCard
complete_card step steps idx shown result =
    with_result result (make_card step steps idx (some shown))

unfoldable pub submit_failed :
    WorkflowStep → Dict String Value → WorkflowCard → Value → Run → Handled
submit_failed step shown card e r =
    answer (queue_event r (workflow_submit_failed r.session.tenant_id (source_of r) shown e)) (
      show ResultStatus.await_retry "已收集完所有信息，但提交到外部系统失败（已多次重试），数据已保留。回复\"重试\"重新提交，或\"取消\"放弃。" card)

unfoldable pub finished : WorkflowStep → Dict String Value → WorkflowCard → Run → Handled
finished step shown card r =
    answer (queue_event r (workflow_completed r.session.tenant_id (source_of r) shown))
      (show ResultStatus.completed (or_text step.prompt_template "流程已完成！感谢您的办理。") card)

abbrev pub wants_webhook : WorkflowStep → Bool
wants_webhook step = not (step.tool_config.webhook_url == "") && step.tool_config.webhook_enabled

-- The end of the step once the webhook's outcome is known.
unfoldable pub conclude :
    World → WorkflowStep → List WorkflowStep → ℕ → Dict String Value → Run → Delivery → Handled
unfolding record_delivery submit_failed finished complete_card
conclude w step steps idx collected r d =
    let shown = user_data collected in
    let kept = record_delivery w step idx collected d r in
    let card = complete_card step steps idx shown (some (webhook_result d)) in
    if is_exhausted d
    then submit_failed step shown card (error_of d) kept
    else finished step shown card kept

unfoldable pub deliver :
    World → WorkflowStep → List WorkflowStep → ℕ → Dict String Value → Run → Handled
unfolding attempt_delivery conclude webhook_body
deliver w step steps idx collected r =
    let key = idempotency_value (state_of r).idempotency_key step.id in
    let (r', d) =
      attempt_delivery w step (webhook_body key (user_data collected)) key (webhook_max_retries + 1)
        0 (exhausted 0 null) r in
    conclude w step steps idx collected r' d

unfoldable pub handle_complete :
    World → WorkflowStep → List WorkflowStep → ℕ → Dict String Value → Run → Handled
unfolding deliver finished complete_card
handle_complete w step steps idx collected r =
    let r' =
      set_state r
        (record (state_of r) { current_step_index = idx; status = some Status.completed }) in
    if wants_webhook step
    then deliver w step steps idx collected r'
    else finished step (user_data collected)
        (complete_card step steps idx (user_data collected) (get collected "_webhook_result")) r'
