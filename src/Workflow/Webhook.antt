-- ===== src/Workflow/Webhook.antt =====
-- What a complete step reports against what its webhook answered.
use mathlib.Core.Path.{subst}
use aezab.Prelude.{
  ℕ, zero, suc, ◌+◌, ◌≤◌, ◌<◌, ◌≡◌, ◌⊎◌, inl, inr, refl, ◌∙◌, ap, String, true, Option, none, some,
  List, [], ◌∷◌, ◌++◌, arith, Bool-cases, ltb, ◌^◌,
}
use aezab.Prelude.Dict.{Dict}
use aezab.Value.{Value, null}
use aezab.Workflow.State.{
  WorkflowStep, World, Run, Call, Outcome, reply, raised, ResultStatus, Status, WebhookReply,
  answered, thrown, state_of, post_webhook, asked, set_state, Session, or_empty, sleep,
}
use aezab.Workflow.Advance.{user_data}
use aezab.Workflow.Tool.{idempotency_value}
use aezab.Workflow.Finish.{
  Delivery, delivered, exhausted, Delivery-cases, delivery, pause, attempt_delivery,
  webhook_max_retries, webhook_body, is_exhausted, conclude, deliver, handle_complete,
  wants_webhook,
}

-- How many times a webhook was called.
abbrev pub count_posts : List Call → ℕ
count_posts [] = 0
count_posts (post_webhook _ _ _ _ ∷ cs) = suc (count_posts cs)
count_posts (_ ∷ cs) = count_posts cs

count_posts-append :
    (cs : List Call) (c : Call)
    → count_posts (cs ++ (c ∷ [])) ≡ count_posts cs + count_posts (c ∷ [])
count_posts-append [] c = ground arith
count_posts-append (post_webhook _ _ _ _ ∷ cs) c = omega (arith, count_posts-append cs c)
count_posts-append (d ∷ cs) c = ground (arith, count_posts-append cs c)

-- A reply that is no success: another status than 200 to 299, or an exception.
abbrev pub IsRefusal : WebhookReply → Type 0
IsRefusal (answered code) = (code < 200) ⊎ (300 ≤ code)
IsRefusal (thrown e) = Unit

-- From some calls to more of them, with so many posts between, each of which was refused.
pub data Refused (w : World) (cs : List Call) : List Call → ℕ → Type 0 where
  start : Refused w cs cs 0
  slept :
      {ds : List Call} {n : ℕ} (k : ℕ) → Refused w cs ds n → Refused w cs (ds ++ (sleep k ∷ [])) n
  posted :
      {ds : List Call} {n : ℕ} (step : WorkflowStep) (body : Dict String Value)
      (key : Option String) (attempt : ℕ)
      → Refused w cs ds n
      → IsRefusal (w.webhook (ds ++ (post_webhook step body key attempt ∷ [])))
      → Refused w cs (ds ++ (post_webhook step body key attempt ∷ [])) (n + 1)

delivery-exhausted :
    (a : WebhookReply) {code : ℕ} {e : Value} → delivery a ≡ exhausted code e → IsRefusal a
unfolding delivery
delivery-exhausted (answered c) h = ground arith
delivery-exhausted (thrown e) h = tt

delivery-delivered :
    (a : WebhookReply) {code : ℕ}
    → delivery a ≡ delivered code
    → (a ≡ answered code) × (200 ≤ code) × (code < 300)
unfolding delivery
delivery-delivered (answered c) h = ground arith
delivery-delivered (thrown e) h = cc

pause_posts : (n : ℕ) (r : Run) → count_posts (pause n r).calls ≡ count_posts r.calls
unfolding pause
pause_posts n r = elim (Bool-cases (ltb n webhook_max_retries)) [
  | inl e ↦ rw (e, count_posts-append) (omega arith)
  | inr e ↦ rw e
]

pause_session : (n : ℕ) (r : Run) → (pause n r).session ≡ r.session
unfolding pause
pause_session n r = elim (Bool-cases (ltb n webhook_max_retries)) [ inl e ↦ rw e | inr e ↦ rw e ]

-- The last answer was a success, or every attempt that was left was made and failed.
abbrev pub Attempted : World → ℕ → Run → Run × Delivery → Type 0
Attempted w left r res =
    ((code : ℕ) × (res.1 ≡ delivered code)
      × (w.webhook res.0.calls ≡ answered code)
      × (200 ≤ code)
      × (code < 300)
      × (count_posts res.0.calls ≤ count_posts r.calls + left))
    ⊎ ((is_exhausted res.1 ≡ true) × (count_posts res.0.calls ≡ count_posts r.calls + left))

Attempted-shift :
    (w : World) (left : ℕ) (r r' : Run) (res : Run × Delivery)
    → count_posts r'.calls ≡ count_posts r.calls + 1
    → Attempted w left r' res
    → Attempted w (suc left) r res
Attempted-shift w left r r' res q (inl (code, e, a, lo, hi, b)) =
    inl (code, e, a, lo, hi, omega arith)
Attempted-shift w left r r' res q (inr (x, b)) = inr (x, omega arith)

attempt_delivery_lem :
    (w : World) (step : WorkflowStep) (body : Dict String Value) (key : Option String) (left n : ℕ)
    (last : Delivery) (r : Run)
    → is_exhausted last ≡ true
    → Attempted w left r (attempt_delivery w step body key left n last r)
unfolding attempt_delivery
attempt_delivery_lem w step body key zero n last r h = inr (h, omega arith)
attempt_delivery_lem w step body key (suc left) n last r h =
    let r' = asked r (post_webhook step body key n) in
    elim (Delivery-cases (delivery (w.webhook r'.calls))) [
      | inl (code, e) ↦
          let (a, lo, hi) = delivery-delivered (w.webhook r'.calls) e in
          rw (e, attempt_delivery)
            (inl (code, refl, a, lo, hi, rw count_posts-append (omega arith)))
      | inr (code, v, e) ↦
          rw (e, attempt_delivery)
            (Attempted-shift w left r (pause n r')
              (attempt_delivery w step body key left (n + 1) (exhausted code v) (pause n r'))
              (pause_posts n r' ∙ count_posts-append r.calls (post_webhook step body key n))
              (attempt_delivery_lem w step body key left (n + 1) (exhausted code v) (pause n r')
                refl))
    ]

pause-Refused :
    (w : World) (cs : List Call) (n k : ℕ) (r : Run)
    → Refused w cs r.calls k
    → Refused w cs (pause n r).calls k
unfolding pause
pause-Refused w cs n k r q = elim (Bool-cases (ltb n webhook_max_retries)) [
  | inl e ↦ rw e (slept (2 ^ n) q)
  | inr e ↦ rw e q
]

-- Where the attempts end in failure, each one that was left was made and refused.
attempt_delivery-Refused :
    (w : World) (step : WorkflowStep) (body : Dict String Value) (key : Option String)
    (cs : List Call) (left n k m : ℕ) (last : Delivery) (r : Run)
    → k + left ≡ m
    → Refused w cs r.calls k
    → is_exhausted (attempt_delivery w step body key left n last r).1 ≡ true
    → Refused w cs (attempt_delivery w step body key left n last r).0.calls m
unfolding attempt_delivery
attempt_delivery-Refused w step body key cs zero n k m last r s q x =
    subst (Refused w cs r.calls) (omega arith) q
attempt_delivery-Refused w step body key cs (suc left) n k m last r s q x =
    let r' = asked r (post_webhook step body key n) in
    elim (Delivery-cases (delivery (w.webhook r'.calls))) [
      | inl (code, e) ↦ absurd (ground (arith, x, e))
      | inr (code, v, e) ↦
          rw (e, attempt_delivery)
            (attempt_delivery-Refused w step body key cs left (n + 1) (k + 1) m (exhausted code v)
              (pause n r') (omega arith)
              (pause-Refused w cs n (k + 1) r'
                (posted step body key n q (delivery-exhausted (w.webhook r'.calls) e)))
              (rw (e, attempt_delivery) at x))
    ]

abbrev pub status_of : Outcome → Option ResultStatus
status_of (reply result) = some result.status
status_of raised = none

-- The step reports success, and the session is completed.
abbrev pub Submitted : World → Run → Run × Outcome → Type 0
Submitted w r res =
    (status_of res.1 ≡ some ResultStatus.completed)
    × ((state_of res.0).status ≡ some Status.completed)
    × ((code : ℕ) × (w.webhook res.0.calls ≡ answered code)
        × (200 ≤ code)
        × (code < 300)
        × (count_posts res.0.calls ≤ count_posts r.calls + 4))

-- The step asks for a retry, and the session waits for it at the same step, once four posts were
-- made and each was refused.
abbrev pub Unsubmitted : World → Run → ℕ → Run × Outcome → Type 0
Unsubmitted w r idx res =
    (status_of res.1 ≡ some ResultStatus.await_retry)
    × ((state_of res.0).status ≡ some Status.await_retry)
    × ((state_of res.0).current_step_index ≡ idx)
    × (count_posts res.0.calls ≡ count_posts r.calls + 4)
    × Refused w r.calls res.0.calls 4

attempt_session :
    (w : World) (step : WorkflowStep) (body : Dict String Value) (key : Option String) (left n : ℕ)
    (last : Delivery) (r : Run)
    → (attempt_delivery w step body key left n last r).0.session ≡ r.session
unfolding attempt_delivery
attempt_session w step body key zero n last r = refl
attempt_session w step body key (suc left) n last r =
    let r' = asked r (post_webhook step body key n) in
    elim (Delivery-cases (delivery (w.webhook r'.calls))) [
      | inl (code, e) ↦ rw (e, attempt_delivery)
      | inr (code, v, e) ↦
          rw (e, attempt_delivery)
            (attempt_session w step body key left (n + 1) (exhausted code v) (pause n r')
              ∙ pause_session n r')
    ]

conclude_lem :
    (w : World) (step : WorkflowStep) (steps : List WorkflowStep) (idx : ℕ) (d : Dict String Value)
    (r r' : Run) (e : Delivery)
    → Attempted w 4 r (r', e)
    → (is_exhausted e ≡ true → Refused w r.calls r'.calls 4)
    → (state_of r').status ≡ some Status.completed
    → Submitted w r (conclude w step steps idx d r' e)
      ⊎ Unsubmitted w r idx (conclude w step steps idx d r' e)
unfolding conclude
conclude_lem w step steps idx d r r' (delivered code) (inl (c, q, a, lo, hi, b)) f s =
    inl (refl, s, (c, a, lo, hi, b))
conclude_lem w step steps idx d r r' (delivered code) (inr (x, b)) f s = cc
conclude_lem w step steps idx d r r' (exhausted code v) (inl (c, q, a, lo, hi, b)) f s = cc
conclude_lem w step steps idx d r r' (exhausted code v) (inr (x, b)) f s =
    inr (refl, refl, refl, b, f refl)

-- A complete step whose webhook is enabled either reports completion, and the webhook's last answer
-- had a status from 200 to 299, within four posts; or it reports that a retry is awaited, and exactly
-- four posts were made, each answered with another status or an exception.
pub handle_complete-honest :
    (w : World) (step : WorkflowStep) (steps : List WorkflowStep) (idx : ℕ) (d : Dict String Value)
    (r : Run)
    → wants_webhook step ≡ true
    → Submitted w r (handle_complete w step steps idx d r)
      ⊎ Unsubmitted w r idx (handle_complete w step steps idx d r)
unfolding handle_complete deliver
handle_complete-honest w step steps idx d r h =
    let done =
      set_state r
        (record (state_of r) { current_step_index = idx; status = some Status.completed }) in
    let key = idempotency_value (state_of done).idempotency_key step.id in
    let body = webhook_body key (user_data d) in
    let (r', e) =
      attempt_delivery w step body key (webhook_max_retries + 1) 0 (exhausted 0 null) done in
    rw (h, handle_complete)
      (conclude_lem w step steps idx d done r' e
        (attempt_delivery_lem w step body key (webhook_max_retries + 1) 0 (exhausted 0 null) done
          refl)
        (attempt_delivery-Refused w step body key done.calls 4 0 0 4 (exhausted 0 null) done refl
          start)
        (ap (λ (s : Session). (or_empty s.workflow_state).status)
          (attempt_session w step body key (webhook_max_retries + 1) 0 (exhausted 0 null) done)))
