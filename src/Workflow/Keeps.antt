-- ===== src/Workflow/Keeps.antt =====
-- What a turn of the executor leaves of the snapshots and of the calls to the world. `P` is a
-- property of both; the section's parameters say that it survives what the handlers may do: a
-- permitted call, fewer snapshots after a rollback, and none after an escalation. The lemmas go
-- through every handler once, for all such properties; `next` is the step one level deeper.
pub mod Turn
pub mod Calls
pub mod Process
use aezab.Prelude.{
  ℕ, zero, suc, ◌+◌, ◌≡◌, refl, inl, inr, String, string_eq, Bool, true, false, not, Option, none,
  some, List, [], ◌∷◌, ◌++◌, get_elem?, Option-cases, Bool-cases, if◌then◌else◌, ◌==◌,
}
use aezab.Prelude.Dict.{Dict, get, put, remove}
use aezab.Value.{Value}
use aezab.Workflow.State.{
  WorkflowStep, Snapshot, Run, World, Handled, Call, FieldDef, find_tool, invoke_tool,
  extract_fields, llm_validate, decide, post_webhook, sleep, state_of, OnFailure, retry, skip,
  rollback, escalate, OwnedTool, ToolReply, returned, failed, Decision, DecisionConfig,
  set_collected, set_state, asked, log, workflow_branch,
}
use aezab.Workflow.Moves.{
  pop_until, go_back, rollback_among, perform_rollback, editable, last?, resolve_step_target,
}
use aezab.Workflow.Advance.{
  enter, enter_found, enter_step, proceed, advance_to, advance, next_index, run_out, fall_back,
  follow_target, follow_fallback, is_auto, step_id,
}

-- The calls that no confirmation is needed for.
abbrev pub is_gated : Call → Bool
is_gated (invoke_tool step _ _) = step.requires_human_confirm
is_gated _ = false

pub record Keeper (P : List Snapshot → List Call → Type 0) : Type 0 where
  pub ask :
      (s : List Snapshot) (c : List Call) (call : Call)
      → is_gated call ≡ false
      → P s c
      → P s (c ++ (call ∷ []))
  pub pop :
      (test : Snapshot → Bool) (s : List Snapshot) (c : List Call) → P s c → P (pop_until test s) c
  pub clear : (s : List Snapshot) (c : List Call) → P s c → P [] c

module _ (P : List Snapshot → List Call → Type 0) where
  abbrev pub Holds : Run → Type 0
  Holds r = P (state_of r).snapshots r.calls

  pub Holds-if : (t : Bool) (a b : Handled) → Holds a.0 → Holds b.0 → Holds (if t then a else b).0
  Holds-if true a b ha hb = ha
  Holds-if false a b ha hb = hb

  pub Holds-if_eq :
      (t : Bool) (a b : Handled)
      → (t ≡ true → Holds a.0)
      → (t ≡ false → Holds b.0)
      → Holds (if t then a else b).0
  Holds-if_eq true a b ha hb = ha refl
  Holds-if_eq false a b ha hb = hb refl

module _ (P : List Snapshot → List Call → Type 0) (k : Keeper P) (next : Run → Handled)
    (keep : (r : Run) → Holds P r → Holds P (next r).0) (w : World)
    (steps : List WorkflowStep) where
  go_back_keeps :
      (r : Run) (kept : List Snapshot) (prev : Option Snapshot) (step : Option WorkflowStep)
      → P kept r.calls
      → Holds P r
      → Holds P (go_back r steps kept prev step).0
  unfolding go_back
  go_back_keeps r kept (some prev) (some step) hk h = hk
  go_back_keeps r kept (some prev) none hk h = h
  go_back_keeps r kept none step hk h = h

  rollback_among_keeps :
      (r : Run) (idx : ℕ) (s : List Snapshot)
      → P s r.calls
      → Holds P r
      → Holds P (rollback_among r steps idx s).0
  unfolding rollback_among
  rollback_among_keeps r idx [] hs h = h
  rollback_among_keeps r idx (s ∷ rest) hs h =
      go_back_keeps r (pop_until (editable steps idx) (s ∷ rest)) _ _ (k.pop _ _ _ hs) h

  pub rollback_keeps : (r : Run) (idx : ℕ) → Holds P r → Holds P (perform_rollback r steps idx).0
  unfolding perform_rollback
  rollback_keeps r idx h = rollback_among_keeps r idx (state_of r).snapshots h h

  enter_found_keeps :
      (idx : ℕ) (r : Run) (o : Option WorkflowStep)
      → Holds P r
      → Holds P (enter_found next w steps idx r o).0
  unfolding enter_found
  enter_found_keeps idx r none h = h
  enter_found_keeps idx r (some step) h =
      Holds-if P (is_auto step.step_type step.fields) _ _ (keep r h) h

  pub enter_keeps : (idx : ℕ) (r : Run) → Holds P r → Holds P (enter_step next w steps idx r).0
  unfolding enter_step
  enter_keeps idx r h = enter_found_keeps idx (enter r idx) (get_elem? steps idx) h

  proceed_keeps : (idx : ℕ) (r : Run) → Holds P r → Holds P (proceed next w steps idx r).0
  unfolding proceed
  proceed_keeps idx r h = elim (Option-cases (get_elem? steps idx)) [
    | inl e ↦ rw (e, proceed) h
    | inr (s, e) ↦ rw (e, proceed) (enter_keeps idx r h)
  ]

  advance_to_keeps :
      (step : WorkflowStep) (r : Run) (idx : Option ℕ)
      → Holds P r
      → Holds P (advance_to next w steps step r idx).0
  unfolding advance_to
  advance_to_keeps step r none h = h
  advance_to_keeps step r (some idx) h =
      proceed_keeps idx (log w r (workflow_branch step.id (step_id (get_elem? steps idx)) "next")) h

  pub advance_keeps :
      (step : WorkflowStep) (idx : ℕ) (r : Run)
      → Holds P r
      → Holds P (advance next w steps step idx r).0
  unfolding advance
  advance_keeps step idx r h = advance_to_keeps step r (next_index w steps step idx r) h

  fall_back_keeps :
      (d : Bool) (step : WorkflowStep) (target : ℕ) (o : Option WorkflowStep) (r : Run)
      → Holds P r
      → Holds P (fall_back next w steps d step target o r).0
  unfolding fall_back
  fall_back_keeps d step target none r h = h
  fall_back_keeps d step target (some f) r h =
      Holds-if P _ _ _ h
        (enter_keeps target (log w r (workflow_branch step.id (some f.id) "fallback")) h)

  follow_target_keeps :
      (d : Bool) (step : WorkflowStep) (target : Option ℕ) (r : Run)
      → Holds P r
      → Holds P (follow_target next w steps d step target r).0
  unfolding follow_target
  follow_target_keeps d step none r h = h
  follow_target_keeps d step (some target) r h =
      fall_back_keeps d step target (get_elem? steps target) r h

  pub follow_fallback_keeps :
      (d : Bool) (step : WorkflowStep) (r : Run)
      → Holds P r
      → Holds P (follow_fallback next w steps d step r).0
  unfolding follow_fallback
  follow_fallback_keeps d step r h = follow_target_keeps d step _ r h
