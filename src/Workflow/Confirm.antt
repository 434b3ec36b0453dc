-- ===== src/Workflow/Confirm.antt =====
-- The confirmation gate of tool_call steps: which messages can make a gated tool run.
use aezab.Prelude.{
  ℕ, ◌+◌, ◌≡◌, ◌≢◌, refl, sym, ◌∙◌, String, string_eq, Bool, true, false, Option, none, some, List,
  [], ◌∷◌, ◌++◌, arith, ◌==◌, if◌then◌else◌,
}
use aezab.Prelude.Dict.{Dict}
use aezab.Value.{Value, Runtime}
use aezab.Workflow.State.{WorkflowStep, Snapshot, Run, World, Call, invoke_tool, state_of}
use aezab.Workflow.Fields.{confirmation_intent, intent_of, is_one_of, contains_any, refusals}
use aezab.Workflow.Process.{process_step, is_pending, max_auto_advance_depth}
use aezab.Workflow.Keeps.{is_gated, Keeper}
use aezab.Workflow.Keeps.Process.{Free, current_step, process_keeps}

-- How many gated tools were invoked.
abbrev pub count_gated : List Call → ℕ
count_gated [] = 0
count_gated (c ∷ cs) = (if is_gated c then 1 else 0) + count_gated cs

count_gated-append :
    (cs : List Call) (c : Call) → is_gated c ≡ false → count_gated (cs ++ (c ∷ [])) ≡ count_gated cs
count_gated-append [] c h = ground arith
count_gated-append (d ∷ cs) c h = ground (arith, count_gated-append cs c h)

-- What Python's text methods do on the empty text.
pub record EmptyText (py : Runtime) : Type 0 where
  pub strip_empty : py.strip "" ≡ ""
  pub lower_empty : py.lower "" ≡ ""
  pub rstrip_empty : (chars : String) → py.rstrip chars "" ≡ ""
  pub in_empty : (word : String) → (word == "") ≡ false → py.is_in word "" ≡ false

module _ (py : Runtime) (e : EmptyText py) where
  contains_any-empty :
      (words : List String) → is_one_of words "" ≡ false → contains_any py words "" ≡ false
  unfolding contains_any
  contains_any-empty [] h = refl
  contains_any-empty (t ∷ words) h = ground (arith, e.in_empty t, contains_any-empty words)

  -- An empty message confirms nothing and refuses nothing.
  pub confirmation_intent-empty : confirmation_intent py "" ≡ none
  unfolding confirmation_intent intent_of
  confirmation_intent-empty =
      rw (e.strip_empty, e.lower_empty, e.rstrip_empty ".!。！", contains_any-empty refusals refl)

abbrev Same : ℕ → List Snapshot → List Call → Type 0
Same n s c = count_gated c ≡ n

Same-keeper : (n : ℕ) → Keeper (Same n)
Same-keeper n = record {
  ask = λ s c call g h. count_gated-append c call g ∙ h;
  pop = λ test s c h. h;
  clear = λ s c h. h;
}

Same-free : (n : ℕ) → Free (Same n)
Same-free n = record {
  ungated = λ step g. record {
    invoke = λ s c input key h. count_gated-append c (invoke_tool step input key) g ∙ h;
  };
}

-- A step that requires confirmation has its tool invoked only by a message that is an explicit
-- affirmative, while the session stands at that step and its confirmation is pending. Stated the
-- other way: if, where the current step's confirmation is pending, the message is no affirmative,
-- then processing it, with all the automatic steps that follow, invokes no gated tool. The empty
-- text behaves as in Python.
pub process_step-gated :
    (w : World) (input : String) (form : Option (Dict String Value)) (r : Run)
    → EmptyText w.runtime
    → ((s : WorkflowStep)
        → current_step w r ≡ some s
        → is_pending (state_of r).pending_confirmation_step s.id ≡ true
        → confirmation_intent w.runtime input ≢ some true)
    → count_gated (process_step w input form r).0.calls ≡ count_gated r.calls
unfolding process_step
process_step-gated w input form r e h =
    let n = count_gated r.calls in
    process_keeps (Same n) (Same-keeper n) (Same-free n) (record { take = λ idx d s c q. q }) w
      (max_auto_advance_depth + 1) input form r
      (λ s q. absurd (none_not_true (sym (confirmation_intent-empty w.runtime e) ∙ q)))
      (λ s at p q. absurd (h s at p q)) refl
  where
    none_not_true : ◌≢◌ {A = Option Bool} none (some true)
    none_not_true p = cc
