-- ===== src/Workflow/Keeps/Turn.antt =====
-- The handlers of collect, validate, confirm and tool_call steps, for any property of `Keeps`.
use aezab.Prelude.{
  ℕ, refl, inl, inr, String, string_eq, Bool, true, false, not, ◌&&◌, Option, none, some, List, [],
  ◌∷◌, Bool-cases, ◌==◌,
}
use aezab.Prelude.Dict.{Dict, get}
use aezab.Value.{Value}
use aezab.Workflow.State.{
  WorkflowStep, Snapshot, Run, World, Handled, Call, FieldDef, extract_fields, llm_validate,
  state_of, OnFailure, rollback, asked,
}
use aezab.Workflow.Collect.{
  Collecting, semantic, semantic_field, semantic_fields, keep_progress, collect_fields,
  collect_result, collect_form, collect_extracted, collect_text, collect_input, handle_collect,
}
use aezab.Workflow.Tool.{
  on_invalid, validated, handle_validate, confirmed, handle_confirm, all_rule_errors, has_fallback,
}
use aezab.Workflow.Fields.{confirmation_intent, is_empty_field, or_null}
use aezab.Workflow.Keeps.{
  Keeper, Holds, Holds-if, rollback_keeps, advance_keeps, follow_fallback_keeps,
}

module _ (P : List Snapshot → List Call → Type 0) (k : Keeper P) (w : World) where
  semantic_keeps :
      (f : FieldDef) (v : Value) (r : Run) (c : Collecting)
      → Holds P r
      → Holds P (semantic w f v r c).0
  unfolding semantic
  semantic_keeps f v r c h = elim (Bool-cases (f.llm_validate_prompt == "")) [
    | inl e ↦ rw e h
    | inr e ↦ rw e (k.ask (state_of r).snapshots r.calls (llm_validate f v) refl h)
  ]

  semantic_field_keeps :
      (f : FieldDef) (r : Run) (c : Collecting) → Holds P r → Holds P (semantic_field w f r c).0
  unfolding semantic_field
  semantic_field_keeps f r c h =
      let v = or_null (get c.collected f.name) in
      elim (Bool-cases (f.llm_validate && not (is_empty_field v))) [
        | inl e ↦ rw e (semantic_keeps f v r c h)
        | inr e ↦ rw e h
      ]

  semantic_fields_keeps :
      (fs : List FieldDef) (r : Run) (c : Collecting)
      → Holds P r
      → Holds P (semantic_fields w fs r c).0
  unfolding semantic_fields
  semantic_fields_keeps [] r c h = h
  semantic_fields_keeps (f ∷ fs) r c h =
      semantic_fields_keeps fs (semantic_field w f r c).0 (semantic_field w f r c).1
        (semantic_field_keeps f r c h)

  keep_progress_keeps :
      (fs : List FieldDef) (d : Dict String Value) (r : Run)
      → Holds P r
      → Holds P (keep_progress fs d r)
  keep_progress_keeps [] d r h = h
  keep_progress_keeps (f ∷ fs) d r h = h

module _ (P : List Snapshot → List Call → Type 0) (k : Keeper P) (next : Run → Handled)
    (keep : (r : Run) → Holds P r → Holds P (next r).0) (w : World)
    (steps : List WorkflowStep) where
  collect_result_keeps :
      (step : WorkflowStep) (idx : ℕ) (errors missing : List String) (d : Dict String Value)
      (r : Run)
      → Holds P r
      → Holds P (collect_result next w steps step idx errors missing d r).0
  unfolding collect_result
  collect_result_keeps step idx (e ∷ es) missing d r h = h
  collect_result_keeps step idx [] (l ∷ ls) d r h = h
  collect_result_keeps step idx [] [] d r h = advance_keeps P k next keep w steps step idx r h

  collect_form_keeps :
      (step : WorkflowStep) (idx : ℕ) (form d : Dict String Value) (r : Run)
      → Holds P r
      → Holds P (collect_form next w steps step idx form d r).0
  unfolding collect_form
  collect_form_keeps step idx form d r h =
      let first =
        collect_fields w.runtime step.fields form
          (record { collected = d; errors = []; missing_labels = []; provided_fields = [] }) in
      let (r', c) = semantic_fields w first.provided_fields r first in
      collect_result_keeps step idx c.errors c.missing_labels c.collected
        (keep_progress c.provided_fields c.collected r')
        (keep_progress_keeps P k w c.provided_fields c.collected r'
          (semantic_fields_keeps P k w first.provided_fields r first h))

  collect_extracted_keeps :
      (step : WorkflowStep) (idx : ℕ) (form : Option (Dict String Value)) (d : Dict String Value)
      (r : Run)
      → Holds P r
      → Holds P (collect_extracted next w steps step idx form d r).0
  unfolding collect_extracted
  collect_extracted_keeps step idx none d r h = h
  collect_extracted_keeps step idx (some []) d r h = h
  collect_extracted_keeps step idx (some (e ∷ form)) d r h =
      collect_form_keeps step idx (e ∷ form) d r h

  collect_text_keeps :
      (step : WorkflowStep) (idx : ℕ) (input : String) (d : Dict String Value) (r : Run)
      → Holds P r
      → Holds P (collect_text next w steps step idx input d r).0
  unfolding collect_text
  collect_text_keeps step idx input d r h = elim (Bool-cases (w.runtime.strip input == "")) [
    | inl e ↦ rw e (collect_extracted_keeps step idx none d r h)
    | inr e ↦ rw e (
        let r' = asked r (extract_fields input step.fields d) in
        collect_extracted_keeps step idx (w.extracted r'.calls) d r'
          (k.ask (state_of r).snapshots r.calls (extract_fields input step.fields d) refl h))
  ]

  collect_input_keeps :
      (step : WorkflowStep) (idx : ℕ) (input : String) (form : Option (Dict String Value))
      (d : Dict String Value) (r : Run)
      → Holds P r
      → Holds P (collect_input next w steps step idx input form d r).0
  unfolding collect_input
  collect_input_keeps step idx input (some (e ∷ form)) d r h =
      collect_form_keeps step idx (e ∷ form) d r h
  collect_input_keeps step idx input (some []) d r h = collect_text_keeps step idx input d r h
  collect_input_keeps step idx input none d r h = collect_text_keeps step idx input d r h

  pub collect_keeps :
      (step : WorkflowStep) (fs : List FieldDef) (idx : ℕ) (input : String)
      (form : Option (Dict String Value)) (d : Dict String Value) (r : Run)
      → Holds P r
      → Holds P (handle_collect next w steps step fs idx input form d r).0
  unfolding handle_collect
  collect_keeps step [] idx input form d r h = advance_keeps P k next keep w steps step idx r h
  collect_keeps step (_ ∷ _) idx input form d r h = collect_input_keeps step idx input form d r h

  on_invalid_keeps :
      (step : WorkflowStep) (idx : ℕ) (errors : List String) (f : OnFailure) (r : Run)
      → Holds P r
      → Holds P (on_invalid next w steps step idx errors f r).0
  unfolding on_invalid
  on_invalid_keeps step idx errors rollback r h = rollback_keeps P k next keep w steps r idx h
  on_invalid_keeps step idx errors _ r h = h

  validated_keeps :
      (step : WorkflowStep) (idx : ℕ) (errors : Option (List String)) (r : Run)
      → Holds P r
      → Holds P (validated next w steps step idx errors r).0
  unfolding validated
  validated_keeps step idx none r h = h
  validated_keeps step idx (some []) r h = advance_keeps P k next keep w steps step idx r h
  validated_keeps step idx (some (e ∷ es)) r h =
      Holds-if P (has_fallback step.fallback_step_id) _ _
        (follow_fallback_keeps P k next keep w steps false step r h)
        (on_invalid_keeps step idx (e ∷ es) step.on_failure r h)

  pub validate_keeps :
      (step : WorkflowStep) (idx : ℕ) (d : Dict String Value) (r : Run)
      → Holds P r
      → Holds P (handle_validate next w steps step idx d r).0
  unfolding handle_validate
  validate_keeps step idx d r h =
      validated_keeps step idx (all_rule_errors w.runtime step.validation_rules d) r h

  confirmed_keeps :
      (step : WorkflowStep) (idx : ℕ) (intent : Option Bool) (r : Run)
      → Holds P r
      → Holds P (confirmed next w steps step idx intent r).0
  unfolding confirmed
  confirmed_keeps step idx (some false) r h = rollback_keeps P k next keep w steps r idx h
  confirmed_keeps step idx (some true) r h = advance_keeps P k next keep w steps step idx r h
  confirmed_keeps step idx none r h = h

  pub confirm_keeps :
      (step : WorkflowStep) (idx : ℕ) (input : String) (r : Run)
      → Holds P r
      → Holds P (handle_confirm next w steps step idx input r).0
  unfolding handle_confirm
  confirm_keeps step idx input r h =
      confirmed_keeps step idx (confirmation_intent w.runtime input) r h
