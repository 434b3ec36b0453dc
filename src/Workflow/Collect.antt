-- ===== src/Workflow/Collect.antt =====
-- server/engine/workflow_executor.py: `_handle_collect`, `_handle_validate` and `_handle_confirm`.
use Prim.Native.String.{◌++◌ as ◌+++◌}
use aezab.Prelude.{
  ℕ, String, string_eq, not, ◌&&◌, Option, none, some, List, [], ◌∷◌, ◌++◌, map, ◌==◌,
  if◌then◌else◌,
}
use aezab.Prelude.Dict.{Dict, get, put, remove}
use aezab.Value.{Value, Runtime}
use aezab.Workflow.State.{
  FieldDef, WorkflowStep, Run, World, Handled, answer, show, waiting_input, extract_fields,
  llm_validate, asked, set_collected,
}
use aezab.Workflow.Fields.{or_null, is_empty_field, validate_field, validate_file_field}
use aezab.Workflow.Moves.{make_card}
use aezab.Workflow.Advance.{or_text, advance}

-- The locals of the loops of `_handle_collect`.
pub record Collecting : Type 0 where
  pub collected : Dict String Value
  pub errors : List String
  pub missing_labels : List String
  pub provided_fields : List FieldDef

abbrev pub label_of : FieldDef → String
label_of f = or_text f.label f.name

abbrev pub check_field : Runtime → FieldDef → Value → Option String
check_field py f v =
    if f.field_type == "file" then validate_file_field py f v else validate_field py f v

abbrev accept : Collecting → FieldDef → Value → Option String → Collecting
accept c f v none = record c {
  collected = put c.collected f.name v;
  provided_fields = c.provided_fields ++ (f ∷ []);
}
accept c f v (some e) = record c { errors = c.errors ++ (e ∷ []) }

-- One field: not given this turn, or checked and stored.
unfoldable pub collect_field : Runtime → FieldDef → Option Value → Collecting → Collecting
collect_field py f none c =
    if is_empty_field (or_null (get c.collected f.name)) && f.required
    then record c { missing_labels = c.missing_labels ++ (label_of f ∷ []) }
    else c
collect_field py f (some v) c = accept c f v (check_field py f v)

unfoldable pub collect_fields :
    Runtime → List FieldDef → Dict String Value → Collecting → Collecting
unfolding collect_field
collect_fields py [] form c = c
collect_fields py (f ∷ fs) form c =
    collect_fields py fs form (collect_field py f (get form f.name) c)

-- A value that the model refuses is taken out again.
unfoldable pub reject : FieldDef → String → Collecting → Collecting
reject f e c =
    let c' = record c { collected = remove c.collected f.name; errors = c.errors ++ (e ∷ []) } in
    if f.required then record c' { missing_labels = c.missing_labels ++ (label_of f ∷ []) } else c'

abbrev or_reject : FieldDef → Option String → Collecting → Collecting
or_reject f none c = c
or_reject f (some e) c = reject f e c

-- Without a prompt the model is not asked, and the field is refused.
unfoldable pub semantic : World → FieldDef → Value → Run → Collecting → Run × Collecting
unfolding reject
semantic w f v r c =
    if f.llm_validate_prompt == ""
    then (r, reject f ("'" +++ f.label +++ "' 的语义校验规则未配置，请联系管理员。") c)
    else let r' = asked r (llm_validate f v) in (r', or_reject f (w.semantic_error r'.calls) c)

unfoldable pub semantic_field : World → FieldDef → Run → Collecting → Run × Collecting
unfolding semantic
semantic_field w f r c =
    let v = or_null (get c.collected f.name) in
    if f.llm_validate && not (is_empty_field v) then semantic w f v r c else (r, c)

unfoldable pub semantic_fields : World → List FieldDef → Run → Collecting → Run × Collecting
unfolding semantic_field
semantic_fields w [] r c = (r, c)
semantic_fields w (f ∷ fs) r c = let (r', c') = semantic_field w f r c in semantic_fields w fs r' c'

unfoldable pub saved_labels : List FieldDef → Dict String Value → List String
saved_labels [] collected = []
saved_labels (f ∷ fs) collected =
    let rest = saved_labels fs collected in
    if is_empty_field (or_null (get collected f.name)) then rest else label_of f ∷ rest

unfoldable pub saved_note : Runtime → List String → String
saved_note py [] = ""
saved_note py (l ∷ ls) = "已记录：" +++ py.join "、" (l ∷ ls) +++ "。\n"

abbrev collect_prompt : World → WorkflowStep → String
collect_prompt w step =
    or_text step.prompt_template
      ("请填写以下信息: " +++ w.runtime.join ", " (map (λ f. f.label) step.fields))

-- The partial progress is persisted if a field was provided.
abbrev pub keep_progress : List FieldDef → Dict String Value → Run → Run
keep_progress [] d r = r
keep_progress (f ∷ fs) d r = set_collected r d

module _ (process : Run → Handled) (w : World) (steps : List WorkflowStep) where
  unfoldable pub collect_result :
      WorkflowStep → ℕ → List String → List String → Dict String Value → Run → Handled
  unfolding advance saved_note
  collect_result step idx (e ∷ es) missing collected r = answer r (
      show waiting_input ("请修正以下问题:\n" +++ w.runtime.join "\n" (map (λ m. "- " +++ m) (e ∷ es)))
        (make_card step steps idx none))
  collect_result step idx [] (l ∷ ls) collected r = answer r (
      show waiting_input
        (saved_note w.runtime (saved_labels step.fields collected)
          +++ "还需要以下信息："
          +++ w.runtime.join "、" (l ∷ ls))
        (make_card step steps idx none))
  collect_result step idx [] [] collected r = advance process w steps step idx r

  unfoldable pub collect_form :
      WorkflowStep → ℕ → Dict String Value → Dict String Value → Run → Handled
  unfolding semantic_fields collect_result
  collect_form step idx form collected r =
      let first = collect_fields w.runtime step.fields form (record {
        collected = collected;
        errors = [];
        missing_labels = [];
        provided_fields = [];
      }) in
      let (r', c) = semantic_fields w first.provided_fields r first in
      collect_result step idx c.errors c.missing_labels c.collected
        (keep_progress c.provided_fields c.collected r')

  -- What the model read from the message: nothing usable, no field, or fields.
  unfoldable pub collect_extracted :
      WorkflowStep → ℕ → Option (Dict String Value) → Dict String Value → Run → Handled
  unfolding collect_form
  collect_extracted step idx none collected r =
      answer r (show waiting_input (collect_prompt w step) (make_card step steps idx none))
  collect_extracted step idx (some []) collected r = answer r (
      show waiting_input (collect_prompt w step +++ "\n（如需退出当前流程，请回复\"取消\"）")
        (make_card step steps idx none))
  collect_extracted step idx (some (entry ∷ form)) collected r =
      collect_form step idx (entry ∷ form) collected r

  unfoldable pub collect_text : WorkflowStep → ℕ → String → Dict String Value → Run → Handled
  unfolding collect_extracted
  collect_text step idx user_input collected r =
      if w.runtime.strip user_input == ""
      then collect_extracted step idx none collected r
      else let r' = asked r (extract_fields user_input step.fields collected) in
        collect_extracted step idx (w.extracted r'.calls) collected r'

  -- Form data win over the text; an empty form is no form.
  unfoldable pub collect_input :
      WorkflowStep → ℕ → String → Option (Dict String Value) → Dict String Value → Run → Handled
  unfolding collect_text
  collect_input step idx user_input (some (entry ∷ form)) collected r =
      collect_form step idx (entry ∷ form) collected r
  collect_input step idx user_input _ collected r = collect_text step idx user_input collected r

  unfoldable pub handle_collect :
      WorkflowStep
      → List FieldDef
      → ℕ
      → String
      → Option (Dict String Value)
      → Dict String Value
      → Run
      → Handled
  unfolding collect_input
  handle_collect step [] idx user_input form_data collected r = advance process w steps step idx r
  handle_collect step (_ ∷ _) idx user_input form_data collected r =
      collect_input step idx user_input form_data collected r
