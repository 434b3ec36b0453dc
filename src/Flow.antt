-- ===== src/Flow.antt =====
-- server/api/workflows.py: `_validate_automatic_cycles`, which refuses a workflow whose automatic steps
-- form a loop. It runs on payloads that passed the checks before it, so orders are natural numbers and
-- names are there; a set of numbers is a list, and its order does not matter to the result.
pub mod Walks
pub mod References
pub mod Routes
pub mod Graph
pub mod Search
pub mod Acyclic
pub mod Tests
use mathlib.Core.Option
use aezab.Prelude.{
  ℕ, zero, suc, ◌+◌, String, string_eq, nat_eq, Bool, true, false, not, ◌&&◌, ◌||◌, Option, none,
  some, List, [], ◌∷◌, any, length, leb, ltb, ◌==◌, if◌then◌else◌,
}
use aezab.Prelude.Dict.{Dict, get, put}
use aezab.Prelude.Int.{show_nat}

-- A rule of `next_step_rules`, and whether its condition is `None`.
pub record Route : Type 0 where
  pub goto_step : String
  pub is_default : Bool

-- The entries of a step that the check reads; no fallback is the empty text.
pub record StepPayload : Type 0 where
  pub id : Option String
  pub name : String
  pub order : ℕ
  pub step_type : String
  pub has_fields : Bool
  pub requires_human_confirm : Bool
  pub next_step_rules : List Route
  pub fallback_step_id : String

unfoldable pub insert_step : StepPayload → List StepPayload → List StepPayload
insert_step s [] = s ∷ []
insert_step s (t ∷ steps) =
    let rest = insert_step s steps in if leb s.order t.order then s ∷ t ∷ steps else t ∷ rest

-- `sorted(steps, key=lambda item: item["order"])`, which is stable
unfoldable pub sort_steps : List StepPayload → List StepPayload
unfolding insert_step
sort_steps [] = []
sort_steps (s ∷ steps) = insert_step s (sort_steps steps)

unfoldable pub enumerate : ℕ → List StepPayload → List (ℕ × StepPayload)
enumerate i [] = []
enumerate i (s ∷ steps) = (i, s) ∷ enumerate (i + 1) steps

abbrev pub put_ref : Option String → ℕ → Dict String ℕ → Dict String ℕ
put_ref none i refs = refs
put_ref (some ref) i refs = put refs ref i

-- The loop over the steps from the last to the first, for one of the three fields.
unfoldable pub put_refs :
    (StepPayload → Option String) → List (ℕ × StepPayload) → Dict String ℕ → Dict String ℕ
put_refs field [] refs = refs
put_refs field ((i, s) ∷ steps) refs = put_ref (field s) i (put_refs field steps refs)

unfoldable pub refs_of : List (ℕ × StepPayload) → Dict String ℕ
unfolding put_refs
refs_of steps =
    put_refs (λ s. s.id) steps
      (put_refs (λ s. some s.name) steps (put_refs (λ s. some (show_nat s.order)) steps []))

unfoldable pub is_automatic : StepPayload → Bool
is_automatic s =
    (((s.step_type == "validate") || (s.step_type == "tool_call") || (s.step_type == "decision"))
      && not ((s.step_type == "tool_call") && s.requires_human_confirm))
    || ((s.step_type == "collect") && not s.has_fields)

unfoldable pub automatic : List (ℕ × StepPayload) → List ℕ
automatic [] = []
automatic ((i, s) ∷ steps) = let rest = automatic steps in if is_automatic s then i ∷ rest else rest

-- `none` is a `KeyError`, which the checks before this one rule out.
abbrev pub cons_ref : Option ℕ → Option (List ℕ) → Option (List ℕ)
cons_ref none rest = none
cons_ref (some i) none = none
cons_ref (some i) (some rest) = some (i ∷ rest)

unfoldable pub rule_targets : Dict String ℕ → List Route → Option (List ℕ)
unfolding get
rule_targets refs [] = some []
rule_targets refs (r ∷ rules) = cons_ref (get refs r.goto_step) (rule_targets refs rules)

-- The targets of the rules, the next step where no rule is the default, and the fallback.
unfoldable pub targets_of : Dict String ℕ → ℕ → ℕ → StepPayload → Option (List ℕ)
unfolding rule_targets
targets_of refs total i s =
    let rules = rule_targets refs s.next_step_rules in
    let more =
      if not (any (λ r. r.is_default) s.next_step_rules) && ltb (i + 1) total
      then Option.map (λ l. (i + 1) ∷ l) rules
      else rules in
    if s.fallback_step_id == "" then more else cons_ref (get refs s.fallback_step_id) more

abbrev pub mem : ℕ → List ℕ → Bool
mem i numbers = any (λ k. k == i) numbers

-- `targets & automatic`
unfoldable pub common : List ℕ → List ℕ → List ℕ
common nodes [] = []
common nodes (i ∷ targets) =
    let rest = common nodes targets in if mem i nodes then i ∷ rest else rest

abbrev pub add_node :
    List ℕ → ℕ → Option (List ℕ) → Option (Dict ℕ (List ℕ)) → Option (Dict ℕ (List ℕ))
add_node nodes i none graph = none
add_node nodes i (some targets) none = none
add_node nodes i (some targets) (some graph) = some ((i, common nodes targets) ∷ graph)

unfoldable pub build :
    Dict String ℕ → ℕ → List ℕ → List (ℕ × StepPayload) → Option (Dict ℕ (List ℕ))
unfolding targets_of common
build refs total nodes [] = some []
build refs total nodes ((i, s) ∷ steps) =
    let rest = build refs total nodes steps in
    if is_automatic s then add_node nodes i (targets_of refs total i s) rest else rest

abbrev pub numbered : List StepPayload → List (ℕ × StepPayload)
numbered steps = enumerate 0 (sort_steps steps)

unfoldable pub graph_of : List StepPayload → Option (Dict ℕ (List ℕ))
unfolding build
graph_of steps =
    build (refs_of (numbered steps)) (length steps) (automatic (numbered steps)) (numbered steps)

abbrev pub or_none : Option (List ℕ) → List ℕ
or_none none = []
or_none (some targets) = targets

-- `graph.get(idx, set())`
abbrev pub successors : Dict ℕ (List ℕ) → ℕ → List ℕ
successors graph i = or_none (get graph i)

-- The sets `visiting` and `visited`.
pub record Marks : Type 0 where
  pub visiting : List ℕ
  pub visited : List ℕ

unfoldable pub remove : ℕ → List ℕ → List ℕ
remove i [] = []
remove i (k ∷ numbers) = let rest = remove i numbers in if k == i then rest else k ∷ rest

-- `any(visit(target) for target in ...)`
unfoldable pub visit_any : (ℕ → Marks → Bool × Marks) → List ℕ → Marks → Bool × Marks
visit_any visit [] m = (false, m)
visit_any visit (i ∷ targets) m = elim (visit i m).0 [
  | true ↦ (true, (visit i m).1)
  | false ↦ visit_any visit targets (visit i m).1
]

abbrev pub leave : ℕ → Bool × Marks → Bool × Marks
leave i (true, m) = (true, m)
leave i (false, m) = (false, record { visiting = remove i m.visiting; visited = i ∷ m.visited })

-- The search from a node, with fuel for its depth.
unfoldable pub visit : (ℕ → List ℕ) → ℕ → ℕ → Marks → Bool × Marks
unfolding visit_any remove
visit next zero i m = (true, m)
visit next (suc fuel) i m = elim (mem i m.visiting) [
  | true ↦ (true, m)
  | false ↦ elim (mem i m.visited) [
    | true ↦ (false, m)
    | false ↦
        leave i (visit_any (visit next fuel) (next i) (record m { visiting = i ∷ m.visiting }))
  ]
]

abbrev pub no_marks : Marks
no_marks = record { visiting = []; visited = [] }

-- The depth is at most the number of nodes, as a node is never entered twice.
unfoldable pub has_cycle : (ℕ → List ℕ) → List ℕ → Bool
unfolding visit
has_cycle next nodes = (visit_any (visit next (length nodes + 1)) nodes no_marks).0

abbrev pub cycle_errors : Bool → List String
cycle_errors true =
    "Workflow has a cycle of automatic steps with no user input or manual pause." ∷ []
cycle_errors false = []

unfoldable pub validate_automatic_cycles : List StepPayload → Option (List String)
unfolding has_cycle
validate_automatic_cycles steps =
    Option.map (λ graph. cycle_errors (has_cycle (successors graph) (automatic (numbered steps))))
      (graph_of steps)
