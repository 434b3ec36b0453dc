-- ===== src/Workflow/Targets.antt =====
-- Where a goto target leads.
use mathlib.Core.Path.{subst}
use aezab.Prelude.{
  ℕ, suc, ◌≡◌, ◌⊎◌, inl, inr, refl, String, string_eq, Bool, true, false, Option, none, some, List,
  [], ◌∷◌, get_elem?, All, Bool-cases, ◌==◌,
}
use aezab.Prelude.Int.{ℤ}
use aezab.Value.{str, Runtime}
use aezab.Workflow.State.{WorkflowStep}
use aezab.Workflow.Moves.{index_of, resolve_step_target, by_order, int_beq}

-- The first index whose step passes the test, or no step does.
abbrev Found : (WorkflowStep → Bool) → List WorkflowStep → Option ℕ → Type 0
Found test steps o =
    ((i : ℕ) × (step : WorkflowStep) × (o ≡ some i)
      × (get_elem? steps i ≡ some step)
      × (test step ≡ true))
    ⊎ ((o ≡ none) × All (λ s. test s ≡ false) steps)

index_of-Found :
    (test : WorkflowStep → Bool) (steps : List WorkflowStep)
    → Found test steps (index_of test steps)
unfolding index_of
index_of-Found test [] = inr (refl, tt)
index_of-Found test (s ∷ steps) = elim (Bool-cases (test s)) [
  | inl y ↦ inl (0, s, rw y, refl, y)
  | inr n ↦ elim (index_of-Found test steps) [
    | inl (i, step, e, at, y) ↦ inl (suc i, step, rw (n, e), at, y)
    | inr (e, all) ↦ inr (rw (n, e), (n, all))
  ]
]

Found-at :
    (test : WorkflowStep → Bool) (steps : List WorkflowStep) (o : Option ℕ) (i : ℕ)
    → Found test steps o
    → o ≡ some i
    → (step : WorkflowStep) × (get_elem? steps i ≡ some step) × (test step ≡ true)
Found-at test steps o i (inl (j, step, e, at, y)) h =
    let q : j ≡ i = cc (e, h) in (step, subst (λ x. get_elem? steps x ≡ some step) q at, y)
Found-at test steps o i (inr (e, all)) h = cc (e, h)

by_order-found :
    (steps : List WorkflowStep) (o : Option ℤ) (i : ℕ)
    → by_order steps o ≡ some i
    → (step : WorkflowStep) × (get_elem? steps i ≡ some step)
      × (n : ℤ) × (o ≡ some n)
      × (int_beq step.order n ≡ true)
by_order-found steps none i h = cc
by_order-found steps (some n) i h =
    let (step, at, y) =
      Found-at (λ s. int_beq s.order n) steps _ i (index_of-Found (λ s. int_beq s.order n) steps)
        h in
    (step, at, n, refl, y)

-- A text leads to the step whose id it is; only if no step has that id, to the step of that name;
-- only if there is none either, to the step of that order, if the text is a number. An index that is
-- found is the index of such a step.
pub resolve_step_target_lem :
    (py : Runtime) (steps : List WorkflowStep) (t : String) (i : ℕ)
    → resolve_step_target py steps (str t) ≡ some i
    → (step : WorkflowStep) × (get_elem? steps i ≡ some step)
      × (((step.id == t) ≡ true)
          ⊎ (All (λ s. (s.id == t) ≡ false) steps × ((step.name == t) ≡ true))
          ⊎ (All (λ s. (s.id == t) ≡ false) steps
              × All (λ s. (s.name == t) ≡ false) steps
              × ((n : ℤ) × (py.parse_int t ≡ some n) × (int_beq step.order n ≡ true))))
unfolding resolve_step_target
resolve_step_target_lem py steps t i h = elim (index_of-Found (λ s. s.id == t) steps) [
  | inl (j, step, e, at, y) ↦
      let (step', at', y') =
        Found-at (λ s. s.id == t) steps (some j) i (inl (j, step, refl, at, y)) (rw e at h) in
      (step', at', inl y')
  | inr (e, ids) ↦ elim (index_of-Found (λ s. s.name == t) steps) [
    | inl (j, step, f, at, y) ↦
        let (step', at', y') =
          Found-at (λ s. s.name == t) steps (some j) i (inl (j, step, refl, at, y))
            (rw (e, f) at h) in
        (step', at', inr (inl (ids, y')))
    | inr (f, names) ↦
        let (step, at, n, p, y) = by_order-found steps (py.parse_int t) i (rw (e, f) at h) in
        (step, at, inr (inr (ids, names, (n, p, y))))
  ]
]
