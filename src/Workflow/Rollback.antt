-- ===== src/Workflow/Rollback.antt =====
-- Where a rollback goes, and what it restores.
use aezab.Prelude.{
  ℕ, ◌≡◌, ◌⊎◌, inl, inr, refl, ap, ◌∙◌, string_eq, nat_eq, Bool, true, false, some, List, [], ◌∷◌,
  ◌++◌, none, get_elem?, All, arith, Bool-cases, ◌≢◌, ◌↔◌, ◌==◌, Option, not, and-left, and-right,
}
use aezab.Workflow.State.{
  WorkflowStep, Snapshot, Run, state_of, set_state, set_collected, in_progress, collect, StepType,
  FieldDef,
}
use aezab.Workflow.Moves.{
  pop_one, pop_until, editable, last?, go_back, rolled_back, rollback_among, perform_rollback,
  step_of, is_collect, editable_step, has_fields,
}

-- `pop_until` keeps the list up to the last element that passes, or nothing if none does.
pub record Popped (test : Snapshot → Bool) (s kept : List Snapshot) : Type 0 where
  pub front : List Snapshot
  pub prev : Snapshot
  pub dropped : List Snapshot
  pub split : s ≡ front ++ (prev ∷ dropped)
  pub passes : test prev ≡ true
  pub fails : All (λ x. test x ≡ false) dropped
  pub result : kept ≡ front ++ (prev ∷ [])

pop_one-append :
    (test : Snapshot → Bool) (x : Snapshot) (front : List Snapshot) (prev : Snapshot)
    → pop_one test x (front ++ (prev ∷ [])) ≡ x ∷ (front ++ (prev ∷ []))
unfolding pop_one
pop_one-append test x [] prev = refl
pop_one-append test x (y ∷ front) prev = refl

last-append : (front : List Snapshot) (prev : Snapshot) → last? (front ++ (prev ∷ [])) ≡ some prev
last-append [] prev = refl
last-append (x ∷ []) prev = refl
last-append (x ∷ y ∷ front) prev = last-append (y ∷ front) prev

pub pop_until_lem :
    (test : Snapshot → Bool) (s : List Snapshot)
    → Popped test s (pop_until test s) ⊎ (All (λ x. test x ≡ false) s × (pop_until test s ≡ []))
unfolding pop_until
pop_until_lem test [] = inr (tt, refl)
pop_until_lem test (x ∷ rest) = elim (pop_until_lem test rest) [
  | inl p ↦ inl (record {
    front = x ∷ p.front;
    prev = p.prev;
    dropped = p.dropped;
    split = ap (λ l. x ∷ l) p.split;
    passes = p.passes;
    fails = p.fails;
    result = ap (pop_one test x) p.result ∙ pop_one-append test x p.front p.prev;
  })
  | inr (all, e) ↦ elim (Bool-cases (test x)) [
    | inl y ↦ inl (record {
      front = [];
      prev = x;
      dropped = rest;
      split = refl;
      passes = y;
      fails = all;
      result = rw (e, y);
    })
    | inr n ↦ inr ((n, all), rw (e, n))
  ]
]

-- A snapshot that a rollback may go to: of a collect step with fields, and not of the current one.
abbrev pub MayEdit : List WorkflowStep → ℕ → Snapshot → Type 0
MayEdit steps current s =
    (s.step_index ≢ current)
    × ((step : WorkflowStep) × (get_elem? steps s.step_index ≡ some step)
        × (step.step_type ≡ collect)
        × (step.fields ≢ []))

is_collect_lem : (t : StepType) → (is_collect t ≡ true) ↔ (t ≡ collect)
is_collect_lem collect = (λ h. refl, λ h. refl)
is_collect_lem t = (λ h. absurd (ground (arith, h)), λ h. ap is_collect h)

has_fields_lem : (l : List FieldDef) → (has_fields l ≡ true) ↔ (l ≢ [])
has_fields_lem [] = (λ h. absurd (ground (arith, h)), λ h. absurd (h refl))
has_fields_lem (x ∷ l) = (λ h e. cc, λ h. refl)

editable_step_lem :
    (o : Option WorkflowStep)
    → (editable_step o ≡ true)
      ↔ ((step : WorkflowStep) × (o ≡ some step) × (step.step_type ≡ collect) × (step.fields ≢ []))
editable_step_lem none =
    (λ h. absurd (ground (arith, h)), λ (step, e, _, _). absurd (ground (arith, e)))
editable_step_lem (some step) = (
  λ h. (
    step,
    refl,
    (is_collect_lem step.step_type).0
        (and-left (is_collect step.step_type) (has_fields step.fields) h),
    (has_fields_lem step.fields).0
        (and-right (is_collect step.step_type) (has_fields step.fields) h),
  ),
  λ h.
      let (s, same, kind, fields) = h in
      ap editable_step same
      ∙ rw ((is_collect_lem s.step_type).1 kind, (has_fields_lem s.fields).1 fields) refl,
)

editable-MayEdit :
    (steps : List WorkflowStep) (current : ℕ) (s : Snapshot)
    → (editable steps current s ≡ true) ↔ MayEdit steps current s
unfolding editable
editable-MayEdit steps current s =
    let step = editable_step_lem (get_elem? steps s.step_index) in
    let other = not (s.step_index == current) in
    (
      λ h. (
        λ same. absurd (ground (arith, same, h)),
        step.0 (and-right other (editable_step (get_elem? steps s.step_index)) h),
      ),
      λ h. rw (step.1 h.1) (ground (arith, h.0)),
    )

not-editable :
    (steps : List WorkflowStep) (current : ℕ) (s : Snapshot)
    → editable steps current s ≡ false
    → ¬ MayEdit steps current s
not-editable steps current s h m =
    absurd (ground (arith, h, (editable-MayEdit steps current s).1 m))

none-editable :
    (steps : List WorkflowStep) (current : ℕ) (l : List Snapshot)
    → All (λ x. editable steps current x ≡ false) l
    → All (λ x. ¬ MayEdit steps current x) l
none-editable steps current [] h = tt
none-editable steps current (x ∷ l) (h, hs) =
    (not-editable steps current x h, none-editable steps current l hs)

rollback_found :
    (r : Run) (steps : List WorkflowStep) (current : ℕ) (kept : List Snapshot) (prev : Snapshot)
    (step : WorkflowStep)
    → last? kept ≡ some prev
    → get_elem? steps prev.step_index ≡ some step
    → (go_back r steps kept (last? kept) (step_of steps (last? kept))).0
      ≡ set_collected
          (set_state r (record (state_of r) {
            current_step_index = prev.step_index;
            snapshots = kept;
            status = some in_progress;
            pending_confirmation_step = none;
          }))
          prev.collected_data
unfolding go_back rolled_back
rollback_found r steps current kept prev step e f = rw (e, f)

-- What a rollback among the snapshots `s` that finds a target does: the last snapshot of another step
-- that collects fields stays the last one; its data and index are restored, and nothing is pending.
abbrev pub RolledBack : Run → List WorkflowStep → ℕ → List Snapshot → Run → Type 0
RolledBack r steps current s after =
    (front : List Snapshot) × (prev : Snapshot) × (dropped : List Snapshot) × (s
      ≡ front ++ (prev ∷ dropped))
    × MayEdit steps current prev
    × All (λ x. ¬ MayEdit steps current x) dropped
    × (after
        ≡ set_collected
            (set_state r (record (state_of r) {
              current_step_index = prev.step_index;
              snapshots = front ++ (prev ∷ []);
              status = some in_progress;
              pending_confirmation_step = none;
            }))
            prev.collected_data)

abbrev pub NoTarget : Run → List WorkflowStep → ℕ → List Snapshot → Run → Type 0
NoTarget r steps current s after = All (λ x. ¬ MayEdit steps current x) s × (after ≡ r)

rollback-Popped :
    (r : Run) (steps : List WorkflowStep) (current : ℕ) (kept s : List Snapshot)
    → Popped (editable steps current) s kept
    → RolledBack r steps current s
        (go_back r steps kept (last? kept) (step_of steps (last? kept))).0
rollback-Popped r steps current kept s p =
    let may = (editable-MayEdit steps current p.prev).0 p.passes in
    let (_, (step, at, _, _)) = may in
    (
      p.front,
      p.prev,
      p.dropped,
      p.split,
      may,
      none-editable steps current p.dropped p.fails,
      rw p.result (
          rollback_found r steps current (p.front ++ (p.prev ∷ [])) p.prev step
            (last-append p.front p.prev) at),
    )

go_back-nil :
    (r : Run) (steps : List WorkflowStep) (kept : List Snapshot)
    → kept ≡ []
    → (go_back r steps kept (last? kept) (step_of steps (last? kept))).0 ≡ r
unfolding go_back
go_back-nil r steps kept e = rw e

rollback_among_lem :
    (r : Run) (steps : List WorkflowStep) (current : ℕ) (s : List Snapshot)
    → RolledBack r steps current s (rollback_among r steps current s).0
      ⊎ NoTarget r steps current s (rollback_among r steps current s).0
unfolding rollback_among
rollback_among_lem r steps current [] = inr (tt, refl)
rollback_among_lem r steps current (x ∷ rest) =
    elim (pop_until_lem (editable steps current) (x ∷ rest)) [
      | inl p ↦ inl (rollback-Popped r steps current _ (x ∷ rest) p)
      | inr (all, e) ↦ inr (none-editable steps current (x ∷ rest) all, go_back-nil r steps _ e)
    ]

-- A rollback restores the last snapshot of a collect step with fields other than the current one, or
-- changes nothing where no snapshot is one of such a step.
pub perform_rollback_lem :
    (r : Run) (steps : List WorkflowStep) (current : ℕ)
    → RolledBack r steps current (state_of r).snapshots (perform_rollback r steps current).0
      ⊎ NoTarget r steps current (state_of r).snapshots (perform_rollback r steps current).0
unfolding perform_rollback
perform_rollback_lem r steps current = rollback_among_lem r steps current (state_of r).snapshots
