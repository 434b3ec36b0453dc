-- ===== src/Flow/Acyclic.antt =====
-- The check of a workflow's automatic steps against loops of the routes between them.
use mathlib.Core.Path.{subst}
use aezab.Prelude.{
  ℕ, ◌≡◌, ◌↔◌, refl, sym, ◌∙◌, inl, inr, String, string_eq, nat_eq, Bool, true, false, some,
  some_inj, List, [], length, arith, Option-cases,
}
use aezab.Prelude.Dict.{Dict, get}
use aezab.Flow.{
  StepPayload, mem, graph_of, automatic, numbered, sort_steps, refs_of, successors, has_cycle,
  cycle_errors, validate_automatic_cycles,
}
use aezab.Flow.Walks.{Walk, one, more}
use aezab.Flow.References.{reference, refs_of-reference}
use aezab.Flow.Routes.{LeadsTo}
use aezab.Flow.Graph.{IsAutomatic, AutomaticAt, build-RouteTo, automatic-mem, enumerate-Distinct}
use aezab.Flow.Search.{has_cycle_lem}

-- A chain of one link or more.
pub data Chain (R : ℕ → ℕ → Type 0) (i : ℕ) : ℕ → Type 0 where
  link : {j : ℕ} → R i j → Chain R i j
  link_on : (j : ℕ) {k : ℕ} → Chain R i j → R j k → Chain R i k

-- A route from an automatic step to one, both by their place in the order: of a rule, to the next step where no
-- rule is the default, or of the fallback.
abbrev pub AutomaticRoute : List StepPayload → ℕ → ℕ → Type 0
AutomaticRoute steps i j =
    ((s : StepPayload) × IsAutomatic (numbered steps) i s
      × LeadsTo (reference (numbered steps)) (length steps) i s j)
    × AutomaticAt (numbered steps) j

module _ (steps : List StepPayload) (graph : Dict ℕ (List ℕ))
    (e : graph_of steps ≡ some graph) where
  same_references : get (refs_of (numbered steps)) ≡ reference (numbered steps)
  same_references = λ i target. refs_of-reference (numbered steps) target i

  edge-AutomaticRoute : (i j : ℕ) → (mem j (successors graph i) ≡ true) ↔ AutomaticRoute steps i j
  unfolding graph_of
  edge-AutomaticRoute i j =
      let distinct = enumerate-Distinct 0 (sort_steps steps) in
      let route =
        build-RouteTo (refs_of (numbered steps)) (length steps) (automatic (numbered steps))
          (numbered steps) graph i j distinct e in
      let node = automatic-mem (numbered steps) j distinct in
      (
        λ h.
            let (t, a, k) = (route.0 h).0 in
            (
              (t, a, subst (λ find. LeadsTo find (length steps) i t j) same_references k),
              node.0 (route.0 h).1,
            ),
        λ r.
            let (t, a, k) = r.0 in
            route.1 (
              (t, a, subst (λ find. LeadsTo find (length steps) i t j) (sym same_references) k),
              node.1 r.1,
            ),
      )

  Walk-Chain : (i j : ℕ) → Walk (successors graph) i j → Chain (AutomaticRoute steps) i j
  Walk-Chain i j (one h) = link ((edge-AutomaticRoute i j).0 h)
  Walk-Chain i j (more k w h) = link_on k (Walk-Chain i k w) ((edge-AutomaticRoute k j).0 h)

  Chain-Walk : (i j : ℕ) → Chain (AutomaticRoute steps) i j → Walk (successors graph) i j
  Chain-Walk i j (link r) = one ((edge-AutomaticRoute i j).1 r)
  Chain-Walk i j (link_on k c r) = more k (Chain-Walk i k c) ((edge-AutomaticRoute k j).1 r)

  found-loop :
      (has_cycle (successors graph) (automatic (numbered steps)) ≡ false)
      ↔ ((n : ℕ) → ¬ (Chain (AutomaticRoute steps) n n))
  found-loop =
      let found = has_cycle_lem (successors graph) (automatic (numbered steps)) (λ i j h.
        (automatic-mem (numbered steps) j (enumerate-Distinct 0 (sort_steps steps))).1
          ((edge-AutomaticRoute i j).0 h).1) in
      (λ h n c. found.0 h n (Chain-Walk n n c), λ h. found.1 (λ n w. h n (Walk-Chain n n w)))

cycle_errors-none : (b : Bool) → (cycle_errors b ≡ []) ↔ (b ≡ false)
cycle_errors-none true = (λ h. absurd (ground (arith, h)), λ h. absurd (ground (arith, h)))
cycle_errors-none false = (λ h. refl, λ h. refl)

-- Where the check ends without a `KeyError`, it reports no error exactly if no chain of routes between
-- automatic steps comes back to the step where it starts.
pub validate_automatic_cycles_lem :
    (steps : List StepPayload) (errors : List String)
    → validate_automatic_cycles steps ≡ some errors
    → (errors ≡ []) ↔ ((n : ℕ) → ¬ (Chain (AutomaticRoute steps) n n))
unfolding validate_automatic_cycles
validate_automatic_cycles_lem steps errors h = elim (Option-cases (graph_of steps)) [
  | inl e ↦ absurd (ground (arith, rw e at h))
  | inr (graph, e) ↦
      let same = some_inj (rw e at h) in
      let report = cycle_errors-none (has_cycle (successors graph) (automatic (numbered steps))) in
      let found = found-loop steps graph e in
      (λ k. found.0 (report.0 (same ∙ k)), λ n. sym same ∙ report.1 (found.1 n))
]
