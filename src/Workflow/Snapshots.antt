-- ===== src/Workflow/Snapshots.antt =====
-- The bound on the snapshots that a session keeps.
use aezab.Prelude.{ℕ, ◌+◌, ◌≤◌, String, Bool, Option, List, [], ◌∷◌, length, length-drop, arith}
use aezab.Prelude.Dict.{Dict}
use aezab.Value.{Value}
use aezab.Workflow.State.{Snapshot, Run, World, Call, state_of}
use aezab.Workflow.Moves.{max_snapshots, take_snapshot, pop_until}
use aezab.Workflow.Process.{process_step, max_auto_advance_depth}
use aezab.Workflow.Keeps.{Keeper}
use aezab.Workflow.Keeps.Process.{process_keeps}

-- However many there were, a step leaves at most five.
pub length-take_snapshot :
    (idx : ℕ) (d : Dict String Value) (s : List Snapshot)
    → length (take_snapshot idx d s) ≤ max_snapshots
unfolding take_snapshot
length-take_snapshot idx d s = omega (arith, length-drop {0})

length-pop_until :
    (test : Snapshot → Bool) (s : List Snapshot) → length (pop_until test s) ≤ length s
unfolding pop_until
length-pop_until test [] = omega arith
length-pop_until test (s ∷ rest) = ground (arith, length-pop_until test rest)

abbrev Bounded : List Snapshot → List Call → Type 0
Bounded s c = length s ≤ max_snapshots

Bounded-keeper : Keeper Bounded
Bounded-keeper = record {
  ask = λ s c call g h. h;
  pop = λ test s c h. omega (arith, length-pop_until test s);
  clear = λ s c h. omega arith;
}

-- A session with at most five snapshots has at most five after any message, however many automatic
-- steps, rollbacks and tool calls the message sets off.
pub process_step-snapshots :
    (w : World) (input : String) (form : Option (Dict String Value)) (r : Run)
    → length (state_of r).snapshots ≤ max_snapshots
    → length (state_of (process_step w input form r).0).snapshots ≤ max_snapshots
unfolding process_step
process_step-snapshots w input form r h =
    process_keeps Bounded Bounded-keeper
      (record { ungated = λ s g. record { invoke = λ a b i q x. x } })
      (record { take = λ idx d s c q. length-take_snapshot idx d s }) w (max_auto_advance_depth + 1)
      input form r (λ s q. record { invoke = λ a b i key x. x })
      (λ s at p q. record { invoke = λ a b i key x. x }) h
