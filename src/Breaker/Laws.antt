-- ===== src/Breaker/Laws.antt =====
-- When a call is admitted, which transitions the states make, and that services are independent.
use aezab.Prelude.{
  ℕ, ◌+◌, ◌<◌, ◌≡◌, ◌↔◌, inl, inr, string_eq, String, false, Option, none, some, arith, eq_iff,
  Bool-cases, Option-cases, ◌==◌, if◌then◌else◌,
}
use aezab.Prelude.Dict.{get, get-put, beq_self}
use aezab.Breaker.{
  CircuitState, closed, open_, half_open, CircuitStats, CircuitBreaker, ask_state, success_stats,
  failure_stats, can_execute, stats_of, Call, ask, success, failure, perform, or_fresh,
}

-- The stats that the calls see: those of a service without an entry are closed.
abbrev pub view : CircuitBreaker → String → CircuitStats
view b name = stats_of b name 0

pub can_execute-refused :
    (b : CircuitBreaker) (name : String) (now later : ℕ)
    → ((can_execute b name now later).0 ≡ false) ↔ (
        ((view b name).state ≡ open_) × (now < (view b name).state_changed_at + b.recovery_timeout))
unfolding can_execute
can_execute-refused b name now later = elim (Option-cases (get b.circuits name)) [
  | inl e ↦ (ground (arith, e), ground (arith, e))
  | inr (s, e) ↦ (ground (arith, e), ground (arith, e))
]

infix 40 ◌⟶◌
-- The transitions that the class's comment draws; every call may also leave the state alone.
pub data ◌⟶◌ : CircuitState → CircuitState → Type 0 where
  stay : {s : CircuitState} → s ⟶ s
  trip : closed ⟶ open_
  probe : open_ ⟶ half_open
  recover : half_open ⟶ closed
  fail_probe : half_open ⟶ open_

abbrev pub service : Call → String
service (ask name _ _) = name
service (success name _ _ _) = name
service (failure name _ _) = name

-- What one call does to the entry of its own service.
abbrev pub step : CircuitBreaker → Call → Option CircuitStats → Option CircuitStats
step b (ask _ now later) none = none
step b (ask _ now later) (some s) = some (ask_state s.state s b.recovery_timeout now later).1
step b (success _ created now changed) o = some (success_stats (or_fresh o created) now changed)
step b (failure _ created now) o =
    some (failure_stats (or_fresh o created) b.failure_window b.failure_threshold now)

-- A call acts on the entry of its own service alone, and there as `step` says.
pub get-perform :
    (b : CircuitBreaker) (c : Call) (name : String)
    → get (perform b c).circuits name
      ≡ (if service c == name then step b c (get b.circuits name) else get b.circuits name)
unfolding perform
get-perform b (ask n now later) name = elim (Option-cases (get b.circuits n)) [
  | inl e ↦ ground (arith, e, eq_iff n name)
  | inr (s, e) ↦ ground (
    arith,
    e,
    eq_iff n name,
    get-put b.circuits n name (ask_state s.state s b.recovery_timeout now later).1,
  )
]
get-perform b (success n created now changed) name = ground (
  arith,
  eq_iff n name,
  get-put b.circuits n name (success_stats (stats_of b n created) now changed),
)
get-perform b (failure n created now) name = ground (
  arith,
  eq_iff n name,
  get-put b.circuits n name
      (failure_stats (stats_of b n created) b.failure_window b.failure_threshold now),
)

state_of : Option CircuitStats → CircuitState
state_of none = closed
state_of (some s) = s.state

state_of-view :
    (b : CircuitBreaker) (name : String) → (view b name).state ≡ state_of (get b.circuits name)
unfolding state_of
state_of-view b name = ground arith

ruleset edges = (stay, trip, probe, recover, fail_probe)

step-⟶ :
    (b : CircuitBreaker) (c : Call) (o : Option CircuitStats) → state_of o ⟶ state_of (step b c o)
unfolding state_of ask_state success_stats failure_stats
step-⟶ b (ask _ now later) none = stay
step-⟶ b (ask _ now later) (some s) = grind (arith, edges)
step-⟶ b (success _ created now changed) none = stay
step-⟶ b (success _ created now changed) (some s) = grind (arith, edges)
step-⟶ b (failure _ created now) none = grind (arith, edges)
step-⟶ b (failure _ created now) (some s) = grind (arith, edges)

-- Whatever the call and the service, the state makes one of the drawn transitions or stays.
pub perform-⟶ :
    (b : CircuitBreaker) (c : Call) (name : String)
    → (view b name).state ⟶ (view (perform b c) name).state
perform-⟶ b c name =
    rw (state_of-view, state_of-view, get-perform)
      (elim (Bool-cases (service c == name)) [
        | inl e ↦ rw e (step-⟶ b c (get b.circuits name))
        | inr e ↦ rw e stay
      ])

-- While the circuit is open and its timeout runs, a call is refused and the breaker keeps its state.
pub can_execute-waits :
    (b : CircuitBreaker) (name : String) (now later : ℕ)
    → (view b name).state ≡ open_
    → now < (view b name).state_changed_at + b.recovery_timeout
    → ((can_execute b name now later).0 ≡ false)
      × (view (can_execute b name now later).1 name ≡ view b name)
      × ((can_execute b name now later).1.recovery_timeout ≡ b.recovery_timeout)
unfolding can_execute
can_execute-waits b name now later h t = elim (Option-cases (get b.circuits name)) [
  | inl e ↦ (ground (arith, e), ground (arith, e), ground (arith, e))
  | inr (s, e) ↦ (
    ground (arith, e),
    ground (arith, e, get-put b.circuits name name s, beq_self name),
    ground (arith, e),
  )
]
