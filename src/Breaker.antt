-- ===== src/Breaker.antt =====
-- server/engine/circuit_breaker.py: the circuit breaker of external services. Times are numbers of
-- clock ticks, and each reading of `time.time()` is an argument, in the order of the readings. Every
-- method holds the lock from its first line to its last, so a method is one step.
pub mod Laws
pub mod Threshold
pub mod Tests
use aezab.Prelude.{
  ℕ, ◌+◌, string_eq, String, Bool, true, false, Option, none, some, List, [], ◌∷◌, map, ltb, leb,
  if◌then◌else◌,
}
use aezab.Prelude.Dict.{Dict, get, put}

pub data CircuitState : Type 0 where
  closed open_ half_open : CircuitState

pub record CircuitStats : Type 0 where
  pub failures : ℕ
  pub successes : ℕ
  pub last_failure_time : ℕ
  pub last_success_time : ℕ
  pub state : CircuitState
  pub state_changed_at : ℕ

-- A `CircuitStats()` made at time `now`.
abbrev pub fresh : ℕ → CircuitStats
fresh now = record {
  failures = 0;
  successes = 0;
  last_failure_time = 0;
  last_success_time = 0;
  state = closed;
  state_changed_at = now;
}

pub record CircuitBreaker : Type 0 where
  pub failure_threshold : ℕ
  pub failure_window : ℕ
  pub recovery_timeout : ℕ
  pub circuits : Dict String CircuitStats

-- The body of `can_execute` for a service that has stats: the answer and the stats after it.
-- `now - t >= timeout` over a clock that may step back is `t + timeout <= now`.
unfoldable pub ask_state : CircuitState → CircuitStats → ℕ → ℕ → ℕ → Bool × CircuitStats
ask_state closed s timeout now later = (true, s)
ask_state open_ s timeout now later =
    if leb (s.state_changed_at + timeout) now
    then (true, record s { state = half_open; state_changed_at = later })
    else (false, s)
ask_state half_open s timeout now later = (true, s)

unfoldable pub ask_found :
    CircuitBreaker → String → Option CircuitStats → ℕ → ℕ → Bool × CircuitBreaker
unfolding ask_state
ask_found b name none now later = (true, b)
ask_found b name (some s) now later =
    let (answer, s') = ask_state s.state s b.recovery_timeout now later in
    (answer, record b { circuits = put b.circuits name s' })

unfoldable pub can_execute : CircuitBreaker → String → ℕ → ℕ → Bool × CircuitBreaker
unfolding ask_found
can_execute b name now later = ask_found b name (get b.circuits name) now later

-- `_get_or_create`: the stats of the service, a new entry if it has none.
abbrev pub or_fresh : Option CircuitStats → ℕ → CircuitStats
or_fresh none now = fresh now
or_fresh (some s) now = s

abbrev pub stats_of : CircuitBreaker → String → ℕ → CircuitStats
stats_of b name now = or_fresh (get b.circuits name) now

unfoldable pub on_success : CircuitState → CircuitStats → ℕ → CircuitStats
on_success half_open s changed = record s {
  state = closed;
  failures = 0;
  state_changed_at = changed;
}
on_success _ s changed = s

unfoldable pub success_stats : CircuitStats → ℕ → ℕ → CircuitStats
unfolding on_success
success_stats s now changed =
    on_success s.state (record s { successes = s.successes + 1; last_success_time = now }) changed

unfoldable pub record_success : CircuitBreaker → String → ℕ → ℕ → ℕ → CircuitBreaker
unfolding success_stats
record_success b name created now changed = record b {
  circuits = put b.circuits name (success_stats (stats_of b name created) now changed);
}

unfoldable pub on_failure : CircuitState → CircuitStats → ℕ → ℕ → CircuitStats
on_failure half_open s threshold now = record s { state = open_; state_changed_at = now }
on_failure closed s threshold now =
    if leb threshold s.failures then record s { state = open_; state_changed_at = now } else s
on_failure open_ s threshold now = s

-- The count goes back to 0 first if the last failure lies outside the window.
unfoldable pub failure_stats : CircuitStats → ℕ → ℕ → ℕ → CircuitStats
unfolding on_failure
failure_stats s window threshold now =
    let counted = if ltb (s.last_failure_time + window) now then 0 else s.failures in
    on_failure s.state (record s { failures = counted + 1; last_failure_time = now }) threshold now

unfoldable pub record_failure : CircuitBreaker → String → ℕ → ℕ → CircuitBreaker
unfolding failure_stats
record_failure b name created now = record b {
  circuits =
      put b.circuits name
        (failure_stats (stats_of b name created) b.failure_window b.failure_threshold now);
}

-- `get_status`: the service, its state and failures, and the other three entries if it is tracked.
pub record Status : Type 0 where
  pub service : String
  pub state : CircuitState
  pub failures : ℕ
  pub tracked : Option (ℕ × ℕ × ℕ)

unfoldable pub status_found : String → Option CircuitStats → Status
status_found name none = record { service = name; state = closed; failures = 0; tracked = none }
status_found name (some s) = record {
  service = name;
  state = s.state;
  failures = s.failures;
  tracked = some (s.successes, s.last_failure_time, s.last_success_time);
}

unfoldable pub get_status : CircuitBreaker → String → Status
unfolding status_found
get_status b name = status_found name (get b.circuits name)

unfoldable pub get_all_status : CircuitBreaker → List Status
get_all_status b = map (λ entry. get_status b entry.0) b.circuits

-- What a caller does to the breaker; the numbers are the clock readings of the call.
pub data Call : Type 0 where
  ask : String → ℕ → ℕ → Call
  success : String → ℕ → ℕ → ℕ → Call
  failure : String → ℕ → ℕ → Call

unfoldable pub perform : CircuitBreaker → Call → CircuitBreaker
unfolding can_execute record_success record_failure
perform b (ask name now later) = (can_execute b name now later).1
perform b (success name created now changed) = record_success b name created now changed
perform b (failure name created now) = record_failure b name created now

unfoldable pub perform_all : CircuitBreaker → List Call → CircuitBreaker
perform_all b [] = b
perform_all b (c ∷ cs) = perform_all (perform b c) cs
