-- ===== src/Breaker/Threshold.antt =====
-- The failure count against the threshold, and what an open circuit refuses.
use aezab.Prelude.{
  ℕ, ◌+◌, ◌≤◌, ◌<◌, ◌≡◌, inl, inr, refl, string_eq, String, Option, none, some, List, [], ◌∷◌, map,
  arith, Bool-cases, Option-cases, length, leb, ◌==◌, if◌then◌else◌, true, false, All, eq_iff, ◌∙◌,
}
use aezab.Prelude.Dict.{get, beq_self}
use aezab.Breaker.{
  closed, open_, CircuitStats, CircuitBreaker, ask_state, success_stats, failure_stats, can_execute,
  Call, ask, success, failure, perform, perform_all, fresh,
}
use aezab.Breaker.Laws.{view, service, step, get-perform, can_execute-refused}

-- A closed circuit has counted fewer failures than the threshold.
abbrev pub IsCounted : ℕ → Option CircuitStats → Type 0
IsCounted threshold none = Unit
IsCounted threshold (some s) = s.state ≡ closed → s.failures < threshold

step-IsCounted :
    (b : CircuitBreaker) (c : Call) (o : Option CircuitStats)
    → 0 < b.failure_threshold
    → IsCounted b.failure_threshold o
    → IsCounted b.failure_threshold (step b c o)
unfolding ask_state success_stats failure_stats
step-IsCounted b (ask _ now later) none h k = tt
step-IsCounted b (ask _ now later) (some s) h k = ground arith
step-IsCounted b (success _ created now changed) none h k = ground arith
step-IsCounted b (success _ created now changed) (some s) h k = ground arith
step-IsCounted b (failure _ created now) none h k = ground arith
step-IsCounted b (failure _ created now) (some s) h k = ground arith

threshold-perform :
    (b : CircuitBreaker) (c : Call) → (perform b c).failure_threshold ≡ b.failure_threshold
unfolding perform
threshold-perform b (ask n now later) = elim (Option-cases (get b.circuits n)) [
  | inl e ↦ ground (arith, e)
  | inr (s, e) ↦ ground (arith, e)
]
threshold-perform b (success n created now changed) = refl
threshold-perform b (failure n created now) = refl

perform-IsCounted :
    (b : CircuitBreaker) (c : Call)
    → 0 < b.failure_threshold
    → ((name : String) → IsCounted b.failure_threshold (get b.circuits name))
    → (name : String) → IsCounted (perform b c).failure_threshold (get (perform b c).circuits name)
perform-IsCounted b c h k name =
    rw (threshold-perform, get-perform)
      (elim (Bool-cases (service c == name)) [
        | inl e ↦ rw e (step-IsCounted b c (get b.circuits name) h (k name))
        | inr e ↦ rw e (k name)
      ])

-- With a positive threshold, if every closed circuit counts fewer failures than the threshold, then
-- so it is after any calls for any services.
pub perform_all-IsCounted :
    (b : CircuitBreaker) (cs : List Call)
    → 0 < b.failure_threshold
    → ((name : String) → IsCounted b.failure_threshold (get b.circuits name))
    → (name : String) → IsCounted b.failure_threshold (get (perform_all b cs).circuits name)
unfolding perform_all perform
perform_all-IsCounted b [] h k name = k name
perform_all-IsCounted b (c ∷ cs) h k name = rw threshold-perform at (
    perform_all-IsCounted (perform b c) cs (rw threshold-perform h) (perform-IsCounted b c h k)
      name)

-- Each failure comes at most `window` after the one before it, the first after `last`.
abbrev pub Close : ℕ → ℕ → List ℕ → Type 0
Close window last [] = Unit
Close window last (t ∷ ts) = (t ≤ last + window) × Close window t ts

fail_at : ℕ → ℕ → CircuitStats → List ℕ → CircuitStats
fail_at window threshold s [] = s
fail_at window threshold s (t ∷ ts) =
    fail_at window threshold (failure_stats s window threshold t) ts

fail_at-counts :
    (window threshold n : ℕ) (s : CircuitStats) (ts : List ℕ)
    → Close window s.last_failure_time ts
    → s.failures ≡ n
    → s.state ≡ (if leb threshold n then open_ else closed)
    → ((fail_at window threshold s ts).failures ≡ n + length ts)
      × ((fail_at window threshold s ts).state
          ≡ (if leb threshold (n + length ts) then open_ else closed))
unfolding fail_at failure_stats
fail_at-counts window threshold n s [] c f e = ground arith
fail_at-counts window threshold n s (t ∷ ts) c f e =
    ground (arith, fail_at-counts window threshold (n + 1) (failure_stats s window threshold t) ts)

last-failure_stats :
    (s : CircuitStats) (window threshold t : ℕ)
    → (failure_stats s window threshold t).last_failure_time ≡ t
unfolding failure_stats
last-failure_stats s window threshold t = ground arith

first-counts :
    (window threshold t : ℕ) (ts : List ℕ)
    → Close window t ts
    → let s = fail_at window threshold (failure_stats (fresh t) window threshold t) ts in
      (s.failures ≡ 1 + length ts)
      × (s.state ≡ (if leb threshold (1 + length ts) then open_ else closed))
first-counts window threshold t ts c =
    fail_at-counts window threshold 1 (failure_stats (fresh t) window threshold t) ts
      (rw last-failure_stats c) (unfold failure_stats in ground arith)
      (unfold failure_stats in ground arith)

-- The same service fails at each of the times.
abbrev pub burst : String → List ℕ → List Call
burst name ts = map (λ t. failure name t t) ts

get-burst :
    (b : CircuitBreaker) (name : String) (s : CircuitStats) (ts : List ℕ)
    → get b.circuits name ≡ some s
    → get (perform_all b (burst name ts)).circuits name
      ≡ some (fail_at b.failure_window b.failure_threshold s ts)
unfolding perform_all fail_at perform
get-burst b name s [] h = h
get-burst b name s (t ∷ ts) h =
    get-burst (perform b (failure name t t)) name
      (failure_stats s b.failure_window b.failure_threshold t) ts
      (rw (get-perform b (failure name t t) name, beq_self name, h))

-- For a service that the breaker has not met, failures that are never more than the window apart
-- open the circuit exactly from the threshold on; the count is the number of failures.
pub burst-trips :
    (b : CircuitBreaker) (name : String) (t : ℕ) (ts : List ℕ)
    → get b.circuits name ≡ none
    → Close b.failure_window t ts
    → let after = view (perform_all b (burst name (t ∷ ts))) name in
      (after.failures ≡ length (t ∷ ts))
      × (after.state ≡ (if leb b.failure_threshold (length (t ∷ ts)) then open_ else closed))
unfolding perform_all
burst-trips b name t ts h c =
    rw
      (get-burst (perform b (failure name t t)) name
        (failure_stats (fresh t) b.failure_window b.failure_threshold t) ts
        (rw (get-perform b (failure name t t) name, beq_self name, h)))
      (unfold perform in ground (arith, first-counts b.failure_window b.failure_threshold t ts c))

-- The requests for a service are asked before a time.
abbrev pub IsEarly : String → ℕ → Call → Type 0
IsEarly name until (ask n now later) = n ≡ name → now < until
IsEarly name until _ = Unit

-- An entry that has been open since a time.
abbrev IsOpen : ℕ → Option CircuitStats → Type 0
IsOpen since none = ⊥
IsOpen since (some s) = (s.state ≡ open_) × (s.state_changed_at ≡ since)

step-IsOpen :
    (b : CircuitBreaker) (c : Call) (o : Option CircuitStats) (since : ℕ)
    → IsOpen since o
    → IsEarly (service c) (since + b.recovery_timeout) c
    → IsOpen since (step b c o)
unfolding ask_state success_stats failure_stats
step-IsOpen b c none since h k = absurd h
step-IsOpen b (ask n now later) (some s) since h k = ground (arith, h.0, h.1, k refl)
step-IsOpen b (success _ created now changed) (some s) since h k = ground (arith, h.0, h.1)
step-IsOpen b (failure _ created now) (some s) since h k = ground (arith, h.0, h.1)

timeout-perform :
    (b : CircuitBreaker) (c : Call) → (perform b c).recovery_timeout ≡ b.recovery_timeout
unfolding perform
timeout-perform b (ask n now later) = elim (Option-cases (get b.circuits n)) [
  | inl e ↦ ground (arith, e)
  | inr (s, e) ↦ ground (arith, e)
]
timeout-perform b (success n created now changed) = refl
timeout-perform b (failure n created now) = refl

IsEarly-own :
    (name : String) (until : ℕ) (c : Call)
    → (service c == name) ≡ true
    → IsEarly name until c
    → IsEarly (service c) until c
IsEarly-own name until (ask n now later) e h = λ _. h ((eq_iff n name).0 e)
IsEarly-own name until (success _ _ _ _) e h = tt
IsEarly-own name until (failure _ _ _) e h = tt

perform_all-IsOpen :
    (b : CircuitBreaker) (cs : List Call) (name : String) (since until : ℕ)
    → until ≡ since + b.recovery_timeout
    → IsOpen since (get b.circuits name)
    → All (IsEarly name until) cs
    → IsOpen since (get (perform_all b cs).circuits name)
      × ((perform_all b cs).recovery_timeout ≡ b.recovery_timeout)
unfolding perform_all
perform_all-IsOpen b [] name since until u h k = (h, refl)
perform_all-IsOpen b (c ∷ cs) name since until u h (early, k) =
    let stays : IsOpen since (get (perform b c).circuits name) =
      rw (get-perform b c name) (elim (Bool-cases (service c == name)) [
        | inl e ↦ rw e (
            step-IsOpen b c (get b.circuits name) since h
              (rw u at (IsEarly-own name until c e early)))
        | inr e ↦ rw e h
      ]) in
    let (held, same) =
      perform_all-IsOpen (perform b c) cs name since until (u ∙ rw timeout-perform refl) stays k in
    (held, same ∙ timeout-perform b c)

view-IsOpen :
    (b : CircuitBreaker) (name : String)
    → (view b name).state ≡ open_
    → IsOpen (view b name).state_changed_at (get b.circuits name)
view-IsOpen b name h = elim (Option-cases (get b.circuits name)) [
  | inl e ↦ absurd (ground (arith, e))
  | inr (s, e) ↦ rw e (rw e at h, refl)
]

IsOpen-view :
    (b : CircuitBreaker) (name : String) (since : ℕ)
    → IsOpen since (get b.circuits name)
    → ((view b name).state ≡ open_) × ((view b name).state_changed_at ≡ since)
IsOpen-view b name since h = elim (Option-cases (get b.circuits name)) [
  | inl e ↦ absurd (rw e at h)
  | inr (s, e) ↦ rw e (rw e at h)
]

-- Once a circuit is open, each request for its service before the recovery timeout has elapsed since
-- it opened is refused, whatever requests before that time, successes and failures come in between, for
-- this service or for others, and the time since which it is open stays the same.
pub perform_all-refuses :
    (b : CircuitBreaker) (cs : List Call) (name : String) (now later : ℕ)
    → (view b name).state ≡ open_
    → All (IsEarly name ((view b name).state_changed_at + b.recovery_timeout)) cs
    → now < (view b name).state_changed_at + b.recovery_timeout
    → ((can_execute (perform_all b cs) name now later).0 ≡ false)
      × ((view (perform_all b cs) name).state_changed_at ≡ (view b name).state_changed_at)
perform_all-refuses b cs name now later h k t =
    let since = (view b name).state_changed_at in
    let (stays, same) =
      perform_all-IsOpen b cs name since (since + b.recovery_timeout) refl (view-IsOpen b name h)
        k in
    let (held, at) = IsOpen-view (perform_all b cs) name since stays in
    (
      (can_execute-refused (perform_all b cs) name now later).1 (held, omega (arith, at, same, t)),
      at,
    )
