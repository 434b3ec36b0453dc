-- ===== src/Breaker/Tests.antt =====
-- Runs of the circuit breaker, and instances of its theorems.
use aezab.Prelude.{ℕ, ◌+◌, ◌<◌, ◌≡◌, refl, string_eq, true, false, [], ◌∷◌, arith}
use aezab.Prelude.Dict.{get, put}
use aezab.Breaker.{
  CircuitBreaker, closed, open_, half_open, can_execute, perform, perform_all, ask, success,
  failure,
}
use aezab.Breaker.Laws.{◌⟶◌, view, perform-⟶}
use aezab.Breaker.Threshold.{
  IsCounted, perform_all-IsCounted, burst, burst-trips, perform_all-refuses,
}

-- `CircuitBreaker(3, 60, 30)`
abbrev new : CircuitBreaker
new = record { failure_threshold = 3; failure_window = 60; recovery_timeout = 30; circuits = [] }

abbrev tripped : CircuitBreaker
tripped = perform_all new (burst "llm" (100 ∷ 110 ∷ 120 ∷ []))

admitted_at_150 : (can_execute tripped "llm" 150 150).0 ≡ true
unfolding can_execute perform perform_all get put
admitted_at_150 = refl

other_service : (can_execute tripped "tool" 149 149).0 ≡ true
unfolding can_execute perform perform_all get put
other_service = refl

abbrev probing : CircuitBreaker
probing = perform_all tripped (ask "llm" 150 150 ∷ [])

recovered : (view (perform_all probing (success "llm" 160 160 160 ∷ [])) "llm").state ≡ closed
unfolding perform perform_all get put
recovered = refl

probing_is_half_open : (view probing "llm").state ≡ half_open
unfolding perform perform_all get put
probing_is_half_open = refl

tripped_is_open : (view tripped "llm").state ≡ open_
unfolding perform perform_all get put
tripped_is_open = refl

early : (t : ℕ) → t < 150 → t < (view tripped "llm").state_changed_at + tripped.recovery_timeout
unfolding perform perform_all get put
early t h = h

perform-⟶_example : (view new "llm").state ⟶ (view (perform new (failure "llm" 1 1)) "llm").state
perform-⟶_example = perform-⟶ new (failure "llm" 1 1) "llm"

perform_all-IsCounted_example : IsCounted 3 (get tripped.circuits "llm")
unfolding perform perform_all
perform_all-IsCounted_example =
    perform_all-IsCounted new (burst "llm" (100 ∷ 110 ∷ 120 ∷ [])) (omega arith)
      (unfold get in λ name. tt) "llm"

burst-trips_example : ((view tripped "llm").failures ≡ 3) × ((view tripped "llm").state ≡ open_)
burst-trips_example = burst-trips new "llm" 100 (110 ∷ 120 ∷ []) (unfold get in refl) (omega arith)

-- A late success and a failure of the service, and a request that is refused, leave it open.
perform_all-refuses_example :
    ((can_execute
        (perform_all tripped
          (success "llm" 125 125 125 ∷ ask "llm" 130 130 ∷ failure "llm" 140 140 ∷ []))
        "llm"
        149
        149).0
      ≡ false)
    × ((view
          (perform_all tripped
            (success "llm" 125 125 125 ∷ ask "llm" 130 130 ∷ failure "llm" 140 140 ∷ []))
          "llm").state_changed_at
        ≡ (view tripped "llm").state_changed_at)
perform_all-refuses_example =
    perform_all-refuses tripped
      (success "llm" 125 125 125 ∷ ask "llm" 130 130 ∷ failure "llm" 140 140 ∷ []) "llm" 149 149
      tripped_is_open (tt, (λ _. early 130 (omega arith), (tt, tt))) (early 149 (omega arith))
