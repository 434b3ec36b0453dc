-- ===== src/Gateway/Open.antt =====
-- The gateway behind an open circuit: no request is sent while the recovery timeout of the tool's
-- service runs.
use aezab.Prelude.{
  ℕ, zero, suc, ◌+◌, ◌<◌, ◌≡◌, refl, ◌∙◌, ap, inl, inr, String, string_eq, Bool, true, false,
  Option, none, some, List, ◌∷◌, ltb, arith, Bool-cases, ◌==◌,
}
use aezab.Prelude.Dict.{Dict}
use aezab.Value.{Value}
use aezab.Breaker.{open_, can_execute}
use aezab.Breaker.Laws.{view, can_execute-waits}
use aezab.Gateway.Schema.{SchemaError, validate_input_schema}
use aezab.Gateway.Call.{
  Tool, Action, text, Outcome, result, error, World, Gate, audit, service_name, call_http_tool,
  get_mock_handler, dispatch, call_valid, call, pause, after_call, attempts, conclude, invoke_tool,
}
use aezab.Gateway.Retry.{calls_of}

-- As many calls made as before, and the same view of the service.
pub record Blocked (service : String) (g k : Gate) : Type 0 where
  pub same_calls : calls_of k.actions ≡ calls_of g.actions
  pub same_view : view k.breaker service ≡ view g.breaker service
  pub same_timeout : k.breaker.recovery_timeout ≡ g.breaker.recovery_timeout

module _ (w : World) (tool : Tool) (input : Dict String Value) (extra : Dict String String)
    (g : Gate) (is_http : (tool.category == "data_query") ≡ false)
    (unhandled : get_mock_handler w tool ≡ none)
    (is_open : (view g.breaker (service_name tool)).state ≡ open_)
    (early : (l : List Action)
      → calls_of l ≡ calls_of g.actions
      → w.clock l 0
        < (view g.breaker (service_name tool)).state_changed_at + g.breaker.recovery_timeout) where
  refused :
      (k : Gate)
      → Blocked (service_name tool) g k
      → ((can_execute k.breaker (service_name tool) (w.clock k.actions 0) (w.clock k.actions 1)).0
          ≡ false)
        × Blocked (service_name tool) g (record k {
          breaker =
              (can_execute k.breaker
                (service_name tool)
                (w.clock k.actions 0)
                (w.clock k.actions 1)).1;
        })
  refused k h =
      let name = service_name tool in
      let waits =
        can_execute-waits k.breaker name (w.clock k.actions 0) (w.clock k.actions 1)
          (ap (λ s. s.state) h.same_view ∙ is_open)
          (rw (h.same_view, h.same_timeout) (early k.actions h.same_calls)) in
      (
        waits.0,
        record {
          same_calls = h.same_calls;
          same_view = waits.1 ∙ h.same_view;
          same_timeout = waits.2 ∙ h.same_timeout;
        },
      )

  call_http_tool-Blocked :
      (k : Gate)
      → Blocked (service_name tool) g k
      → Blocked (service_name tool) g (call_http_tool w tool input extra k).1
  unfolding call_http_tool
  call_http_tool-Blocked k h = elim (Bool-cases (tool.endpoint == "")) [
    | inl y ↦ rw y h
    | inr n ↦ let (off, b) = refused k h in rw (n, off) b
  ]

  call_valid-Blocked :
      (o : Option SchemaError) (k : Gate)
      → Blocked (service_name tool) g k
      → Blocked (service_name tool) g (call_valid w tool input extra o k).1
  unfolding dispatch
  call_valid-Blocked (some e) k h = h
  call_valid-Blocked none k h = rw (is_http, unhandled) (call_http_tool-Blocked k h)

  call-Blocked :
      (k : Gate)
      → Blocked (service_name tool) g k
      → Blocked (service_name tool) g (call w tool input extra k).1
  unfolding call
  call-Blocked k h =
      call_valid-Blocked (validate_input_schema w.lt w.equals tool.input_schema input) k h

  noted :
      (k : Gate) (n : ℕ)
      → Blocked (service_name tool) g k
      → Blocked (service_name tool) g (pause tool n k)
  noted k n h = elim (Bool-cases (ltb n tool.max_retries)) [
    | inl y ↦ rw y record {
      same_calls = omega (arith, h.same_calls);
      same_view = h.same_view;
      same_timeout = h.same_timeout;
    }
    | inr m ↦ rw m h
  ]

  audited :
      (k : Gate) (b : Bool) (n : ℕ)
      → Blocked (service_name tool) g k
      → Blocked (service_name tool) g (record k { actions = audit b n ∷ k.actions })
  audited k b n h = record {
    same_calls = omega (arith, h.same_calls);
    same_view = h.same_view;
    same_timeout = h.same_timeout;
  }

  after_call-Blocked :
      (attempt : ℕ) (again : Outcome → Gate → Outcome × Gate) (o : Outcome) (k : Gate)
      → ((m : Outcome) (j : Gate)
          → Blocked (service_name tool) g j
          → Blocked (service_name tool) g (again m j).1)
      → Blocked (service_name tool) g k
      → Blocked (service_name tool) g (after_call tool attempt again o k).1
  after_call-Blocked attempt again (result v) k next h = audited k true (attempt + 1) h
  after_call-Blocked attempt again (error false m) k next h = h
  after_call-Blocked attempt again (error true m) k next h =
      next (error true m) (pause tool attempt k) (noted k attempt h)

  attempts-Blocked :
      (left attempt : ℕ) (last : Outcome) (k : Gate)
      → Blocked (service_name tool) g k
      → Blocked (service_name tool) g (attempts w tool input extra left attempt last k).1
  unfolding attempts
  attempts-Blocked zero attempt last k h = h
  attempts-Blocked (suc left) attempt last k h =
      after_call-Blocked attempt (attempts w tool input extra left (attempt + 1))
        (call w tool input extra k).0 (call w tool input extra k).1
        (λ m j. attempts-Blocked left (attempt + 1) m j) (call-Blocked k h)

  conclude-Blocked :
      (o : Outcome) (k : Gate)
      → Blocked (service_name tool) g k
      → Blocked (service_name tool) g (conclude w tool input extra (o, k)).1
  conclude-Blocked (result v) k h = h
  conclude-Blocked (error r m) k h = audited k false (tool.max_retries + 1) h

  -- While the circuit of an HTTP tool is open and every clock reading lies before the end of its
  -- recovery timeout, an invocation with all its retries makes no call, and the service's entry of the
  -- breaker is as before.
  pub invoke_tool-open :
      (calls_of (invoke_tool w tool input extra g).1.actions ≡ calls_of g.actions)
      × (view (invoke_tool w tool input extra g).1.breaker (service_name tool)
          ≡ view g.breaker (service_name tool))
  unfolding invoke_tool
  invoke_tool-open =
      let loop =
        attempts w tool input extra (tool.max_retries + 1) 0 (error true (text "None")) g in
      let kept = conclude-Blocked loop.0 loop.1 (
        attempts-Blocked (tool.max_retries + 1) 0 (error true (text "None")) g
          (record { same_calls = refl; same_view = refl; same_timeout = refl })) in
      (kept.same_calls, kept.same_view)
