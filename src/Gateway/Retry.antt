-- ===== src/Gateway/Retry.antt =====
-- How often a tool is called, how long the gateway waits between attempts, and calls that are not made.
use native.Mathlib.Nat.{mul-le-mul_left, pow-le-pow_right, two-pow-succ, mul-add}
use aezab.Prelude.{
  ℕ, zero, suc, ◌+◌, ◌*◌, ◌^◌, ◌≤◌, ◌≡◌, refl, ap, ◌∙◌, inl, inr, String, string_eq, Bool, true,
  false, ◌&&◌, Option, none, some, List, [], ◌∷◌, ltb, leb, arith, Bool-cases, ◌==◌, if◌then◌else◌,
}
use aezab.Prelude.Dict.{Dict}
use aezab.Value.{Value}
use aezab.Breaker.{can_execute}
use aezab.Gateway.Schema.{SchemaError, validate_input_schema}
use aezab.Gateway.Call.{
  Tool, Request, Action, query, handle, http, sleep_ms, audit, HttpReply, response, no_response,
  text, schema, failed_after, Outcome, result, error, World, Gate, did, settle, send, make_request,
  service_name, call_http_tool, call_handler, get_mock_handler, dispatch, call_valid, call, pause,
  after_call, attempts, conclude, invoke_tool,
}

abbrev pub makes_call : Action → Bool
makes_call (query _ _ _) = true
makes_call (handle _ _) = true
makes_call (http _) = true
makes_call _ = false

-- The calls that were made: queries, handlers and requests.
abbrev pub calls_of : List Action → ℕ
calls_of [] = 0
calls_of (a ∷ actions) = (if makes_call a then 1 else 0) + calls_of actions

abbrev pub slept : Action → ℕ
slept (sleep_ms n) = n
slept _ = 0

-- The milliseconds waited.
abbrev pub waited : List Action → ℕ
waited [] = 0
waited (a ∷ actions) = slept a + waited actions

-- What one call does: nothing, or a call.
abbrev pub AtMostOne : List Action → List Action → Type 0
AtMostOne before after = (calls_of after ≤ calls_of before + 1) × (waited after ≡ waited before)

settle-actions :
    (w : World) (tool : Tool) (r : HttpReply) (g : Gate) → (settle w tool r g).1.actions ≡ g.actions
unfolding settle
settle-actions w tool (no_response e) g = refl
settle-actions w tool (response code body raw) g =
    elim (Bool-cases (leb 200 code && ltb code 300)) [ inl y ↦ rw y refl | inr n ↦ rw n refl ]

pub AtMostOne-refl : (l : List Action) → AtMostOne l l
AtMostOne-refl l = (omega arith, refl)

pub AtMostOne-call :
    (a : Action) (l : List Action) → makes_call a ≡ true → slept a ≡ 0 → AtMostOne l (a ∷ l)
AtMostOne-call a l h k = (ground (arith, h), omega (arith, k))

wait_mono : (b i j : ℕ) → i ≤ j → b * 2 ^ i ≤ b * 2 ^ j
wait_mono b i j h = mul-le-mul_left b (pow-le-pow_right (omega arith) h)

i_suc : (i : ℕ) → i + 1 ≡ suc i
i_suc i = omega arith

wait_double : (b i : ℕ) → b * 2 ^ (i + 1) ≡ b * 2 ^ i + b * 2 ^ i
wait_double b i =
    ap (λ t. b * t) (ap (λ t. 2 ^ t) (i_suc i) ∙ two-pow-succ i) ∙ mul-add b (2 ^ i) (2 ^ i)

-- The breaker's answer to a call of the tool's service, and the state after it.
abbrev pub admits : World → Tool → Gate → Bool
admits w tool g =
    (can_execute g.breaker (service_name tool) (w.clock g.actions 0) (w.clock g.actions 1)).0

abbrev asked : World → Tool → Gate → Gate
asked w tool g = record g {
  breaker =
      (can_execute g.breaker (service_name tool) (w.clock g.actions 0) (w.clock g.actions 1)).1;
}

module _ (w : World) (tool : Tool) (input : Dict String Value) (extra : Dict String String) where
  send-AtMostOne : (r : Request) (g : Gate) → AtMostOne g.actions (send w tool r g).1.actions
  unfolding send
  send-AtMostOne r g =
      let g' = did g (http r) in
      rw (settle-actions w tool (w.http_reply g'.actions) g')
        (AtMostOne-call (http r) g.actions refl refl)

  call_http_tool-AtMostOne :
      (g : Gate) → AtMostOne g.actions (call_http_tool w tool input extra g).1.actions
  unfolding call_http_tool
  call_http_tool-AtMostOne g = elim (Bool-cases (tool.endpoint == "")) [
    | inl y ↦ rw y (AtMostOne-refl g.actions)
    | inr n ↦ elim (Bool-cases (admits w tool g)) [
      | inl y ↦ rw (n, y) (send-AtMostOne (make_request w tool input extra) (asked w tool g))
      | inr m ↦ rw (n, m) (AtMostOne-refl g.actions)
    ]
  ]

  call_handler-AtMostOne :
      (o : Option String) (g : Gate)
      → AtMostOne g.actions (call_handler w tool input extra o g).1.actions
  call_handler-AtMostOne none g = call_http_tool-AtMostOne g
  call_handler-AtMostOne (some h) g = AtMostOne-call (handle h input) g.actions refl refl

  dispatch-AtMostOne : (g : Gate) → AtMostOne g.actions (dispatch w tool input extra g).1.actions
  unfolding dispatch
  dispatch-AtMostOne g = elim (Bool-cases (tool.category == "data_query")) [
    | inl y ↦ rw y (AtMostOne-call (query tool.endpoint tool.tenant_id input) g.actions refl refl)
    | inr n ↦ rw n (call_handler-AtMostOne (get_mock_handler w tool) g)
  ]

  call_valid-AtMostOne :
      (o : Option SchemaError) (g : Gate)
      → AtMostOne g.actions (call_valid w tool input extra o g).1.actions
  call_valid-AtMostOne none g = dispatch-AtMostOne g
  call_valid-AtMostOne (some e) g = AtMostOne-refl g.actions

  pub call-AtMostOne : (g : Gate) → AtMostOne g.actions (call w tool input extra g).1.actions
  unfolding call
  call-AtMostOne g =
      call_valid-AtMostOne (validate_input_schema w.lt w.equals tool.input_schema input) g

  -- What attempts from a state may add: a call each, and the waits between them.
  abbrev Within : ℕ → ℕ → List Action → List Action → Type 0
  Within left attempt before after =
      (calls_of after ≤ calls_of before + left)
      × (waited after + tool.retry_backoff_ms * 2 ^ attempt
          ≤ waited before + tool.retry_backoff_ms * 2 ^ tool.max_retries)

  stop-Within :
      (left attempt : ℕ) (before after : List Action)
      → attempt ≤ tool.max_retries
      → AtMostOne before after
      → Within (left + 1) attempt before after
  stop-Within left attempt before after h one = (
    omega (arith, one.0),
    omega (arith, one.1, wait_mono tool.retry_backoff_ms attempt tool.max_retries h),
  )

  last-Within :
      (attempt : ℕ) (g g' : Gate) (o : Outcome) (again : Outcome → Gate → Outcome × Gate)
      → ((m : Outcome) (k : Gate) → (again m k).1 ≡ k)
      → attempt ≡ tool.max_retries
      → AtMostOne g.actions g'.actions
      → Within 1 attempt g.actions (after_call tool attempt again o g').1.actions
  last-Within attempt g g' (result v) again f h one =
      stop-Within 0 attempt g.actions (audit true (attempt + 1) ∷ g'.actions) (omega arith)
        (omega (arith, one.0), omega (arith, one.1))
  last-Within attempt g g' (error false m) again f h one =
      stop-Within 0 attempt g.actions g'.actions (omega arith) one
  last-Within attempt g g' (error true m) again f h one =
      let off : ltb attempt tool.max_retries ≡ false = ground (arith, h) in
      rw (f (error true m) (pause tool attempt g'), off)
        (stop-Within 0 attempt g.actions g'.actions (omega arith) one)

  pause-on :
      (attempt : ℕ) (g : Gate)
      → ltb attempt tool.max_retries ≡ true
      → (calls_of (pause tool attempt g).actions ≡ calls_of g.actions)
        × (waited (pause tool attempt g).actions
            ≡ tool.retry_backoff_ms * 2 ^ attempt + waited g.actions)
  pause-on attempt g on = rw on (omega arith, refl)

  next-Within :
      (left attempt : ℕ) (g g' : Gate) (o : Outcome) (again : Outcome → Gate → Outcome × Gate)
      → ((m : Outcome) (k : Gate) → Within (left + 1) (attempt + 1) k.actions (again m k).1.actions)
      → attempt + suc left ≡ tool.max_retries
      → AtMostOne g.actions g'.actions
      → Within (suc left + 1) attempt g.actions (after_call tool attempt again o g').1.actions
  next-Within left attempt g g' (result v) again ih h one =
      stop-Within (suc left) attempt g.actions (audit true (attempt + 1) ∷ g'.actions) (omega arith)
        (omega (arith, one.0), omega (arith, one.1))
  next-Within left attempt g g' (error false m) again ih h one =
      stop-Within (suc left) attempt g.actions g'.actions (omega arith) one
  next-Within left attempt g g' (error true m) again ih h one =
      let (same, more) = pause-on attempt g' (ground (arith, h)) in
      let rest = ih (error true m) (pause tool attempt g') in
      (
        omega (arith, rest.0, one.0, same),
        omega (arith, rest.1, one.1, more, wait_double tool.retry_backoff_ms attempt),
      )

  attempts-Within :
      (left attempt : ℕ) (last : Outcome) (g : Gate)
      → attempt + left ≡ tool.max_retries
      → Within
          (left + 1)
          attempt
          g.actions
          (attempts w tool input extra (suc left) attempt last g).1.actions
  unfolding attempts
  attempts-Within zero attempt last g h =
      last-Within attempt g (call w tool input extra g).1 (call w tool input extra g).0
        (attempts w tool input extra 0 (attempt + 1)) (λ m k. refl) (omega arith) (call-AtMostOne g)
  attempts-Within (suc left) attempt last g h =
      next-Within left attempt g (call w tool input extra g).1 (call w tool input extra g).0
        (attempts w tool input extra (suc left) (attempt + 1))
        (λ m k. attempts-Within left (attempt + 1) m k (omega arith)) h (call-AtMostOne g)

  conclude-Within :
      (g : Gate) (o : Outcome) (g' : Gate)
      → Within (tool.max_retries + 1) 0 g.actions g'.actions
      → Within (tool.max_retries + 1) 0 g.actions (conclude w tool input extra (o, g')).1.actions
  conclude-Within g (result v) g' h = h
  conclude-Within g (error r m) g' h = (omega (arith, h.0), omega (arith, h.1))

  attempts-first :
      (n : ℕ) (last : Outcome) (g : Gate)
      → n ≡ suc tool.max_retries
      → Within (tool.max_retries + 1) 0 g.actions (attempts w tool input extra n 0 last g).1.actions
  attempts-first n last g e = rw e (attempts-Within tool.max_retries 0 last g (omega arith))

  -- An invocation makes at most one call more than the tool's retries, and waits at most the sum of the
  -- doubling pauses between them.
  pub invoke_tool-bounds :
      (g : Gate)
      → (calls_of (invoke_tool w tool input extra g).1.actions
          ≤ calls_of g.actions + (tool.max_retries + 1))
        × (waited (invoke_tool w tool input extra g).1.actions + tool.retry_backoff_ms
            ≤ waited g.actions + tool.retry_backoff_ms * 2 ^ tool.max_retries)
  unfolding invoke_tool
  invoke_tool-bounds g =
      let loop =
        attempts w tool input extra (tool.max_retries + 1) 0 (error true (text "None")) g in
      let within = conclude-Within g loop.0 loop.1 (
        attempts-first (tool.max_retries + 1) (error true (text "None")) g
          (i_suc tool.max_retries)) in
      (within.0, omega (arith, within.1))

  invalid-attempts :
      (e : SchemaError) (last : Outcome) (n : ℕ) (g : Gate)
      → validate_input_schema w.lt w.equals tool.input_schema input ≡ some e
      → n ≡ suc tool.max_retries
      → attempts w tool input extra n 0 last g ≡ (error false (schema e), g)
  unfolding attempts
  invalid-attempts e last n g h k = rw (k, h)

  -- An input that the tool's schema refuses is never tried: whatever the retries, no call is made and no
  -- time is waited, and the invocation fails with the schema's error.
  pub invoke_tool-invalid :
      (g : Gate) (e : SchemaError)
      → validate_input_schema w.lt w.equals tool.input_schema input ≡ some e
      → invoke_tool w tool input extra g ≡ (
        error true (failed_after (tool.max_retries + 1) (schema e)),
        did g (audit false (tool.max_retries + 1)),
      )
  unfolding invoke_tool
  invoke_tool-invalid g e h = ap (conclude w tool input extra) (
      invalid-attempts e (error true (text "None")) (tool.max_retries + 1) g h
        (i_suc tool.max_retries))
