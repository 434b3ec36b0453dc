-- ===== src/Decision/Laws.antt =====
-- What a decision that comes out of the service is.
use mathlib.Core.Path.{subst}
use aezab.Prelude.{
  ◌≤◌, ◌≡◌, refl, sym, ap, ◌∙◌, inl, inr, String, string_eq, true, false, not, ◌&&◌, ◌||◌, Option,
  none, some, some_inj, List, [], ◌∷◌, All, any, ltb, leb, arith, Bool-cases, Option-cases, ◌==◌,
  and-left, and-right, ◌≢◌,
}
use aezab.Prelude.Dict.{Dict, get, has}
use aezab.Value.{Value, null, str, arr, nil, Runtime}
use aezab.Budget.{Text, estimate_tokens}
use aezab.Gateway.Schema.{text_length}
use aezab.Workflow.State.{DecisionConfig}
use aezab.Decision.{
  FloatMath, DecisionResult, same_keys, is_empty_input, probability, probabilities_of, values,
  is_top, with_confidence, check_distribution, check_answer, parse_choice, ApiReply, timeout,
  http_error, no_json, body, Decided, unavailable, chosen, at, value_at, text_at, entries_at,
  Service, outcome_of_reply, send_decision, decide, payload_of,
}
use aezab.Decision.Valid.{
  FloatOrder, IsValid, probability-some, probabilities_of-some, same_keys-some, is_top-top,
  get-IsProbability, is_top-found, values-map, same_keys-has,
}

abbrev result_or : DecisionResult → Decided → DecisionResult
result_or r (unavailable _) = r
result_or r (chosen q) = q

module _ (py : Runtime) (math : FloatMath) where
  with_confidence-IsValid :
      (config : DecisionConfig) (model choice : String) (v : Value) (q : Option String)
      (d : Dict String Value) (ps : Dict String String) (r : DecisionResult)
      → FloatOrder py math
      → has config.choices choice ≡ true
      → same_keys d config.choices ≡ true
      → probabilities_of py math d ≡ some ps
      → (math.is_close_to_one (math.sum (values py math ps))
          && is_top py math (get ps choice) (values py math ps))
        ≡ true
      → probability py math v ≡ q
      → with_confidence py math model choice ps q ≡ some r
      → IsValid py math config r
  with_confidence-IsValid config model choice v none d ps r order c k e y p g =
      absurd (ground (arith, g))
  with_confidence-IsValid config model choice v (some q) d ps r order c k e y p g =
      let close = math.is_close_to_one (math.sum (values py math ps)) in
      let is_highest = and-right close (is_top py math (get ps choice) (values py math ps)) y in
      let (best, at_choice) = is_top-found py math (get ps choice) (values py math ps) is_highest in
      let range = (probabilities_of-some py math d ps e).0 in
      subst (IsValid py math config) (some_inj g) (record {
        listed = c;
        complete = λ j.
            same_keys-has py math ps config.choices j
              (same_keys-some py math d ps config.choices e k);
        in_range = range;
        sums_up =
            ap (λ t. math.is_close_to_one (math.sum t)) (sym (values-map py math ps))
            ∙ and-left close (is_top py math (get ps choice) (values py math ps)) y;
        probability_of = best;
        found = at_choice;
        top =
            is_top-top py math order best ps
              (get-IsProbability py math ps choice best range at_choice) range
              (rw at_choice at is_highest);
        sure = probability-some py math v q p;
      })

  check_distribution-IsValid :
      (config : DecisionConfig) (model choice : String) (o : Option Value) (d : Dict String Value)
      (ps : Option (Dict String String)) (r : DecisionResult)
      → FloatOrder py math
      → has config.choices choice ≡ true
      → same_keys d config.choices ≡ true
      → probabilities_of py math d ≡ ps
      → check_distribution py math model choice o ps ≡ some r
      → IsValid py math config r
  unfolding check_distribution
  check_distribution-IsValid config model choice o d none r order c k e g =
      absurd (ground (arith, g))
  check_distribution-IsValid config model choice none d (some ps) r order c k e g =
      absurd (ground (arith, g))
  check_distribution-IsValid config model choice (some v) d (some ps) r order c k e g =
      elim (Bool-cases (
        math.is_close_to_one (math.sum (values py math ps))
        && is_top py math (get ps choice) (values py math ps))) [
          | inl y ↦
              with_confidence-IsValid config model choice v (probability py math v) d ps r order c k
                e y refl (rw y at g)
          | inr n ↦ absurd (ground (arith, rw n at g))
        ]

  check_answer-IsValid :
      (config : DecisionConfig) (confidence : Option Value) (model kind choice : Option String)
      (ps : Option (Dict String Value)) (r : DecisionResult)
      → FloatOrder py math
      → check_answer py math config confidence model kind choice ps ≡ some r
      → IsValid py math config r
  unfolding check_answer
  check_answer-IsValid config v none kind choice ps r order h = absurd (ground (arith, h))
  check_answer-IsValid config v (some m) none choice ps r order h = absurd (ground (arith, h))
  check_answer-IsValid config v (some m) (some k) none ps r order h = absurd (ground (arith, h))
  check_answer-IsValid config v (some m) (some k) (some c) none r order h =
      absurd (ground (arith, h))
  check_answer-IsValid config v (some m) (some k) (some c) (some ps) r order h =
      elim (Bool-cases (
        not (m == "")
        && leb (text_length m) 128
        && (k == "choice")
        && has config.choices c
        && same_keys ps config.choices)) [
          | inl y ↦
              let keyed =
                and-right
                  (not (m == "")
                    && leb (text_length m) 128
                    && (k == "choice")
                    && has config.choices c)
                  _ y in
              let listed =
                and-right (not (m == "") && leb (text_length m) 128 && (k == "choice")) _
                  (and-left _ (same_keys ps config.choices) y) in
              check_distribution-IsValid config m c v ps (probabilities_of py math ps) r order
                listed keyed refl (rw y at h)
          | inr n ↦ absurd (ground (arith, rw n at h))
        ]

  parse_choice-IsValid :
      (payload : Value) (config : DecisionConfig) (r : DecisionResult)
      → FloatOrder py math
      → parse_choice py math payload config ≡ some r
      → IsValid py math config r
  unfolding parse_choice
  parse_choice-IsValid payload config r order h =
      let route = value_at "route" (at "answers" payload) in
      check_answer-IsValid config (value_at "confidence" route) (text_at (at "model" payload))
        (text_at (value_at "type" route)) (text_at (value_at "choice" route))
        (entries_at (value_at "probabilities" route)) r order h

  -- A value that is neither `None` nor an empty text nor an empty list.
  abbrev pub IsGiven : Option Value → Type 0
  IsGiven o = (v : Value) × (o ≡ some v) × (v ≢ null) × (v ≢ str "") × (v ≢ arr nil)

  filled-apart :
      (v w : Value) → is_empty_input (some v) ≡ false → is_empty_input (some w) ≡ true → v ≢ w
  filled-apart v w h empty e =
      absurd (ground (arith, h, empty, ap (λ x. is_empty_input (some x)) e))

  filled-IsGiven : (o : Option Value) → is_empty_input o ≡ false → IsGiven o
  filled-IsGiven none h = absurd (ground (arith, h))
  filled-IsGiven (some v) h = (
    v,
    refl,
    filled-apart v null h refl,
    filled-apart v (str "") h refl,
    filled-apart v (arr nil) h refl,
  )

  all-IsGiven :
      (collected : Dict String Value) (fields : List String)
      → any (λ f. is_empty_input (get collected f)) fields ≡ false
      → All (λ f. IsGiven (get collected f)) fields
  all-IsGiven collected [] h = tt
  all-IsGiven collected (f ∷ fields) h = elim (Bool-cases (is_empty_input (get collected f))) [
    | inl y ↦ absurd (ground (arith, h, y))
    | inr n ↦ (filled-IsGiven (get collected f) n, all-IsGiven collected fields (ground (arith, h)))
  ]

  -- What a decision needs: the service is on, every input field has a value, and the payload of these
  -- fields alone, of at most 8000 tokens, is the one request that was sent.
  pub record WasAsked (s : Service) (config : DecisionConfig) (collected : Dict String Value)
      (sent : List Value) : Type 0 where
    pub serialized : Text
    pub enabled : s.typesafe_enabled ≡ true
    pub inputs : All (λ f. IsGiven (get collected f)) config.input_fields
    pub dumped : s.dumps (payload_of s config collected) ≡ some serialized
    pub fits : estimate_tokens serialized ≤ 8000
    pub once : sent ≡ payload_of s config collected ∷ []

  outcome_of_reply-IsValid :
      (config : DecisionConfig) (reply : ApiReply) (r : DecisionResult)
      → FloatOrder py math
      → outcome_of_reply py math config reply ≡ chosen r
      → IsValid py math config r
  unfolding outcome_of_reply
  outcome_of_reply-IsValid config timeout r order h = absurd (ground (arith, h))
  outcome_of_reply-IsValid config http_error r order h = absurd (ground (arith, h))
  outcome_of_reply-IsValid config no_json r order h = absurd (ground (arith, h))
  outcome_of_reply-IsValid config (body v) r order h =
      elim (Option-cases (parse_choice py math v config)) [
        | inl e ↦ absurd (ground (arith, rw e at h))
        | inr (q, e) ↦
            subst (IsValid py math config) (ap (result_or q) (rw e at h))
              (parse_choice-IsValid v config q order e)
      ]

  send_decision-chosen :
      (s : Service) (config : DecisionConfig) (v : Value) (o : Option Text) (r : DecisionResult)
      → FloatOrder py math
      → (send_decision py math s config v o).0 ≡ chosen r
      → IsValid py math config r
        × ((t : Text) × (o ≡ some t)
            × (estimate_tokens t ≤ 8000)
            × ((send_decision py math s config v o).1 ≡ v ∷ []))
  unfolding send_decision
  send_decision-chosen s config v none r order h = absurd (ground (arith, h))
  send_decision-chosen s config v (some t) r order h =
      elim (Bool-cases (ltb 8000 (estimate_tokens t))) [
        | inl y ↦ absurd (ground (arith, rw y at h))
        | inr n ↦ rw n (
          outcome_of_reply-IsValid config (s.post v) r order (rw n at h),
          (t, refl, ground (arith, n), refl),
        )
      ]

  -- Where the probabilities are ordered as floats are, a decision that comes out of the service is one of
  -- the configured choices, with a probability that no choice exceeds, from a distribution over exactly
  -- the configured choices. It was asked for by one request within the limit of tokens, with the values
  -- of the input fields alone, none of which is missing, `None`, or an empty text or list.
  pub decide-chosen :
      (s : Service) (config : DecisionConfig) (collected : Dict String Value) (r : DecisionResult)
      → FloatOrder py math
      → (decide py math s config collected).0 ≡ chosen r
      → IsValid py math config r × WasAsked s config collected (decide py math s config collected).1
  unfolding decide
  decide-chosen s config collected r order h =
      let payload = payload_of s config collected in
      elim (Bool-cases (not s.typesafe_enabled || (s.typesafe_api_key == ""))) [
        | inl y ↦ absurd (ground (arith, rw y at h))
        | inr off ↦
            elim (Bool-cases (any (λ f. is_empty_input (get collected f)) config.input_fields)) [
              | inl y ↦ absurd (ground (arith, rw (off, y) at h))
              | inr full ↦
                  let (valid, rest) =
                    send_decision-chosen s config payload (s.dumps payload) r order
                      (rw (off, full) at h) in
                  let (t, e, fits, once) = rest in
                  rw (off, full)
                    (
                      valid,
                      record {
                        serialized = t;
                        enabled = ground (arith, off);
                        inputs = all-IsGiven collected config.input_fields full;
                        dumped = e;
                        fits = fits;
                        once = once;
                      },
                    )
            ]
      ]
