-- ===== src/Auth/Window.antt =====
-- The limiter against a reference that forgets nothing: a log of all the times that passed.
use aezab.Prelude.{
  Option, some, Bool, ltb→lt, and-right, ℕ, ◌≤◌, ◌<◌, ◌≡◌, refl, sym, ap, ◌∙◌, inl, inr, String,
  string_eq, true, false, none, List, [], ◌∷◌, ◌++◌, length, length-append, All, All-append, ltb,
  leb, arith, Bool-cases, ◌&&◌, ◌↔◌, ◌==◌, if◌then◌else◌, eq_iff,
}
use aezab.Prelude.Dict.{beq_self}
use aezab.Auth.Rate.{Windows, is_old, trim, is_stale, consume_rate_limit}
use aezab.Auth.Trim.{
  All-up, recent, recent-append, recent-All, All-old, recent-IsLive, recent-IsOld, trim-IsOld,
  trim-append, trim-trim, stale-trim, stale-later, consume-same, consume-other,
}

abbrev pub lets_pass : Option ℕ → Bool
lets_pass none = true
lets_pass (some _) = false

-- A request: its key and the clock at its turn. A list has the latest first.
abbrev pub Request : Type 0
Request = String × ℕ

abbrev pub latest : List Request → ℕ
latest [] = 0
latest ((key, now) ∷ before) = now

-- The clock does not go back.
abbrev pub IsOrdered : List Request → Type 0
IsOrdered [] = Unit
IsOrdered ((key, now) ∷ before) = (latest before ≤ now) × IsOrdered before

module _ (second : ℕ) (limits : String → ℕ) where
  -- The windows after requests, from none.
  abbrev pub after : List Request → Windows
  after [] = λ k. []
  after ((key, now) ∷ before) = (consume_rate_limit second (after before) key (limits key) now).1

  -- The times of all requests that passed under a key: a request passes if fewer than the limit are
  -- recent.
  abbrev pub log : List Request → String → List ℕ
  log [] k = []
  log ((key, now) ∷ before) k =
      let old = log before k in
      if key == k && ltb (length (recent second now old)) (limits k) then old ++ (now ∷ []) else old

  log-latest :
      (reqs : List Request) (k : String) → IsOrdered reqs → All (λ t. t ≤ latest reqs) (log reqs k)
  log-latest [] k h = tt
  log-latest ((key, now) ∷ before) k (h, o) =
      let old = All-up (latest before) now (log before k) h (log-latest before k o) in
      elim (Bool-cases (key == k && ltb (length (recent second now (log before k))) (limits k))) [
        | inl y ↦ rw y (All-append (λ t. t ≤ now) (log before k) (now ∷ []) old (omega arith, tt))
        | inr n ↦ rw n old
      ]

  -- What an append of the current time leaves at a later one.
  append-later :
      (w old : List ℕ) (first now : ℕ)
      → first ≤ now
      → All (λ t. t ≤ first) old
      → trim second first w ≡ recent second first old
      → trim second now w ≡ recent second now old
      → trim second now (trim second first w ++ (first ∷ []))
        ≡ recent second now (old ++ (first ∷ []))
  append-later w old first now h b e f = elim (Bool-cases (is_old second now first)) [
    | inl y ↦
        let all_old = All-old second first now old y b in
        let tail : recent second now (first ∷ []) ≡ [] = rw y refl in
        rw e (
          trim-IsOld second now (recent second first old ++ (first ∷ [])) (
            All-append (λ t. is_old second now t ≡ true) (recent second first old) (first ∷ [])
              (recent-All second (λ t. is_old second now t ≡ true) first old all_old) (y, tt))
          ∙ sym (
              recent-IsOld second now (old ++ (first ∷ []))
                (All-append (λ t. is_old second now t ≡ true) old (first ∷ []) all_old (y, tt))))
    | inr n ↦
        let tail : recent second now (first ∷ []) ≡ first ∷ [] = rw n refl in
        trim-append second now (trim second first w) first n
        ∙ ap (λ l. l ++ (first ∷ [])) (trim-trim second first now w h ∙ f)
        ∙ sym
            (recent-append second now old (first ∷ []) ∙ ap (λ l. recent second now old ++ l) tail)
  ]

  trim-same :
      (ws : Windows) (key : String) (limit first now : ℕ) (old : List ℕ)
      → first ≤ now
      → All (λ t. t ≤ first) old
      → trim second first (ws key) ≡ recent second first old
      → trim second now (ws key) ≡ recent second now old
      → trim second now ((consume_rate_limit second ws key limit first).1 key)
        ≡ recent second now
            (if ltb (length (recent second first old)) limit then old ++ (first ∷ []) else old)
  trim-same ws key limit first now old h b e f =
      ap (trim second now) (consume-same second ws key limit first)
      ∙ (elim (Bool-cases (leb limit (length (trim second first (ws key))))) [
        | inl y ↦
            let full : ltb (length (recent second first old)) limit ≡ false =
              ground (arith, y, ap length e) in
            rw (y, full) (trim-trim second first now (ws key) h ∙ f)
        | inr n ↦
            let room : ltb (length (recent second first old)) limit ≡ true =
              ground (arith, n, ap length e) in
            rw (n, room) (append-later (ws key) old first now h b e f)
      ])

  trim-other :
      (ws : Windows) (key : String) (limit first now : ℕ) (k : String) (old : List ℕ)
      → (k == key) ≡ false
      → first ≤ now
      → trim second now (ws k) ≡ recent second now old
      → trim second now ((consume_rate_limit second ws key limit first).1 k) ≡ recent second now old
  unfolding trim
  trim-other ws key limit first now k old n h f =
      ap (trim second now) (consume-other second ws key limit first k n)
      ∙ (elim (Bool-cases (is_stale second first (ws k))) [
        | inl y ↦ rw y (
            sym (
              stale-trim second now (ws k) (stale-later second first now (ws k) h y)
                (rw f (recent-IsLive second now old)))
            ∙ f)
        | inr m ↦ rw m f
      ])

  -- The part of a window that counts is the recent part of the log.
  trim-after :
      (reqs : List Request) (k : String) (now : ℕ)
      → IsOrdered reqs
      → latest reqs ≤ now
      → trim second now (after reqs k) ≡ recent second now (log reqs k)
  unfolding trim
  trim-after [] k now o h = refl
  trim-after ((key, first) ∷ before) k now (b, o) h =
      let at_first = trim-after before k first o b in
      let at_now = trim-after before k now o (omega arith) in
      let old = All-up (latest before) first (log before k) b (log-latest before k o) in
      elim (Bool-cases (key == k)) [
        | inl y ↦
            rw ((eq_iff key k).0 y, beq_self k)
              (trim-same (after before) k (limits k) first now (log before k) h old at_first at_now)
        | inr n ↦
            let apart : (k == key) ≡ false = ground (arith, n, eq_iff key k, eq_iff k key) in
            rw n
              (trim-other (after before) key (limits key) first now k (log before k) apart h at_now)
      ]

  -- The limiter lets a request pass exactly when fewer requests than the limit passed under its key in
  -- the last 60 seconds, if the clock never goes back. What it deletes never counts.
  pub consume_rate_limit_lem :
      (reqs : List Request) (key : String) (now : ℕ)
      → IsOrdered ((key, now) ∷ reqs)
      → ((consume_rate_limit second (after reqs) key (limits key) now).0 ≡ none)
        ↔ (length (recent second now (log reqs key)) < limits key)
  unfolding consume_rate_limit
  consume_rate_limit_lem reqs key now (h, o) =
      let e = ap length (trim-after reqs key now o h) in (ground (arith, e), ground (arith, e))

  recent-later :
      (first now : ℕ) (w : List ℕ)
      → first ≤ now
      → length (recent second now w) ≤ length (recent second first w)
  recent-later first now [] h = omega arith
  recent-later first now (t ∷ w) h = ground (arith, recent-later first now w h)

  recent-one : (now t : ℕ) → length (recent second now (t ∷ [])) ≤ 1
  recent-one now t = ground arith

  -- The times of the requests that the limiter let pass under a key.
  abbrev pub passed : List Request → String → List ℕ
  passed [] k = []
  passed ((key, now) ∷ before) k =
      let old = passed before k in
      if key == k && lets_pass (consume_rate_limit second (after before) key (limits key) now).0
      then old ++ (now ∷ [])
      else old

  answer-same :
      (reqs : List Request) (key : String) (now : ℕ)
      → IsOrdered ((key, now) ∷ reqs)
      → lets_pass (consume_rate_limit second (after reqs) key (limits key) now).0
        ≡ ltb (length (recent second now (log reqs key))) (limits key)
  unfolding consume_rate_limit
  answer-same reqs key now (h, o) =
      let e = ap length (trim-after reqs key now o h) in
      elim (Bool-cases (leb (limits key) (length (trim second now (after reqs key))))) [
        | inl y ↦ rw y (ground (arith, y, e))
        | inr n ↦ rw n (ground (arith, n, e))
      ]

  passed-log : (reqs : List Request) (k : String) → IsOrdered reqs → passed reqs k ≡ log reqs k
  passed-log [] k o = refl
  passed-log ((key, now) ∷ before) k (h, o) = elim (Bool-cases (key == k)) [
    | inl y ↦ rw ((eq_iff key k).0 y, answer-same before k now (h, o), passed-log before k o)
    | inr n ↦ rw (n, passed-log before k o)
  ]

  log-limit :
      (reqs : List Request) (k : String) (now : ℕ)
      → IsOrdered reqs
      → latest reqs ≤ now
      → length (recent second now (log reqs k)) ≤ limits k
  log-limit [] k now o h = omega arith
  log-limit ((key, first) ∷ before) k now (b, o) h =
      elim (Bool-cases (key == k && ltb (length (recent second first (log before k))) (limits k))) [
        | inl y ↦
            let room =
              ltb→lt (length (recent second first (log before k))) (limits k)
                (and-right (key == k) _ y) in
            let one = recent-later first now (first ∷ []) h in
            rw (y, recent-append second now (log before k) (first ∷ []))
              (omega (
                arith,
                room,
                one,
                recent-one first first,
                recent-later first now (log before k) h,
                length-append (recent second now (log before k)) (recent second now (first ∷ [])),
              ))
        | inr n ↦ rw n (log-limit before k now o (omega arith))
      ]

  -- If the clock never goes back, the limiter let no more requests than the limit pass under a key in
  -- the last 60 seconds.
  pub passed-limit :
      (reqs : List Request) (k : String) (now : ℕ)
      → IsOrdered reqs
      → latest reqs ≤ now
      → length (recent second now (passed reqs k)) ≤ limits k
  passed-limit reqs k now o h = rw (passed-log reqs k o) (log-limit reqs k now o h)
