-- ===== src/Auth/Trim.antt =====
-- How a window is trimmed, and what one request leaves of it.
use aezab.Prelude.{
  ℕ, ◌≤◌, ◌≡◌, refl, ap, inl, inr, String, string_eq, true, false, List, [], ◌∷◌, ◌++◌, length, All,
  leb, arith, Bool-cases, ◌==◌, if◌then◌else◌,
}
use aezab.Prelude.Dict.{beq_self}
use aezab.Auth.Rate.{Windows, is_old, trim, is_stale, consume_rate_limit}

pub All-up : (a b : ℕ) (w : List ℕ) → a ≤ b → All (λ t. t ≤ a) w → All (λ t. t ≤ b) w
All-up a b [] h k = tt
All-up a b (t ∷ w) h (k, rest) = (omega arith, All-up a b w h rest)

module _ (second : ℕ) where
  -- The times that are not old.
  abbrev pub recent : ℕ → List ℕ → List ℕ
  recent now [] = []
  recent now (t ∷ w) = if is_old second now t then recent now w else t ∷ recent now w

  pub recent-append : (now : ℕ) (w u : List ℕ) → recent now (w ++ u) ≡ recent now w ++ recent now u
  recent-append now [] u = refl
  recent-append now (t ∷ w) u = elim (Bool-cases (is_old second now t)) [
    | inl y ↦ rw y (recent-append now w u)
    | inr n ↦ rw n (ap (λ l. t ∷ l) (recent-append now w u))
  ]

  abbrev pub IsLive : ℕ → ℕ → Type 0
  IsLive now t = is_old second now t ≡ false

  abbrev pub IsOld : ℕ → ℕ → Type 0
  IsOld now t = is_old second now t ≡ true

  pub recent-All : (P : ℕ → Type 0) (now : ℕ) (w : List ℕ) → All P w → All P (recent now w)
  recent-All P now [] h = tt
  recent-All P now (t ∷ w) (h, rest) = elim (Bool-cases (is_old second now t)) [
    | inl y ↦ rw y (recent-All P now w rest)
    | inr n ↦ rw n (h, recent-All P now w rest)
  ]

  pub All-old :
      (first now : ℕ) (w : List ℕ)
      → is_old second now first ≡ true
      → All (λ t. t ≤ first) w
      → All (λ t. is_old second now t ≡ true) w
  All-old first now [] y h = tt
  All-old first now (t ∷ w) y (h, rest) = (ground arith, All-old first now w y rest)

  pub recent-IsLive : (now : ℕ) (w : List ℕ) → All (IsLive now) (recent now w)
  recent-IsLive now [] = tt
  recent-IsLive now (t ∷ w) = elim (Bool-cases (is_old second now t)) [
    | inl y ↦ rw y (recent-IsLive now w)
    | inr n ↦ rw n (n, recent-IsLive now w)
  ]

  pub recent-IsOld : (now : ℕ) (w : List ℕ) → All (IsOld now) w → recent now w ≡ []
  recent-IsOld now [] h = refl
  recent-IsOld now (t ∷ w) (h, rest) = rw h (recent-IsOld now w rest)

  pub trim-IsOld : (now : ℕ) (w : List ℕ) → All (IsOld now) w → trim second now w ≡ []
  unfolding trim
  trim-IsOld now [] h = refl
  trim-IsOld now (t ∷ w) (h, rest) = rw h (trim-IsOld now w rest)

  pub trim-append :
      (now : ℕ) (w : List ℕ) (t : ℕ)
      → IsLive now t
      → trim second now (w ++ (t ∷ [])) ≡ trim second now w ++ (t ∷ [])
  unfolding trim
  trim-append now [] t h = rw h refl
  trim-append now (u ∷ w) t h = elim (Bool-cases (is_old second now u)) [
    | inl y ↦ rw y (trim-append now w t h)
    | inr n ↦ rw n refl
  ]

  pub trim-trim :
      (first now : ℕ) (w : List ℕ)
      → first ≤ now
      → trim second now (trim second first w) ≡ trim second now w
  unfolding trim
  trim-trim first now [] h = refl
  trim-trim first now (t ∷ w) h = elim (Bool-cases (is_old second first t)) [
    | inl y ↦
        let later : is_old second now t ≡ true = ground arith in
        rw (y, later) (trim-trim first now w h)
    | inr n ↦ rw n refl
  ]

  pub live-not-stale :
      (now t : ℕ) (w : List ℕ) → All (IsLive now) (t ∷ w) → is_stale second now (t ∷ w) ≡ false
  unfolding is_stale
  live-not-stale now t [] (h, _) = h
  live-not-stale now t (u ∷ w) (_, rest) = live-not-stale now u w rest

  pub stale-trim :
      (now : ℕ) (w : List ℕ)
      → is_stale second now w ≡ true
      → All (IsLive now) (trim second now w)
      → trim second now w ≡ []
  unfolding trim is_stale
  stale-trim now [] s h = refl
  stale-trim now (t ∷ []) s h = rw s refl
  stale-trim now (t ∷ u ∷ w) s h = elim (Bool-cases (is_old second now t)) [
    | inl y ↦ rw y (stale-trim now (u ∷ w) s (rw y at h))
    | inr n ↦ absurd (ground (arith, s, live-not-stale now u w (rw n at h).1))
  ]

  pub stale-later :
      (first now : ℕ) (w : List ℕ)
      → first ≤ now
      → is_stale second first w ≡ true
      → is_stale second now w ≡ true
  unfolding is_stale
  stale-later first now [] h s = refl
  stale-later first now (t ∷ []) h s = ground (arith, s)
  stale-later first now (t ∷ u ∷ w) h s = stale-later first now (u ∷ w) h s

  pub consume-same :
      (ws : Windows) (key : String) (limit now : ℕ)
      → (consume_rate_limit second ws key limit now).1 key ≡ (
          if leb limit (length (trim second now (ws key)))
          then trim second now (ws key)
          else trim second now (ws key) ++ (now ∷ []))
  unfolding consume_rate_limit
  consume-same ws key limit now =
      elim (Bool-cases (leb limit (length (trim second now (ws key))))) [
        | inl y ↦ rw (y, beq_self key) refl
        | inr n ↦ rw (n, beq_self key) refl
      ]

  pub consume-other :
      (ws : Windows) (key : String) (limit now : ℕ) (k : String)
      → (k == key) ≡ false
      → (consume_rate_limit second ws key limit now).1 k
        ≡ (if is_stale second now (ws k) then [] else ws k)
  unfolding consume_rate_limit
  consume-other ws key limit now k h =
      elim (Bool-cases (leb limit (length (trim second now (ws key))))) [
        | inl y ↦ rw (y, h) refl
        | inr n ↦ rw (n, h) refl
      ]
