-- ===== src/Decision/Valid.antt =====
-- The distribution of an answer: its probabilities, its keys and its maximum.
use mathlib.Core.Path.{subst}
use aezab.Prelude.{
  ℕ, ◌≡◌, refl, sym, ap, ◌∙◌, inl, inr, ◌⊎◌, String, string_eq, true, false, not, ◌&&◌, Option,
  none, some, some_inj, List, [], ◌∷◌, All, any, arith, Bool-cases, ◌==◌, if◌then◌else◌, and-left,
  and-right, Bool, map, eq_iff,
}
use aezab.Prelude.Dict.{Dict, get, has}
use aezab.Prelude.Int.{pos, negsuc}
use aezab.Value.{Value, null, bool, int, float, str, arr, obj, Runtime}
use aezab.Gateway.Schema.{keys}
use aezab.Workflow.State.{DecisionConfig}
use aezab.Decision.{
  FloatMath, DecisionResult, same_keys, probability, and_probability, probabilities_of, values,
  is_top, max_from,
}

module _ (py : Runtime) (math : FloatMath) where
  -- The value of an answer's probability or confidence.
  abbrev pub IsProbability : String → Type 0
  IsProbability p =
      (p ≡ py.float_of_int (pos 0))
      ⊎ ((p ≡ py.float_of_int (pos 1))
          ⊎ ((py.float_le "0.0" p && py.float_le p "1.0" && math.is_finite p) ≡ true))

  -- The order of the texts that are probabilities, none of which is a NaN.
  pub record FloatOrder : Type 0 where
    pub lt_irrefl : (a : String) → IsProbability a → py.float_lt a a ≡ false
    pub lt_trans :
        (a b c : String)
        → IsProbability a
        → IsProbability b
        → IsProbability c
        → py.float_lt a b ≡ true
        → py.float_lt b c ≡ true
        → py.float_lt a c ≡ true
    pub lt_compare :
        (a b c : String)
        → IsProbability a
        → IsProbability b
        → IsProbability c
        → py.float_lt a c ≡ true
        → (py.float_lt a b ≡ true) ⊎ (py.float_lt b c ≡ true)

  -- A result that is valid for a config: one of the choices, with a probability that none exceeds, from a
  -- distribution over exactly the choices.
  pub record IsValid (config : DecisionConfig) (r : DecisionResult) : Type 0 where
    pub listed : has config.choices r.choice ≡ true
    pub complete : (k : String) → has r.probabilities k ≡ has config.choices k
    pub in_range : All (λ e. IsProbability e.1) r.probabilities
    pub sums_up : math.is_close_to_one (math.sum (map (λ e. e.1) r.probabilities)) ≡ true
    pub probability_of : String
    pub found : get r.probabilities r.choice ≡ some probability_of
    pub top : All (λ e. py.float_lt probability_of e.1 ≡ false) r.probabilities
    pub sure : IsProbability r.confidence

  pub values-map : (ps : Dict String String) → values py math ps ≡ map (λ e. e.1) ps
  unfolding values
  values-map [] = refl
  values-map ((k, p) ∷ ps) = ap (λ t. p ∷ t) (values-map ps)

  -- What is not below the maximum of a list is below none of its elements.
  max_from-top :
      FloatOrder
      → (p best : String) (ps : Dict String String) → IsProbability p
      → IsProbability best
      → All (λ e. IsProbability e.1) ps
      → py.float_lt p (max_from py math best (values py math ps)) ≡ false
      → (py.float_lt p best ≡ false) × All (λ e. py.float_lt p e.1 ≡ false) ps
  unfolding max_from values
  max_from-top order p best [] hp hb hs h = (h, tt)
  max_from-top order p best ((k, q) ∷ ps) hp hb (hq, hs) h =
      elim (Bool-cases (py.float_lt best q)) [
        | inl y ↦
            let (below, rest) =
              max_from-top order p q ps hp hq hs (rw (y, max_from, values) at h) in
            (
              elim (Bool-cases (py.float_lt p best)) [
                | inl z ↦ absurd (ground (arith, below, order.lt_trans p best q hp hb hq z y))
                | inr z ↦ z
              ],
              (below, rest),
            )
        | inr n ↦
            let (below, rest) =
              max_from-top order p best ps hp hb hs (rw (n, max_from, values) at h) in
            (
              below,
              (
                elim (Bool-cases (py.float_lt p q)) [
                  | inl z ↦ elim (order.lt_compare p best q hp hb hq z) [
                    | inl u ↦ absurd (ground (arith, below, u))
                    | inr u ↦ absurd (ground (arith, n, u))
                  ]
                  | inr z ↦ z
                ],
                rest,
              ),
            )
      ]

  pub is_top-top :
      FloatOrder
      → (p : String) (ps : Dict String String) → IsProbability p
      → All (λ e. IsProbability e.1) ps
      → is_top py math (some p) (values py math ps) ≡ true
      → All (λ e. py.float_lt p e.1 ≡ false) ps
  unfolding values
  is_top-top order p [] hp hs h = tt
  is_top-top order p ((k, q) ∷ ps) hp (hq, hs) h =
      max_from-top order p q ps hp hq hs (ground (arith, h))

  pub get-IsProbability :
      (ps : Dict String String) (k p : String)
      → All (λ e. IsProbability e.1) ps
      → get ps k ≡ some p
      → IsProbability p
  unfolding get
  get-IsProbability [] k p hs h = absurd (ground (arith, h))
  get-IsProbability ((j, q) ∷ ps) k p (hq, hs) h = elim (Bool-cases (j == k)) [
    | inl y ↦ subst IsProbability (some_inj (rw y at h)) hq
    | inr n ↦ get-IsProbability ps k p hs (rw n at h)
  ]

  pub is_top-found :
      (o : Option String) (ps : List String)
      → is_top py math o ps ≡ true
      → (p : String) × (o ≡ some p)
  is_top-found none ps h = absurd (ground (arith, h))
  is_top-found (some p) ps h = (p, refl)

  -- A test of all elements, none of which fails it.
  keys-has :
      (d : Dict String String) (e : String → Bool) (k : String)
      → any (λ j. not (e j)) (keys d) ≡ false
      → has d k ≡ true
      → e k ≡ true
  unfolding keys has
  keys-has [] e k h g = absurd (ground (arith, g))
  keys-has ((j, v) ∷ d) e k h g = elim (Bool-cases (j == k)) [
    | inl y ↦ subst (λ i. e i ≡ true) ((eq_iff j k).0 y) (ground (arith, h))
    | inr n ↦ keys-has d e k (ground (arith, h)) (rw n at g)
  ]

  pub same_keys-has :
      (d e : Dict String String) (k : String) → same_keys d e ≡ true → has d k ≡ has e k
  same_keys-has d e k h =
      let there = any (λ j. not (has e j)) (keys d) in
      let back = any (λ j. not (has d j)) (keys e) in
      let there_ok : there ≡ false = ground (arith, and-left (not there) (not back) h) in
      let back_ok : back ≡ false = ground (arith, and-right (not there) (not back) h) in
      elim (Bool-cases (has d k)) [
        | inl y ↦ y ∙ sym (keys-has d (has e) k there_ok y)
        | inr n ↦ elim (Bool-cases (has e k)) [
          | inl z ↦ absurd (ground (arith, n, keys-has e (has d) k back_ok z))
          | inr z ↦ n ∙ sym z
        ]
      ]

  pub probability-some : (v : Value) (p : String) → probability py math v ≡ some p → IsProbability p
  unfolding probability
  probability-some null p h = absurd (ground (arith, h))
  probability-some (bool b) p h = absurd (ground (arith, h))
  probability-some (int (pos ℕ.zero)) p h = inl (sym (some_inj h))
  probability-some (int (pos (ℕ.suc ℕ.zero))) p h = inr (inl (sym (some_inj h)))
  probability-some (int (pos (ℕ.suc (ℕ.suc n)))) p h = absurd (ground (arith, h))
  probability-some (int (negsuc n)) p h = absurd (ground (arith, h))
  probability-some (float t) p h =
      elim (Bool-cases (py.float_le "0.0" t && py.float_le t "1.0" && math.is_finite t)) [
        | inl y ↦ inr (
            inr (
              ap (λ x. py.float_le "0.0" x && py.float_le x "1.0" && math.is_finite x)
                (sym (some_inj (rw y at h)))
              ∙ y))
        | inr n ↦ absurd (ground (arith, rw n at h))
      ]
  probability-some (str t) p h = absurd (ground (arith, h))
  probability-some (arr xs) p h = absurd (ground (arith, h))
  probability-some (obj es) p h = absurd (ground (arith, h))

  and_probability-some :
      (k : String) (o : Option String) (rest : Option (Dict String String)) (l : Dict String String)
      → and_probability py math k o rest ≡ some l
      → (p : String) × (t : Dict String String) × (o ≡ some p) × (rest ≡ some t) × (l ≡ (k, p) ∷ t)
  and_probability-some k none rest l h = absurd (ground (arith, h))
  and_probability-some k (some p) none l h = absurd (ground (arith, h))
  and_probability-some k (some p) (some t) l h = (p, t, refl, refl, sym (some_inj h))

  pub probabilities_of-some :
      (d : Dict String Value) (l : Dict String String)
      → probabilities_of py math d ≡ some l
      → All (λ e. IsProbability e.1) l × (keys l ≡ keys d) × ((k : String) → has l k ≡ has d k)
  unfolding probabilities_of keys has
  probabilities_of-some [] l h = rw (sym (some_inj h)) (tt, refl, λ k. refl)
  probabilities_of-some ((k, v) ∷ d) l h =
      let (p, t, one, rest, e) =
        and_probability-some k (probability py math v) (probabilities_of py math d) l h in
      let (range, same, found) = probabilities_of-some d t rest in
      rw e (
        (probability-some v p one, range),
        ap (λ x. k ∷ x) same,
        λ j. ap (λ x. if k == j then true else x) (found j),
      )

  pub same_keys-some :
      (d : Dict String Value) (l choices : Dict String String)
      → probabilities_of py math d ≡ some l
      → same_keys d choices ≡ true
      → same_keys l choices ≡ true
  same_keys-some d l choices h k =
      let (_, same, found) = probabilities_of-some d l h in
      let has_same : has l ≡ has d = λ i j. found j i in
      ap
        (λ ks.
          not (any (λ j. not (has choices j)) ks) && not (any (λ j. not (has l j)) (keys choices)))
        same
      ∙ ap
          (λ test.
            not (any (λ j. not (has choices j)) (keys d))
            && not (any (λ j. not (test j)) (keys choices)))
          has_same
      ∙ k
