-- ===== src/Flow/Routes.antt =====
-- The routes of automatic steps, described by the steps themselves, and the graph that the check builds.
use mathlib.Core.Option
use aezab.Prelude.{
  ℕ, ◌+◌, ◌<◌, ◌≡◌, ◌↔◌, refl, sym, ap, ◌∙◌, inl, inr, ◌⊎◌, String, string_eq, nat_eq, Bool, true,
  false, not, ◌&&◌, Option, none, some, some_inj, List, [], ◌∷◌, any, ltb, arith, Bool-cases,
  Option-cases, ◌==◌, if◌then◌else◌,
}
use aezab.Prelude.Dict.{Dict, get}
use aezab.Flow.{Route, StepPayload, mem, cons_ref, rule_targets, targets_of}
use aezab.Flow.Walks.{mem-split, mem-cons, mem_self}

abbrev pub AnyRule : (String → Option ℕ) → List Route → ℕ → Type 0
AnyRule find [] j = ⊥
AnyRule find (r ∷ rules) j = (find r.goto_step ≡ some j) ⊎ AnyRule find rules j

abbrev pub has_default : List Route → Bool
has_default rules = any (λ r. r.is_default) rules

-- A step may lead on to the target of a rule, to the next step where no rule is the default, and to the
-- fallback.
abbrev pub LeadsTo : (String → Option ℕ) → ℕ → ℕ → StepPayload → ℕ → Type 0
LeadsTo find total i s j =
    AnyRule find s.next_step_rules j
    ⊎ (((has_default s.next_step_rules ≡ false) × (i + 1 < total) × (j ≡ i + 1))
        ⊎ (((s.fallback_step_id == "") ≡ false) × (find s.fallback_step_id ≡ some j)))

pub mem-cons_iff : (i k : ℕ) (l : List ℕ) → (mem i (k ∷ l) ≡ true) ↔ ((i ≡ k) ⊎ (mem i l ≡ true))
mem-cons_iff i k l = (
  mem-split i k l,
  λ h. elim h [ inl same ↦ ap (λ x. mem x (k ∷ l)) same ∙ mem_self k l | inr m ↦ mem-cons i k l m ],
)

cons_ref-some :
    (o : Option ℕ) (rest : Option (List ℕ)) (l : List ℕ)
    → cons_ref o rest ≡ some l
    → (i : ℕ) × (t : List ℕ) × (o ≡ some i) × (rest ≡ some t) × (l ≡ i ∷ t)
cons_ref-some none rest l h = absurd (ground (arith, h))
cons_ref-some (some i) none l h = absurd (ground (arith, h))
cons_ref-some (some i) (some t) l h = (i, t, refl, refl, sym (some_inj h))

rule_targets-AnyRule :
    (refs : Dict String ℕ) (rules : List Route) (l : List ℕ) (j : ℕ)
    → rule_targets refs rules ≡ some l
    → (mem j l ≡ true) ↔ AnyRule (get refs) rules j
unfolding rule_targets
rule_targets-AnyRule refs [] l j h =
    (λ m. ground (arith, ap (mem j) (some_inj h) ∙ m), λ a. absurd a)
rule_targets-AnyRule refs (r ∷ rules) l j h =
    let (i, t, found, rest, e) =
      cons_ref-some (get refs r.goto_step) (rule_targets refs rules) l h in
    let ih = rule_targets-AnyRule refs rules t j rest in
    let c = mem-cons_iff j i t in
    (
      λ m. elim (c.0 (ap (mem j) (sym e) ∙ m)) [
        | inl same ↦ inl (found ∙ ap (λ x. some x) (sym same))
        | inr k ↦ inr (ih.0 k)
      ],
      λ a.
          ap (mem j) e
          ∙ elim a [ inl g ↦ c.1 (inl (some_inj (sym g ∙ found))) | inr k ↦ c.1 (inr (ih.1 k)) ],
    )

-- The targets with the next step added where no rule is the default.
abbrev with_next : List Route → ℕ → ℕ → Option (List ℕ) → Option (List ℕ)
with_next rules total i targets =
    if not (has_default rules) && ltb (i + 1) total
    then Option.map (λ l. (i + 1) ∷ l) targets
    else targets

with_next-targets :
    (refs : Dict String ℕ) (rules : List Route) (total i : ℕ) (l : List ℕ) (j : ℕ)
    → with_next rules total i (rule_targets refs rules) ≡ some l
    → (mem j l ≡ true)
      ↔ (AnyRule (get refs) rules j ⊎ ((has_default rules ≡ false) × (i + 1 < total) × (j ≡ i + 1)))
with_next-targets refs rules total i l j h =
    elim (Bool-cases (not (has_default rules) && ltb (i + 1) total)) [
      | inl y ↦ elim (Option-cases (rule_targets refs rules)) [
        | inl e ↦ absurd (ground (arith, rw (y, e) at h))
        | inr (t, e) ↦
            let c = mem-cons_iff j (i + 1) t in
            let same = some_inj (rw (y, e) at h) in
            let rest = rule_targets-AnyRule refs rules t j e in
            (
              λ m. elim (c.0 (ap (mem j) same ∙ m)) [
                | inl here ↦ inr (ground (arith, y), ground (arith, y), here)
                | inr k ↦ inl (rest.0 k)
              ],
              λ a.
                  sym (ap (mem j) same)
                  ∙ elim a [ inl k ↦ c.1 (inr (rest.1 k)) | inr (_, _, here) ↦ c.1 (inl here) ],
            )
      ]
      | inr n ↦
          let rest = rule_targets-AnyRule refs rules l j (rw n at h) in
          (
            λ m. inl (rest.0 m),
            λ a. elim a [ inl k ↦ rest.1 k | inr (d, lt, _) ↦ absurd (ground (arith, n, d, lt)) ],
          )
    ]

pub targets_of-LeadsTo :
    (refs : Dict String ℕ) (total i : ℕ) (s : StepPayload) (l : List ℕ) (j : ℕ)
    → targets_of refs total i s ≡ some l
    → (mem j l ≡ true) ↔ LeadsTo (get refs) total i s j
unfolding targets_of
targets_of-LeadsTo refs total i s l j h = elim (Bool-cases (s.fallback_step_id == "")) [
  | inl y ↦
      let rest = with_next-targets refs s.next_step_rules total i l j (rw y at h) in
      (
        λ m. elim (rest.0 m) [ inl a ↦ inl a | inr b ↦ inr (inl b) ],
        λ a. elim a [
          | inl k ↦ rest.1 (inl k)
          | inr b ↦ elim b [ inl n ↦ rest.1 (inr n) | inr (f, _) ↦ absurd (ground (arith, y, f)) ]
        ],
      )
  | inr n ↦
      let (k, t, found, more, e) =
        cons_ref-some (get refs s.fallback_step_id)
          (with_next s.next_step_rules total i (rule_targets refs s.next_step_rules)) l
          (rw n at h) in
      let rest = with_next-targets refs s.next_step_rules total i t j more in
      let c = mem-cons_iff j k t in
      (
        λ m. elim (c.0 (ap (mem j) (sym e) ∙ m)) [
          | inl here ↦ inr (inr (n, found ∙ ap (λ x. some x) (sym here)))
          | inr q ↦ elim (rest.0 q) [ inl a ↦ inl a | inr b ↦ inr (inl b) ]
        ],
        λ a. ap (mem j) e ∙ elim a [
          | inl q ↦ c.1 (inr (rest.1 (inl q)))
          | inr b ↦ elim b [
            | inl q ↦ c.1 (inr (rest.1 (inr q)))
            | inr (_, g) ↦ c.1 (inl (some_inj (sym g ∙ found)))
          ]
        ],
      )
]
