-- ===== src/Flow/Graph.antt =====
-- The graph of the check has exactly the routes between automatic steps.
use mathlib.Core.Path.{subst}
use aezab.Prelude.{
  ℕ, ◌+◌, ◌<◌, ◌≡◌, ◌↔◌, refl, sym, ap, ◌∙◌, inl, inr, String, string_eq, nat_eq, nat_beq_iff, true,
  false, Option, none, some, some_inj, List, [], ◌∷◌, arith, Bool-cases, ◌==◌,
}
use aezab.Prelude.Dict.{Dict, get}
use aezab.Flow.{
  StepPayload, mem, common, targets_of, add_node, build, is_automatic, automatic, enumerate,
  successors,
}
use aezab.Flow.Routes.{LeadsTo, targets_of-LeadsTo, mem-cons_iff}

common-mem :
    (nodes l : List ℕ) (j : ℕ)
    → (mem j (common nodes l) ≡ true) ↔ ((mem j l ≡ true) × (mem j nodes ≡ true))
unfolding common
common-mem nodes [] j = (λ h. absurd (ground (arith, h)), λ h. absurd (ground (arith, h.0)))
common-mem nodes (i ∷ l) j =
    let rest = common-mem nodes l j in
    let c = mem-cons_iff j i l in
    elim (Bool-cases (mem i nodes)) [
      | inl y ↦
          let d = mem-cons_iff j i (common nodes l) in
          rw y (
            λ h. elim (d.0 h) [
              | inl same ↦ (c.1 (inl same), ap (λ x. mem x nodes) same ∙ y)
              | inr m ↦ (c.1 (inr (rest.0 m).0), (rest.0 m).1)
            ],
            λ h. elim (c.0 h.0) [ inl same ↦ d.1 (inl same) | inr m ↦ d.1 (inr (rest.1 (m, h.1))) ],
          )
      | inr n ↦ rw n (
        λ h. (c.1 (inr (rest.0 h).0), (rest.0 h).1),
        λ h. elim (c.0 h.0) [
          | inl same ↦ absurd (ground (arith, n, h.1, ap (λ x. mem x nodes) same))
          | inr m ↦ rest.1 (m, h.1)
        ],
      )
    ]

abbrev pub Distinct : Dict ℕ StepPayload → Type 0
Distinct [] = Unit
Distinct ((n, s) ∷ steps) = (get steps n ≡ none) × Distinct steps

enumerate-below : (k i : ℕ) (steps : List StepPayload) → i < k → get (enumerate k steps) i ≡ none
unfolding enumerate get
enumerate-below k i [] h = refl
enumerate-below k i (s ∷ steps) h =
    ground (arith, enumerate-below (k + 1) i steps (omega arith), nat_beq_iff k i)

pub enumerate-Distinct : (k : ℕ) (steps : List StepPayload) → Distinct (enumerate k steps)
unfolding enumerate
enumerate-Distinct k [] = tt
enumerate-Distinct k (s ∷ steps) =
    (enumerate-below (k + 1) k steps (omega arith), enumerate-Distinct (k + 1) steps)

-- The step with a number, and that it is automatic.
abbrev pub IsAutomatic : Dict ℕ StepPayload → ℕ → StepPayload → Type 0
IsAutomatic steps i s = (get steps i ≡ some s) × (is_automatic s ≡ true)

here_or :
    (n : ℕ) (s t : StepPayload) (steps : Dict ℕ StepPayload) (i : ℕ)
    → (n == i) ≡ false
    → IsAutomatic ((n, s) ∷ steps) i t ↔ IsAutomatic steps i t
unfolding get
here_or n s t steps i h = (λ a. (sym (rw h refl) ∙ a.0, a.1), λ a. (rw h a.0, a.1))

here_only :
    (n i : ℕ) (s t : StepPayload) (steps : Dict ℕ StepPayload)
    → (n == i) ≡ true
    → IsAutomatic ((n, s) ∷ steps) i t ↔ ((s ≡ t) × (is_automatic t ≡ true))
unfolding get
here_only n i s t steps h =
    (λ a. (some_inj (sym (rw h refl) ∙ a.0), a.1), λ a. (rw h (ap (λ x. some x) a.0), a.1))

absent :
    (n i : ℕ) (steps : Dict ℕ StepPayload)
    → (n == i) ≡ true
    → get steps n ≡ none
    → (t : StepPayload) → IsAutomatic steps i t
    → ⊥
absent n i steps h e t a = ground (arith, sym (ap (get steps) ((nat_beq_iff n i).0 h)) ∙ e, a.0)

abbrev pub AutomaticAt : Dict ℕ StepPayload → ℕ → Type 0
AutomaticAt steps i = (s : StepPayload) × IsAutomatic steps i s

pub automatic-mem :
    (steps : Dict ℕ StepPayload) (j : ℕ)
    → Distinct steps
    → (mem j (automatic steps) ≡ true) ↔ AutomaticAt steps j
unfolding automatic get
automatic-mem [] j d = (λ h. absurd (ground (arith, h)), λ a. absurd (ground (arith, a.1.0)))
automatic-mem ((n, s) ∷ steps) j d =
    let rest = automatic-mem steps j d.1 in
    elim (Bool-cases (n == j)) [
      | inl y ↦ elim (Bool-cases (is_automatic s)) [
        | inl a ↦ rw a (
          λ h. (s, (here_only n j s s steps y).1 (refl, a)),
          λ t. (mem-cons_iff j n (automatic steps)).1 (inl (sym ((nat_beq_iff n j).0 y))),
        )
        | inr o ↦ rw o (
          λ h. let (t, a) = rest.0 h in absurd (absent n j steps y d.0 t a),
          λ t.
              let b = (here_only n j s t.0 steps y).0 t.1 in
              absurd (ground (arith, o, ap is_automatic b.0, b.1)),
        )
      ]
      | inr m ↦
          let apart : (mem j (n ∷ automatic steps) ≡ true) → mem j (automatic steps) ≡ true =
            λ h. ground (arith, h, m) in
          elim (Bool-cases (is_automatic s)) [
            | inl a ↦ rw a (
              λ h. let (t, b) = rest.0 (apart h) in (t, (here_or n s t steps j m).1 b),
              λ t.
                  (mem-cons_iff j n (automatic steps)).1
                    (inr (rest.1 (t.0, (here_or n s t.0 steps j m).0 t.1))),
            )
            | inr o ↦ rw o (
              λ h. let (t, b) = rest.0 h in (t, (here_or n s t steps j m).1 b),
              λ t. rest.1 (t.0, (here_or n s t.0 steps j m).0 t.1),
            )
          ]
    ]

-- An automatic step leads on to a node.
abbrev pub RouteTo : Dict String ℕ → ℕ → List ℕ → Dict ℕ StepPayload → ℕ → ℕ → Type 0
RouteTo refs total nodes steps i j =
    ((s : StepPayload) × IsAutomatic steps i s × LeadsTo (get refs) total i s j)
    × (mem j nodes ≡ true)

add_node-some :
    (nodes : List ℕ) (n : ℕ) (o : Option (List ℕ)) (rest : Option (Dict ℕ (List ℕ)))
    (graph : Dict ℕ (List ℕ))
    → add_node nodes n o rest ≡ some graph
    → (l : List ℕ) × (g : Dict ℕ (List ℕ)) × (o ≡ some l)
      × (rest ≡ some g)
      × (graph ≡ (n, common nodes l) ∷ g)
add_node-some nodes n none rest graph h = absurd (ground (arith, h))
add_node-some nodes n (some l) none graph h = absurd (ground (arith, h))
add_node-some nodes n (some l) (some g) graph h = (l, g, refl, refl, sym (some_inj h))

skip-RouteTo :
    (refs : Dict String ℕ) (total : ℕ) (nodes : List ℕ) (n : ℕ) (s : StepPayload)
    (steps : Dict ℕ StepPayload) (i j : ℕ)
    → (n == i) ≡ false
    → RouteTo refs total nodes steps i j ↔ RouteTo refs total nodes ((n, s) ∷ steps) i j
skip-RouteTo refs total nodes n s steps i j m = (
  λ r. let (t, a, k) = r.0 in ((t, (here_or n s t steps i m).1 a, k), r.1),
  λ r. let (t, a, k) = r.0 in ((t, (here_or n s t steps i m).0 a, k), r.1),
)

first-RouteTo :
    (refs : Dict String ℕ) (total : ℕ) (nodes : List ℕ) (s : StepPayload)
    (steps : Dict ℕ StepPayload) (l : List ℕ) (i j : ℕ)
    → is_automatic s ≡ true
    → targets_of refs total i s ≡ some l
    → (mem j (common nodes l) ≡ true) ↔ RouteTo refs total nodes ((i, s) ∷ steps) i j
first-RouteTo refs total nodes s steps l i j a o =
    let self = (nat_beq_iff i i).1 refl in
    let c = common-mem nodes l j in
    let leads = targets_of-LeadsTo refs total i s l j o in
    (
      λ h. let (m, k) = c.0 h in ((s, (here_only i i s s steps self).1 (refl, a), leads.0 m), k),
      λ r.
          let (t, b, k) = r.0 in
          let same = ((here_only i i s t steps self).0 b).0 in
          c.1 (leads.1 (subst (λ x. LeadsTo (get refs) total i x j) (sym same) k), r.1),
    )

pub build-RouteTo :
    (refs : Dict String ℕ) (total : ℕ) (nodes : List ℕ) (steps : Dict ℕ StepPayload)
    (graph : Dict ℕ (List ℕ)) (i j : ℕ)
    → Distinct steps
    → build refs total nodes steps ≡ some graph
    → (mem j (successors graph i) ≡ true) ↔ RouteTo refs total nodes steps i j
unfolding build get
build-RouteTo refs total nodes [] graph i j d e = (
  λ h. absurd (ground (arith, ap (λ g. mem j (successors g i)) (some_inj e) ∙ h)),
  λ r. absurd (ground (arith, r.0.1.0)),
)
build-RouteTo refs total nodes ((n, s) ∷ steps) graph i j d e = elim (Bool-cases (is_automatic s)) [
  | inl a ↦
      let (l, g, o, rest, same) =
        add_node-some nodes n (targets_of refs total n s) (build refs total nodes steps) graph
          (rw a at e) in
      let edge = ap (λ q. mem j (successors q i)) same in
      elim (Bool-cases (n == i)) [
        | inl y ↦
            let at_i = (nat_beq_iff n i).0 y in
            let first : (mem j (common nodes l) ≡ true)
                ↔ RouteTo refs total nodes ((n, s) ∷ steps) i j =
              subst
                (λ x.
                  (mem j (common nodes l) ≡ true) ↔ RouteTo refs total nodes ((n, s) ∷ steps) x j)
                at_i (first-RouteTo refs total nodes s steps l n j a o) in
            (λ h. first.0 (rw y at (sym edge ∙ h)), λ r. edge ∙ rw y (first.1 r))
        | inr m ↦
            let ih = build-RouteTo refs total nodes steps g i j d.1 rest in
            let skip = skip-RouteTo refs total nodes n s steps i j m in
            (λ h. skip.0 (ih.0 (rw m at (sym edge ∙ h))), λ r. edge ∙ rw m (ih.1 (skip.1 r)))
      ]
  | inr o ↦
      let ih = build-RouteTo refs total nodes steps graph i j d.1 (rw o at e) in
      elim (Bool-cases (n == i)) [
        | inl y ↦ (
          λ h. let (t, b, k) = (ih.0 h).0 in absurd (absent n i steps y d.0 t b),
          λ r.
              let (t, b, k) = r.0 in
              let c = (here_only n i s t steps y).0 b in
              absurd (ground (arith, o, ap is_automatic c.0, c.1)),
        )
        | inr m ↦
            let skip = skip-RouteTo refs total nodes n s steps i j m in
            (λ h. skip.0 (ih.0 h), λ r. ih.1 (skip.1 r))
      ]
]
