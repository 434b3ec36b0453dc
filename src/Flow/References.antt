-- ===== src/Flow/References.antt =====
-- What a reference of a route stands for.
use aezab.Prelude.{
  ℕ, ◌≡◌, refl, ap, ◌∙◌, inl, inr, String, string_eq, Bool, false, Option, none, some, List, [],
  ◌∷◌, Bool-cases, ◌==◌, if◌then◌else◌,
}
use aezab.Prelude.Int.{show_nat}
use aezab.Prelude.Dict.{Dict, get, get-put}
use aezab.Flow.{StepPayload, put_ref, put_refs, refs_of}

abbrev is_ref : Option String → String → Bool
is_ref none target = false
is_ref (some ref) target = ref == target

-- The number of the first step whose field is the target.
abbrev pub first_with : (StepPayload → Option String) → List (ℕ × StepPayload) → String → Option ℕ
first_with field [] target = none
first_with field ((i, s) ∷ steps) target =
    if is_ref (field s) target then some i else first_with field steps target

abbrev pub or_else : Option ℕ → Option ℕ → Option ℕ
or_else none next = next
or_else (some i) next = some i

-- An id, else a name, else the decimal text of an order.
abbrev pub reference : List (ℕ × StepPayload) → String → Option ℕ
reference steps target = or_else (first_with (λ s. s.id) steps target) (
    or_else (first_with (λ s. some s.name) steps target)
      (first_with (λ s. some (show_nat s.order)) steps target))

put_ref-get :
    (o : Option String) (i : ℕ) (refs : Dict String ℕ) (target : String)
    → get (put_ref o i refs) target ≡ (if is_ref o target then some i else get refs target)
put_ref-get none i refs target = refl
put_ref-get (some ref) i refs target = get-put refs ref target i

put_refs-get :
    (field : StepPayload → Option String) (steps : List (ℕ × StepPayload)) (refs : Dict String ℕ)
    (target : String)
    → get (put_refs field steps refs) target
      ≡ or_else (first_with field steps target) (get refs target)
unfolding put_refs
put_refs-get field [] refs target = refl
put_refs-get field ((i, s) ∷ steps) refs target =
    put_ref-get (field s) i (put_refs field steps refs) target
    ∙ elim (Bool-cases (is_ref (field s) target)) [
      | inl y ↦ rw y refl
      | inr n ↦ rw n (put_refs-get field steps refs target)
    ]

or_else-none : (o : Option ℕ) → or_else o none ≡ o
or_else-none none = refl
or_else-none (some i) = refl

-- The dict of the references agrees with the precedence of id, name and order.
pub refs_of-reference :
    (steps : List (ℕ × StepPayload)) (target : String)
    → get (refs_of steps) target ≡ reference steps target
unfolding refs_of get
refs_of-reference steps target =
    put_refs-get (λ s. s.id) steps _ target
    ∙ ap (or_else (first_with (λ s. s.id) steps target)) (
        put_refs-get (λ s. some s.name) steps _ target
        ∙ ap (or_else (first_with (λ s. some s.name) steps target)) (
            put_refs-get (λ s. some (show_nat s.order)) steps [] target
            ∙ or_else-none (first_with (λ s. some (show_nat s.order)) steps target)))
