-- ===== src/Flow/Search.antt =====
-- The search finds a cycle exactly if there is one.
use mathlib.Core.Path.{subst}
use aezab.Prelude.{
  ℕ, zero, suc, ◌+◌, ◌≤◌, ◌<◌, ◌≡◌, ◌↔◌, refl, sym, ap, ◌∙◌, inl, inr, nat_eq, nat_beq_iff, Bool,
  true, false, List, [], ◌∷◌, length, arith, Bool-cases,
}
use aezab.Flow.{mem, remove, Marks, visit_any, leave, visit, no_marks, has_cycle}
use aezab.Flow.Walks.{
  mem_self, mem-cons, mem-split, remove-absent, left_of, left_of-less, Edge, Walk, one, more,
  Sorted, Sorted-acyclic,
}

visit_any-found :
    (seek : ℕ → Marks → Bool × Marks) (i : ℕ) (l : List ℕ) (m : Marks)
    → (seek i m).0 ≡ true
    → visit_any seek (i ∷ l) m ≡ (true, (seek i m).1)
unfolding visit_any
visit_any-found seek i l m h = rw (h, visit_any) refl

visit_any-next :
    (seek : ℕ → Marks → Bool × Marks) (i : ℕ) (l : List ℕ) (m : Marks)
    → (seek i m).0 ≡ false
    → visit_any seek (i ∷ l) m ≡ visit_any seek l (seek i m).1
unfolding visit_any
visit_any-next seek i l m h = rw (h, visit_any) refl

module _ (next : ℕ → List ℕ) where
  -- Where the search from a node is, in terms of the marks.
  entered : ℕ → ℕ → Marks → Bool × Marks
  entered fuel i m = visit_any (visit next fuel) (next i) (record m { visiting = i ∷ m.visiting })

  visit-on_path :
      (fuel i : ℕ) (m : Marks) → mem i m.visiting ≡ true → visit next (suc fuel) i m ≡ (true, m)
  unfolding visit
  visit-on_path fuel i m h = rw (h, visit) refl

  visit-seen :
      (fuel i : ℕ) (m : Marks)
      → mem i m.visiting ≡ false
      → mem i m.visited ≡ true
      → visit next (suc fuel) i m ≡ (false, m)
  unfolding visit
  visit-seen fuel i m h k = rw (h, k, visit) refl

  visit-new :
      (fuel i : ℕ) (m : Marks)
      → mem i m.visiting ≡ false
      → mem i m.visited ≡ false
      → visit next (suc fuel) i m ≡ leave i (entered fuel i m)
  unfolding visit entered
  visit-new fuel i m h k = rw (h, k, visit) refl

  abbrev Within : List ℕ → List ℕ → Type 0
  Within d e = (k : ℕ) → mem k d ≡ true → mem k e ≡ true

  -- What a search that finds nothing leaves: the path as it was, and a sorted list of the nodes seen.
  record IsClear (m n : Marks) : Type 0 where
    same_path : n.visiting ≡ m.visiting
    sorted : Sorted next n.visited
    grows : Within m.visited n.visited

  abbrev IsSearch : (ℕ → Marks → Bool × Marks) → Type 0
  IsSearch seek =
      (i : ℕ) (m : Marks)
      → (seek i m).0 ≡ false
      → Sorted next m.visited
      → IsClear m (seek i m).1 × (mem i (seek i m).1.visited ≡ true)

  visit_any-IsClear :
      (seek : ℕ → Marks → Bool × Marks) (l : List ℕ) (m : Marks)
      → IsSearch seek
      → (visit_any seek l m).0 ≡ false
      → Sorted next m.visited
      → IsClear m (visit_any seek l m).1
        × ((k : ℕ) → mem k l ≡ true → mem k (visit_any seek l m).1.visited ≡ true)
  unfolding visit_any
  visit_any-IsClear seek [] m v e s =
      (record { same_path = refl; sorted = s; grows = λ k h. h }, λ k h. absurd (ground (arith, h)))
  visit_any-IsClear seek (i ∷ l) m v e s = elim (Bool-cases (seek i m).0) [
    | inl y ↦ absurd (ground (arith, e, visit_any-found seek i l m y))
    | inr n ↦
        let (first, here) = v i m n s in
        let go = visit_any-next seek i l m n in
        let (rest, all_) =
          visit_any-IsClear seek l (seek i m).1 v (ap (λ p. p.0) (sym go) ∙ e) first.sorted in
        rw go (
          record {
            same_path = rest.same_path ∙ first.same_path;
            sorted = rest.sorted;
            grows = λ k h. rest.grows k (first.grows k h);
          },
          λ k h. elim (mem-split k i l h) [
            | inl same ↦ rest.grows k (ap (λ x. mem x (seek i m).1.visited) same ∙ here)
            | inr there ↦ all_ k there
          ],
        )
  ]

  leave-IsClear :
      (i : ℕ) (m : Marks) (o : Bool × Marks)
      → mem i m.visiting ≡ false
      → (leave i o).0 ≡ false
      → (o.0 ≡ false
          → IsClear (record m { visiting = i ∷ m.visiting }) o.1
            × ((k : ℕ) → Edge next i k → mem k o.1.visited ≡ true))
      → IsClear m (leave i o).1 × (mem i (leave i o).1.visited ≡ true)
  unfolding remove
  leave-IsClear i m (true, n) h e c = absurd (ground (arith, e))
  leave-IsClear i m (false, n) h e c =
      let (clear, all_) = c refl in
      (
        record {
          same_path =
              ap (remove i) clear.same_path
              ∙ rw ((nat_beq_iff i i).1 refl) (remove-absent i m.visiting h);
          sorted = (all_, clear.sorted);
          grows = λ k p. mem-cons k i n.visited (clear.grows k p);
        },
        mem_self i n.visited,
      )

  visit-IsClear : (fuel : ℕ) → IsSearch (visit next fuel)
  unfolding visit entered
  visit-IsClear zero i m e s = absurd (ground (arith, e))
  visit-IsClear (suc fuel) i m e s = elim (Bool-cases (mem i m.visiting)) [
    | inl y ↦ absurd (ground (arith, e, visit-on_path fuel i m y))
    | inr n ↦ elim (Bool-cases (mem i m.visited)) [
      | inl y ↦
          rw (visit-seen fuel i m n y)
            (record { same_path = refl; sorted = s; grows = λ k h. h }, y)
      | inr u ↦
          let go = visit-new fuel i m n u in
          rw go (
            leave-IsClear i m (entered fuel i m) n (ap (λ p. p.0) (sym go) ∙ e) (λ f.
              visit_any-IsClear (visit next fuel) (next i) (record m { visiting = i ∷ m.visiting })
                (visit-IsClear fuel) f s))
    ]
  ]

  module _ (nodes : List ℕ) (inside : (i j : ℕ) → Edge next i j → mem j nodes ≡ true) where
    abbrev Cycle : Type 0
    Cycle = (n : ℕ) × Walk next n n

    -- A search that finds something finds a cycle, if it starts with enough fuel from a node that
    -- every node of the path walks to.
    abbrev IsFinder : ℕ → (ℕ → Marks → Bool × Marks) → Type 0
    IsFinder fuel seek =
        (i : ℕ) (m : Marks)
        → (seek i m).0 ≡ true
        → Sorted next m.visited
        → mem i nodes ≡ true
        → ((k : ℕ) → mem k m.visiting ≡ true → Walk next k i)
        → left_of nodes m.visiting < fuel
        → Cycle

    visit_any-finds :
        (fuel : ℕ) (seek : ℕ → Marks → Bool × Marks) (l : List ℕ) (m : Marks)
        → IsSearch seek
        → IsFinder fuel seek
        → (visit_any seek l m).0 ≡ true
        → Sorted next m.visited
        → ((i : ℕ) → mem i l ≡ true → mem i nodes ≡ true)
        → ((i k : ℕ) → mem i l ≡ true → mem k m.visiting ≡ true → Walk next k i)
        → left_of nodes m.visiting < fuel
        → Cycle
    unfolding visit_any
    visit_any-finds fuel seek [] m v f e s n w b = absurd (ground (arith, e))
    visit_any-finds fuel seek (i ∷ l) m v f e s n w b = elim (Bool-cases (seek i m).0) [
      | inl y ↦ f i m y s (n i (mem_self i l)) (λ k h. w i k (mem_self i l) h) b
      | inr o ↦
          let clear = (v i m o s).0 in
          let same = clear.same_path in
          visit_any-finds fuel seek l (seek i m).1 v f
            (ap (λ p. p.0) (sym (visit_any-next seek i l m o)) ∙ e) clear.sorted
            (λ j h. n j (mem-cons j i l h))
            (λ j k h p. w j k (mem-cons j i l h) (ap (mem k) (sym same) ∙ p)) (rw same b)
    ]

    leave-found : (i : ℕ) (o : Bool × Marks) → (leave i o).0 ≡ true → o.0 ≡ true
    leave-found i (true, n) h = refl
    leave-found i (false, n) h = h

    visit-finds : (fuel : ℕ) → IsFinder fuel (visit next fuel)
    unfolding entered
    visit-finds zero i m e s n w b = absurd (omega arith)
    visit-finds (suc fuel) i m e s n w b = elim (Bool-cases (mem i m.visiting)) [
      | inl y ↦ (i, w i y)
      | inr o ↦ elim (Bool-cases (mem i m.visited)) [
        | inl y ↦ absurd (ground (arith, e, visit-seen fuel i m o y))
        | inr u ↦
            visit_any-finds fuel (visit next fuel) (next i) (record m { visiting = i ∷ m.visiting })
              (visit-IsClear fuel) (visit-finds fuel)
              (leave-found i (entered fuel i m) (ap (λ p. p.0) (sym (visit-new fuel i m o u)) ∙ e))
              s (λ j h. inside i j h)
              (λ j k h p. elim (mem-split k i m.visiting p) [
                | inl same ↦ subst (λ x. Walk next x j) (sym same) (one h)
                | inr q ↦ more i (w k q) h
              ])
              (omega (arith, left_of-less nodes m.visiting i n o))
      ]
    ]

    left_of-length : (l : List ℕ) → left_of l [] ≤ length l
    left_of-length [] = omega arith
    left_of-length (i ∷ l) = omega (arith, left_of-length l)

    last-inside : (i j : ℕ) → Walk next i j → mem j nodes ≡ true
    last-inside i j (one e) = inside i j e
    last-inside i j (more k w e) = inside k j e

    -- The search reports no cycle exactly if no walk comes back to where it starts.
    pub has_cycle_lem : (has_cycle next nodes ≡ false) ↔ ((n : ℕ) → ¬ (Walk next n n))
    unfolding has_cycle
    has_cycle_lem = (
      λ h n w.
          let seen =
            visit_any-IsClear (visit next (length nodes + 1)) nodes no_marks
              (visit-IsClear (length nodes + 1)) h tt in
          Sorted-acyclic next _ n seen.0.sorted (seen.1 n (last-inside n n w)) w,
      λ none_. elim (Bool-cases (has_cycle next nodes)) [
        | inl y ↦
            let (n, w) =
              visit_any-finds (length nodes + 1) (visit next (length nodes + 1)) nodes no_marks
                (visit-IsClear (length nodes + 1)) (visit-finds (length nodes + 1)) y tt (λ i h. h)
                (λ i k h p. absurd (ground (arith, p))) (omega (arith, left_of-length nodes)) in
            absurd (none_ n w)
        | inr o ↦ o
      ],
    )
