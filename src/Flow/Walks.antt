-- ===== src/Flow/Walks.antt =====
-- Walks along the successors of nodes, and sets of nodes without a cycle.
use mathlib.Core.Path.{subst}
use aezab.Prelude.{
  ℕ, ◌≤◌, ◌<◌, ◌≡◌, refl, sym, ap, ◌∙◌, inl, inr, ◌⊎◌, nat_eq, nat_beq_iff, true, false, not, List,
  [], ◌∷◌, All, arith, Bool-cases, ◌==◌,
}
use aezab.Prelude.Counting.{count, count-le, All-all}
use aezab.Flow.{mem, remove}

pub mem_self : (i : ℕ) (l : List ℕ) → mem i (i ∷ l) ≡ true
mem_self i l = ground (arith, nat_beq_iff i i)

pub mem-cons : (i k : ℕ) (l : List ℕ) → mem i l ≡ true → mem i (k ∷ l) ≡ true
mem-cons i k l h = ground (arith, h)

pub mem-split : (i k : ℕ) (l : List ℕ) → mem i (k ∷ l) ≡ true → (i ≡ k) ⊎ (mem i l ≡ true)
mem-split i k l h = elim (Bool-cases (k == i)) [
  | inl y ↦ inl (sym ((nat_beq_iff k i).0 y))
  | inr n ↦ inr (ground (arith, h, n))
]

pub All-mem : (P : ℕ → Type 0) (l : List ℕ) → ((i : ℕ) → mem i l ≡ true → P i) → All P l
All-mem P [] h = tt
All-mem P (k ∷ l) h = (h k (mem_self k l), All-mem P l (λ i m. h i (mem-cons i k l m)))

pub remove-absent : (i : ℕ) (l : List ℕ) → mem i l ≡ false → remove i l ≡ l
unfolding remove
remove-absent i [] h = refl
remove-absent i (k ∷ l) h =
    let off : (k == i) ≡ false = ground (arith, h) in
    rw off (ap (λ r. k ∷ r) (remove-absent i l (ground (arith, h))))

-- The nodes that are not in a list.
abbrev pub left_of : List ℕ → List ℕ → ℕ
left_of nodes v = count (λ n. not (mem n v)) nodes

left_of-le : (nodes v : List ℕ) (i : ℕ) → left_of nodes (i ∷ v) ≤ left_of nodes v
left_of-le nodes v i =
    count-le (λ n. not (mem n (i ∷ v))) (λ n. not (mem n v)) nodes
      (All-all (λ n. not (mem n (i ∷ v)) ≡ true → not (mem n v) ≡ true) nodes
        (λ n h. ground (arith, h)))

pub left_of-less :
    (nodes v : List ℕ) (i : ℕ)
    → mem i nodes ≡ true
    → mem i v ≡ false
    → left_of nodes (i ∷ v) < left_of nodes v
left_of-less [] v i h k = absurd (ground (arith, h))
left_of-less (n ∷ nodes) v i h k = elim (Bool-cases (n == i)) [
  | inl y ↦
      let same = (nat_beq_iff n i).0 y in
      rw same (ground (arith, k, left_of-le nodes v i, nat_beq_iff i i))
  | inr m ↦ ground (arith, left_of-less nodes v i (ground (arith, h, m)) k, left_of-le nodes v i)
]

module _ (next : ℕ → List ℕ) where
  abbrev pub Edge : ℕ → ℕ → Type 0
  Edge i j = mem j (next i) ≡ true

  -- A walk of one edge or more.
  pub data Walk (i : ℕ) : ℕ → Type 0 where
    one : {j : ℕ} → Edge i j → Walk i j
    more : (j : ℕ) {k : ℕ} → Walk i j → Edge j k → Walk i k

  -- Each node's successors come behind it in the list.
  abbrev pub Sorted : List ℕ → Type 0
  Sorted [] = Unit
  Sorted (n ∷ d) = ((j : ℕ) → Edge n j → mem j d ≡ true) × Sorted d

  Sorted-next : (d : List ℕ) (i j : ℕ) → Sorted d → mem i d ≡ true → Edge i j → mem j d ≡ true
  Sorted-next [] i j s h e = absurd (ground (arith, h))
  Sorted-next (n ∷ d) i j s h e = elim (mem-split i n d h) [
    | inl same ↦ mem-cons j n d (s.0 j (ap (λ x. mem j (next x)) (sym same) ∙ e))
    | inr m ↦ mem-cons j n d (Sorted-next d i j s.1 m e)
  ]

  Sorted-Walk : (d : List ℕ) (i j : ℕ) → Sorted d → mem i d ≡ true → Walk i j → mem j d ≡ true
  Sorted-Walk d i j s h (one e) = Sorted-next d i j s h e
  Sorted-Walk d i j s h (more k w e) = Sorted-next d k j s (Sorted-Walk d i k s h w) e

  -- A walk from the head ends behind it.
  head-Walk : (n : ℕ) (d : List ℕ) (j : ℕ) → Sorted (n ∷ d) → Walk n j → mem j d ≡ true
  head-Walk n d j s (one e) = s.0 j e
  head-Walk n d j s (more k w e) = Sorted-next d k j s.1 (head-Walk n d k s w) e

  -- A sorted list has no node on a cycle.
  pub Sorted-acyclic : (d : List ℕ) (i : ℕ) → Sorted d → mem i d ≡ true → Walk i i → ⊥
  Sorted-acyclic [] i s h w = absurd (ground (arith, h))
  Sorted-acyclic (n ∷ d) i s h w = elim (Bool-cases (mem i d)) [
    | inl y ↦ Sorted-acyclic d i s.1 y w
    | inr m ↦ elim (mem-split i n d h) [
      | inl same ↦
          let back = head-Walk n d n s (subst (λ x. Walk x x) same w) in
          absurd (ground (arith, m, back, ap (λ x. mem x d) same))
      | inr y ↦ Sorted-acyclic d i s.1 y w
    ]
  ]
