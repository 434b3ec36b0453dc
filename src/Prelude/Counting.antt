-- ===== src/Prelude/Counting.antt =====
-- Counts of the elements of a list that pass a test, and predicates on all elements of a list that is
-- split at one of them.
use native.Mathlib.Omega.{arith}
use Prim.Native.Nat.{ℕ, ◌+◌, ◌≤◌}
use mathlib.Core.Path.{◌≡◌, refl}
use mathlib.Core.Logic.{inl, inr}
use mathlib.Core.Bool.{Bool, true, false}
use mathlib.Core.List.{List, [], ◌∷◌, ◌++◌}
use aezab.Prelude.Tests.{Bool-cases, if◌then◌else◌}
use aezab.Prelude.Lists.{All}

module _ {ℓ} {A : Type ℓ} where
  abbrev pub count : (A → Bool) → List A → ℕ
  count p [] = 0
  count p (x ∷ xs) = (if p x then 1 else 0) + count p xs

  pub count-split :
      (p : A → Bool) (front : List A) (x : A) (back : List A)
      → count p (front ++ (x ∷ back)) ≡ (if p x then 1 else 0) + count p (front ++ back)
  count-split p [] x back = refl
  count-split p (y ∷ front) x back = omega (arith, count-split p front x back)

  pub count-zero : (p : A → Bool) (xs : List A) → count p xs ≡ 0 → All (λ x. p x ≡ false) xs
  count-zero p [] h = tt
  count-zero p (x ∷ xs) h = elim (Bool-cases (p x)) [
    | inl y ↦ absurd (omega (arith, rw y at h))
    | inr n ↦ (n, count-zero p xs (omega (arith, rw n at h)))
  ]

  pub count-le :
      (p q : A → Bool) (xs : List A)
      → All (λ x. p x ≡ true → q x ≡ true) xs
      → count p xs ≤ count q xs
  count-le p q [] h = omega arith
  count-le p q (x ∷ xs) (h, rest) = ground (arith, h, count-le p q xs rest)

module _ {ℓ κ μ} {A : Type ℓ} (P : A → Type κ) (Q : A → Type μ) where
  pub All-map : (xs : List A) → ((x : A) → P x → Q x) → All P xs → All Q xs
  All-map [] f h = tt
  All-map (x ∷ xs) f (h, rest) = (f x h, All-map xs f rest)

  pub All-both : (xs : List A) → All P xs → All Q xs → All (λ x. P x × Q x) xs
  All-both [] h k = tt
  All-both (x ∷ xs) (h, hs) (k, ks) = ((h, k), All-both xs hs ks)

module _ {ℓ κ} {A : Type ℓ} (P : A → Type κ) where
  pub All-all : (xs : List A) → ((x : A) → P x) → All P xs
  All-all [] f = tt
  All-all (x ∷ xs) f = (f x, All-all xs f)

  pub All-middle : (front : List A) (x : A) (back : List A) → All P (front ++ (x ∷ back)) → P x
  All-middle [] x back h = h.0
  All-middle (y ∷ front) x back h = All-middle front x back h.1

  pub All-without :
      (front : List A) (x : A) (back : List A) → All P (front ++ (x ∷ back)) → All P (front ++ back)
  All-without [] x back h = h.1
  All-without (y ∷ front) x back h = (h.0, All-without front x back h.1)

  pub All-replace :
      (front : List A) (x y : A) (back : List A)
      → P y
      → All P (front ++ (x ∷ back))
      → All P (front ++ (y ∷ back))
  All-replace [] x y back p h = (p, h.1)
  All-replace (z ∷ front) x y back p h = (h.0, All-replace front x y back p h.1)

  pub All-insert :
      (front : List A) (x : A) (back : List A)
      → P x
      → All P (front ++ back)
      → All P (front ++ (x ∷ back))
  All-insert [] x back p h = (p, h)
  All-insert (z ∷ front) x back p h = (h.0, All-insert front x back p h.1)
