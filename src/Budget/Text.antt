-- ===== src/Budget/Text.antt =====
-- How the estimate grows, and what the truncation of a text keeps.
use aezab.Prelude.{
  ℕ, zero, suc, ◌+◌, ◌-◌, ◌/◌, ◌≤◌, ◌<◌, ◌≡◌, refl, ◌⊎◌, inl, inr, false, Bool-cases, [], ◌∷◌, ◌++◌,
  length, take, length-append, ltb, leb, ltb→lt, arith,
}
use aezab.Prelude.Int.{ℤ, pos, negsuc}
use aezab.Budget.{Text, count_cjk, estimate_tokens, longest, cut, truncate_text}

pub count_cjk_le : (t : Text) → count_cjk t ≤ length t
unfolding count_cjk
count_cjk_le [] = omega arith
count_cjk_le (c ∷ t) = ground (arith, count_cjk_le t)

count_cjk-append : (s t : Text) → count_cjk (s ++ t) ≡ count_cjk s + count_cjk t
unfolding count_cjk
count_cjk-append [] t = omega arith
count_cjk-append (c ∷ s) t = ground (arith, count_cjk-append s t)

-- The estimate of two texts together is at most the sum of theirs.
pub estimate_tokens-append :
    (s t : Text) → estimate_tokens (s ++ t) ≤ estimate_tokens s + estimate_tokens t
unfolding estimate_tokens
estimate_tokens-append s t =
    omega (arith, count_cjk-append s t, length-append s t, count_cjk_le s, count_cjk_le t)

count_cjk-take :
    (t : Text) (m n : ℕ)
    → m ≤ n
    → (count_cjk (take m t) ≤ count_cjk (take n t))
      × (length (take m t) + count_cjk (take n t) ≤ length (take n t) + count_cjk (take m t))
unfolding count_cjk
count_cjk-take t zero n h = (omega arith, omega (arith, count_cjk_le (take n t)))
count_cjk-take [] (suc m) zero h = absurd (omega arith)
count_cjk-take [] (suc m) (suc n) h = (omega arith, omega arith)
count_cjk-take (c ∷ t) (suc m) zero h = absurd (omega arith)
count_cjk-take (c ∷ t) (suc m) (suc n) h =
    let (a, b) = count_cjk-take t m n (omega arith) in (ground (arith, a, b), ground (arith, a, b))

-- A longer prefix has no smaller estimate.
pub estimate_tokens-take :
    (t : Text) (m n : ℕ) → m ≤ n → estimate_tokens (take m t) ≤ estimate_tokens (take n t)
unfolding estimate_tokens
estimate_tokens-take t m n h =
    let (a, b) = count_cjk-take t m n h in
    omega (arith, a, b, count_cjk_le (take m t), count_cjk_le (take n t))

-- The prefix of length `n` fits, and no longer one does.
abbrev pub IsLongest : Text → ℕ → ℕ → Type 0
IsLongest t budget n =
    (estimate_tokens (take n t) ≤ budget)
    × ((k : ℕ) → n < k → k ≤ length t → budget < estimate_tokens (take k t))

leb-false : {a b : ℕ} → leb a b ≡ false → b < a
leb-false h = ground arith

-- The binary search ends with the longest prefix, if its fuel covers the interval.
longest_lem :
    (t : Text) (budget fuel lo hi : ℕ)
    → lo ≤ hi
    → hi ≤ lo + fuel
    → estimate_tokens (take lo t) ≤ budget
    → ((k : ℕ) → hi < k → k ≤ length t → budget < estimate_tokens (take k t))
    → IsLongest t budget (longest t budget fuel lo hi)
unfolding longest
longest_lem t budget zero lo hi o f l h = (l, λ k a b. h k (omega arith) b)
longest_lem t budget (suc fuel) lo hi o f l h = elim (Bool-cases (ltb lo hi)) [
  | inl y ↦ elim (Bool-cases (leb (estimate_tokens (take ((lo + hi + 1) / 2) t)) budget)) [
    | inl p ↦
        rw (y, p)
          (longest_lem t budget fuel ((lo + hi + 1) / 2) hi (ground (arith, y)) (ground (arith, y))
            (ground (arith, p)) h)
    | inr q ↦
        rw (y, q)
          (longest_lem t budget fuel lo ((lo + hi + 1) / 2 - 1) (ground (arith, y))
            (ground (arith, y)) l
            (λ k a b. omega (
              arith,
              estimate_tokens-take t ((lo + hi + 1) / 2) k (ground (arith, y)),
              leb-false q,
            )))
  ]
  | inr n ↦ rw n (l, λ k a b. h k (ground (arith, n)) b)
]

-- A cut text is a prefix with the marker, where the marker fits, and the prefix is the longest that
-- fits with it.
abbrev pub IsCut : Text → ℕ → Text → Text → Type 0
IsCut t limit marker result =
    (n : ℕ) × (shown : Text) × (result ≡ take n t ++ shown)
    × (((shown ≡ marker) × (estimate_tokens marker ≤ limit))
        ⊎ ((shown ≡ []) × (limit < estimate_tokens marker)))
    × IsLongest t (limit - estimate_tokens shown) n

longest-all :
    (t : Text) (budget : ℕ) → IsLongest t budget (longest t budget (length t) 0 (length t))
unfolding estimate_tokens count_cjk
longest-all t budget =
    longest_lem t budget (length t) 0 (length t) (omega arith) (omega arith) (omega arith)
      (λ k a b. absurd (omega arith))

pub cut_lem : (t : Text) (limit : ℕ) (marker : Text) → IsCut t limit marker (cut t limit marker)
unfolding cut
cut_lem t limit marker = elim (Bool-cases (ltb limit (estimate_tokens marker))) [
  | inl y ↦ rw y (_, [], refl, inr (refl, ltb→lt _ _ y), longest-all t _)
  | inr n ↦ rw n (_, marker, refl, inl (refl, ground (arith, n)), longest-all t _)
]

shown-fits :
    (limit : ℕ) (marker shown : Text)
    → ((shown ≡ marker) × (estimate_tokens marker ≤ limit))
      ⊎ ((shown ≡ []) × (limit < estimate_tokens marker))
    → estimate_tokens shown ≤ limit
unfolding estimate_tokens count_cjk
shown-fits limit marker shown (inl (e, h)) = rw e h
shown-fits limit marker shown (inr (e, h)) = rw e (omega arith)

-- `max(0, limit)`
abbrev pub clamp : ℤ → ℕ
clamp (pos n) = n
clamp (negsuc _) = 0

IsCut-fits :
    (t : Text) (limit : ℕ) (marker result : Text)
    → IsCut t limit marker result
    → estimate_tokens result ≤ limit
IsCut-fits t limit marker result (n, shown, e, s, l) =
    rw e
      (omega (arith, estimate_tokens-append (take n t) shown, l.0, shown-fits limit marker shown s))

-- The text stays where it fits; else it becomes its longest prefix whose estimate is within the limit
-- less the marker's estimate, and the marker behind it; a marker that alone exceeds the limit is left
-- out, and counts as nothing.
pub truncate_text_lem :
    (t : Text) (limit : ℕ) (marker : Text)
    → ((estimate_tokens t ≤ limit) × (truncate_text t (pos limit) marker ≡ t))
      ⊎ ((limit < estimate_tokens t) × IsCut t limit marker (truncate_text t (pos limit) marker))
unfolding truncate_text
truncate_text_lem t limit marker = elim (Bool-cases (leb (estimate_tokens t) limit)) [
  | inl y ↦ inl (ground (arith, y), rw y refl)
  | inr n ↦ inr (ground (arith, n), rw n (cut_lem t limit marker))
]

-- A truncated text fits the limit, a limit below 0 counting as 0.
pub truncate_text-fits :
    (t : Text) (limit : ℤ) (marker : Text)
    → estimate_tokens (truncate_text t limit marker) ≤ clamp limit
unfolding truncate_text
truncate_text-fits t (negsuc k) marker = IsCut-fits t 0 marker _ (cut_lem t 0 marker)
truncate_text-fits t (pos limit) marker = elim (truncate_text_lem t limit marker) [
  | inl (a, e) ↦ rw e a
  | inr (_, c) ↦ IsCut-fits t limit marker _ c
]
