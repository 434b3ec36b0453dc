-- ===== src/Summary/Prompt.antt =====
-- The loop of `_summary_prompt`: that it ends, and with a prompt that fits.
use aezab.Prelude.{
  ℕ, zero, suc, ◌+◌, ◌-◌, max, ◌≤◌, ◌<◌, ◌≡◌, refl, sym, ap, inl, inr, ◌⊎◌, List, [], ◌∷◌, ltb,
  arith, Bool-cases,
}
use aezab.Prelude.Int.{pos}
use aezab.Value.{Value}
use aezab.Budget.{Text, estimate_tokens, truncate_marker}
use aezab.Budget.Text.{count_cjk_le, truncate_text-fits}
use aezab.Summary.{Row, request, tokens, clip, shorten_row, summary_prompt}

estimate_tokens-zero : (t : Text) → (t ≡ []) ⊎ (0 < estimate_tokens t)
unfolding estimate_tokens
estimate_tokens-zero [] = inl refl
estimate_tokens-zero (c ∷ t) = inr (omega (arith, count_cjk_le (c ∷ t)))

shorten_row-less :
    (excess : ℕ) (r : Row)
    → 0 < estimate_tokens r.content
    → estimate_tokens (shorten_row excess r).content < estimate_tokens r.content
shorten_row-less excess r h = omega (
  arith,
  truncate_text-fits r.content (pos (estimate_tokens r.content - max excess 32)) truncate_marker,
)

abbrev pub emptied : Row → Row
emptied r = record r { content = [] }

module _ (dumps : List Value → Text) (payload : Text → List Row → Text) (prior : Text) where
  abbrev pub size : Row → ℕ
  size r = tokens dumps payload (request dumps payload prior (r ∷ []))

  -- A round is made only for a row that has a text.
  round-less : (r : Row) → size (emptied r) ≤ 6000 → 6000 < size r → 0 < estimate_tokens r.content
  round-less r h k = elim (estimate_tokens-zero r.content) [
    | inl e ↦ absurd (omega (arith, ap (λ t. size (record r { content = t })) e, h, k))
    | inr p ↦ p
  ]

  clip-fits :
      (fuel : ℕ) (r : Row)
      → size (emptied r) ≤ 6000
      → estimate_tokens r.content < fuel
      → size (clip dumps payload prior fuel r) ≤ 6000
  unfolding clip
  clip-fits zero r h f = absurd (omega arith)
  clip-fits (suc fuel) r h f = elim (Bool-cases (ltb 6000 (size r))) [
    | inl y ↦
        let less = shorten_row-less (size r - 6000) r (round-less r h (ground (arith, y))) in
        rw y (clip-fits fuel (shorten_row (size r - 6000) r) h (omega arith))
    | inr n ↦ rw n (ground (arith, n))
  ]

  clip-enough :
      (fuel more : ℕ) (r : Row)
      → size (emptied r) ≤ 6000
      → estimate_tokens r.content < fuel
      → fuel ≤ more
      → clip dumps payload prior more r ≡ clip dumps payload prior fuel r
  unfolding clip
  clip-enough zero more r h f m = absurd (omega arith)
  clip-enough (suc fuel) zero r h f m = absurd (omega arith)
  clip-enough (suc fuel) (suc more) r h f m = elim (Bool-cases (ltb 6000 (size r))) [
    | inl y ↦
        let less = shorten_row-less (size r - 6000) r (round-less r h (ground (arith, y))) in
        rw y (clip-enough fuel more (shorten_row (size r - 6000) r) h (omega arith) (omega arith))
    | inr n ↦ rw n refl
  ]

  -- If the prompt fits with the row's text left out, the loop over a single row ends: more rounds than
  -- the row has tokens change nothing, and the prompt then fits the limit of 6000 tokens.
  pub summary_prompt-terminates :
      (r : Row) (fuel : ℕ)
      → size (emptied r) ≤ 6000
      → estimate_tokens r.content < fuel
      → (summary_prompt dumps payload prior (r ∷ [])
          ≡ request dumps payload prior (clip dumps payload prior fuel r ∷ []))
        × (tokens dumps payload (summary_prompt dumps payload prior (r ∷ [])) ≤ 6000)
  unfolding summary_prompt
  summary_prompt-terminates r fuel h f = (
    ap (λ x. request dumps payload prior (x ∷ []))
        (sym (clip-enough (estimate_tokens r.content + 1) fuel r h (omega arith) (omega arith))),
    clip-fits (estimate_tokens r.content + 1) r h (omega arith),
  )
