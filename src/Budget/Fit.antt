-- ===== src/Budget/Fit.antt =====
-- The tokens of trimmed messages against the limit.
use mathlib.Core.List.{append_assoc}
use aezab.Prelude.{
  ℕ, ◌+◌, ◌-◌, ◌≤◌, ◌≡◌, refl, sym, ap, ◌∙◌, ◌⊎◌, inl, inr, ◌&&◌, Bool-cases, some, List, [], ◌∷◌,
  ◌++◌, length, ltb, leb, arith,
}
use aezab.Value.{Value}
use aezab.Budget.{
  Text, Message, Slot, flattened, sum_tokens, estimate_input_tokens, excess_of, shorten,
  shrink_group, shrink, fill, fill_all, fit_slots, fit_messages, trim_to, trim_messages, split_head,
  group, mark, is_tool,
}

module _ (dumps : List Value → Text) where
  sum_tokens-append :
      (xs ys : List Message)
      → sum_tokens dumps (xs ++ ys) ≡ sum_tokens dumps xs + sum_tokens dumps ys
  unfolding sum_tokens
  sum_tokens-append [] ys = omega arith
  sum_tokens-append (x ∷ xs) ys = omega (arith, sum_tokens-append xs ys)

  fill_lem :
      (budget : ℕ) (slots : List Slot)
      → sum_tokens dumps (flattened (fill dumps budget slots).0) + (fill dumps budget slots).1
        ≤ sum_tokens dumps (flattened slots) + budget
  unfolding fill flattened sum_tokens
  fill_lem budget [] = omega arith
  fill_lem budget (s ∷ slots) = ground (
    arith,
    fill_lem budget slots,
    sum_tokens-append s.messages (flattened slots),
    sum_tokens-append s.messages (flattened (fill dumps budget slots).0),
  )

  module _ (limit : ℕ) (tools : List Value) where
    regroup :
        (before after ms : List Message) (m : Message)
        → excess_of dumps limit tools ((before ++ (m ∷ [])) ++ (ms ++ after))
          ≡ excess_of dumps limit tools (before ++ (m ∷ (ms ++ after)))
    regroup before after ms m =
        ap (excess_of dumps limit tools) (append_assoc before (m ∷ []) (ms ++ after))

    shrink_group_lem :
        (before after : List Message) (e : ℕ) (ms : List Message)
        → e ≡ excess_of dumps limit tools (before ++ (ms ++ after))
        → (shrink_group dumps limit tools before after e ms).0
          ≡ excess_of dumps limit tools
              (before ++ ((shrink_group dumps limit tools before after e ms).1 ++ after))
    unfolding shrink_group
    shrink_group_lem before after e [] h = h
    shrink_group_lem before after e (m ∷ ms) h = elim (Bool-cases (is_tool m && ltb 0 e)) [
      | inl y ↦ rw y (
          shrink_group_lem (before ++ (shorten dumps e m ∷ [])) after _ ms
            (sym (regroup before after ms (shorten dumps e m)))
          ∙ regroup before after _ (shorten dumps e m))
      | inr n ↦ rw n (
          shrink_group_lem (before ++ (m ∷ [])) after e ms (h ∙ sym (regroup before after ms m))
          ∙ regroup before after _ m)
    ]

    shrink_lem :
        (before : List Message) (e : ℕ) (slots : List Slot)
        → e ≡ excess_of dumps limit tools (before ++ flattened slots)
        → (shrink dumps limit tools before e slots).0
          ≡ excess_of dumps limit tools
              (before ++ flattened (shrink dumps limit tools before e slots).1)
    unfolding shrink flattened
    shrink_lem before e [] h = h
    shrink_lem before e (s ∷ slots) h = elim (Bool-cases s.kept) [
      | inl y ↦ rw y (
          let ms = (shrink_group dumps limit tools before (flattened slots) e s.messages).1 in
          shrink_lem (before ++ ms) _ slots (
            shrink_group_lem before (flattened slots) e s.messages (rw y at h)
            ∙ ap (excess_of dumps limit tools) (sym (append_assoc before ms (flattened slots))))
          ∙ ap (excess_of dumps limit tools) (append_assoc before ms _))
      | inr n ↦ rw n (shrink_lem before e slots (rw n at h))
    ]

    fit_slots_lem :
        (head : List Message) (slots : List Slot) (out : List Message)
        → fit_slots dumps limit tools head slots ≡ some out
        → estimate_input_tokens dumps out tools ≤ limit
    unfolding fit_slots fill_all excess_of estimate_input_tokens
    fit_slots_lem head slots out h =
        let shrunk =
          (shrink dumps limit tools head (excess_of dumps limit tools (head ++ flattened slots))
            slots).1 in
        ground (
          arith,
          shrink_lem head _ slots refl,
          sum_tokens-append head (flattened shrunk),
          fill_lem (limit - estimate_input_tokens dumps (head ++ flattened shrunk) tools) shrunk,
          sum_tokens-append head (
              flattened
                (fill dumps (limit - estimate_input_tokens dumps (head ++ flattened shrunk) tools)
                  shrunk).0),
        )

    trim_to-fits :
        (ms out : List Message)
        → trim_to dumps limit tools ms ≡ some out
        → (out ≡ []) ⊎ (estimate_input_tokens dumps out tools ≤ limit)
    unfolding trim_to fit_messages
    trim_to-fits [] out h = inl (ground (arith, h))
    trim_to-fits (m ∷ ms) out h =
        elim (Bool-cases (leb (estimate_input_tokens dumps (m ∷ ms) tools) limit)) [
          | inl y ↦ inr (ground (arith, h, y))
          | inr n ↦ inr (
              fit_slots_lem (split_head (m ∷ ms)).0
                (mark (group (length (split_head (m ∷ ms)).1) (split_head (m ∷ ms)).1)).0 out
                (rw n at h))
        ]

  -- Messages trimmed to a limit fit it together with the tools, unless no message is left.
  pub trim_messages-fits :
      (ms : List Message) (limit : ℕ) (tools : List Value) (out : List Message)
      → trim_messages dumps ms (some limit) tools ≡ some out
      → (out ≡ []) ⊎ (estimate_input_tokens dumps out tools ≤ limit)
  unfolding trim_messages
  trim_messages-fits ms limit tools out h = trim_to-fits limit tools ms out h
