-- ===== src/Budget/Kept.antt =====
-- The user's last request through the steps of trimming.
use mathlib.Core.List.{append_assoc}
use mathlib.Core.Path.{subst}
use aezab.Prelude.{
  ℕ, zero, suc, ◌-◌, ◌≤◌, ◌≡◌, ◌≢◌, refl, sym, ap, ◌∙◌, ◌⊎◌, inl, inr, string_eq, Bool, true, false,
  ◌||◌, Bool-cases, some, some_inj, List, [], ◌∷◌, ◌++◌, length, All, ltb, leb, arith, eq_iff, ◌==◌,
}
use aezab.Value.{Value}
use aezab.Budget.{
  Text, Message, Slot, flattened, shrink_group, shrink, fill, fill_all, fit_slots, fit_messages,
  trim_to, trim_messages, split_head, split_tools, group, mark, is_tool, is_call, is_system,
  is_empty, asks, excess_of, estimate_input_tokens, sum_tokens,
}
use aezab.Budget.Paired.{split_tools-length, one_role}

abbrev is_user : Message → Bool
is_user m = m.role == "user"

quiet : (ms : List Message) → All (λ x. x.role ≢ "user") ms → All (λ x. is_user x ≡ false) ms
quiet [] h = tt
quiet (x ∷ ms) h = (
  elim (Bool-cases (is_user x)) [ inl y ↦ absurd (h.0 ((eq_iff x.role "user").0 y)) | inr n ↦ n ],
  quiet ms h.1,
)

module _ (m : Message) (user : is_user m ≡ true) where
  abbrev Within : List Message → Type 0
  Within l = (front : List Message) × (back : List Message) × (l ≡ front ++ (m ∷ back))

  -- The message is there, and none of a user is behind it.
  abbrev LastUser : List Message → Type 0
  LastUser [] = ⊥
  LastUser (x ∷ ms) = ((x ≡ m) × All (λ y. is_user y ≡ false) ms) ⊎ LastUser ms

  abbrev Opens : List Message → Type 0
  Opens [] = ⊥
  Opens (x ∷ g) = x ≡ m

  -- A group starts with the message, and none behind it with one of a user.
  abbrev LastGroup : List (List Message) → Type 0
  LastGroup [] = ⊥
  LastGroup (g ∷ gs) = (Opens g × All (λ h. asks h ≡ false) gs) ⊎ LastGroup gs

  abbrev KeptIn : List Slot → Type 0
  KeptIn [] = ⊥
  KeptIn (s ∷ slots) = ((s.kept ≡ true) × Opens s.messages) ⊎ KeptIn slots

  no-system : (x : Message) → x ≡ m → is_system x ≡ false
  no-system x e = rw e (one_role m.role "user" "system" user refl)

  no-tool : (x : Message) → x ≡ m → is_tool x ≡ false
  no-tool x e = rw e (one_role m.role "user" "tool" user refl)

  no-call : (x : Message) → x ≡ m → is_call x ≡ false
  no-call x e = rw e (ground (arith, one_role m.role "user" "assistant" user refl))

  split_head-LastUser : (ms : List Message) → LastUser ms → LastUser (split_head ms).1
  unfolding split_head
  split_head-LastUser [] h = h
  split_head-LastUser (x ∷ ms) (inl (e, h)) = rw (no-system x e) (inl (e, h))
  split_head-LastUser (x ∷ ms) (inr h) = elim (Bool-cases (is_system x)) [
    | inl y ↦ rw y (split_head-LastUser ms h)
    | inr n ↦ rw n (inr h)
  ]

  split_tools-LastUser : (ms : List Message) → LastUser ms → LastUser (split_tools ms).1
  unfolding split_tools
  split_tools-LastUser [] h = h
  split_tools-LastUser (x ∷ ms) (inl (e, h)) = rw (no-tool x e) (inl (e, h))
  split_tools-LastUser (x ∷ ms) (inr h) = elim (Bool-cases (is_tool x)) [
    | inl y ↦ rw y (split_tools-LastUser ms h)
    | inr n ↦ rw n (inr h)
  ]

  split_tools-quiet :
      (ms : List Message)
      → All (λ y. is_user y ≡ false) ms
      → All (λ y. is_user y ≡ false) (split_tools ms).1
  unfolding split_tools
  split_tools-quiet [] h = h
  split_tools-quiet (x ∷ ms) h = elim (Bool-cases (is_tool x)) [
    | inl y ↦ rw y (split_tools-quiet ms h.1)
    | inr n ↦ rw n h
  ]

  group-quiet :
      (fuel : ℕ) (ms : List Message)
      → All (λ y. is_user y ≡ false) ms
      → All (λ h. asks h ≡ false) (group fuel ms)
  unfolding group
  group-quiet zero ms h = tt
  group-quiet (suc fuel) [] h = tt
  group-quiet (suc fuel) (x ∷ ms) h = elim (Bool-cases (is_call x)) [
    | inl y ↦ rw y (h.0, group-quiet fuel (split_tools ms).1 (split_tools-quiet ms h.1))
    | inr n ↦ rw n (h.0, group-quiet fuel ms h.1)
  ]

  group-LastGroup :
      (fuel : ℕ) (ms : List Message) → length ms ≤ fuel → LastUser ms → LastGroup (group fuel ms)
  unfolding group
  group-LastGroup zero [] k h = absurd h
  group-LastGroup zero (x ∷ ms) k h = absurd (omega (arith, k))
  group-LastGroup (suc fuel) [] k h = absurd h
  group-LastGroup (suc fuel) (x ∷ ms) k (inl (e, h)) =
      rw (no-call x e) (inl (e, group-quiet fuel ms h))
  group-LastGroup (suc fuel) (x ∷ ms) k (inr h) = elim (Bool-cases (is_call x)) [
    | inl y ↦ rw y (
        inr (
          group-LastGroup fuel (split_tools ms).1 (omega (arith, k, split_tools-length ms))
            (split_tools-LastUser ms h)))
    | inr n ↦ rw n (inr (group-LastGroup fuel ms (omega (arith, k)) h))
  ]

  mark-quiet : (gs : List (List Message)) → All (λ h. asks h ≡ false) gs → (mark gs).1 ≡ false
  unfolding mark
  mark-quiet [] h = refl
  mark-quiet (g ∷ gs) h = ground (arith, h.0, mark-quiet gs h.1)

  Opens-asks : (g : List Message) → Opens g → asks g ≡ true
  Opens-asks [] h = absurd h
  Opens-asks (x ∷ g) e = rw e user

  mark-KeptIn : (gs : List (List Message)) → LastGroup gs → KeptIn (mark gs).0
  unfolding mark
  mark-KeptIn [] h = absurd h
  mark-KeptIn (g ∷ gs) (inl (o, h)) = inl (ground (arith, Opens-asks g o, mark-quiet gs h), o)
  mark-KeptIn (g ∷ gs) (inr h) = inr (mark-KeptIn gs h)

  Within-right : (xs ys : List Message) → Within ys → Within (xs ++ ys)
  Within-right xs ys (front, back, e) =
      (xs ++ front, back, ap (λ l. xs ++ l) e ∙ sym (append_assoc xs front (m ∷ back)))

  Opens-Within : (g ys : List Message) → Opens g → Within (g ++ ys)
  Opens-Within [] ys h = absurd h
  Opens-Within (x ∷ g) ys e = ([], g ++ ys, ap (λ y. y ∷ (g ++ ys)) e)

  flattened-Within : (slots : List Slot) → KeptIn slots → Within (flattened slots)
  unfolding flattened
  flattened-Within [] h = absurd h
  flattened-Within (s ∷ slots) (inl (k, o)) = rw k (Opens-Within s.messages (flattened slots) o)
  flattened-Within (s ∷ slots) (inr h) = elim (Bool-cases s.kept) [
    | inl y ↦ rw y (Within-right s.messages (flattened slots) (flattened-Within slots h))
    | inr n ↦ rw n (flattened-Within slots h)
  ]

  module _ (dumps : List Value → Text) where
    fill-KeptIn :
        (budget : ℕ) (slots : List Slot) → KeptIn slots → KeptIn (fill dumps budget slots).0
    unfolding fill
    fill-KeptIn budget [] h = h
    fill-KeptIn budget (s ∷ slots) h =
        let rest = fill dumps budget slots in
        let same : KeptIn (s ∷ rest.0) = elim h [
          | inl k ↦ inl k
          | inr k ↦ inr (fill-KeptIn budget slots k)
        ] in
        let more : KeptIn (record s { kept = true } ∷ rest.0) = elim h [
          | inl k ↦ inl (refl, k.1)
          | inr k ↦ inr (fill-KeptIn budget slots k)
        ] in
        elim (Bool-cases (rest.2 || s.required)) [
          | inl y ↦ rw y same
          | inr n ↦ elim (Bool-cases (ltb rest.1 (sum_tokens dumps s.messages))) [
            | inl y ↦ rw (n, y) same
            | inr z ↦ rw (n, z) more
          ]
        ]

    module _ (limit : ℕ) (tools : List Value) where
      shrink_group-Opens :
          (before after : List Message) (e : ℕ) (g : List Message)
          → Opens g
          → Opens (shrink_group dumps limit tools before after e g).1
      unfolding shrink_group
      shrink_group-Opens before after e [] h = h
      shrink_group-Opens before after e (x ∷ g) h = rw (no-tool x h) h

      shrink-KeptIn :
          (slots : List Slot) (before : List Message) (e : ℕ)
          → KeptIn slots
          → KeptIn (shrink dumps limit tools before e slots).1
      unfolding shrink
      shrink-KeptIn [] before e h = h
      shrink-KeptIn (s ∷ slots) before e (inl (k, o)) =
          inl (k, rw k (shrink_group-Opens before (flattened slots) e s.messages o))
      shrink-KeptIn (s ∷ slots) before e (inr h) = inr (shrink-KeptIn slots _ _ h)

      fit_slots-Within :
          (head : List Message) (slots : List Slot) (out : List Message)
          → KeptIn slots
          → fit_slots dumps limit tools head slots ≡ some out
          → Within out
      unfolding fit_slots fill_all
      fit_slots-Within head slots out k h =
          let e = excess_of dumps limit tools (head ++ flattened slots) in
          let r = shrink dumps limit tools head e slots in
          elim (Bool-cases (ltb 0 r.0)) [
            | inl y ↦ absurd (ground (arith, rw y at h))
            | inr n ↦
                let left = limit - estimate_input_tokens dumps (head ++ flattened r.1) tools in
                subst Within (some_inj (rw n at h)) (
                  Within-right head (flattened (fill dumps left r.1).0) (
                    flattened-Within (fill dumps left r.1).0
                      (fill-KeptIn left r.1 (shrink-KeptIn slots head e k))))
          ]

      fit_messages-Within :
          (ms out : List Message)
          → LastUser ms
          → fit_messages dumps limit tools ms ≡ some out
          → Within out
      unfolding fit_messages
      fit_messages-Within ms out k h =
          let body = (split_head ms).1 in
          fit_slots-Within (split_head ms).0 (mark (group (length body) body)).0 out
            (mark-KeptIn (group (length body) body)
              (group-LastGroup (length body) body (omega arith) (split_head-LastUser ms k)))
            h

  split-LastUser :
      (before after : List Message)
      → All (λ x. x.role ≢ "user") after
      → LastUser (before ++ (m ∷ after))
  split-LastUser [] after h = inl (refl, quiet after h)
  split-LastUser (x ∷ before) after h = inr (split-LastUser before after h)

-- The last message of the user, with no message of the user behind it, is in the trimmed messages as it was
-- written, wherever trimming does not fail.
pub trim_messages-request :
    (dumps : List Value → Text) (before after : List Message) (m : Message) (limit : ℕ)
    (tools : List Value) (out : List Message)
    → m.role ≡ "user"
    → All (λ x. x.role ≢ "user") after
    → trim_messages dumps (before ++ (m ∷ after)) (some limit) tools ≡ some out
    → (front : List Message) × (back : List Message) × (out ≡ front ++ (m ∷ back))
unfolding trim_messages trim_to
trim_messages-request dumps before after m limit tools out r quiet_after h =
    let ms = before ++ (m ∷ after) in
    let user = (eq_iff m.role "user").1 r in
    elim (Bool-cases (is_empty ms || leb (estimate_input_tokens dumps ms tools) limit)) [
      | inl y ↦ (before, after, sym (some_inj (rw y at h)))
      | inr n ↦
          fit_messages-Within m user dumps limit tools ms out
            (split-LastUser m user before after quiet_after) (rw n at h)
    ]
