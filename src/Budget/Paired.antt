-- ===== src/Budget/Paired.antt =====
-- That trimming leaves no reply of a tool without the call before it.
use aezab.Prelude.{
  and-left, some_inj, ℕ, zero, suc, ◌≡◌, ◌≤◌, ◌-◌, refl, inl, inr, ◌∙◌, String, string_eq, Bool,
  true, false, ◌&&◌, ◌||◌, Bool-cases, Option, none, some, List, [], ◌∷◌, ◌++◌, length, ltb, leb,
  All, arith, eq_iff, ◌==◌, if◌then◌else◌,
}
use aezab.Value.{Value}
use aezab.Budget.{
  Text, Message, Slot, flattened, shorten, shrink_group, shrink, fill, excess_of, sum_tokens,
  estimate_input_tokens, fit_slots, fill_all, fit_messages, trim_to, trim_messages, split_head,
  split_tools, group, mark, is_tool, is_call, is_system, is_empty,
}

-- A tool's reply follows a message with calls or another reply; the flag says whether one may come
-- first.
abbrev pub paired : Bool → List Message → Bool
paired may [] = true
paired may (m ∷ ms) = if is_tool m then may && paired true ms else paired (is_call m) ms

paired-true : (may : Bool) (ms : List Message) → paired may ms ≡ true → paired true ms ≡ true
paired-true may [] h = refl
paired-true may (m ∷ ms) h = ground arith

paired-append :
    (may : Bool) (xs ys : List Message)
    → paired may xs ≡ true
    → paired false ys ≡ true
    → paired may (xs ++ ys) ≡ true
paired-append true [] ys h k = paired-true false ys k
paired-append false [] ys h k = k
paired-append may (x ∷ xs) ys h k =
    ground (arith, paired-append true xs ys, paired-append (is_call x) xs ys)

paired-cons :
    (may : Bool) (m : Message) (xs ys : List Message)
    → ((b : Bool) → paired b xs ≡ paired b ys)
    → paired may (m ∷ xs) ≡ paired may (m ∷ ys)
paired-cons may m xs ys h = rw (h true, h (is_call m))

split_tools-paired :
    (ms : List Message)
    → paired true ms ≡ true
    → (paired true (split_tools ms).0 ≡ true) × (paired false (split_tools ms).1 ≡ true)
unfolding split_tools
split_tools-paired [] h = (refl, refl)
split_tools-paired (m ∷ ms) h = ground (arith, split_tools-paired ms)

pub split_tools-length : (ms : List Message) → length (split_tools ms).1 ≤ length ms
unfolding split_tools
split_tools-length [] = omega arith
split_tools-length (m ∷ ms) = ground (arith, split_tools-length ms)

pub one_role : (s a b : String) → (s == a) ≡ true → (a == b) ≡ false → (s == b) ≡ false
one_role s a b h k = rw ((eq_iff s a).0 h) k

call-no-tool : (m : Message) → is_call m ≡ true → is_tool m ≡ false
call-no-tool m h = one_role m.role "assistant" "tool" (and-left _ _ h) refl

system-no-call : (m : Message) → is_system m ≡ true → is_call m ≡ false
system-no-call m h = ground (arith, one_role m.role "system" "assistant" h refl)

system-no-tool : (m : Message) → is_system m ≡ true → is_tool m ≡ false
system-no-tool m h = one_role m.role "system" "tool" h refl

split_head-paired :
    (ms : List Message)
    → paired false ms ≡ true
    → (paired false (split_head ms).0 ≡ true) × (paired false (split_head ms).1 ≡ true)
unfolding split_head
split_head-paired [] h = (refl, refl)
split_head-paired (m ∷ ms) h =
    ground (arith, split_head-paired ms, system-no-call m, system-no-tool m)

abbrev Closed : List Message → Type 0
Closed g = paired false g ≡ true

-- What a closed list starts with.
Closed-head :
    (m : Message) (ms : List Message)
    → Closed (m ∷ ms)
    → (is_tool m ≡ false) × (paired (is_call m) ms ≡ true)
Closed-head m ms h = ground arith

group-Closed : (fuel : ℕ) (ms : List Message) → Closed ms → All Closed (group fuel ms)
unfolding group
group-Closed zero ms h = tt
group-Closed (suc fuel) [] h = tt
group-Closed (suc fuel) (m ∷ ms) h = elim (Bool-cases (is_call m)) [
  | inl y ↦
      let (start, rest) = Closed-head m ms h in
      let (tools, after) = split_tools-paired ms (rw y at rest) in
      rw (y, start) (tools, group-Closed fuel (split_tools ms).1 after)
  | inr n ↦
      let (start, rest) = Closed-head m ms h in
      rw (n, start) (refl, group-Closed fuel ms (rw n at rest))
]

if-some : (b : Bool) (x y : List Message) → (if b then none else some x) ≡ some y → x ≡ y
if-some true x y e = absurd (ground (arith, e))
if-some false x y e = some_inj e

abbrev AreClosed : List Slot → Type 0
AreClosed = All (λ s. Closed s.messages)

mark-Closed : (gs : List (List Message)) → All Closed gs → AreClosed (mark gs).0
unfolding mark
mark-Closed [] h = tt
mark-Closed (g ∷ gs) (h, k) = (h, mark-Closed gs k)

flattened-Closed : (slots : List Slot) → AreClosed slots → Closed (flattened slots)
unfolding flattened
flattened-Closed [] h = refl
flattened-Closed (s ∷ slots) (h, k) = ground (
  arith,
  flattened-Closed slots k,
  paired-append false s.messages (flattened slots) h (flattened-Closed slots k),
)

module _ (dumps : List Value → Text) where
  fill-Closed :
      (budget : ℕ) (slots : List Slot) → AreClosed slots → AreClosed (fill dumps budget slots).0
  unfolding fill
  fill-Closed budget [] h = tt
  fill-Closed budget (s ∷ slots) (h, k) =
      elim (Bool-cases ((fill dumps budget slots).2 || s.required)) [
        | inl y ↦ rw y (h, fill-Closed budget slots k)
        | inr n ↦
            elim (Bool-cases (ltb (fill dumps budget slots).1 (sum_tokens dumps s.messages))) [
              | inl over ↦ rw (n, over) (h, fill-Closed budget slots k)
              | inr in_budget ↦ rw (n, in_budget) (h, fill-Closed budget slots k)
            ]
      ]

  module _ (limit : ℕ) (tools : List Value) where
    shrink_group-paired :
        (may : Bool) (before after : List Message) (e : ℕ) (ms : List Message)
        → paired may (shrink_group dumps limit tools before after e ms).1 ≡ paired may ms
    unfolding shrink_group shorten
    shrink_group-paired may before after e [] = refl
    shrink_group-paired may before after e (m ∷ ms) = elim (Bool-cases (is_tool m && ltb 0 e)) [
      | inl y ↦
          let m' = shorten dumps e m in
          let e' = excess_of dumps limit tools (before ++ (m' ∷ (ms ++ after))) in
          let rest = (shrink_group dumps limit tools (before ++ (m' ∷ [])) after e' ms).1 in
          rw y (
            paired-cons may m rest ms (λ b.
              shrink_group-paired b (before ++ (shorten dumps e m ∷ [])) after
                (excess_of dumps limit tools (before ++ (shorten dumps e m ∷ (ms ++ after)))) ms))
      | inr n ↦ rw n (
          paired-cons may m (shrink_group dumps limit tools (before ++ (m ∷ [])) after e ms).1 ms
            (λ b. shrink_group-paired b (before ++ (m ∷ [])) after e ms))
    ]

    shrink-Closed :
        (before : List Message) (e : ℕ) (slots : List Slot)
        → AreClosed slots
        → AreClosed (shrink dumps limit tools before e slots).1
    unfolding shrink
    shrink-Closed before e [] h = tt
    shrink-Closed before e (s ∷ slots) (h, k) = elim (Bool-cases s.kept) [
      | inl y ↦ rw y (
        shrink_group-paired false before (flattened slots) e s.messages ∙ h,
        shrink-Closed
            (before ++ (shrink_group dumps limit tools before (flattened slots) e s.messages).1)
            (shrink_group dumps limit tools before (flattened slots) e s.messages).0 slots k,
      )
      | inr n ↦ rw n (h, shrink-Closed before e slots k)
    ]

    fit_messages-Closed :
        (ms out : List Message)
        → Closed ms
        → fit_messages dumps limit tools ms ≡ some out
        → Closed out
    unfolding fit_messages fit_slots fill_all
    fit_messages-Closed ms out h e =
        let (head, body) = split_head-paired ms h in
        let slots = (mark (group (length (split_head ms).1) (split_head ms).1)).0 in
        let first = excess_of dumps limit tools ((split_head ms).0 ++ flattened slots) in
        let kept =
          shrink-Closed (split_head ms).0 first slots
            (mark-Closed _ (group-Closed (length (split_head ms).1) (split_head ms).1 body)) in
        let shrunk = (shrink dumps limit tools (split_head ms).0 first slots).1 in
        let budget =
          limit - estimate_input_tokens dumps ((split_head ms).0 ++ flattened shrunk) tools in
        let fits =
          if-some _
            (fill_all dumps limit tools (split_head ms).0
              (shrink dumps limit tools (split_head ms).0 first slots).1)
            out e in
        rw (← fits) (
          paired-append false (split_head ms).0 (flattened (fill dumps budget shrunk).0) head
            (flattened-Closed (fill dumps budget shrunk).0 (fill-Closed budget shrunk kept)))

    trim_to-Closed :
        (ms out : List Message) → Closed ms → trim_to dumps limit tools ms ≡ some out → Closed out
    unfolding trim_to
    trim_to-Closed ms out h e =
        elim (Bool-cases (is_empty ms || leb (estimate_input_tokens dumps ms tools) limit)) [
          | inl y ↦ rw (← (some_inj (rw y at e))) h
          | inr n ↦ fit_messages-Closed ms out h (rw n at e)
        ]

  -- Trimming leaves no reply of a tool without its call: where in the messages a reply only follows a
  -- call or another reply, it does so in what is left.
  pub trim_messages-paired :
      (ms : List Message) (limit : Option ℕ) (tools : List Value) (out : List Message)
      → paired false ms ≡ true
      → trim_messages dumps ms limit tools ≡ some out
      → paired false out ≡ true
  unfolding trim_messages
  trim_messages-paired ms none tools out h e = rw (← (some_inj e)) h
  trim_messages-paired ms (some limit) tools out h e = trim_to-Closed limit tools ms out h e
