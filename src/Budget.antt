-- ===== src/Budget.antt =====
-- server/engine/context_budget.py: the token estimate, the truncation of a text, and the trimming of
-- the messages of a prompt. A text is the list of its code points; `json.dumps` is a parameter, and a
-- limit on the input is not negative, as its setting is.
pub mod Text
pub mod Fit
pub mod Paired
pub mod Kept
pub mod Tests
use aezab.Prelude.{
  ℕ, zero, suc, ◌+◌, ◌-◌, ◌/◌, String, string_eq, Bool, true, false, not, ◌&&◌, ◌||◌, Option, none,
  some, List, [], ◌∷◌, ◌++◌, length, take, ltb, leb, ◌==◌, if◌then◌else◌,
}
use aezab.Prelude.Int.{ℤ, pos, negsuc}
use aezab.Value.{Value}

abbrev pub Text : Type 0
Text = List ℕ

-- `ord(c) > 0x2E80`
abbrev pub is_cjk : ℕ → Bool
is_cjk c = ltb 11904 c

unfoldable pub count_cjk : Text → ℕ
count_cjk [] = 0
count_cjk (c ∷ t) = if is_cjk c then count_cjk t + 1 else count_cjk t

unfoldable pub estimate_tokens : Text → ℕ
unfolding count_cjk
estimate_tokens t = count_cjk t + (length t - count_cjk t + 3) / 4

-- "\n…[内容已截断]"
abbrev pub truncate_marker : Text
truncate_marker = 10 ∷ 8230 ∷ 91 ∷ 20869 ∷ 23481 ∷ 24050 ∷ 25130 ∷ 26029 ∷ 93 ∷ []

-- `while lo < hi`, with fuel for the rounds.
unfoldable pub longest : Text → ℕ → ℕ → ℕ → ℕ → ℕ
longest t budget zero lo hi = lo
longest t budget (suc fuel) lo hi =
    let mid = (lo + hi + 1) / 2 in
    let fits = leb (estimate_tokens (take mid t)) budget in
    let rest = longest t budget fuel (if fits then mid else lo) (if fits then hi else mid - 1) in
    if ltb lo hi then rest else lo

-- The cut for a limit that is not negative any more.
unfoldable pub cut : Text → ℕ → Text → Text
unfolding longest
cut t limit marker =
    let shown = if ltb limit (estimate_tokens marker) then [] else marker in
    take (longest t (limit - estimate_tokens shown) (length t) 0 (length t)) t ++ shown

unfoldable pub truncate_text : Text → ℤ → Text → Text
unfolding cut
truncate_text t (pos limit) marker = if leb (estimate_tokens t) limit then t else cut t limit marker
truncate_text t (negsuc _) marker = cut t 0 marker

pub record Message : Type 0 where
  pub role : String
  pub content : Text
  pub tool_calls : List Value
  pub tool_call_id : Text

abbrev pub is_empty {ℓ} : {A : Type ℓ} → List A → Bool
is_empty [] = true
is_empty (_ ∷ _) = false

-- A group of messages that stay together, whether it must stay, and whether it is in `kept`.
pub record Slot : Type 0 where
  pub required : Bool
  pub kept : Bool
  pub messages : List Message

abbrev pub is_tool : Message → Bool
is_tool m = m.role == "tool"

-- An assistant's message with tool calls, which opens a group.
abbrev pub is_call : Message → Bool
is_call m = m.role == "assistant" && not (is_empty m.tool_calls)

abbrev pub is_system : Message → Bool
is_system m = m.role == "system"

-- The system messages at the front, and the rest.
unfoldable pub split_head : List Message → List Message × List Message
split_head [] = ([], [])
split_head (m ∷ ms) =
    let (head, body) = split_head ms in if is_system m then (m ∷ head, body) else ([], m ∷ ms)

-- The leading replies of tools, and the rest.
unfoldable pub split_tools : List Message → List Message × List Message
split_tools [] = ([], [])
split_tools (m ∷ ms) =
    let (tools, rest) = split_tools ms in if is_tool m then (m ∷ tools, rest) else ([], m ∷ ms)

-- Groups, with fuel for the messages.
unfoldable pub group : ℕ → List Message → List (List Message)
unfolding split_tools
group zero ms = []
group (suc fuel) [] = []
group (suc fuel) (m ∷ ms) =
    let (tools, rest) = if is_call m then split_tools ms else ([], ms) in
    (m ∷ tools) ∷ group fuel rest

abbrev pub asks : List Message → Bool
asks [] = false
asks (m ∷ ms) = m.role == "user"

-- The last group, and the last that a user's message opens, are required; the flag says whether such
-- a group lies behind.
unfoldable pub mark : List (List Message) → List Slot × Bool
mark [] = ([], false)
mark (g ∷ gs) =
    let (slots, later) = mark gs in
    let need = is_empty gs || (asks g && not later) in
    (record { required = need; kept = need; messages = g } ∷ slots, asks g || later)

-- The messages of the groups that are kept.
unfoldable pub flattened : List Slot → List Message
flattened [] = []
flattened (s ∷ slots) = if s.kept then s.messages ++ flattened slots else flattened slots

module _ (dumps : List Value → Text) where
  unfoldable pub message_tokens : Message → ℕ
  message_tokens m =
      estimate_tokens m.content
      + 4
      + (if is_empty m.tool_calls then 0 else estimate_tokens (dumps m.tool_calls))
      + (if is_empty m.tool_call_id then 0 else estimate_tokens m.tool_call_id)

  unfoldable pub sum_tokens : List Message → ℕ
  sum_tokens [] = 0
  sum_tokens (m ∷ ms) = message_tokens m + sum_tokens ms

  unfoldable pub estimate_input_tokens : List Message → List Value → ℕ
  unfolding sum_tokens
  estimate_input_tokens ms tools =
      sum_tokens ms + (if is_empty tools then 0 else estimate_tokens (dumps tools) + 4)

  unfoldable pub shorten : ℕ → Message → Message
  unfolding truncate_text
  shorten excess m = record m {
    content = truncate_text m.content (pos (estimate_tokens m.content - excess)) truncate_marker;
  }

  -- The loop from the last group back: the groups, the budget left, and whether it has ended.
  unfoldable pub fill : ℕ → List Slot → List Slot × ℕ × Bool
  unfolding sum_tokens
  fill budget [] = ([], budget, false)
  fill budget (s ∷ slots) =
      let (rest, left, stopped) = fill budget slots in
      let cost = sum_tokens s.messages in
      if stopped || s.required
      then (s ∷ rest, left, stopped)
      else if ltb left cost
      then (s ∷ rest, left, true)
      else (record s { kept = true } ∷ rest, left - cost, false)

  module _ (limit : ℕ) (tools : List Value) where
    -- How far the messages exceed the limit; 0 where the source's difference is not positive.
    unfoldable pub excess_of : List Message → ℕ
    excess_of ms = estimate_input_tokens ms tools - limit

    -- The loop over the messages of a kept group, between those before and after it, while something
    -- exceeds.
    unfoldable pub shrink_group : List Message → List Message → ℕ → List Message → ℕ × List Message
    unfolding shorten
    shrink_group before after excess [] = (excess, [])
    shrink_group before after excess (m ∷ ms) =
        let m' = if is_tool m && ltb 0 excess then shorten excess m else m in
        let excess' =
          if is_tool m && ltb 0 excess
          then excess_of (before ++ (m' ∷ (ms ++ after)))
          else excess in
        let (last, rest) = shrink_group (before ++ (m' ∷ [])) after excess' ms in (last, m' ∷ rest)

    unfoldable pub shrink : List Message → ℕ → List Slot → ℕ × List Slot
    unfolding shrink_group
    shrink before excess [] = (excess, [])
    shrink before excess (s ∷ slots) =
        let (e, ms) =
          if s.kept
          then shrink_group before (flattened slots) excess s.messages
          else (excess, s.messages) in
        let (last, rest) = shrink (if s.kept then before ++ ms else before) e slots in
        (last, record s { messages = ms } ∷ rest)

    unfoldable pub fill_all : List Message → List Slot → List Message
    unfolding fill
    fill_all head slots =
        head
        ++ flattened (fill (limit - estimate_input_tokens (head ++ flattened slots) tools) slots).0

    -- `none` is `ContextBudgetExceeded`.
    unfoldable pub fit_slots : List Message → List Slot → Option (List Message)
    unfolding shrink fill_all
    fit_slots head slots =
        let (excess, shrunk) = shrink head (excess_of (head ++ flattened slots)) slots in
        if ltb 0 excess then none else some (fill_all head shrunk)

    unfoldable pub fit_messages : List Message → Option (List Message)
    unfolding fit_slots
    fit_messages ms =
        let (head, body) = split_head ms in fit_slots head (mark (group (length body) body)).0

    unfoldable pub trim_to : List Message → Option (List Message)
    unfolding fit_messages
    trim_to ms =
        if is_empty ms || leb (estimate_input_tokens ms tools) limit
        then some ms
        else fit_messages ms

  unfoldable pub trim_messages : List Message → Option ℕ → List Value → Option (List Message)
  unfolding trim_to
  trim_messages ms none tools = some ms
  trim_messages ms (some limit) tools = trim_to limit tools ms
