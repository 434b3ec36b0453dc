-- ===== src/Budget/Tests.antt =====
-- Runs of the truncation and the trimming, and instances of their theorems.
use aezab.Prelude.{
  ◌≤◌, ◌<◌, ◌≡◌, ◌⊎◌, refl, String, true, false, none, some, List, [], ◌∷◌, ◌++◌, ◌≢◌, All, eq_iff,
  string_eq, ◌==◌, arith,
}
use aezab.Prelude.Int.{pos}
use aezab.Value.{Value, null}
use aezab.Budget.{
  Text, Message, estimate_tokens, truncate_text, estimate_input_tokens, trim_messages,
  message_tokens, split_head, group, mark, flattened, excess_of,
}
use aezab.Budget.Text.{IsCut, truncate_text_lem}
use aezab.Budget.Fit.{trim_messages-fits}
use aezab.Budget.Kept.{trim_messages-request}
use aezab.Budget.Paired.{paired, trim_messages-paired}

-- "abcdefghijkl"
abbrev latin : Text
latin = 97 ∷ 98 ∷ 99 ∷ 100 ∷ 101 ∷ 102 ∷ 103 ∷ 104 ∷ 105 ∷ 106 ∷ 107 ∷ 108 ∷ []

-- "内容" before a letter
abbrev mixed : Text
mixed = 20869 ∷ 23481 ∷ 97 ∷ []

estimates : (estimate_tokens latin ≡ 3) × (estimate_tokens mixed ≡ 3)
unfolding estimate_tokens
estimates = (refl, refl)

cut_with_marker : truncate_text latin (pos 2) (46 ∷ []) ≡ 97 ∷ 98 ∷ 99 ∷ 100 ∷ 46 ∷ []
unfolding truncate_text estimate_tokens
cut_with_marker = refl

truncate_text_lem_example :
    ((estimate_tokens latin ≤ 2) × (truncate_text latin (pos 2) (46 ∷ []) ≡ latin))
    ⊎ ((2 < estimate_tokens latin)
        × IsCut latin 2 (46 ∷ []) (truncate_text latin (pos 2) (46 ∷ [])))
truncate_text_lem_example = truncate_text_lem latin 2 (46 ∷ [])

abbrev dumps : List Value → Text
dumps calls = 91 ∷ 93 ∷ []

abbrev message : String → Text → List Value → Message
message role text calls = record {
  role = role;
  content = text;
  tool_calls = calls;
  tool_call_id = [];
}

abbrev history : List Message
history =
    message "system" latin []
    ∷ message "user" latin []
    ∷ message "assistant" latin []
    ∷ message "user" mixed []
    ∷ message "assistant" [] (null ∷ [])
    ∷ message "tool" latin []
    ∷ []

-- The reply is cut to two tokens, and the older turn is gone.
abbrev trimmed : List Message
trimmed =
    message "system" latin []
    ∷ message "user" mixed []
    ∷ message "assistant" [] (null ∷ [])
    ∷ message "tool" (97 ∷ 98 ∷ 99 ∷ 100 ∷ 101 ∷ 102 ∷ 103 ∷ 104 ∷ []) []
    ∷ []

different : (a b : String) → (a == b) ≡ false → a ≢ b
different a b h e = absurd (ground (arith, h, (eq_iff a b).1 e))

trims : trim_messages dumps history (some 25) [] ≡ some trimmed
unfolding trim_messages estimate_tokens estimate_input_tokens message_tokens mark group split_head
    excess_of flattened
trims = refl

too_small : trim_messages dumps history (some 22) [] ≡ none
unfolding trim_messages estimate_tokens estimate_input_tokens message_tokens mark group split_head
    excess_of flattened
too_small = refl

trim_messages-fits_example : (trimmed ≡ []) ⊎ (estimate_input_tokens dumps trimmed [] ≤ 25)
trim_messages-fits_example = trim_messages-fits dumps history 25 [] trimmed trims

trim_messages-paired_example : paired false trimmed ≡ true
trim_messages-paired_example = trim_messages-paired dumps history (some 25) [] trimmed refl trims

no_user_behind :
    All (λ x. x.role ≢ "user") (message "assistant" [] (null ∷ []) ∷ message "tool" latin [] ∷ [])
no_user_behind = (different "assistant" "user" refl, (different "tool" "user" refl, tt))

trim_messages-request_example :
    (front : List Message) × (back : List Message) × (trimmed
      ≡ front ++ (message "user" mixed [] ∷ back))
trim_messages-request_example =
    trim_messages-request dumps
      (message "system" latin [] ∷ message "user" latin [] ∷ message "assistant" latin [] ∷ [])
      (message "assistant" [] (null ∷ []) ∷ message "tool" latin [] ∷ []) (message "user" mixed [])
      25 [] trimmed refl no_user_behind trims
