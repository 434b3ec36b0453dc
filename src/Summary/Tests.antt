-- ===== src/Summary/Tests.antt =====
-- A fold of a small session, and instances of the theorems about the summaries.
use aezab.Prelude.{
  ℕ, ◌+◌, ◌≤◌, ◌<◌, ◌≡◌, ◌↔◌, ◌⊎◌, refl, string_eq, nat_eq, some, List, [], ◌∷◌, arith,
}
use aezab.Prelude.Counting.{count}
use aezab.Prelude.Dict.{get, put}
use aezab.Value.{Value}
use aezab.Budget.{Text, Message, estimate_tokens, estimate_input_tokens, sum_tokens, message_tokens}
use aezab.Summary.{
  Settings, Row, Memory, Draft, request, tokens, clip, summary_prompt, to_fold, draft, persist,
  instruction,
}
use aezab.Summary.Prompt.{size, emptied, summary_prompt-terminates}
use aezab.Summary.Plan.{IsBatch, IsDue, to_fold_lem, to_fold-fits}
use aezab.Summary.Process.{
  Fold, Stage, waiting, drafted, written, stop, System, open_session, save, schedule, prepare,
  commit, schedule_summary_update, Reach, start, later, persist_in, end_fold,
}
use aezab.Summary.Sound.{Covers, of_session}
use aezab.Summary.Reached.{summary-Covers, single_flight, persist-current}

abbrev dumps : List Value → Text
dumps calls = []

-- A payload of the texts alone.
abbrev payload : Text → List Row → Text
payload prior [] = prior
payload prior (r ∷ rows) = r.content

abbrev IsB : List Message → Text → Type 0
IsB ms t = t ≡ 66 ∷ []

-- The threshold 2 and a window of one row.
abbrev settings : Settings
settings = record { summary_threshold = 2; recent_window = 1 }

abbrev hello : Row
hello = record { role = "user"; content = 104 ∷ 105 ∷ [] }

abbrev answer : Row
answer = record { role = "assistant"; content = 111 ∷ 107 ∷ [] }

abbrev memory : Memory
memory = record { rows = hello ∷ answer ∷ []; summary = []; summarized_upto = 0 }

abbrev one_row : Memory
one_row = record { rows = hello ∷ []; summary = []; summarized_upto = 0 }

abbrev no_row : Memory
no_row = record { rows = []; summary = []; summarized_upto = 0 }

abbrev with_memory : Memory → System
with_memory m = record { store = ("s", m) ∷ []; inflight = []; folds = [] }

abbrev fold_at : Stage → Fold
fold_at sg = record { session = "s"; stage = sg }

abbrev folding : Stage → System
folding sg = record { store = ("s", memory) ∷ []; inflight = "s" ∷ []; folds = fold_at sg ∷ [] }

abbrev first_draft : Draft
first_draft = record { summarized_upto = 0; boundary = 1; new_summary = 66 ∷ [] }

abbrev summed : Memory
summed = record memory { summary = 66 ∷ []; summarized_upto = 1 }

abbrev written_system : System
written_system = record (folding written) { store = ("s", summed) ∷ [] }

takes_one : to_fold dumps payload settings memory ≡ some (hello ∷ [])
unfolding to_fold estimate_tokens estimate_input_tokens sum_tokens message_tokens instruction
takes_one = refl

emptied_fits : size dumps payload [] (emptied hello) ≤ 6000
unfolding estimate_tokens estimate_input_tokens sum_tokens message_tokens instruction
emptied_fits = omega arith

few : estimate_tokens hello.content < 5
unfolding estimate_tokens
few = omega arith

saved : Reach dumps payload IsB settings (with_memory memory)
unfolding get put
saved =
    later (later (later start (open_session "s" refl refl refl)) (save "s" no_row hello refl refl))
      (save "s" one_row answer refl refl)

scheduled : Reach dumps payload IsB settings (folding waiting)
unfolding schedule_summary_update
scheduled = later saved (schedule "s" refl)

prepared : Reach dumps payload IsB settings (folding (drafted first_draft))
unfolding get draft
prepared = later scheduled (
    prepare [] (fold_at waiting) [] memory (hello ∷ []) (66 ∷ []) first_draft refl refl refl
      takes_one refl refl refl)

committed : Reach dumps payload IsB settings written_system
unfolding get put persist_in persist estimate_tokens
committed = later prepared (commit [] (fold_at (drafted first_draft)) [] first_draft refl refl refl)

fold_ended : Reach dumps payload IsB settings (with_memory summed)
unfolding end_fold
fold_ended = later committed (stop [] (fold_at written) [] refl refl)

summary-Covers_example :
    Covers dumps payload IsB settings (hello ∷ answer ∷ []) 1 (66 ∷ [])
    × ((◌≡◌ {A = ℕ} 1 0) ⊎ (1 + 1 ≤ 2))
unfolding get
summary-Covers_example = summary-Covers dumps payload IsB settings "s" summed fold_ended refl

single_flight_example : count (of_session "s") (folding (drafted first_draft)).folds ≡ 1
single_flight_example = single_flight dumps payload IsB settings "s" prepared

persist-current_example :
    (memory.summarized_upto ≡ first_draft.summarized_upto)
    × ((persist first_draft memory).summarized_upto ≡ 1)
    × (0 < 1)
unfolding get
persist-current_example =
    persist-current dumps payload IsB settings [] (fold_at (drafted first_draft)) [] first_draft
      memory prepared refl refl refl

summary_prompt-terminates_example :
    (summary_prompt dumps payload [] (hello ∷ [])
      ≡ request dumps payload [] (clip dumps payload [] 5 hello ∷ []))
    × (tokens dumps payload (summary_prompt dumps payload [] (hello ∷ [])) ≤ 6000)
summary_prompt-terminates_example =
    summary_prompt-terminates dumps payload [] hello 5 emptied_fits few

to_fold_lem_example : IsDue settings memory ↔ (
    (rows : List Row) × (to_fold dumps payload settings memory ≡ some rows)
    × IsBatch settings memory rows)
to_fold_lem_example = to_fold_lem dumps payload settings memory

answer_fits : size dumps payload [] (emptied answer) ≤ 6000
unfolding estimate_tokens estimate_input_tokens sum_tokens message_tokens instruction
answer_fits = omega arith

to_fold-fits_example : tokens dumps payload (summary_prompt dumps payload [] (hello ∷ [])) ≤ 6000
to_fold-fits_example =
    to_fold-fits dumps payload settings memory (hello ∷ []) (emptied_fits, (answer_fits, tt))
      takes_one
