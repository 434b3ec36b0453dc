-- ===== src/Summary/Process.antt =====
-- server/engine/summary_scheduler.py: the folds in flight as a step relation of the process, between the
-- turns that save rows and the requests that delete a session with its rows. The phases 1 and 2 of `_fold_session_summary` are the step `prepare`, as the rows
-- that they read only grow until the session is deleted; phase 3 is the step `commit`, since nothing but a fold writes what it reads.
-- A fold ends (`stop`) behind its write, or early if the session or the agent is missing, nothing is due,
-- the answer is empty, or an exception or a cancellation comes. There is an event loop to run it.
use aezab.Prelude.{
  String, string_eq, Bool, false, Option, none, some, List, [], ◌∷◌, ◌++◌, ◌≡◌, any, ◌==◌,
  if◌then◌else◌,
}
use aezab.Prelude.Dict.{Dict, get, put, remove}
use aezab.Value.{Value}
use aezab.Budget.{Text, Message}
use aezab.Summary.{Settings, Row, Memory, Draft, summary_prompt, to_fold, draft, persist}

pub data Stage : Type 0 where
  waiting : Stage
  drafted : Draft → Stage
  written : Stage

-- A background task.
pub record Fold : Type 0 where
  pub session : String
  pub stage : Stage

-- The sessions, `_inflight_sessions`, and `_background_tasks`.
pub record System : Type 0 where
  pub store : Dict String Memory
  pub inflight : List String
  pub folds : List Fold

abbrev pub is_inflight : String → List String → Bool
is_inflight k names = any (λ j. j == k) names

-- `_inflight_sessions.discard(session_id)`
unfoldable pub discard : String → List String → List String
discard k [] = []
discard k (j ∷ names) = let rest = discard k names in if j == k then rest else j ∷ rest

unfoldable pub schedule_summary_update : String → System → System
schedule_summary_update k s = if is_inflight k s.inflight then s else record s {
  inflight = k ∷ s.inflight;
  folds = record { session = k; stage = waiting } ∷ s.folds;
}

-- The end of a task.
unfoldable pub end_fold : List Fold → Fold → List Fold → System → System
unfolding discard
end_fold front x back s = record s {
  inflight = discard x.session s.inflight;
  folds = front ++ back;
}

-- A session that has gone is left alone.
unfoldable pub persist_in : Draft → String → Option Memory → Dict String Memory → Dict String Memory
unfolding persist
persist_in d k none store = store
persist_in d k (some m) store = put store k (persist d m)

abbrev pub commit_fold : List Fold → Fold → List Fold → Draft → System → System
commit_fold front x back d s = record s {
  store = persist_in d x.session (get s.store x.session) s.store;
  folds = front ++ (record x { stage = written } ∷ back);
}

abbrev pub empty_memory : Memory
empty_memory = record { rows = []; summary = []; summarized_upto = 0 }

abbrev pub add_row : Row → Memory → Memory
add_row r m = record m { rows = m.rows ++ (r ∷ []) }

-- `Answers` relates a prompt to the texts that the model may answer it with, stripped.
module _ (dumps : List Value → Text) (payload : Text → List Row → Text)
    (Answers : List Message → Text → Type 0) (st : Settings) where
  pub data Step (s t : System) : Type 0 where
    -- the id of a session is new
    open_session :
        (k : String)
        → get s.store k ≡ none
        → is_inflight k s.inflight ≡ false
        → t ≡ record s { store = put s.store k empty_memory }
        → Step s t
    save :
        (k : String) (m : Memory) (r : Row)
        → get s.store k ≡ some m
        → t ≡ record s { store = put s.store k (add_row r m) }
        → Step s t
    -- `delete_session` of server/api/sessions.py
    delete : (k : String) → t ≡ record s { store = remove s.store k } → Step s t
    schedule : (k : String) → t ≡ schedule_summary_update k s → Step s t
    prepare :
        (front : List Fold) (x : Fold) (back : List Fold) (m : Memory) (rows : List Row)
        (answer : Text) (d : Draft)
        → s.folds ≡ front ++ (x ∷ back)
        → x.stage ≡ waiting
        → get s.store x.session ≡ some m
        → to_fold dumps payload st m ≡ some rows
        → Answers (summary_prompt dumps payload m.summary rows) answer
        → draft m rows answer ≡ some d
        → t ≡ record s { folds = front ++ (record x { stage = drafted d } ∷ back) }
        → Step s t
    commit :
        (front : List Fold) (x : Fold) (back : List Fold) (d : Draft)
        → s.folds ≡ front ++ (x ∷ back)
        → x.stage ≡ drafted d
        → t ≡ commit_fold front x back d s
        → Step s t
    stop :
        (front : List Fold) (x : Fold) (back : List Fold)
        → s.folds ≡ front ++ (x ∷ back)
        → t ≡ end_fold front x back s
        → Step s t

  abbrev pub idle : System
  idle = record { store = []; inflight = []; folds = [] }

  pub data Reach : System → Type 0 where
    start : Reach idle
    later : {s t : System} → Reach s → Step s t → Reach t
