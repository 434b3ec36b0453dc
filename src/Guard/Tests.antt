-- ===== src/Guard/Tests.antt =====
-- Runs of the cache of responses, and instances of its theorems.
use aezab.Prelude.{
  ◌≢◌, ap, eq_iff, true, false, ℕ, ◌+◌, ◌<◌, ◌≤◌, ◌≡◌, ◌↔◌, refl, String, string_eq, pair_eq, none,
  some, List, [], ◌∷◌, length, get_elem?, arith,
}
use aezab.Prelude.Dict.{get, put, remove}
use aezab.Value.{str}
use aezab.Guard.Cache.{
  Key, Call, look, store, after, get_idempotent_response, store_idempotent_response, max_entries,
}
use aezab.Guard.Answers.{after-length, get_idempotent_response-WasStored}
use aezab.Guard.Lasting.{since, get_idempotent_response-lasts}
use aezab.Guard.Sessions.{
  Task, System, admit, persist, obtain, Reach, start, later, idle, start_task, enter_slot, acquire,
  enter_session,
}
use aezab.Prelude.Counting.{count}
use aezab.Guard.Counting.{references}
use aezab.Guard.Sound.{of_session, in_body}
use aezab.Guard.Exclusion.{
  takes_slot, mutual_exclusion, acquire-busy, session_locks-counted, active-bounded,
}

-- The latest call first: two tenants store under one key, and the first looks it up.
abbrev calls : List Call
calls =
    look "a" (some "k") 20
    ∷ store "b" (some "k") (str "second") 60 11
    ∷ store "a" (some "k") (str "first") 60 10
    ∷ []

first_answers : (get_idempotent_response (after calls) "a" (some "k") 69).0 ≡ some (str "first")
unfolding get_idempotent_response after get put remove
first_answers = refl

first_expires : (get_idempotent_response (after calls) "a" (some "k") 70).0 ≡ none
unfolding get_idempotent_response after get put remove
first_expires = refl

after-length_example : length (after calls) ≤ max_entries
after-length_example = after-length calls

get_idempotent_response-WasStored_example :
    (k : String) × (i : ℕ) × (ttl : ℕ) × (stored : ℕ) × (some "k" ≡ some k)
    × (get_elem? calls i ≡ some (store "a" (some k) (str "first") ttl stored))
    × (69 < stored + ttl)
get_idempotent_response-WasStored_example =
    get_idempotent_response-WasStored calls "a" (some "k") 69 (str "first") first_answers

-- The response outlives a look-up and a store of the other tenant.
abbrev between : List Call
between = store "b" (some "j") (str "other") 60 50 ∷ look "a" (some "j") 40 ∷ []

other_key : ◌≢◌ {A = Key} ("b", "j") ("a", "j")
other_key e = absurd (ground (arith, (eq_iff "b" "a").1 (ap (λ k. k.0) e)))

j_given : ◌≢◌ {A = String} "j" ""
j_given e = absurd (ground (arith, (eq_iff "j" "").1 e))

get_idempotent_response-lasts_example :
    (get_idempotent_response
      (since (store_idempotent_response (after calls) "a" (some "j") (str "third") 60 30) between)
      "a"
      (some "j")
      80).0
    ≡ some (str "third")
get_idempotent_response-lasts_example =
    get_idempotent_response-lasts (after calls) "a" "j" (str "third") 60 30 80 between j_given
      (omega arith) (omega arith, (omega arith, tt)) (other_key, (tt, tt)) (omega arith)

-- Two calls for one session: the first has the lock, and the second waits.
abbrev one_call : System
one_call = start_task "a" true (record idle { active = 1 })

abbrev first : Task
first = record { session = "a"; lock = 0; acquired = true; has_slot = true }

abbrev in_turn : System
in_turn = record one_call { locks = record one_call.locks { locked = 0 ∷ [] }; tasks = first ∷ [] }

abbrev contended : System
contended = start_task "a" false in_turn

reach_one : Reach 2 one_call
unfolding enter_slot
reach_one = later start (admit "a" 1 refl refl refl)

reach_turn : Reach 2 in_turn
unfolding acquire enter_session get
reach_turn =
    later reach_one
      (obtain [] (record first { acquired = false }) [] in_turn.locks refl refl refl refl)

reach_contended : Reach 2 contended
reach_contended = later reach_turn (persist "a" refl refl)

mutual_exclusion_example : count (in_body "a") contended.tasks ≤ 1
mutual_exclusion_example = mutual_exclusion reach_contended "a"

acquire-busy_example : count (in_body "a") contended.tasks ≡ 1
unfolding acquire enter_session get put
acquire-busy_example =
    acquire-busy reach_contended []
      (record { session = "a"; lock = 0; acquired = false; has_slot = false }) (first ∷ []) refl
      refl

session_locks-counted_example :
    (references (get contended.locks.session_locks "a") ≡ count (of_session "a") contended.tasks)
    × ((get contended.locks.session_locks "a" ≡ none)
        ↔ (count (of_session "a") contended.tasks ≡ 0))
session_locks-counted_example = session_locks-counted reach_contended "a"

active-bounded_example :
    (contended.active ≡ contended.without_session + count takes_slot contended.tasks)
    × (contended.active ≤ 2)
active-bounded_example = active-bounded reach_contended
