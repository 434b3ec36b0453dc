-- ===== src/Guard/Counting.antt =====
-- What entering and leaving a session does to the table of locks, and counts over the calls in flight.
use aezab.Prelude.{
  ℕ, ◌+◌, ◌-◌, ◌≡◌, inl, inr, String, string_eq, nat_eq, nat_beq_iff, false, Option, none, some,
  List, [], ◌∷◌, leb, arith, Bool-cases, ◌==◌, if◌then◌else◌,
}
use aezab.Prelude.Dict.{get, get-put, get-remove}
use aezab.Guard.Sessions.{Entry, Locks, enter_found, leave_found, mem, erase}

pub mem-erase :
    (lock : ℕ) (xs : List ℕ) (l : ℕ)
    → mem l (erase lock xs) ≡ (if lock == l then false else mem l xs)
unfolding mem erase
mem-erase lock [] l = ground arith
mem-erase lock (x ∷ xs) l = ground (arith, mem-erase lock xs l)

abbrev pub lock_of : Option Entry → Option ℕ
lock_of none = none
lock_of (some e) = some e.lock

abbrev pub references : Option Entry → ℕ
references none = 0
references (some e) = e.refcount

-- The lock that a session gets: the one of its entry, or a new one.
abbrev pub lock_for : Option Entry → ℕ → ℕ
lock_for none next = next
lock_for (some e) next = e.lock

pub get-enter :
    (session : String) (l : Locks) (o : Option Entry) (k : String)
    → get (enter_found session o l).1.session_locks k ≡ (
        if session == k
        then some (record { lock = lock_for o l.next_lock; refcount = references o + 1 })
        else get l.session_locks k)
unfolding enter_found
get-enter session l none k = get-put l.session_locks session k _
get-enter session l (some e) k = get-put l.session_locks session k _

abbrev pub without_one : Entry → Option Entry
without_one e = if leb e.refcount 1 then none else some (record e { refcount = e.refcount - 1 })

pub get-leave :
    (session : String) (lock : ℕ) (l : Locks) (e : Entry) (k : String)
    → e.lock ≡ lock
    → get (leave_found session lock (some e) l).session_locks k
      ≡ (if session == k then without_one e else get l.session_locks k)
unfolding leave_found
get-leave session lock l e k h = elim (Bool-cases (leb e.refcount 1)) [
  | inl y ↦ rw ((nat_beq_iff e.lock lock).1 h, y) (get-remove l.session_locks session k)
  | inr n ↦ rw ((nat_beq_iff e.lock lock).1 h, n) (get-put l.session_locks session k _)
]
