-- ===== src/Guard/Sessions.antt =====
-- server/engine/request_guard.py: the admission of invocations and the locks of sessions, with
-- `_admit_invoke` of server/api/invoke.py and the persisting phase of server/engine/summary_scheduler.py,
-- which enter them. An `asyncio.Lock` is a number, and is locked if it is in a list; between two steps
-- of a task any other task may make one.
use aezab.Prelude.{
  ℕ, suc, ◌+◌, ◌-◌, ◌≡◌, String, string_eq, nat_eq, Bool, true, false, Option, none, some, List, [],
  ◌∷◌, ◌++◌, leb, ◌==◌, if◌then◌else◌,
}
use aezab.Prelude.Dict.{Dict, get, put, remove}

-- `[asyncio.Lock(), refcount]`
pub record Entry : Type 0 where
  pub lock : ℕ
  pub refcount : ℕ

pub record Locks : Type 0 where
  pub session_locks : Dict String Entry
  pub next_lock : ℕ
  pub locked : List ℕ

-- `none` is `InvokeCapacityExceeded`.
unfoldable pub enter_slot : ℕ → ℕ → Option ℕ
enter_slot max_concurrent active = if leb max_concurrent active then none else some (active + 1)

abbrev pub leave_slot : ℕ → ℕ
leave_slot active = active - 1

unfoldable pub enter_found : String → Option Entry → Locks → ℕ × Locks
enter_found session none l = (
  l.next_lock,
  record l {
    session_locks = put l.session_locks session (record { lock = l.next_lock; refcount = 1 });
    next_lock = l.next_lock + 1;
  },
)
enter_found session (some e) l = (
  e.lock,
  record l { session_locks = put l.session_locks session (record e { refcount = e.refcount + 1 }) },
)

-- The entry of a session is made or counted up; the result is its lock.
unfoldable pub enter_session : String → Locks → ℕ × Locks
unfolding enter_found
enter_session session l = enter_found session (get l.session_locks session) l

unfoldable pub mem : ℕ → List ℕ → Bool
mem lock [] = false
mem lock (x ∷ xs) = if x == lock then true else mem lock xs

unfoldable pub erase : ℕ → List ℕ → List ℕ
erase lock [] = []
erase lock (x ∷ xs) = let rest = erase lock xs in if x == lock then rest else x ∷ rest

-- `lock.acquire()` returns at once, or is `none` while another task has the lock.
unfoldable pub acquire : ℕ → Locks → Option Locks
unfolding mem
acquire lock l = if mem lock l.locked then none else some (record l { locked = lock ∷ l.locked })

unfoldable pub release : ℕ → Locks → Locks
unfolding erase
release lock l = record l { locked = erase lock l.locked }

unfoldable pub leave_found : String → ℕ → Option Entry → Locks → Locks
leave_found session lock none l = l
leave_found session lock (some e) l =
    if e.lock == lock
    then record l {
      session_locks =
          if leb e.refcount 1
          then remove l.session_locks session
          else put l.session_locks session (record e { refcount = e.refcount - 1 });
    }
    else l

unfoldable pub leave_session : String → ℕ → Locks → Locks
unfolding leave_found
leave_session session lock l = leave_found session lock (get l.session_locks session) l

-- The `finally` of `session_lock`.
unfoldable pub exit_session : Bool → String → ℕ → Locks → Locks
unfolding release leave_session
exit_session acquired session lock l =
    leave_session session lock (if acquired then release lock l else l)

-- A call of `session_lock` for a session, which waits for its lock or has it; an invocation has a slot,
-- the scheduler's has none.
pub record Task : Type 0 where
  pub session : String
  pub lock : ℕ
  pub acquired : Bool
  pub has_slot : Bool

-- The process: the slots taken, the locks, the calls in flight, and the invocations without a session.
pub record System : Type 0 where
  pub active : ℕ
  pub locks : Locks
  pub tasks : List Task
  pub without_session : ℕ

abbrev pub freed : Task → ℕ → ℕ
freed x active = if x.has_slot then leave_slot active else active

abbrev pub start_task : String → Bool → System → System
start_task session has_slot s =
    let (lock, locks) = enter_session session s.locks in
    record s {
      locks = locks;
      tasks =
          record { session = session; lock = lock; acquired = false; has_slot = has_slot }
          ∷ s.tasks;
    }

-- The task leaves, by the end of its body, a timeout or a cancellation.
abbrev pub end_task : List Task → Task → List Task → System → System
end_task front x back s = record s {
  active = freed x s.active;
  locks = exit_session x.acquired x.session x.lock s.locks;
  tasks = front ++ back;
}

pub data Step (max_concurrent : ℕ) (s t : System) : Type 0 where
  admit :
      (session : String) (n : ℕ)
      → (session == "") ≡ false
      → enter_slot max_concurrent s.active ≡ some n
      → t ≡ start_task session true (record s { active = n })
      → Step max_concurrent s t
  admit_new :
      (n : ℕ)
      → enter_slot max_concurrent s.active ≡ some n
      → t ≡ record s { active = n; without_session = s.without_session + 1 }
      → Step max_concurrent s t
  finish_new :
      (n : ℕ)
      → s.without_session ≡ suc n
      → t ≡ record s { active = leave_slot s.active; without_session = n }
      → Step max_concurrent s t
  persist :
      (session : String)
      → (session == "") ≡ false
      → t ≡ start_task session false s
      → Step max_concurrent s t
  obtain :
      (front : List Task) (x : Task) (back : List Task) (l : Locks)
      → s.tasks ≡ front ++ (x ∷ back)
      → x.acquired ≡ false
      → acquire x.lock s.locks ≡ some l
      → t ≡ record s { locks = l; tasks = front ++ (record x { acquired = true } ∷ back) }
      → Step max_concurrent s t
  finish :
      (front : List Task) (x : Task) (back : List Task)
      → s.tasks ≡ front ++ (x ∷ back)
      → t ≡ end_task front x back s
      → Step max_concurrent s t

abbrev pub idle : System
idle = record {
  active = 0;
  locks = record { session_locks = []; next_lock = 0; locked = [] };
  tasks = [];
  without_session = 0;
}

pub data Reach (max_concurrent : ℕ) : System → Type 0 where
  start : Reach max_concurrent idle
  later : {s t : System} → Reach max_concurrent s → Step max_concurrent s t → Reach max_concurrent t
