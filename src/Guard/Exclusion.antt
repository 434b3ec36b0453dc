-- ===== src/Guard/Exclusion.antt =====
-- That turns of one session exclude each other, that the table of locks holds no session that is not in
-- use, and that the slots bound the invocations.
use mathlib.Core.Path.{subst}
use aezab.Prelude.{
  and-left, and-right, and-intro, eq_iff, nat_eq, nat_beq_iff, ℕ, suc, ◌+◌, ◌≤◌, ◌<◌, ◌≡◌, ◌↔◌,
  refl, sym, ap, ◌∙◌, inl, inr, String, string_eq, Bool, true, false, Option, none, some, some_inj,
  List, ◌∷◌, ◌++◌, arith, Bool-cases, Option-cases,
}
use aezab.Prelude.Dict.{get}
use aezab.Guard.Sessions.{
  Entry, Locks, Task, System, Step, admit, admit_new, finish_new, persist, obtain, finish, Reach,
  start, later, idle, enter_slot, leave_slot, enter_session, leave_session, enter_found,
  leave_found, mem, acquire, exit_session, start_task, end_task,
}
use aezab.Prelude.Counting.{count, count-split, count-le, All-map, All-all, All-middle}
use aezab.Guard.Counting.{lock_of, references}
use aezab.Guard.Sound.{of_session, holds, in_body, Agrees, IsSound, enter-IsSound, acquire-IsSound}
use aezab.Guard.Leave.{exit-IsSound, released, released-session_locks}

abbrev pub takes_slot : Task → Bool
takes_slot x = x.has_slot

record Holds (max_concurrent : ℕ) (s : System) : Type 0 where
  sound : IsSound s.locks s.tasks
  slots : s.active ≡ s.without_session + count takes_slot s.tasks
  fits : s.active ≤ max_concurrent

enter_slot-some :
    (max_concurrent active n : ℕ)
    → enter_slot max_concurrent active ≡ some n
    → (n ≡ active + 1) × (n ≤ max_concurrent)
unfolding enter_slot
enter_slot-some max_concurrent active n h = ground (arith, h)

start_task-IsSound :
    (session : String) (has_slot : Bool) (l : Locks) (tasks : List Task)
    → IsSound l tasks
    → IsSound (enter_session session l).1 (
        record {
          session = session;
          lock = (enter_session session l).0;
          acquired = false;
          has_slot = has_slot;
        }
        ∷ tasks)
unfolding enter_session enter_found
start_task-IsSound session has_slot l tasks v = elim (Option-cases (get l.session_locks session)) [
  | inl e ↦ rw e (enter-IsSound session has_slot l tasks v none e)
  | inr (o, e) ↦ rw e (enter-IsSound session has_slot l tasks v (some o) e)
]

end_task-IsSound :
    (l : Locks) (front : List Task) (x : Task) (back : List Task)
    → IsSound l (front ++ (x ∷ back))
    → IsSound (exit_session x.acquired x.session x.lock l) (front ++ back)
unfolding exit_session leave_session
end_task-IsSound l front x back v = elim (Option-cases (get l.session_locks x.session)) [
  | inl e ↦ absurd (ground (arith, e, All-middle (Agrees l) front x back v.agree))
  | inr (o, e) ↦
      let found = ap (λ d. get d x.session) (released-session_locks l front x back o v e) ∙ e in
      subst
        (λ entry.
          IsSound (leave_found x.session x.lock entry (released l front x back o v e))
            (front ++ back))
        (sym found) (exit-IsSound l front x back o v e)
]

acquire-some :
    (lock : ℕ) (l l' : Locks)
    → acquire lock l ≡ some l'
    → (mem lock l.locked ≡ false) × (l' ≡ record l { locked = lock ∷ l.locked })
unfolding acquire
acquire-some lock l l' h = elim (Bool-cases (mem lock l.locked)) [
  | inl y ↦ absurd (ground (arith, rw y at h))
  | inr n ↦ (n, sym (some_inj (rw n at h)))
]

idle-Holds : (max_concurrent : ℕ) → Holds max_concurrent idle
unfolding get mem
idle-Holds max_concurrent = record {
  sound = record {
    counted = λ k. refl;
    positive = λ k e h. absurd (ground (arith, h));
    issued = λ k e h. absurd (ground (arith, h));
    agree = tt;
    fresh = tt;
    apart = λ j k d e h. absurd (ground (arith, h));
    held = λ lock. refl;
  };
  slots = omega arith;
  fits = omega arith;
}

module _ {max_concurrent : ℕ} {s : System} (h : Holds max_concurrent s) where
  admit-Holds :
      (session : String) (n : ℕ)
      → enter_slot max_concurrent s.active ≡ some n
      → Holds max_concurrent (start_task session true (record s { active = n }))
  admit-Holds session n e =
      let (next, room) = enter_slot-some max_concurrent s.active n e in
      record {
        sound = start_task-IsSound session true s.locks s.tasks h.sound;
        slots = omega (arith, next, h.slots);
        fits = room;
      }

  admit_new-Holds :
      (n : ℕ)
      → enter_slot max_concurrent s.active ≡ some n
      → Holds max_concurrent (record s { active = n; without_session = s.without_session + 1 })
  admit_new-Holds n e =
      let (next, room) = enter_slot-some max_concurrent s.active n e in
      record { sound = h.sound; slots = omega (arith, next, h.slots); fits = room }

  finish_new-Holds :
      (n : ℕ)
      → s.without_session ≡ suc n
      → Holds max_concurrent (record s { active = leave_slot s.active; without_session = n })
  finish_new-Holds n e = record {
    sound = h.sound;
    slots = omega (arith, e, h.slots);
    fits = omega (arith, h.fits);
  }

  persist-Holds : (session : String) → Holds max_concurrent (start_task session false s)
  persist-Holds session = record {
    sound = start_task-IsSound session false s.locks s.tasks h.sound;
    slots = omega (arith, h.slots);
    fits = h.fits;
  }

  finish-Holds :
      (front : List Task) (x : Task) (back : List Task)
      → s.tasks ≡ front ++ (x ∷ back)
      → Holds max_concurrent (end_task front x back s)
  finish-Holds front x back e =
      let slots = h.slots ∙ ap (λ l. s.without_session + count takes_slot l) e in
      record {
        sound = end_task-IsSound s.locks front x back (rw e at h.sound);
        slots = ground (arith, slots, count-split takes_slot front x back);
        fits = ground (arith, h.fits);
      }

  obtain-Holds :
      (front : List Task) (x : Task) (back : List Task) (l : Locks)
      → s.tasks ≡ front ++ (x ∷ back)
      → x.acquired ≡ false
      → acquire x.lock s.locks ≡ some l
      → Holds max_concurrent
          (record s { locks = l; tasks = front ++ (record x { acquired = true } ∷ back) })
  obtain-Holds front x back l e w a =
      let (free, same) = acquire-some x.lock s.locks l a in
      record {
        sound = rw same (acquire-IsSound s.locks front x back (rw e at h.sound) w free);
        slots =
            h.slots
            ∙ ap (λ q. s.without_session + count takes_slot q) e
            ∙ ap (λ n. s.without_session + n)
                (count-split takes_slot front x back
                  ∙ sym (count-split takes_slot front (record x { acquired = true }) back));
        fits = h.fits;
      }

Step-Holds :
    {max_concurrent : ℕ} (s t : System)
    → Step max_concurrent s t
    → Holds max_concurrent s
    → Holds max_concurrent t
Step-Holds s t (admit session n _ e q) h = rw q (admit-Holds h session n e)
Step-Holds s t (admit_new n e q) h = rw q (admit_new-Holds h n e)
Step-Holds s t (finish_new n e q) h = rw q (finish_new-Holds h n e)
Step-Holds s t (persist session _ q) h = rw q (persist-Holds h session)
Step-Holds s t (obtain front x back l e w a q) h = rw q (obtain-Holds h front x back l e w a)
Step-Holds s t (finish front x back e q) h = rw q (finish-Holds h front x back e)

Reach-Holds : {max_concurrent : ℕ} {s : System} → Reach max_concurrent s → Holds max_concurrent s
Reach-Holds start = idle-Holds _
Reach-Holds (later {s} {t} r st) = Step-Holds s t st (Reach-Holds r)

in_body-holds :
    (l : Locks) (session : String) (e : Entry) (x : Task)
    → get l.session_locks session ≡ some e
    → Agrees l x
    → in_body session x ≡ true
    → holds e.lock x ≡ true
in_body-holds l session e x g a h =
    let same = (eq_iff x.session session).0 (and-left _ _ h) in
    let lock = some_inj (sym a ∙ ap (λ k. lock_of (get l.session_locks k)) same ∙ ap lock_of g) in
    and-intro _ _ ((nat_beq_iff x.lock e.lock).1 lock) (and-right _ _ h)

entry_of :
    (l : Locks) (x : Task)
    → Agrees l x
    → (e : Entry) × (get l.session_locks x.session ≡ some e) × (e.lock ≡ x.lock)
entry_of l x a = elim (Option-cases (get l.session_locks x.session)) [
  | inl e ↦ absurd (ground (arith, a, e))
  | inr (e, g) ↦ (e, g, some_inj (ap lock_of (sym g) ∙ a))
]

holds-in_body :
    {tasks : List Task} (l : Locks) (x y : Task)
    → IsSound l tasks
    → Agrees l x
    → Agrees l y
    → holds x.lock y ≡ true
    → in_body x.session y ≡ true
holds-in_body l x y v a b h =
    let (d, g, p) = entry_of l x a in
    let (e, k, q) = entry_of l y b in
    let same =
      v.apart y.session x.session e d k g
        (q ∙ (nat_beq_iff y.lock x.lock).0 (and-left _ _ h) ∙ sym p) in
    and-intro _ _ ((eq_iff y.session x.session).1 same) (and-right _ _ h)

no_references :
    (o : Option Entry) → ((e : Entry) → o ≡ some e → 0 < e.refcount) → references o ≡ 0 → o ≡ none
no_references none h z = refl
no_references (some e) h z = absurd (omega (arith, h e refl))

-- In every state that the process can reach, at most one of the calls of `session_lock` for a session
-- is in its body.
pub mutual_exclusion :
    {max_concurrent : ℕ} {s : System}
    → Reach max_concurrent s
    → (session : String) → count (in_body session) s.tasks ≤ 1
mutual_exclusion {s} r session =
    let v = (Reach-Holds r).sound in
    elim (Option-cases (get s.locks.session_locks session)) [
      | inl e ↦ omega (
        arith,
        v.counted session,
        ap references e,
        count-le (in_body session) (of_session session) s.tasks (
            All-all (λ x. in_body session x ≡ true → of_session session x ≡ true) s.tasks
              (λ x h. and-left _ _ h)),
      )
      | inr (e, g) ↦ ground (
        arith,
        v.held e.lock,
        count-le (in_body session) (holds e.lock) s.tasks (
            All-map (Agrees s.locks) (λ x. in_body session x ≡ true → holds e.lock x ≡ true) s.tasks
              (λ x. in_body-holds s.locks session e x g) v.agree),
      )
    ]

-- In every state that the process can reach, a call that has to wait for its lock waits for one call,
-- of its own session, that is in the body.
pub acquire-busy :
    {max_concurrent : ℕ} {s : System}
    → Reach max_concurrent s
    → (front : List Task) (x : Task) (back : List Task) → s.tasks ≡ front ++ (x ∷ back)
    → acquire x.lock s.locks ≡ none
    → count (in_body x.session) s.tasks ≡ 1
unfolding acquire
acquire-busy {s} r front x back e h =
    let v = (Reach-Holds r).sound in
    let mine = All-middle (Agrees s.locks) front x back (rw e at v.agree) in
    let one : count (holds x.lock) s.tasks ≡ 1 = ground (arith, h, v.held x.lock) in
    omega (
      arith,
      one,
      mutual_exclusion r x.session,
      count-le (holds x.lock) (in_body x.session) s.tasks (
          All-map (Agrees s.locks) (λ y. holds x.lock y ≡ true → in_body x.session y ≡ true) s.tasks
            (λ y. holds-in_body s.locks x y v mine) v.agree),
    )

-- In every state that the process can reach, the table of locks has an entry for exactly the sessions
-- that calls are in flight for, and counts them.
pub session_locks-counted :
    {max_concurrent : ℕ} {s : System}
    → Reach max_concurrent s
    → (session : String)
    → (references (get s.locks.session_locks session) ≡ count (of_session session) s.tasks)
      × ((get s.locks.session_locks session ≡ none) ↔ (count (of_session session) s.tasks ≡ 0))
session_locks-counted {s} r session =
    let v = (Reach-Holds r).sound in
    (
      v.counted session,
      (
        λ e. sym (v.counted session) ∙ ap references e,
        λ e.
            no_references (get s.locks.session_locks session) (v.positive session)
              (v.counted session ∙ e),
      ),
    )

-- In every state that the process can reach, the invocations in flight, with a session or without one,
-- are as many as the slots taken, and at most the limit.
pub active-bounded :
    {max_concurrent : ℕ} {s : System}
    → Reach max_concurrent s
    → (s.active ≡ s.without_session + count takes_slot s.tasks) × (s.active ≤ max_concurrent)
active-bounded r = let h = Reach-Holds r in (h.slots, h.fits)
