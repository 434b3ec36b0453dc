-- ===== src/Guard/Sound.antt =====
-- The table of locks against the calls in flight, kept by entering and by obtaining a lock.
use aezab.Prelude.{
  ℕ, ◌≤◌, ◌<◌, ◌≡◌, refl, sym, ap, ◌∙◌, inl, inr, String, string_eq, nat_eq, nat_beq_iff, Bool,
  true, false, ◌&&◌, Option, none, some, some_inj, List, ◌∷◌, ◌++◌, All, arith, Bool-cases, ◌==◌,
  if◌then◌else◌, eq_iff,
}
use aezab.Prelude.Dict.{get, beq_self}
use aezab.Guard.Sessions.{Entry, Locks, Task, enter_found, mem}
use aezab.Prelude.Counting.{count, count-split, All-map, All-middle, All-replace}
use aezab.Guard.Counting.{lock_of, references, lock_for, get-enter}

abbrev pub of_session : String → Task → Bool
of_session k x = x.session == k

abbrev pub holds : ℕ → Task → Bool
holds lock x = (x.lock == lock) && x.acquired

-- The calls that are in the body of `session_lock` for a session.
abbrev pub in_body : String → Task → Bool
in_body k x = (x.session == k) && x.acquired

abbrev pub Agrees : Locks → Task → Type 0
Agrees l x = lock_of (get l.session_locks x.session) ≡ some x.lock

-- The table against the calls in flight: an entry counts those of its session, who all have its lock,
-- which no other entry has, and a lock is locked exactly while one of them has acquired it.
pub record IsSound (l : Locks) (tasks : List Task) : Type 0 where
  pub counted : (k : String) → references (get l.session_locks k) ≡ count (of_session k) tasks
  pub positive : (k : String) (e : Entry) → get l.session_locks k ≡ some e → 0 < e.refcount
  pub issued : (k : String) (e : Entry) → get l.session_locks k ≡ some e → e.lock < l.next_lock
  pub apart :
      (j k : String) (d e : Entry)
      → get l.session_locks j ≡ some d
      → get l.session_locks k ≡ some e
      → d.lock ≡ e.lock
      → j ≡ k
  pub agree : All (Agrees l) tasks
  pub fresh : All (λ x. x.lock < l.next_lock) tasks
  pub held : (lock : ℕ) → count (holds lock) tasks ≡ (if mem lock l.locked then 1 else 0)

abbrev pub waiting : String → ℕ → Bool → Task
waiting session lock has_slot = record {
  session = session;
  lock = lock;
  acquired = false;
  has_slot = has_slot;
}

module _ (session : String) (has_slot : Bool) (l : Locks) (tasks : List Task)
    (v : IsSound l tasks) where
  abbrev pub after_enter : Option Entry → Locks
  after_enter o = (enter_found session o l).1

  abbrev pub entered : Option Entry → List Task
  entered o = waiting session (lock_for o l.next_lock) has_slot ∷ tasks

  same_entry :
      (o : Option Entry) (k : String)
      → get l.session_locks session ≡ o
      → (session == k) ≡ true
      → get l.session_locks k ≡ o
  same_entry o k e y = ap (get l.session_locks) (sym ((eq_iff session k).0 y)) ∙ e

  enter-counted :
      (o : Option Entry) (k : String)
      → get l.session_locks session ≡ o
      → references (get (after_enter o).session_locks k) ≡ count (of_session k) (entered o)
  enter-counted o k e = elim (Bool-cases (session == k)) [
    | inl y ↦ rw (get-enter, y) (omega (arith, v.counted k, ap references (same_entry o k e y)))
    | inr n ↦ rw (get-enter, n) (omega (arith, v.counted k))
  ]

  enter-positive :
      (o : Option Entry) (k : String) (e : Entry)
      → get (after_enter o).session_locks k ≡ some e
      → 0 < e.refcount
  enter-positive o k e h = elim (Bool-cases (session == k)) [
    | inl y ↦ ground (arith, rw (get-enter, y) at h)
    | inr n ↦ v.positive k e (rw (get-enter, n) at h)
  ]

  enter-next : (o : Option Entry) → l.next_lock ≤ (after_enter o).next_lock
  unfolding enter_found
  enter-next none = omega arith
  enter-next (some e) = omega arith

  lock_for-lt :
      (o : Option Entry)
      → get l.session_locks session ≡ o
      → lock_for o l.next_lock < (after_enter o).next_lock
  unfolding enter_found
  lock_for-lt none h = omega arith
  lock_for-lt (some e) h = v.issued session e h

  enter-issued :
      (o : Option Entry) (k : String) (e : Entry)
      → get l.session_locks session ≡ o
      → get (after_enter o).session_locks k ≡ some e
      → e.lock < (after_enter o).next_lock
  enter-issued o k e g h = elim (Bool-cases (session == k)) [
    | inl y ↦ rw (← (some_inj (rw (get-enter, y) at h))) (lock_for-lt o g)
    | inr n ↦ omega (arith, v.issued k e (rw (get-enter, n) at h), enter-next o)
  ]

  own_lock_apart :
      (o : Option Entry) (k : String) (e : Entry)
      → get l.session_locks session ≡ o
      → get l.session_locks k ≡ some e
      → lock_for o l.next_lock ≡ e.lock
      → session ≡ k
  own_lock_apart none k e g h same = absurd (omega (arith, v.issued k e h))
  own_lock_apart (some d) k e g h same = v.apart session k d e g h same

  enter-apart :
      (o : Option Entry) (j k : String) (d e : Entry)
      → get l.session_locks session ≡ o
      → get (after_enter o).session_locks j ≡ some d
      → get (after_enter o).session_locks k ≡ some e
      → d.lock ≡ e.lock
      → j ≡ k
  enter-apart o j k d e g a b same = elim (Bool-cases (session == j)) [
    | inl y ↦ elim (Bool-cases (session == k)) [
      | inl z ↦ sym ((eq_iff session j).0 y) ∙ (eq_iff session k).0 z
      | inr m ↦
          sym ((eq_iff session j).0 y)
          ∙ own_lock_apart o k e g (rw (get-enter, m) at b)
              (ap (λ x. x.lock) (some_inj (rw (get-enter, y) at a)) ∙ same)
    ]
    | inr n ↦ elim (Bool-cases (session == k)) [
      | inl z ↦
          sym (
            own_lock_apart o j d g (rw (get-enter, n) at a)
              (ap (λ x. x.lock) (some_inj (rw (get-enter, z) at b)) ∙ sym same))
          ∙ (eq_iff session k).0 z
      | inr m ↦ v.apart j k d e (rw (get-enter, n) at a) (rw (get-enter, m) at b) same
    ]
  ]

  lock_for-agrees :
      (o : Option Entry) (lock next : ℕ)
      → lock_of o ≡ some lock
      → some (lock_for o next) ≡ some lock
  lock_for-agrees none lock next h = absurd (ground (arith, h))
  lock_for-agrees (some e) lock next h = h

  enter-Agrees :
      (o : Option Entry) (x : Task)
      → get l.session_locks session ≡ o
      → Agrees l x
      → Agrees (after_enter o) x
  enter-Agrees o x g h = elim (Bool-cases (session == x.session)) [
    | inl y ↦
        rw (get-enter, y)
          (lock_for-agrees o x.lock l.next_lock (ap lock_of (sym (same_entry o x.session g y)) ∙ h))
    | inr n ↦ rw (get-enter, n) h
  ]

  enter-own :
      (o : Option Entry)
      → Agrees (after_enter o) (waiting session (lock_for o l.next_lock) has_slot)
  enter-own o = rw (get-enter, beq_self session) refl

  enter-locked : (o : Option Entry) → (after_enter o).locked ≡ l.locked
  unfolding enter_found
  enter-locked none = refl
  enter-locked (some e) = refl

  enter-held :
      (o : Option Entry) (lock : ℕ)
      → count (holds lock) (entered o) ≡ (if mem lock (after_enter o).locked then 1 else 0)
  enter-held o lock = rw (enter-locked o) (ground (arith, v.held lock))

  pub enter-IsSound :
      (o : Option Entry) → get l.session_locks session ≡ o → IsSound (after_enter o) (entered o)
  enter-IsSound o g = record {
    counted = λ k. enter-counted o k g;
    positive = enter-positive o;
    issued = λ k e. enter-issued o k e g;
    apart = λ j k d e. enter-apart o j k d e g;
    agree = (
      enter-own o,
      All-map (Agrees l) (Agrees (after_enter o)) tasks (λ x. enter-Agrees o x g) v.agree,
    );
    fresh = (
      lock_for-lt o g,
      All-map (λ x. x.lock < l.next_lock) (λ x. x.lock < (after_enter o).next_lock) tasks
          (λ x h. omega (arith, h, enter-next o)) v.fresh,
    );
    held = enter-held o;
  }

module _ (l : Locks) (front : List Task) (x : Task) (back : List Task)
    (v : IsSound l (front ++ (x ∷ back))) (waits : x.acquired ≡ false)
    (free : mem x.lock l.locked ≡ false) where
  abbrev pub acquiring : Task
  acquiring = record x { acquired = true }

  abbrev pub after_acquire : Locks
  after_acquire = record l { locked = x.lock ∷ l.locked }

  acquire-held :
      (lock : ℕ)
      → count (holds lock) (front ++ (acquiring ∷ back))
        ≡ (if mem lock after_acquire.locked then 1 else 0)
  unfolding mem
  acquire-held lock = ground (
    arith,
    v.held lock,
    nat_beq_iff x.lock lock,
    count-split (holds lock) front x back,
    count-split (holds lock) front acquiring back,
  )

  pub acquire-IsSound : IsSound after_acquire (front ++ (acquiring ∷ back))
  acquire-IsSound = record {
    counted = λ k.
        v.counted k
        ∙ count-split (of_session k) front x back
        ∙ sym (count-split (of_session k) front acquiring back);
    positive = v.positive;
    issued = v.issued;
    apart = v.apart;
    agree =
        All-replace (Agrees l) front x acquiring back (All-middle (Agrees l) front x back v.agree)
          v.agree;
    fresh =
        All-replace (λ z. z.lock < l.next_lock) front x acquiring back
          (All-middle (λ z. z.lock < l.next_lock) front x back v.fresh) v.fresh;
    held = acquire-held;
  }
