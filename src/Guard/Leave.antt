-- ===== src/Guard/Leave.antt =====
-- The table of locks against the calls in flight, kept by leaving `session_lock`.
use aezab.Prelude.{
  ℕ, ◌+◌, ◌<◌, ◌≡◌, refl, sym, ap, ◌∙◌, inl, inr, String, string_eq, nat_eq, false, some, some_inj,
  List, ◌∷◌, ◌++◌, All, leb, arith, Bool-cases, ◌==◌, if◌then◌else◌, eq_iff,
}
use aezab.Prelude.Dict.{get, beq_self}
use aezab.Guard.Sessions.{Entry, Locks, Task, leave_found, mem, erase, release}
use aezab.Prelude.Counting.{
  count, count-split, count-zero, All-map, All-both, All-middle, All-without,
}
use aezab.Guard.Counting.{mem-erase, lock_of, references, get-leave, without_one}
use aezab.Guard.Sound.{of_session, holds, Agrees, IsSound}

without_one-lock : (e d : Entry) → without_one e ≡ some d → e.lock ≡ d.lock
without_one-lock e d h = ground (arith, h)

without_one-counted : (e : Entry) (n : ℕ) → e.refcount ≡ 1 + n → references (without_one e) ≡ n
without_one-counted e n h = ground (arith, h)

module _ (l : Locks) (front : List Task) (x : Task) (back : List Task) (e : Entry)
    (v : IsSound l (front ++ (x ∷ back))) (g : get l.session_locks x.session ≡ some e) where
  abbrev pub released : Locks
  released = if x.acquired then release x.lock l else l

  abbrev pub after_exit : Locks
  after_exit = leave_found x.session x.lock (some e) released

  own_lock : e.lock ≡ x.lock
  own_lock = some_inj (ap lock_of (sym g) ∙ All-middle (Agrees l) front x back v.agree)

  pub released-session_locks : released.session_locks ≡ l.session_locks
  unfolding release
  released-session_locks = ground arith

  get-exit :
      (k : String)
      → get after_exit.session_locks k
        ≡ (if x.session == k then without_one e else get l.session_locks k)
  get-exit k =
      get-leave x.session x.lock released e k own_lock
      ∙ ap (λ d. if x.session == k then without_one e else get d k) released-session_locks

  exit-next : after_exit.next_lock ≡ l.next_lock
  unfolding leave_found release
  exit-next = ground arith

  others : e.refcount ≡ 1 + count (of_session x.session) (front ++ back)
  others =
      ap references (sym g)
      ∙ v.counted x.session
      ∙ count-split (of_session x.session) front x back
      ∙ rw (beq_self x.session) refl

  exit-counted :
      (k : String)
      → references (get after_exit.session_locks k) ≡ count (of_session k) (front ++ back)
  exit-counted k = elim (Bool-cases (x.session == k)) [
    | inl y ↦
        rw (get-exit, y)
          (without_one-counted e _ (
            others ∙ ap (λ s. 1 + count (of_session s) (front ++ back)) ((eq_iff x.session k).0 y)))
    | inr n ↦
        rw (get-exit, n)
          (omega (arith, v.counted k, rw n at (count-split (of_session k) front x back)))
  ]

  exit-positive :
      (k : String) (e' : Entry) → get after_exit.session_locks k ≡ some e' → 0 < e'.refcount
  exit-positive k e' h = elim (Bool-cases (x.session == k)) [
    | inl y ↦ ground (arith, rw (get-exit, y) at h)
    | inr n ↦ v.positive k e' (rw (get-exit, n) at h)
  ]

  exit-issued :
      (k : String) (e' : Entry)
      → get after_exit.session_locks k ≡ some e'
      → e'.lock < after_exit.next_lock
  exit-issued k e' h = elim (Bool-cases (x.session == k)) [
    | inl y ↦ ground (arith, rw (get-exit, y) at h, v.issued x.session e g, exit-next)
    | inr n ↦ rw exit-next (v.issued k e' (rw (get-exit, n) at h))
  ]

  -- An entry that is left had its lock before.
  exit-kept :
      (k : String) (d : Entry)
      → get after_exit.session_locks k ≡ some d
      → (c : Entry) × (get l.session_locks k ≡ some c) × (c.lock ≡ d.lock)
  exit-kept k d h = elim (Bool-cases (x.session == k)) [
    | inl y ↦ (
      e,
      ap (get l.session_locks) (sym ((eq_iff x.session k).0 y)) ∙ g,
      without_one-lock e d (rw (get-exit, y) at h),
    )
    | inr n ↦ (d, rw (get-exit, n) at h, refl)
  ]

  exit-apart :
      (j k : String) (c d : Entry)
      → get after_exit.session_locks j ≡ some c
      → get after_exit.session_locks k ≡ some d
      → c.lock ≡ d.lock
      → j ≡ k
  exit-apart j k c d a b same =
      let (c', a', p) = exit-kept j c a in
      let (d', b', q) = exit-kept k d b in v.apart j k c' d' a' b' (p ∙ same ∙ sym q)

  exit-locked : after_exit.locked ≡ (if x.acquired then erase x.lock l.locked else l.locked)
  unfolding leave_found release
  exit-locked = ground arith

  exit-held :
      (lock : ℕ)
      → count (holds lock) (front ++ back) ≡ (if mem lock after_exit.locked then 1 else 0)
  exit-held lock = rw exit-locked (
      ground
        (arith, v.held lock, count-split (holds lock) front x back, mem-erase x.lock l.locked lock))

  exit-Agrees-last :
      (z : Task) → Agrees l z × (of_session x.session z ≡ false) → Agrees after_exit z
  exit-Agrees-last z (h, apart) =
      let n : (x.session == z.session) ≡ false =
        ground (arith, apart, eq_iff x.session z.session, eq_iff z.session x.session) in
      rw (get-exit, n) h

  exit-Agrees-some : leb e.refcount 1 ≡ false → (z : Task) → Agrees l z → Agrees after_exit z
  exit-Agrees-some m z h = elim (Bool-cases (x.session == z.session)) [
    | inl y ↦
        rw (get-exit, y, m)
          (ap lock_of (sym (ap (get l.session_locks) (sym ((eq_iff x.session z.session).0 y)) ∙ g))
            ∙ h)
    | inr n ↦ rw (get-exit, n) h
  ]

  exit-agree : All (Agrees after_exit) (front ++ back)
  exit-agree =
      let rest = All-without (Agrees l) front x back v.agree in
      elim (Bool-cases (leb e.refcount 1)) [
        | inl y ↦
            let none_left : count (of_session x.session) (front ++ back) ≡ 0 =
              ground (arith, y, others) in
            All-map (λ z. Agrees l z × (of_session x.session z ≡ false)) (Agrees after_exit)
              (front ++ back) exit-Agrees-last
              (All-both (Agrees l) (λ z. of_session x.session z ≡ false) (front ++ back) rest
                (count-zero (of_session x.session) (front ++ back) none_left))
        | inr n ↦ All-map (Agrees l) (Agrees after_exit) (front ++ back) (exit-Agrees-some n) rest
      ]

  pub exit-IsSound : IsSound after_exit (front ++ back)
  exit-IsSound = record {
    counted = exit-counted;
    positive = exit-positive;
    issued = exit-issued;
    apart = exit-apart;
    agree = exit-agree;
    fresh = rw exit-next (All-without (λ z. z.lock < l.next_lock) front x back v.fresh);
    held = exit-held;
  }
