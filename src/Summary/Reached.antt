-- ===== src/Summary/Reached.antt =====
-- What holds in every state of the process that the folds and the turns can reach.
use mathlib.Core.Path.{subst}
use aezab.Prelude.{
  ◌+◌, ◌≤◌, ◌<◌, ◌≡◌, refl, sym, ap, ◌∙◌, inl, inr, ◌⊎◌, String, string_eq, nat_eq, nat_beq_iff,
  true, false, Option, none, some, some_inj, List, [], ◌∷◌, ◌++◌, All, length, arith, Bool-cases,
  ◌==◌, if◌then◌else◌, eq_iff,
}
use aezab.Prelude.Counting.{
  count, count-split, count-zero, All-map, All-both, All-middle, All-without, All-replace,
  All-insert,
}
use aezab.Prelude.Dict.{Dict, get, put, remove, get-put, get-remove, beq_self}
use aezab.Value.{Value}
use aezab.Budget.{Text, Message}
use aezab.Summary.{Settings, Row, Memory, Draft, persist}
use aezab.Summary.Process.{
  Stage, waiting, drafted, written, Fold, System, is_inflight, discard, schedule_summary_update,
  end_fold, persist_in, empty_memory, add_row, Step, open_session, save, delete, schedule, prepare,
  commit, stop, Reach, start, later,
}
use aezab.Summary.Sound.{
  of_session, is_inflight-discard, Covers, nothing, IsKept, IsFresh, Fresh, Holds, add_row-IsKept,
  add_row-IsReady, persist-IsKept, draft-IsReady,
}

-- At most one fold of a session, which its name in the set announces.
abbrev pub Single : List Fold → List String → Type 0
Single folds inflight =
    (k : String) → count (of_session k) folds ≡ (if is_inflight k inflight then 1 else 0)

end-Single :
    (front : List Fold) (x : Fold) (back : List Fold) (inflight : List String)
    → Single (front ++ (x ∷ back)) inflight
    → Single (front ++ back) (discard x.session inflight)
end-Single front x back inflight h k =
    ground (
      arith,
      h k,
      count-split (of_session k) front x back,
      is_inflight-discard x.session inflight k,
    )

others-apart :
    (front : List Fold) (x : Fold) (back : List Fold) (inflight : List String)
    → Single (front ++ (x ∷ back)) inflight
    → All (λ y. of_session x.session y ≡ false) (front ++ back)
others-apart front x back inflight h = count-zero (of_session x.session) (front ++ back) (
    ground
      (arith, h x.session, count-split (of_session x.session) front x back, beq_self x.session))

is_self : (k : String) → is_inflight k (k ∷ []) ≡ true
is_self k = ground (arith, beq_self k)

module _ (dumps : List Value → Text) (payload : Text → List Row → Text)
    (Answers : List Message → Text → Type 0) (st : Settings) where
  abbrev Fine : System → Type 0
  Fine s = Holds dumps payload Answers st s

  abbrev FreshIn : Dict String Memory → Fold → Type 0
  FreshIn store x = Fresh dumps payload Answers st store x

  abbrev Kept : Memory → Type 0
  Kept m = IsKept dumps payload Answers st m

  put-Fresh :
      (store : Dict String Memory) (k : String) (m : Memory) (x : Fold)
      → of_session k x ≡ false
      → FreshIn store x
      → FreshIn (put store k m) x
  put-Fresh store k m x apart f =
      let off : (k == x.session) ≡ false =
        ground (arith, apart, eq_iff k x.session, eq_iff x.session k) in
      rw (get-put store k x.session m, off) f

  grown :
      (sg : Stage) (m : Memory) (r : Row)
      → IsFresh dumps payload Answers st sg (some m)
      → IsFresh dumps payload Answers st sg (some (add_row r m))
  grown waiting m r f = tt
  grown written m r f = tt
  grown (drafted d) m r f = add_row-IsReady dumps payload Answers st r m d f

  -- Nothing is asked of a fold whose session is gone.
  gone : (sg : Stage) → IsFresh dumps payload Answers st sg none
  gone waiting = tt
  gone written = tt
  gone (drafted d) = tt

  save-Fresh :
      (store : Dict String Memory) (k : String) (m : Memory) (r : Row)
      → get store k ≡ some m
      → (x : Fold) → FreshIn store x
      → FreshIn (put store k (add_row r m)) x
  save-Fresh store k m r e x f = elim (Bool-cases (k == x.session)) [
    | inl y ↦
        let found = ap (get store) (sym ((eq_iff k x.session).0 y)) ∙ e in
        rw (get-put store k x.session (add_row r m), y) (grown x.stage m r (rw found at f))
    | inr n ↦ rw (get-put store k x.session (add_row r m), n) f
  ]

  put-Kept :
      (store : Dict String Memory) (k : String) (new : Memory)
      → Kept new
      → ((j : String) (m : Memory) → get store j ≡ some m → Kept m)
      → (j : String) (m : Memory) → get (put store k new) j ≡ some m
      → Kept m
  put-Kept store k new fine h j m e = elim (Bool-cases (k == j)) [
    | inl y ↦ subst Kept (some_inj (rw (get-put store k j new, y) at e)) fine
    | inr n ↦ h j m (rw (get-put store k j new, n) at e)
  ]

  remove-Fresh :
      (store : Dict String Memory) (k : String) (x : Fold)
      → FreshIn store x
      → FreshIn (remove store k) x
  remove-Fresh store k x f = elim (Bool-cases (k == x.session)) [
    | inl y ↦ rw (get-remove store k x.session, y) (gone x.stage)
    | inr n ↦ rw (get-remove store k x.session, n) f
  ]

  remove-Kept :
      (store : Dict String Memory) (k : String)
      → ((j : String) (m : Memory) → get store j ≡ some m → Kept m)
      → (j : String) (m : Memory) → get (remove store k) j ≡ some m
      → Kept m
  remove-Kept store k h j m e = elim (Bool-cases (k == j)) [
    | inl y ↦ absurd (ground (arith, rw (get-remove store k j, y) at e))
    | inr n ↦ h j m (rw (get-remove store k j, n) at e)
  ]

  schedule-Holds : (k : String) (s : System) → Fine s → Fine (schedule_summary_update k s)
  unfolding schedule_summary_update
  schedule-Holds k s h = elim (Bool-cases (is_inflight k s.inflight)) [
    | inl y ↦ rw y h
    | inr n ↦ rw n (record {
      single = λ j. ground (arith, h.single j, n, eq_iff k j);
      fresh = (tt, h.fresh);
      kept = h.kept;
    })
  ]

  end-Holds :
      (front : List Fold) (x : Fold) (back : List Fold) (s : System)
      → s.folds ≡ front ++ (x ∷ back)
      → Fine s
      → Fine (end_fold front x back s)
  unfolding end_fold
  end-Holds front x back s e h = record {
    single = end-Single front x back s.inflight (rw e at h.single);
    fresh = All-without (FreshIn s.store) front x back (rw e at h.fresh);
    kept = h.kept;
  }

  -- A fold that changes its stage stays the one of its session.
  restaged :
      (front : List Fold) (x : Fold) (back : List Fold) (sg : Stage) (s : System)
      → s.folds ≡ front ++ (x ∷ back)
      → Fine s
      → Single (front ++ (record x { stage = sg } ∷ back)) s.inflight
  restaged front x back sg s e h k =
      sym (
        ap (count (of_session k)) e
        ∙ count-split (of_session k) front x back
        ∙ sym (count-split (of_session k) front (record x { stage = sg }) back))
      ∙ h.single k

  commit_found :
      (front : List Fold) (x : Fold) (back : List Fold) (d : Draft) (s : System) (o : Option Memory)
      → get s.store x.session ≡ o
      → s.folds ≡ front ++ (x ∷ back)
      → IsFresh dumps payload Answers st (drafted d) o
      → Fine s
      → Fine (record s {
        store = persist_in d x.session o s.store;
        folds = front ++ (record x { stage = written } ∷ back);
      })
  unfolding persist_in
  commit_found front x back d s none g e f h = record {
    single = restaged front x back written s e h;
    fresh =
        All-replace (FreshIn s.store) front x (record x { stage = written }) back tt
          (rw e at h.fresh);
    kept = h.kept;
  }
  commit_found front x back d s (some m) g e f h =
      let apart = others-apart front x back s.inflight (rw e at h.single) in
      let rest = All-without (FreshIn s.store) front x back (rw e at h.fresh) in
      let store = put s.store x.session (persist d m) in
      record {
        single = restaged front x back written s e h;
        fresh =
            All-insert (FreshIn store) front (record x { stage = written }) back tt
              (All-map (λ y. (of_session x.session y ≡ false) × FreshIn s.store y) (FreshIn store)
                (front ++ back) (λ y t. put-Fresh s.store x.session (persist d m) y t.0 t.1)
                (All-both (λ y. of_session x.session y ≡ false) (FreshIn s.store) (front ++ back)
                  apart rest));
        kept =
            put-Kept s.store x.session (persist d m)
              (persist-IsKept dumps payload Answers st d m f (h.kept x.session m g)) h.kept;
      }

  stage_of :
      (s : System) (front : List Fold) (x : Fold) (back : List Fold) (d : Draft)
      → s.folds ≡ front ++ (x ∷ back)
      → x.stage ≡ drafted d
      → Fine s
      → IsFresh dumps payload Answers st (drafted d) (get s.store x.session)
  stage_of s front x back d e g h =
      subst (λ sg. IsFresh dumps payload Answers st sg (get s.store x.session)) g
        (All-middle (FreshIn s.store) front x back (rw e at h.fresh))

  Step-Holds : (s t : System) → Step dumps payload Answers st s t → Fine s → Fine t
  Step-Holds s t (open_session k free idle_ q) h =
      let none_of = count-zero (of_session k) s.folds (h.single k ∙ rw idle_ refl) in
      rw q (record {
        single = h.single;
        fresh =
            All-map (λ y. (of_session k y ≡ false) × FreshIn s.store y)
              (FreshIn (put s.store k empty_memory)) s.folds
              (λ y p. put-Fresh s.store k empty_memory y p.0 p.1)
              (All-both (λ y. of_session k y ≡ false) (FreshIn s.store) s.folds none_of h.fresh);
        kept =
            put-Kept s.store k empty_memory (record { covers = nothing; window = inl refl }) h.kept;
      })
  Step-Holds s t (save k m r e q) h = rw q (record {
    single = h.single;
    fresh =
        All-map (FreshIn s.store) (FreshIn (put s.store k (add_row r m))) s.folds
          (save-Fresh s.store k m r e) h.fresh;
    kept =
        put-Kept s.store k (add_row r m)
          (add_row-IsKept dumps payload Answers st r m (h.kept k m e)) h.kept;
  })
  Step-Holds s t (delete k q) h = rw q (record {
    single = h.single;
    fresh =
        All-map (FreshIn s.store) (FreshIn (remove s.store k)) s.folds
          (λ x f. remove-Fresh s.store k x f) h.fresh;
    kept = λ j m e. remove-Kept s.store k h.kept j m e;
  })
  Step-Holds s t (schedule k q) h = rw q (schedule-Holds k s h)
  Step-Holds s t (prepare front x back m rows answer d e w g p a n q) h =
      let new : Fold = record x { stage = drafted d } in
      let ready = draft-IsReady dumps payload Answers st m rows answer d p a n in
      rw q (record {
        single = restaged front x back (drafted d) s e h;
        fresh = All-replace (FreshIn s.store) front x new back (rw g ready) (rw e at h.fresh);
        kept = h.kept;
      })
  Step-Holds s t (commit front x back d e w q) h = rw q (
      commit_found front x back d s (get s.store x.session) refl e (stage_of s front x back d e w h)
        h)
  Step-Holds s t (stop front x back e q) h = rw q (end-Holds front x back s e h)

  Reach-Holds : {s : System} → Reach dumps payload Answers st s → Fine s
  unfolding get
  Reach-Holds start = record {
    single = λ k. refl;
    fresh = tt;
    kept = λ k m h. absurd (ground (arith, h));
  }
  Reach-Holds (later {s} {t} r step) = Step-Holds s t step (Reach-Holds r)

  -- In every state that the process can reach, a session's summary covers the rows below its watermark:
  -- they were sent to the model in order, each row in exactly one batch, with the summary before it. The
  -- watermark never reaches into the recent window.
  pub summary-Covers :
      {s : System} (k : String) (m : Memory)
      → Reach dumps payload Answers st s
      → get s.store k ≡ some m
      → Covers dumps payload Answers st m.rows m.summarized_upto m.summary
        × ((m.summarized_upto ≡ 0) ⊎ (m.summarized_upto + st.recent_window ≤ length m.rows))
  summary-Covers k m r e = let kept = (Reach-Holds r).kept k m e in (kept.covers, kept.window)

  -- In every state that the process can reach, a session has at most one fold in flight, and one exactly
  -- while its id is in the set.
  pub single_flight :
      {s : System} (k : String)
      → Reach dumps payload Answers st s
      → count (of_session k) s.folds ≡ (if is_inflight k s.inflight then 1 else 0)
  single_flight k r = (Reach-Holds r).single k

  -- In every state that the process can reach, the watermark of the session of a fold that waits to write
  -- is still the one that it read, so the check before the write discards no answer, and the write moves the
  -- watermark on.
  pub persist-current :
      {s : System} (front : List Fold) (x : Fold) (back : List Fold) (d : Draft) (m : Memory)
      → Reach dumps payload Answers st s
      → s.folds ≡ front ++ (x ∷ back)
      → x.stage ≡ drafted d
      → get s.store x.session ≡ some m
      → (m.summarized_upto ≡ d.summarized_upto)
        × ((persist d m).summarized_upto ≡ d.boundary)
        × (m.summarized_upto < d.boundary)
  unfolding persist
  persist-current {s} front x back d m r e w g =
      let h = Reach-Holds r in
      let ready =
        subst (IsFresh dumps payload Answers st (drafted d)) g (stage_of s front x back d e w h) in
      let same = ready.current in
      let positive = ready.batch.positive in
      (
        same,
        rw ((nat_beq_iff m.summarized_upto d.summarized_upto).1 same) refl,
        omega (arith, ready.boundary, positive),
      )
