-- ===== src/Summary/Sound.antt =====
-- What the folds and the sessions keep of each other, step by step.
use mathlib.Core.Path.{subst}
use aezab.Prelude.{
  ℕ, zero, suc, ◌+◌, ◌≤◌, ◌<◌, ◌≡◌, refl, sym, ap, ◌∙◌, inl, inr, ◌⊎◌, String, string_eq, nat_eq,
  nat_beq_iff, Bool, false, Option, none, some, some_inj, List, [], ◌∷◌, ◌++◌, All, length,
  length-append, take, drop, arith, ◌==◌, if◌then◌else◌, eq_iff,
}
use aezab.Prelude.Counting.{count}
use aezab.Prelude.Dict.{Dict, get}
use aezab.Value.{Value}
use aezab.Budget.{Text, Message}
use aezab.Summary.{Settings, Row, Memory, Draft, summary_prompt, to_fold, draft, persist, truncated}
use aezab.Summary.Plan.{IsBatch, to_fold-IsBatch}
use aezab.Summary.Process.{
  Stage, waiting, drafted, written, Fold, System, is_inflight, discard, add_row,
}

abbrev pub of_session : String → Fold → Bool
of_session k x = x.session == k

pub is_inflight-discard :
    (j : String) (names : List String) (k : String)
    → is_inflight k (discard j names) ≡ (if j == k then false else is_inflight k names)
unfolding discard
is_inflight-discard j [] k = ground arith
is_inflight-discard j (i ∷ names) k =
    ground (arith, is_inflight-discard j names k, eq_iff i j, eq_iff i k, eq_iff j k)

take-append : {A : Type 0} (n : ℕ) (xs ys : List A) → n ≤ length xs → take n (xs ++ ys) ≡ take n xs
take-append zero xs ys h = refl
take-append (suc n) [] ys h = absurd (omega arith)
take-append (suc n) (x ∷ xs) ys h = ap (λ l. x ∷ l) (take-append n xs ys (omega arith))

next-append :
    {A : Type 0} (u n : ℕ) (xs ys : List A)
    → u + n ≤ length xs
    → take n (drop u (xs ++ ys)) ≡ take n (drop u xs)
next-append zero n xs ys h = take-append n xs ys (omega arith)
next-append (suc u) n [] ys h = absurd (omega arith)
next-append (suc u) n (x ∷ xs) ys h = next-append u n xs ys (omega arith)

module _ (dumps : List Value → Text) (payload : Text → List Row → Text)
    (Answers : List Message → Text → Type 0) (st : Settings) where
  -- A summary that the model gave for the rows below a watermark, taken batch by batch in order: each
  -- batch is the next rows, one at least and a hundred at most, and was sent with the summary before it.
  pub data Covers (rows : List Row) : ℕ → Text → Type 0 where
    nothing : Covers rows 0 []
    folded :
        (upto : ℕ) (prior : Text) (batch : List Row) (answer : Text)
        → Covers rows upto prior
        → batch ≡ take (length batch) (drop upto rows)
        → 0 < length batch
        → length batch ≤ 100
        → upto + length batch ≤ length rows
        → Answers (summary_prompt dumps payload prior batch) answer
        → Covers rows (upto + length batch) (truncated answer 800)

  -- The summary covers the rows below the watermark, which leaves the recent window out.
  pub record IsKept (m : Memory) : Type 0 where
    pub covers : Covers m.rows m.summarized_upto m.summary
    pub window : (m.summarized_upto ≡ 0) ⊎ (m.summarized_upto + st.recent_window ≤ length m.rows)

  -- A draft whose rows are still the next ones of the session.
  pub record IsReady (m : Memory) (d : Draft) : Type 0 where
    pub rows : List Row
    pub current : m.summarized_upto ≡ d.summarized_upto
    pub boundary : d.boundary ≡ m.summarized_upto + length rows
    pub batch : IsBatch st m rows
    pub answered : Answers (summary_prompt dumps payload m.summary rows) d.new_summary

  abbrev pub IsFresh : Stage → Option Memory → Type 0
  IsFresh waiting o = Unit
  IsFresh written o = Unit
  IsFresh (drafted d) none = Unit
  IsFresh (drafted d) (some m) = IsReady m d

  abbrev pub Fresh : Dict String Memory → Fold → Type 0
  Fresh store x = IsFresh x.stage (get store x.session)

  pub record Holds (s : System) : Type 0 where
    pub single :
        (k : String) → count (of_session k) s.folds ≡ (if is_inflight k s.inflight then 1 else 0)
    pub fresh : All (Fresh s.store) s.folds
    pub kept : (k : String) (m : Memory) → get s.store k ≡ some m → IsKept m

  Covers-append :
      (rows more : List Row) (n : ℕ) (t : Text) → Covers rows n t → Covers (rows ++ more) n t
  Covers-append rows more _ _ nothing = nothing
  Covers-append rows more _ _ (folded upto prior batch answer c next pos_ short inside a) =
      folded upto prior batch answer (Covers-append rows more upto prior c)
        (next ∙ sym (next-append upto (length batch) rows more inside)) pos_ short
        (omega (arith, inside, length-append rows more)) a

  pub add_row-IsKept : (r : Row) (m : Memory) → IsKept m → IsKept (add_row r m)
  add_row-IsKept r m h = record {
    covers = Covers-append m.rows (r ∷ []) m.summarized_upto m.summary h.covers;
    window = elim h.window [
      | inl e ↦ inl e
      | inr p ↦ inr (omega (arith, p, length-append m.rows (r ∷ [])))
    ];
  }

  pub add_row-IsReady : (r : Row) (m : Memory) (d : Draft) → IsReady m d → IsReady (add_row r m) d
  add_row-IsReady r m d h =
      let b = h.batch in
      record {
        rows = h.rows;
        current = h.current;
        boundary = h.boundary;
        batch = record {
          next =
              b.next
              ∙ sym (
                  next-append m.summarized_upto (length h.rows) m.rows (r ∷ [])
                    (omega (arith, b.older)));
          positive = b.positive;
          bounded = b.bounded;
          older = omega (arith, b.older, length-append m.rows (r ∷ []));
        };
        answered = h.answered;
      }

  pub persist-IsKept : (d : Draft) (m : Memory) → IsReady m d → IsKept m → IsKept (persist d m)
  unfolding persist
  persist-IsKept d m h k =
      let b = h.batch in
      rw ((nat_beq_iff m.summarized_upto d.summarized_upto).1 h.current, h.boundary)
        (record {
          covers =
              folded m.summarized_upto m.summary h.rows d.new_summary k.covers b.next b.positive
                b.bounded (omega (arith, b.older)) h.answered;
          window = inr b.older;
        })

  pub draft-IsReady :
      (m : Memory) (rows : List Row) (answer : Text) (d : Draft)
      → to_fold dumps payload st m ≡ some rows
      → Answers (summary_prompt dumps payload m.summary rows) answer
      → draft m rows answer ≡ some d
      → IsReady m d
  unfolding draft
  draft-IsReady m rows [] d h a e = absurd (ground (arith, e))
  draft-IsReady m rows (c ∷ answer) d h a e = subst (IsReady m) (some_inj e) (record {
    rows = rows;
    current = refl;
    boundary = refl;
    batch = to_fold-IsBatch dumps payload st m rows h;
    answered = a;
  })
