-- ===== src/Summary/Plan.antt =====
-- The rows that a fold takes.
use mathlib.Core.Path.{subst}
use aezab.Prelude.{
  ◌↔◌, ℕ, zero, suc, ◌+◌, ◌-◌, min, ◌≤◌, ◌<◌, ◌≡◌, refl, sym, ap, ◌∙◌, inl, inr, ◌⊎◌, some,
  some_inj, List, [], ◌∷◌, ◌++◌, length, take, drop, length-take, length-drop, ltb, arith,
  Bool-cases, All, All-take,
}
use aezab.Value.{Value}
use aezab.Budget.{Text, estimate_tokens}
use aezab.Summary.{
  Settings, Row, Memory, tokens, summary_prompt, fitting, or_first, candidates, nonempty, to_fold,
}
use aezab.Summary.Prompt.{size, emptied, summary_prompt-terminates}

take-take : {A : Type 0} (k n : ℕ) (xs : List A) → k ≤ n → take k (take n xs) ≡ take k xs
take-take zero n xs h = refl
take-take (suc k) zero xs h = absurd (omega arith)
take-take (suc k) (suc n) [] h = refl
take-take (suc k) (suc n) (x ∷ xs) h = ap (λ l. x ∷ l) (take-take k n xs (omega arith))

append-assoc_one :
    {A : Type 0} (xs : List A) (y : A) (ys : List A) → xs ++ (y ∷ ys) ≡ (xs ++ (y ∷ [])) ++ ys
append-assoc_one [] y ys = refl
append-assoc_one (x ∷ xs) y ys = ap (λ l. x ∷ l) (append-assoc_one xs y ys)

-- The rows are the next ones behind the watermark, one at least and a hundred at most, and none of the
-- recent window.
pub record IsBatch (st : Settings) (m : Memory) (rows : List Row) : Type 0 where
  pub next : rows ≡ take (length rows) (drop m.summarized_upto m.rows)
  pub positive : 0 < length rows
  pub bounded : length rows ≤ 100
  pub older : m.summarized_upto + length rows + st.recent_window ≤ length m.rows

or_first-next :
    (f c : List Row) → f ≡ take (length f) c → or_first f c ≡ take (length (or_first f c)) c
or_first-next [] [] h = refl
or_first-next [] (x ∷ c) h = refl
or_first-next (r ∷ f) c h = h

or_first-positive : (f c : List Row) → 0 < length c → 0 < length (or_first f c)
or_first-positive [] [] h = absurd (omega arith)
or_first-positive [] (x ∷ c) h = omega arith
or_first-positive (r ∷ f) c h = omega arith

next-length : (f c : List Row) → f ≡ take (length f) c → length f ≤ length c
next-length f c h = omega (arith, ap length h, length-take (length f) c)

nonempty-some : (xs : List Row) → 0 < length xs → nonempty xs ≡ some xs
nonempty-some [] h = absurd (omega arith)
nonempty-some (x ∷ xs) h = refl

candidates-length :
    (st : Settings) (m : Memory)
    → length (candidates st m)
      ≡ min
          (min (length m.rows - st.recent_window - m.summarized_upto) 100)
          (length m.rows - m.summarized_upto)
candidates-length st m =
    length-take (min (length m.rows - st.recent_window - m.summarized_upto) 100)
      (drop m.summarized_upto m.rows)
    ∙ ap (λ n. min (min (length m.rows - st.recent_window - m.summarized_upto) 100) n)
        (length-drop m.summarized_upto m.rows)

-- The fold has something to do: enough rows, and some behind the watermark and before the window.
abbrev pub IsDue : Settings → Memory → Type 0
IsDue st m =
    (st.summary_threshold ≤ length m.rows) × (m.summarized_upto + st.recent_window < length m.rows)

i_lt : (n : ℕ) → n < n + 1
i_lt n = omega arith

module _ (dumps : List Value → Text) (payload : Text → List Row → Text) where
  fitting-next :
      (prior : Text) (taken rs : List Row)
      → fitting dumps payload prior taken rs
        ≡ take (length (fitting dumps payload prior taken rs)) rs
  unfolding fitting
  fitting-next prior taken [] = refl
  fitting-next prior taken (r ∷ rs) =
      elim (Bool-cases (
        ltb 6000 (tokens dumps payload (summary_prompt dumps payload prior (taken ++ (r ∷ [])))))) [
          | inl y ↦ rw y refl
          | inr n ↦ rw n (ap (λ l. r ∷ l) (fitting-next prior (taken ++ (r ∷ [])) rs))
        ]

  fitting-fits :
      (prior : Text) (taken rs : List Row)
      → (fitting dumps payload prior taken rs ≡ [])
        ⊎ (tokens dumps payload
              (summary_prompt dumps payload prior (taken ++ fitting dumps payload prior taken rs))
            ≤ 6000)
  unfolding fitting
  fitting-fits prior taken [] = inl refl
  fitting-fits prior taken (r ∷ rs) =
      elim (Bool-cases (
        ltb 6000 (tokens dumps payload (summary_prompt dumps payload prior (taken ++ (r ∷ [])))))) [
          | inl y ↦ rw y (inl refl)
          | inr n ↦ rw n (elim (fitting-fits prior (taken ++ (r ∷ [])) rs) [
            | inl e ↦ rw e (inr (ground (arith, n)))
            | inr p ↦ inr (
                rw (append-assoc_one taken r (fitting dumps payload prior (taken ++ (r ∷ [])) rs))
                  p)
          ])
        ]

  abbrev chosen : Settings → Memory → List Row
  chosen st m = or_first (fitting dumps payload m.summary [] (candidates st m)) (candidates st m)

  to_fold-due :
      (st : Settings) (m : Memory) → IsDue st m → to_fold dumps payload st m ≡ some (chosen st m)
  unfolding to_fold
  to_fold-due st m h =
      let some_candidate : 0 < length (candidates st m) =
        omega (arith, candidates-length st m, h.1) in
      let positive =
        or_first-positive (fitting dumps payload m.summary [] (candidates st m)) (candidates st m)
          some_candidate in
      ground (arith, h.0, h.1, nonempty-some (chosen st m) positive)

  to_fold-IsDue :
      (st : Settings) (m : Memory) (rows : List Row)
      → to_fold dumps payload st m ≡ some rows
      → IsDue st m
  unfolding to_fold
  to_fold-IsDue st m rows h = ground (arith, h)

  chosen-IsBatch : (st : Settings) (m : Memory) → IsDue st m → IsBatch st m (chosen st m)
  chosen-IsBatch st m h =
      let c = candidates st m in
      let f = fitting dumps payload m.summary [] c in
      let n = min (length m.rows - st.recent_window - m.summarized_upto) 100 in
      let size = candidates-length st m in
      let next = or_first-next f c (fitting-next m.summary [] c) in
      let short = next-length (or_first f c) c next in
      record {
        next =
            next
            ∙ take-take (length (or_first f c)) n (drop m.summarized_upto m.rows)
                (omega (arith, size, short));
        positive = or_first-positive f c (omega (arith, size, h.1));
        bounded = omega (arith, size, short);
        older = omega (arith, size, short, h.1);
      }

  -- What a fold takes is a batch.
  pub to_fold-IsBatch :
      (st : Settings) (m : Memory) (rows : List Row)
      → to_fold dumps payload st m ≡ some rows
      → IsBatch st m rows
  to_fold-IsBatch st m rows e =
      let due = to_fold-IsDue st m rows e in
      subst (IsBatch st m) (some_inj (sym (to_fold-due st m due) ∙ e)) (chosen-IsBatch st m due)

  -- A fold takes rows exactly if the session has enough rows and some of them lie behind the watermark and
  -- before the recent window; then it takes the next ones in order, one at least and a hundred at most,
  -- and none of the recent window.
  pub to_fold_lem :
      (st : Settings) (m : Memory)
      → IsDue st m
        ↔ ((rows : List Row) × (to_fold dumps payload st m ≡ some rows) × IsBatch st m rows)
  to_fold_lem st m = (
    λ due. (chosen st m, to_fold-due st m due, chosen-IsBatch st m due),
    λ t. to_fold-IsDue st m t.0 t.1,
  )

  chosen-fits :
      (prior : Text) (f c : List Row)
      → All (λ r. size dumps payload prior (emptied r) ≤ 6000) c
      → 0 < length c
      → (f ≡ []) ⊎ (tokens dumps payload (summary_prompt dumps payload prior f) ≤ 6000)
      → tokens dumps payload (summary_prompt dumps payload prior (or_first f c)) ≤ 6000
  chosen-fits prior f [] h k o = absurd (omega arith)
  chosen-fits prior [] (x ∷ c) h k o =
      (summary_prompt-terminates dumps payload prior x _ h.0 (i_lt (estimate_tokens x.content))).1
  chosen-fits prior (r ∷ f) (x ∷ c) h k (inl e) = absurd (ground (arith, e))
  chosen-fits prior (r ∷ f) (x ∷ c) h k (inr p) = p

  -- If, for each row behind the watermark, the prompt of that row alone fits the limit of 6000 tokens when
  -- the row's text is left out, then the prompt of the rows that a fold takes fits the limit.
  pub to_fold-fits :
      (st : Settings) (m : Memory) (rows : List Row)
      → All (λ r. size dumps payload m.summary (emptied r) ≤ 6000) (drop m.summarized_upto m.rows)
      → to_fold dumps payload st m ≡ some rows
      → tokens dumps payload (summary_prompt dumps payload m.summary rows) ≤ 6000
  to_fold-fits st m rows h e =
      let due = to_fold-IsDue st m rows e in
      let c = candidates st m in
      subst (λ l. tokens dumps payload (summary_prompt dumps payload m.summary l) ≤ 6000)
        (some_inj (sym (to_fold-due st m due) ∙ e))
        (chosen-fits m.summary (fitting dumps payload m.summary [] c) c
          (All-take _ _ (drop m.summarized_upto m.rows) h)
          (omega (arith, candidates-length st m, due.1)) (fitting-fits m.summary [] c))
