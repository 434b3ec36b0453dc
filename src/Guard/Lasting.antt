-- ===== src/Guard/Lasting.antt =====
-- A stored response over the calls behind it.
use mathlib.Core.Path.{subst}
use aezab.Prelude.{
  ℕ, zero, suc, ◌+◌, ◌-◌, ◌≤◌, ◌<◌, ◌≡◌, ◌≢◌, refl, ◌∙◌, ap, ◌⊎◌, inl, inr, String, string_eq,
  pair_eq, false, Option, none, some, List, [], ◌∷◌, ◌++◌, length, length-append, drop, leb, arith,
  Bool-cases, All, Eq, some_inj, sym, ◌==◌,
}
use aezab.Prelude.Dict.{get, put, remove, get-remove, remove-put, length-remove, beq_self}
use aezab.Value.{Value}
use aezab.Guard.Cache.{
  Cached, Key, Cache, purge_expired, move_to_end, answer_found, get_live, get_idempotent_response,
  evict, store_live, store_idempotent_response, Call, look, store, perform,
}
use aezab.Guard.Answers.{length-purge_expired}
use aezab.Guard.Lookup.{get_live-found, get-purge_expired}

unequal : {K : Type 0} ⦃d : Eq K⦄ (a b : K) → a ≢ b → (a == b) ≡ false
unequal ⦃d⦄ a b h = elim (Bool-cases (a == b)) [
  | inl y ↦ absurd (h ((d.beq_iff a b).0 y))
  | inr n ↦ n
]

-- When a call reads the clock.
abbrev pub time_of : Call → ℕ
time_of (look tenant key now) = now
time_of (store tenant key response ttl now) = now

-- The call stores nothing under this key of this tenant.
abbrev pub Spares : Key → Call → Type 0
Spares k (store tenant (some key) response ttl now) = (tenant, key) ≢ k
Spares k _ = Unit

-- The cache after more calls, the latest of which stands first.
unfoldable pub since : Cache → List Call → Cache
since c [] = c
since c (call ∷ before) = perform (since c before) call

module _ (k : Key) (e : Cached) where
  -- The entry stands in the cache, with at most so many entries behind it.
  abbrev Recent : ℕ → Cache → Type 0
  Recent n [] = ⊥
  Recent n ((j, x) ∷ c) = ((j ≡ k) × (x ≡ e) × (length c ≤ n)) ⊎ (((j == k) ≡ false) × Recent n c)

  get-Recent : (n : ℕ) (c : Cache) → Recent n c → get c k ≡ some e
  unfolding get
  get-Recent n [] h = absurd h
  get-Recent n ((j, x) ∷ c) (inl (same, found, b)) =
      rw (ap (λ i. i == k) same ∙ beq_self k) (ap some found)
  get-Recent n ((j, x) ∷ c) (inr (other, h)) = rw other (get-Recent n c h)

  purge-Recent :
      (now n : ℕ) (c : Cache)
      → leb e.expires_at now ≡ false
      → Recent n c
      → Recent n (purge_expired now c)
  unfolding purge_expired
  purge-Recent now n [] live h = absurd h
  purge-Recent now n ((j, x) ∷ c) live (inl (same, found, b)) =
      rw (ap (λ y. leb y.expires_at now) found ∙ live)
        (inl (same, found, omega (arith, b, length-purge_expired now c)))
  purge-Recent now n ((j, x) ∷ c) live (inr (other, h)) = elim (Bool-cases (leb x.expires_at now)) [
    | inl dead ↦ rw dead (purge-Recent now n c live h)
    | inr lives ↦ rw lives (inr (other, purge-Recent now n c live h))
  ]

  remove-Recent :
      (i : Key) (n : ℕ) (c : Cache) → (k == i) ≡ false → Recent n c → Recent n (remove c i)
  unfolding remove
  remove-Recent i n [] off h = absurd h
  remove-Recent i n ((j, x) ∷ c) off (inl (same, found, b)) =
      rw (ap (λ y. y == i) same ∙ off) (inl (same, found, omega (arith, b, length-remove c i)))
  remove-Recent i n ((j, x) ∷ c) off (inr (other, h)) = elim (Bool-cases (j == i)) [
    | inl y ↦ rw y (remove-Recent i n c off h)
    | inr z ↦ rw z (inr (other, remove-Recent i n c off h))
  ]

  append-Recent :
      (i : Key) (x : Cached) (n : ℕ) (c : Cache) → Recent n c → Recent (n + 1) (c ++ ((i, x) ∷ []))
  append-Recent i x n [] h = absurd h
  append-Recent i x n ((j, y) ∷ c) (inl (same, found, b)) =
      inl (same, found, omega (arith, b, length-append c ((i, x) ∷ [])))
  append-Recent i x n ((j, y) ∷ c) (inr (other, h)) = inr (other, append-Recent i x n c h)

  last-Recent : (n : ℕ) (c : Cache) → get c k ≡ none → Recent n (c ++ ((k, e) ∷ []))
  unfolding get
  last-Recent n [] h = inl (refl, refl, omega arith)
  last-Recent n ((j, y) ∷ c) h = elim (Bool-cases (j == k)) [
    | inl z ↦ absurd (ground (arith, rw z at h))
    | inr z ↦ inr (z, last-Recent n c (rw z at h))
  ]

  drop-Recent : (m n : ℕ) (c : Cache) → m ≤ length c - (n + 1) → Recent n c → Recent n (drop m c)
  drop-Recent zero n c b h = h
  drop-Recent (suc m) n [] b h = absurd h
  drop-Recent (suc m) n ((j, y) ∷ c) b (inl (same, found, s)) = absurd (omega (arith, b, s))
  drop-Recent (suc m) n ((j, y) ∷ c) b (inr (other, h)) = drop-Recent m n c (omega (arith, b)) h

  evict-Recent : (n : ℕ) (c : Cache) → n < 1000 → Recent n c → Recent n (evict c)
  unfolding evict
  evict-Recent n c b h = drop-Recent (length c - 1000) n c (omega (arith, b)) h

  more-Recent : (n : ℕ) (c : Cache) → Recent n c → Recent (n + 1) c
  more-Recent n [] h = absurd h
  more-Recent n ((j, x) ∷ c) (inl (same, found, b)) = inl (same, found, omega (arith, b))
  more-Recent n ((j, x) ∷ c) (inr (other, h)) = inr (other, more-Recent n c h)

  -- An entry that is moved to the end, be it this one or another.
  move_to_end-Recent :
      (i : Key) (x : Cached) (n : ℕ) (c : Cache)
      → get c i ≡ some x
      → Recent n c
      → Recent (n + 1) (move_to_end c i x)
  unfolding move_to_end
  move_to_end-Recent i x n c found h = elim (Bool-cases (k == i)) [
    | inl y ↦
        let same = (pair_eq.beq_iff k i).0 y in
        let entry = some_inj (sym found ∙ ap (get c) (sym same) ∙ get-Recent n c h) in
        rw (sym same, entry)
          (last-Recent (n + 1) (remove c k) (get-remove c k k ∙ rw (beq_self k) refl))
    | inr off ↦ append-Recent i x n (remove c i) (remove-Recent i n c off h)
  ]

  answer_found-Recent :
      (i : Key) (o : Option Cached) (now n : ℕ) (c : Cache)
      → get c i ≡ o
      → leb e.expires_at now ≡ false
      → Recent n c
      → Recent (n + 1) (answer_found c i o now).1
  unfolding answer_found
  answer_found-Recent i none now n c found live h = more-Recent n c h
  answer_found-Recent i (some x) now n c found live h = elim (Bool-cases (leb x.expires_at now)) [
    | inr z ↦ rw z (move_to_end-Recent i x n c found h)
    | inl dead ↦ elim (Bool-cases (k == i)) [
      | inl y ↦
          let entry =
            some_inj
              (sym found ∙ ap (get c) (sym ((pair_eq.beq_iff k i).0 y)) ∙ get-Recent n c h) in
          absurd (ground (arith, dead, live, ap (λ v. leb v.expires_at now) entry))
      | inr off ↦ rw dead (more-Recent n (remove c i) (remove-Recent i n c off h))
    ]
  ]

  store_live-Recent :
      (i : Key) (x : Cached) (n : ℕ) (c : Cache)
      → n + 1 < 1000
      → i ≢ k
      → Recent n c
      → Recent (n + 1) (store_live c i x)
  unfolding store_live move_to_end
  store_live-Recent i x n c b other h = evict-Recent (n + 1) (move_to_end (put c i x) i x) b (
      rw (remove-put c i x) (
        append-Recent i x n (remove c i)
          (remove-Recent i n c (unequal k i (λ q. other (sym q))) h)))

  perform-Recent :
      (call : Call) (n : ℕ) (c : Cache)
      → n + 1 < 1000
      → leb e.expires_at (time_of call) ≡ false
      → Spares k call
      → Recent n c
      → Recent (n + 1) (perform c call)
  unfolding perform get_idempotent_response get_live store_idempotent_response
  perform-Recent (look tenant none now) n c b live other h = more-Recent n c h
  perform-Recent (store tenant none response ttl now) n c b live other h = more-Recent n c h
  perform-Recent (look tenant (some key) now) n c b live other h = elim (Bool-cases (key == "")) [
    | inl y ↦ rw (y, Recent) (more-Recent n c h)
    | inr z ↦
        rw (z, Recent)
          (answer_found-Recent (tenant, key) (get (purge_expired now c) (tenant, key)) now n
            (purge_expired now c) refl live (purge-Recent now n c live h))
  ]
  perform-Recent (store tenant (some key) response ttl now) n c b live other h =
      elim (Bool-cases (key == "")) [
        | inl y ↦ rw (y, Recent) (more-Recent n c h)
        | inr z ↦
            rw (z, Recent)
              (store_live-Recent (tenant, key)
                (record { expires_at = now + ttl; response = response }) n (purge_expired now c) b
                other (purge-Recent now n c live h))
      ]

  since-Recent :
      (calls : List Call) (c : Cache)
      → length calls < 1000
      → All (λ call. leb e.expires_at (time_of call) ≡ false) calls
      → All (Spares k) calls
      → Recent 0 c
      → Recent (length calls) (since c calls)
  unfolding since
  since-Recent [] c b live other h = h
  since-Recent (call ∷ calls) c b live other h =
      subst (λ n. Recent n (perform (since c calls) call)) (omega arith)
        (perform-Recent call (length calls) (since c calls) (omega (arith, b)) live.0 other.0
          (since-Recent calls c (omega (arith, b)) live.1 other.1 h))

  stored-Recent : (c : Cache) → Recent 0 (store_live c k e)
  unfolding store_live move_to_end
  stored-Recent c =
      evict-Recent 0 _ (omega arith)
        (last-Recent 0 (remove (put c k e) k) (get-remove (put c k e) k k ∙ rw (beq_self k) refl))

alive :
    (calls : List Call) (until : ℕ)
    → All (λ call. time_of call < until) calls
    → All (λ call. leb until (time_of call) ≡ false) calls
alive [] until h = tt
alive (call ∷ calls) until h = (ground (arith, h.0), alive calls until h.1)

-- A response stored under a key that is not empty is the answer for that tenant and key until its
-- lifetime ends, whatever the cache held, if fewer than a thousand calls, all within the lifetime and
-- none of which stores under that key, come between.
pub get_idempotent_response-lasts :
    (c : Cache) (tenant key : String) (response : Value) (ttl stored now : ℕ) (calls : List Call)
    → key ≢ ""
    → length calls < 1000
    → All (λ call. time_of call < stored + ttl) calls
    → All (Spares (tenant, key)) calls
    → now < stored + ttl
    → (get_idempotent_response
        (since (store_idempotent_response c tenant (some key) response ttl stored) calls)
        tenant
        (some key)
        now).0
      ≡ some response
unfolding get_idempotent_response store_idempotent_response
get_idempotent_response-lasts c tenant key response ttl stored now calls full few early other t =
    let e : Cached = record { expires_at = stored + ttl; response = response } in
    let k : Key = (tenant, key) in
    let kept = store_live (purge_expired stored c) k e in
    let live : leb (stored + ttl) now ≡ false = ground arith in
    let found = get-Recent k e (length calls) (since kept calls) (
      since-Recent k e calls kept few (alive calls (stored + ttl) early) other
        (stored-Recent k e (purge_expired stored c))) in
    rw (unequal key "" full) (
      get_live-found (purge_expired now (since kept calls)) k e now
        (get-purge_expired now (since kept calls) k e found live) live)
