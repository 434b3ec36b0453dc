-- ===== src/Guard/Answers.antt =====
-- How many responses the cache holds, and where its answers come from.
use aezab.Prelude.{
  some_inj, pair_beq_iff, ℕ, suc, ◌+◌, ◌-◌, ◌≤◌, ◌<◌, ◌≡◌, refl, ap, ◌∙◌, inl, inr, String,
  string_eq, pair_eq, Option, none, some, List, [], ◌∷◌, length, length-append, length-drop,
  get_elem?, All, All-append, All-drop, leb, arith, Bool-cases, Option-cases, ◌==◌,
}
use aezab.Prelude.Dict.{get, put, remove, length-remove}
use aezab.Value.{Value}
use aezab.Guard.Cache.{
  Cached, Key, Cache, max_entries, purge_expired, move_to_end, get_live, get_idempotent_response,
  evict, store_live, store_idempotent_response, Call, look, store, perform, after,
}

pub length-purge_expired : (now : ℕ) (c : Cache) → length (purge_expired now c) ≤ length c
unfolding purge_expired
length-purge_expired now [] = omega arith
length-purge_expired now ((k, e) ∷ c) = ground (arith, length-purge_expired now c)

length-remove_found :
    (c : Cache) (k : Key) (e : Cached) → get c k ≡ some e → length (remove c k) + 1 ≤ length c
unfolding get remove
length-remove_found [] k e h = absurd (ground (arith, h))
length-remove_found ((j, v) ∷ c) k e h = elim (Bool-cases (j == k)) [
  | inl y ↦ rw y (omega (arith, length-remove c k))
  | inr n ↦ rw n (omega (arith, length-remove_found c k e (rw n at h)))
]

length-get_live : (c : Cache) (k : Key) (now : ℕ) → length (get_live c k now).1 ≤ length c
unfolding get_live move_to_end
length-get_live c k now = elim (Option-cases (get c k)) [
  | inl none_ ↦ rw none_ (omega arith)
  | inr (e, found) ↦ elim (Bool-cases (leb e.expires_at now)) [
    | inl y ↦ rw (found, y) (length-remove c k)
    | inr n ↦
        rw (found, n)
          (omega (arith, length-append (remove c k) ((k, e) ∷ []), length-remove_found c k e found))
  ]
]

length-store_live : (c : Cache) (k : Key) (e : Cached) → length (store_live c k e) ≤ max_entries
unfolding store_live
length-store_live c k e = omega (
  arith,
  length-drop (length (move_to_end (put c k e) k e) - max_entries) (move_to_end (put c k e) k e),
)

length-look :
    (c : Cache) (tenant : String) (key : Option String) (now : ℕ)
    → length (get_idempotent_response c tenant key now).1 ≤ length c
unfolding get_idempotent_response
length-look c tenant none now = omega arith
length-look c tenant (some key) now = elim (Bool-cases (key == "")) [
  | inl y ↦ rw y (omega arith)
  | inr n ↦ rw n (
      omega (
        arith,
        length-purge_expired now c,
        length-get_live (purge_expired now c) (tenant, key) now,
      ))
]

length-store :
    (c : Cache) (tenant : String) (key : Option String) (response : Value) (ttl now : ℕ)
    → length c ≤ max_entries
    → length (store_idempotent_response c tenant key response ttl now) ≤ max_entries
unfolding store_idempotent_response
length-store c tenant none response ttl now h = h
length-store c tenant (some key) response ttl now h = elim (Bool-cases (key == "")) [
  | inl y ↦ rw y h
  | inr n ↦ rw n (
      length-store_live (purge_expired now c) (tenant, key)
        (record { expires_at = now + ttl; response = response }))
]

-- The cache never holds more responses than its bound, whatever the calls.
pub after-length : (calls : List Call) → length (after calls) ≤ max_entries
unfolding after perform
after-length [] = omega arith
after-length (look tenant key now ∷ before) =
    omega (arith, after-length before, length-look (after before) tenant key now)
after-length (store tenant key response ttl now ∷ before) =
    length-store (after before) tenant key response ttl now (after-length before)

-- An entry that one of the calls stored: under that tenant and key, to expire after its lifetime.
abbrev pub WasStored : List Call → Key × Cached → Type 0
WasStored calls (k, e) =
    (i : ℕ) × (ttl : ℕ) × (stored : ℕ) × (get_elem? calls i
      ≡ some (store k.0 (some k.1) e.response ttl stored))
    × (e.expires_at ≡ stored + ttl)

WasStored-later :
    (call : Call) (calls : List Call) (c : Cache)
    → All (WasStored calls) c
    → All (WasStored (call ∷ calls)) c
WasStored-later call calls [] h = tt
WasStored-later call calls ((k, e) ∷ c) ((i, ttl, stored, at, x), rest) =
    ((suc i, ttl, stored, at, x), WasStored-later call calls c rest)

module _ (P : Key × Cached → Type 0) where
  purge_expired-All : (now : ℕ) (c : Cache) → All P c → All P (purge_expired now c)
  unfolding purge_expired
  purge_expired-All now [] h = tt
  purge_expired-All now ((k, e) ∷ c) (h, rest) = elim (Bool-cases (leb e.expires_at now)) [
    | inl y ↦ rw y (purge_expired-All now c rest)
    | inr n ↦ rw n (h, purge_expired-All now c rest)
  ]

  remove-All : (c : Cache) (k : Key) → All P c → All P (remove c k)
  unfolding remove
  remove-All [] k h = tt
  remove-All ((j, e) ∷ c) k (h, rest) = elim (Bool-cases (j == k)) [
    | inl y ↦ rw y (remove-All c k rest)
    | inr n ↦ rw n (h, remove-All c k rest)
  ]

  put-All : (c : Cache) (k : Key) (e : Cached) → P (k, e) → All P c → All P (put c k e)
  unfolding put
  put-All [] k e p h = (p, tt)
  put-All ((j, v) ∷ c) k e p (h, rest) = elim (Bool-cases (j == k)) [
    | inl y ↦ rw y (p, rest)
    | inr n ↦ rw n (h, put-All c k e p rest)
  ]

  get-All : (c : Cache) (k : Key) (e : Cached) → All P c → get c k ≡ some e → P (k, e)
  unfolding get
  get-All [] k e h f = absurd (ground (arith, f))
  get-All ((j, v) ∷ c) k e (h, rest) f = elim (Bool-cases (j == k)) [
    | inl y ↦ rw (← ((pair_beq_iff j k).0 y), ← (some_inj (rw y at f))) h
    | inr n ↦ get-All c k e rest (rw n at f)
  ]

  move_to_end-All :
      (c : Cache) (k : Key) (e : Cached) → P (k, e) → All P c → All P (move_to_end c k e)
  unfolding move_to_end
  move_to_end-All c k e p h = All-append P (remove c k) ((k, e) ∷ []) (remove-All c k h) (p, tt)

  store_live-All :
      (c : Cache) (k : Key) (e : Cached) → P (k, e) → All P c → All P (store_live c k e)
  unfolding store_live evict
  store_live-All c k e p h =
      All-drop P (length (move_to_end (put c k e) k e) - max_entries) (move_to_end (put c k e) k e)
        (move_to_end-All (put c k e) k e p (put-All c k e p h))

  get_live-All : (c : Cache) (k : Key) (now : ℕ) → All P c → All P (get_live c k now).1
  unfolding get_live
  get_live-All c k now h = elim (Option-cases (get c k)) [
    | inl none_ ↦ rw none_ h
    | inr (e, found) ↦ elim (Bool-cases (leb e.expires_at now)) [
      | inl y ↦ rw (found, y) (remove-All c k h)
      | inr n ↦ rw (found, n) (move_to_end-All c k e (get-All c k e h found) h)
    ]
  ]

look-All :
    (P : Key × Cached → Type 0) (c : Cache) (tenant : String) (key : Option String) (now : ℕ)
    → All P c
    → All P (get_idempotent_response c tenant key now).1
unfolding get_idempotent_response
look-All P c tenant none now h = h
look-All P c tenant (some key) now h = elim (Bool-cases (key == "")) [
  | inl y ↦ rw y h
  | inr n ↦
      rw n (get_live-All P (purge_expired now c) (tenant, key) now (purge_expired-All P now c h))
]

store-All :
    (P : Key × Cached → Type 0) (c : Cache) (tenant : String) (key : Option String)
    (response : Value) (ttl now : ℕ)
    → ((k : String)
        → key ≡ some k
        → P ((tenant, k), record { expires_at = now + ttl; response = response }))
    → All P c
    → All P (store_idempotent_response c tenant key response ttl now)
unfolding store_idempotent_response
store-All P c tenant none response ttl now p h = h
store-All P c tenant (some key) response ttl now p h = elim (Bool-cases (key == "")) [
  | inl y ↦ rw y h
  | inr n ↦ rw n (
      store_live-All P (purge_expired now c) (tenant, key)
        (record { expires_at = now + ttl; response = response }) (p key refl)
        (purge_expired-All P now c h))
]

after-WasStored : (calls : List Call) → All (WasStored calls) (after calls)
unfolding after perform
after-WasStored [] = tt
after-WasStored (look tenant key now ∷ before) =
    look-All _ (after before) tenant key now
      (WasStored-later (look tenant key now) before (after before) (after-WasStored before))
after-WasStored (store tenant key response ttl now ∷ before) =
    store-All (WasStored (store tenant key response ttl now ∷ before)) (after before) tenant key
      response ttl now
      (λ k e. (0, ttl, now, ap (λ o. some (store tenant o response ttl now)) e, refl))
      (WasStored-later (store tenant key response ttl now) before (after before)
        (after-WasStored before))

get_live-answer :
    (c : Cache) (k : Key) (now : ℕ) (response : Value)
    → (get_live c k now).0 ≡ some response
    → (e : Cached) × (get c k ≡ some e) × (now < e.expires_at) × (e.response ≡ response)
unfolding get_live
get_live-answer c k now response h = elim (Option-cases (get c k)) [
  | inl none_ ↦ absurd (ground (arith, rw none_ at h))
  | inr (e, found) ↦ elim (Bool-cases (leb e.expires_at now)) [
    | inl y ↦ absurd (ground (arith, rw (found, y) at h))
    | inr n ↦ (e, found, ground (arith, n), some_inj (rw (found, n) at h))
  ]
]

-- A response that the cache answers with, after any calls, was stored by one of them for the same
-- tenant and key, and its lifetime has not ended.
pub get_idempotent_response-WasStored :
    (calls : List Call) (tenant : String) (key : Option String) (now : ℕ) (response : Value)
    → (get_idempotent_response (after calls) tenant key now).0 ≡ some response
    → (k : String) × (i : ℕ) × (ttl : ℕ) × (stored : ℕ) × (key ≡ some k)
      × (get_elem? calls i ≡ some (store tenant (some k) response ttl stored))
      × (now < stored + ttl)
unfolding get_idempotent_response
get_idempotent_response-WasStored calls tenant none now response h = absurd (ground (arith, h))
get_idempotent_response-WasStored calls tenant (some key) now response h =
    elim (Bool-cases (key == "")) [
      | inl y ↦ absurd (ground (arith, rw y at h))
      | inr n ↦
          let (e, found, live, same) =
            get_live-answer (purge_expired now (after calls)) (tenant, key) now response
              (rw n at h) in
          let (i, ttl, stored, at, x) =
            get-All (WasStored calls) (purge_expired now (after calls)) (tenant, key) e
              (purge_expired-All (WasStored calls) now (after calls) (after-WasStored calls))
              found in
          (
            key,
            i,
            ttl,
            stored,
            refl,
            at ∙ ap (λ r. some (store tenant (some key) r ttl stored)) same,
            omega (arith, live, x),
          )
    ]
