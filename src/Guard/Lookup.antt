-- ===== src/Guard/Lookup.antt =====
-- What a look-up finds.
use aezab.Prelude.{
  ℕ, ◌≡◌, refl, ap, ◌∙◌, inl, inr, string_eq, pair_eq, false, some, some_inj, [], ◌∷◌, leb, arith,
  Bool-cases, ◌==◌,
}
use aezab.Prelude.Dict.{get}
use aezab.Guard.Cache.{Cached, Key, Cache, purge_expired, get_live}

pub get-purge_expired :
    (now : ℕ) (c : Cache) (k : Key) (e : Cached)
    → get c k ≡ some e
    → leb e.expires_at now ≡ false
    → get (purge_expired now c) k ≡ some e
unfolding get purge_expired
get-purge_expired now [] k e h l = absurd (ground (arith, h))
get-purge_expired now ((j, v) ∷ c) k e h l = elim (Bool-cases (j == k)) [
  | inl y ↦
      let same = some_inj (rw y at h) in
      rw (ap (λ x. leb x.expires_at now) same ∙ l, y) (ap some same)
  | inr n ↦ elim (Bool-cases (leb v.expires_at now)) [
    | inl dead ↦ rw dead (get-purge_expired now c k e (rw n at h) l)
    | inr live ↦ rw (live, n) (get-purge_expired now c k e (rw n at h) l)
  ]
]

pub get_live-found :
    (c : Cache) (k : Key) (e : Cached) (now : ℕ)
    → get c k ≡ some e
    → leb e.expires_at now ≡ false
    → (get_live c k now).0 ≡ some e.response
unfolding get_live
get_live-found c k e now h l = rw (h, l) refl
