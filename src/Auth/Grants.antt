-- ===== src/Auth/Grants.antt =====
-- Who is let in as whom.
use aezab.Prelude.{
  ℕ, suc, ◌≡◌, refl, sym, ap, ◌⊎◌, inl, inr, String, string_eq, Bool, true, false, ◌&&◌, Option,
  none, some, some_inj, List, [], ◌∷◌, get_elem?, arith, Bool-cases, Option-cases, ◌==◌, eq_iff,
  and-left, and-right,
}
use aezab.Auth.Access.{
  User, ApiKey, Principal, granted, refused, Db, find, Token, valid, invalid, user_access,
  token_access, owner_access, key_access, given, text_of, get_current_user,
}

none-some {ℓ} : {A : Type ℓ} {x : A} → none ≡ some x → ⊥
none-some h = ground (arith, h)

find_lem {ℓ} :
    {A : Type ℓ} (test : A → Bool) (xs : List A) (x : A)
    → find test xs ≡ some x
    → ((i : ℕ) × (get_elem? xs i ≡ some x)) × (test x ≡ true)
unfolding find
find_lem test [] x h = absurd (none-some h)
find_lem test (y ∷ xs) x h = elim (Bool-cases (test y)) [
  | inl y ↦ let same = some_inj (rw y at h) in ((0, rw y at h), rw (← same) y)
  | inr n ↦ let ((i, at), t) = find_lem test xs x (rw n at h) in ((suc i, at), t)
]

-- The user that a principal stands for.
abbrev pub StandsFor : Db → Principal → User → Type 0
StandsFor db p user =
    ((i : ℕ) × (get_elem? db.users i ≡ some user))
    × (user.enabled ≡ true)
    × (p.id ≡ user.id)
    × (p.role ≡ user.role)

abbrev pub ByToken : Token → Principal → User → Type 0
ByToken token p user =
    (token ≡ valid (some user.id)) × (p.tenant_id ≡ user.tenant_id) × (p.api_key ≡ none)

abbrev pub ByKey : Db → String → Principal → User → Type 0
ByKey db key_hash p user =
    (key : ApiKey) × ((i : ℕ) × (get_elem? db.keys i ≡ some key))
    × (key.enabled ≡ true)
    × (key.key_hash ≡ key_hash)
    × (key.user_id ≡ user.id)
    × (p.tenant_id ≡ key.tenant_id)
    × (p.api_key ≡ some (key.id, key.scopes))

granted_inj {ℓ} : {A : Type ℓ} {x y : A} → granted x ≡ granted y → x ≡ y
granted_inj {x = x} e = ap (λ a. elim a [ granted b ↦ b | refused _ ↦ x ]) e

user_access-granted :
    (o : Option User) (p : Principal)
    → user_access o ≡ granted p
    → (user : User) × (o ≡ some user)
      × (user.enabled ≡ true)
      × (p.id ≡ user.id)
      × (p.role ≡ user.role)
      × (p.tenant_id ≡ user.tenant_id)
      × (p.api_key ≡ none)
unfolding user_access
user_access-granted none p h = absurd (ground (arith, h))
user_access-granted (some user) p h = elim (Bool-cases user.enabled) [
  | inl y ↦
      let e = granted_inj (rw y at h) in
      (
        user,
        refl,
        y,
        sym (ap (λ q. q.id) e),
        sym (ap (λ q. q.role) e),
        sym (ap (λ q. q.tenant_id) e),
        sym (ap (λ q. q.api_key) e),
      )
  | inr n ↦ absurd (ground (arith, rw n at h))
]

token_access-granted :
    (db : Db) (token : Token) (p : Principal)
    → token_access db token ≡ granted p
    → (user : User) × StandsFor db p user × ByToken token p user
unfolding token_access
token_access-granted db invalid p h = absurd (ground (arith, h))
token_access-granted db (valid none) p h = absurd (ground (arith, h))
token_access-granted db (valid (some sub)) p h = elim (Bool-cases (sub == "")) [
  | inl y ↦ absurd (ground (arith, rw y at h))
  | inr n ↦
      let (user, found, on, id, role, tenant, key) =
        user_access-granted (find (λ u. u.id == sub) db.users) p (rw n at h) in
      let (at, same) = find_lem (λ u. u.id == sub) db.users user found in
      (
        user,
        (at, on, id, role),
        (ap (λ s. valid (some s)) (sym ((eq_iff user.id sub).0 same)), tenant, key),
      )
]

owner_access-granted :
    (db : Db) (key : ApiKey) (o : Option User) (now : ℕ) (p : Principal)
    → (owner_access db key o now).0 ≡ granted p
    → (user : User) × (o ≡ some user)
      × (user.enabled ≡ true)
      × (p.id ≡ user.id)
      × (p.role ≡ user.role)
      × (p.tenant_id ≡ key.tenant_id)
      × (p.api_key ≡ some (key.id, key.scopes))
unfolding owner_access
owner_access-granted db key none now p h = absurd (ground (arith, h))
owner_access-granted db key (some user) now p h = elim (Bool-cases user.enabled) [
  | inl y ↦
      let e = granted_inj (rw y at h) in
      (
        user,
        refl,
        y,
        sym (ap (λ q. q.id) e),
        sym (ap (λ q. q.role) e),
        sym (ap (λ q. q.tenant_id) e),
        sym (ap (λ q. q.api_key) e),
      )
  | inr n ↦ absurd (ground (arith, rw n at h))
]

key_access-granted :
    (db : Db) (key_hash : String) (now : ℕ) (p : Principal)
    → (key_access db (find (λ k. (k.key_hash == key_hash) && k.enabled) db.keys) now).0 ≡ granted p
    → (user : User) × StandsFor db p user × ByKey db key_hash p user
unfolding key_access
key_access-granted db key_hash now p h =
    elim (Option-cases (find (λ k. (k.key_hash == key_hash) && k.enabled) db.keys)) [
      | inl none_ ↦ absurd (ground (arith, rw none_ at h))
      | inr (key, found) ↦
          let (at_key, passes) =
            find_lem (λ k. (k.key_hash == key_hash) && k.enabled) db.keys key found in
          let (user, owner, on, id, role, tenant, scopes) =
            owner_access-granted db key (find (λ u. u.id == key.user_id) db.users) now p
              (rw found at h) in
          let (at, same) = find_lem (λ u. u.id == key.user_id) db.users user owner in
          (
            user,
            (at, on, id, role),
            (
              key,
              at_key,
              and-right _ _ passes,
              (eq_iff key.key_hash key_hash).0 (and-left _ _ passes),
              sym ((eq_iff user.id key.user_id).0 same),
              tenant,
              scopes,
            ),
          )
    ]

-- Who is let in, where authentication is on, is an enabled user of the database, with the role that
-- the user has now: either one that a valid token names, for the user's tenant, or the owner of an
-- enabled key whose hash is that of the header, for the key's tenant and with its scopes.
pub get_current_user-granted :
    (verify : String → Token) (hash : String → String) (credentials header : Option String)
    (db : Db) (now : ℕ) (p : Principal)
    → (get_current_user verify hash false credentials header db now).0 ≡ granted p
    → (user : User) × StandsFor db p user
      × (ByToken (verify (text_of credentials)) p user ⊎ ByKey db (hash (text_of header)) p user)
unfolding get_current_user
get_current_user-granted verify hash credentials header db now p h =
    elim (Bool-cases (given credentials)) [
      | inl y ↦
          let (user, stands, by) =
            token_access-granted db (verify (text_of credentials)) p (rw y at h) in
          (user, stands, inl by)
      | inr n ↦ elim (Bool-cases (given header)) [
        | inl y ↦
            let (user, stands, by) =
              key_access-granted db (hash (text_of header)) now p (rw (n, y) at h) in
            (user, stands, inr by)
        | inr m ↦ absurd (ground (arith, rw (n, m) at h))
      ]
    ]
