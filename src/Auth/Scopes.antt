-- ===== src/Auth/Scopes.antt =====
-- What the scope of a key and the role of a user let through.
use mathlib.Core.Path.{subst}
use aezab.Prelude.{
  ℕ, ◌≤◌, ◌≡◌, ◌≢◌, ◌↔◌, refl, sym, ap, ◌⊎◌, inl, inr, String, string_eq, Bool, true, false, not,
  ◌&&◌, Option, none, some, List, [], ◌∷◌, any, ltb, arith, Bool-cases, Option-cases, ◌∙◌, ◌==◌,
  eq_iff,
}
use aezab.Auth.Access.{Principal, granted, role_level, scopes_of, is_safe, restricts, require_scope}

abbrev pub Among : String → List String → Type 0
Among scope [] = ⊥
Among scope (s ∷ scopes) = (s ≡ scope) ⊎ Among scope scopes

-- The request comes without a key, or its key has no list of scopes, an empty one, or one that has the
-- scope.
abbrev pub MayUse : String → Principal → Type 0
MayUse scope p =
    (p.api_key ≡ none)
    ⊎ (((id : String) × (p.api_key ≡ some (id, none)))
        ⊎ ((id : String) × (scopes : List String) × (p.api_key ≡ some (id, some scopes))
            × ((scopes ≡ []) ⊎ Among scope scopes)))

any-Among :
    (scopes : List String) (scope : String)
    → (any (λ x. x == scope) scopes ≡ true) ↔ Among scope scopes
any-Among [] scope = (λ h. absurd (ground (arith, h)), λ h. absurd h)
any-Among (s ∷ scopes) scope = elim (Bool-cases (s == scope)) [
  | inl y ↦ (λ h. inl ((eq_iff s scope).0 y), λ h. ground (arith, y))
  | inr n ↦ (
    λ h. inr ((any-Among scopes scope).0 (ground (arith, h, n))),
    λ h. elim h [
      | inl e ↦ absurd (ground (arith, n, (eq_iff s scope).1 e))
      | inr k ↦ ground (arith, (any-Among scopes scope).1 k)
    ],
  )
]

restricts_lem :
    (scopes : List String) (scope : String)
    → (restricts scopes scope ≡ false) ↔ ((scopes ≡ []) ⊎ Among scope scopes)
restricts_lem [] scope = (λ h. inl refl, λ h. refl)
restricts_lem (s ∷ scopes) scope =
    let found = any-Among (s ∷ scopes) scope in
    (
      λ h. inr (found.0 (ground (arith, h))),
      λ h. elim h [ inl e ↦ absurd (ground (arith, e)) | inr k ↦ ground (arith, found.1 k) ],
    )

key_scopes : Option (String × Option (List String)) → List String
key_scopes none = []
key_scopes (some (id, none)) = []
key_scopes (some (id, some scopes)) = scopes

-- What it says of a key with a list of scopes.
listed :
    (id : String) (l : List String) (scope : String) (p : Principal)
    → p.api_key ≡ some (id, some l)
    → MayUse scope p
    → (l ≡ []) ⊎ Among scope l
unfolding key_scopes
listed id l scope p e (inl f) = inl (ap key_scopes (sym e ∙ f))
listed id l scope p e (inr (inl (j, f))) = inl (ap key_scopes (sym e ∙ f))
listed id l scope p e (inr (inr (j, m, f, h))) =
    subst (λ x. (x ≡ []) ⊎ Among scope x) (ap key_scopes (sym f ∙ e)) h

restricts-MayUse :
    (scope : String) (p : Principal) → (restricts (scopes_of p) scope ≡ false) ↔ MayUse scope p
restricts-MayUse scope p = elim (Option-cases p.api_key) [
  | inl e ↦ (λ h. inl e, λ h. rw e refl)
  | inr ((id, scopes), e) ↦ elim (Option-cases scopes) [
    | inl f ↦ (λ h. inr (inl (id, e ∙ ap (λ o. some (id, o)) f)), λ h. rw (e, f) refl)
    | inr (l, f) ↦
        let both = e ∙ ap (λ o. some (id, o)) f in
        let cases = restricts_lem l scope in
        (
          λ h. inr (inr (id, l, both, cases.0 (rw both at h))),
          λ h. rw both (cases.1 (listed id l scope p both h)),
        )
  ]
]

-- The scope is not that of management, the method only reads, or the role is an editor's or an admin's.
abbrev pub MayManage : String → String → Principal → Type 0
MayManage scope method p =
    (scope ≢ "manage")
    ⊎ (((method ≡ "GET") ⊎ ((method ≡ "HEAD") ⊎ (method ≡ "OPTIONS")))
        ⊎ ((p.role ≡ "editor") ⊎ (p.role ≡ "admin")))

is_safe_lem :
    (method : String)
    → (is_safe method ≡ true) ↔ ((method ≡ "GET") ⊎ ((method ≡ "HEAD") ⊎ (method ≡ "OPTIONS")))
is_safe_lem method = (
  λ h. elim (Bool-cases (method == "GET")) [
    | inl y ↦ inl ((eq_iff method "GET").0 y)
    | inr n ↦ elim (Bool-cases (method == "HEAD")) [
      | inl y ↦ inr (inl ((eq_iff method "HEAD").0 y))
      | inr m ↦ inr (inr ((eq_iff method "OPTIONS").0 (rw (n, m) at h)))
    ]
  ],
  λ h. elim h [ inl g ↦ rw g | inr k ↦ elim k [ inl g ↦ rw g | inr o ↦ rw o ] ],
)

role_level_lem : (role : String) → (2 ≤ role_level role) ↔ ((role ≡ "editor") ⊎ (role ≡ "admin"))
unfolding role_level
role_level_lem role = elim (Bool-cases (role == "admin")) [
  | inl y ↦ rw y (λ h. inr ((eq_iff role "admin").0 y), λ h. omega arith)
  | inr n ↦ elim (Bool-cases (role == "editor")) [
    | inl y ↦ rw (n, y) (λ h. inl ((eq_iff role "editor").0 y), λ h. omega arith)
    | inr m ↦ (
      λ h. absurd (ground (arith, n, m, h)),
      λ h. elim h [ inl e ↦ rw e (omega arith) | inr a ↦ rw a (omega arith) ],
    )
  ]
]

abbrev blocked : String → String → Principal → Bool
blocked scope method p =
    (scope == "manage") && not (is_safe method) && ltb (role_level p.role) (role_level "editor")

unblocked :
    (m s : Bool) (level : ℕ)
    → ((m && not s && ltb level 2) ≡ false) ↔ ((m ≡ false) ⊎ ((s ≡ true) ⊎ (2 ≤ level)))
unblocked false s level = (λ h. inl refl, λ h. refl)
unblocked true true level = (λ h. inr (inl refl), λ h. refl)
unblocked true false level = (
  λ h. inr (inr (ground (arith, h))),
  λ h. elim h [
    | inl e ↦ absurd (ground (arith, e))
    | inr k ↦ elim k [ inl e ↦ absurd (ground (arith, e)) | inr l ↦ ground (arith, l) ]
  ],
)

unequal : (a b : String) → ((a == b) ≡ false) ↔ (a ≢ b)
unequal a b = (
  λ h e. absurd (ground (arith, h, (eq_iff a b).1 e)),
  λ h. elim (Bool-cases (a == b)) [ inl y ↦ absurd (h ((eq_iff a b).0 y)) | inr n ↦ n ],
)

blocked_lem :
    (scope method : String) (p : Principal)
    → (blocked scope method p ≡ false) ↔ MayManage scope method p
unfolding role_level
blocked_lem scope method p =
    let cases = unblocked (scope == "manage") (is_safe method) (role_level p.role) in
    let apart = unequal scope "manage" in
    let safe = is_safe_lem method in
    let level = role_level_lem p.role in
    (
      λ h. elim (cases.0 h) [
        | inl e ↦ inl (apart.0 e)
        | inr k ↦ inr (elim k [ inl s ↦ inl (safe.0 s) | inr l ↦ inr (level.0 l) ])
      ],
      λ h. cases.1 (elim h [
        | inl e ↦ inl (apart.1 e)
        | inr k ↦ inr (elim k [ inl s ↦ inl (safe.1 s) | inr l ↦ inr (level.1 l) ])
      ]),
    )

-- A request passes the check of a scope exactly if it comes without a key, or its key has no list of
-- scopes, an empty one, or one with this scope; and the scope is not that of management, or the method
-- is GET, HEAD or OPTIONS, or the role is that of an editor or of an admin.
pub require_scope_lem :
    (scope method : String) (p : Principal)
    → (require_scope scope method p ≡ granted p) ↔ (MayUse scope p × MayManage scope method p)
unfolding require_scope
require_scope_lem scope method p = elim (Bool-cases (restricts (scopes_of p) scope)) [
  | inl y ↦ rw y (
    λ h. absurd (ground (arith, h)),
    λ h. absurd (ground (arith, y, (restricts-MayUse scope p).1 h.0)),
  )
  | inr n ↦ elim (Bool-cases (blocked scope method p)) [
    | inl b ↦
        rw (n, b)
          (
            λ h. absurd (ground (arith, h)),
            λ h. absurd (ground (arith, b, (blocked_lem scope method p).1 h.1)),
          )
    | inr f ↦
        rw (n, f)
          (λ h. ((restricts-MayUse scope p).0 n, (blocked_lem scope method p).0 f), λ h. refl)
  ]
]
