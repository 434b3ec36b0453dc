-- ===== src/Auth/Access.antt =====
-- server/middleware/auth.py: `get_current_user`, the roles and the scopes. The verification of a token
-- and the hash of a key are parameters; a query by an id or by a key's hash, which are unique, is the
-- first match of a list.
use aezab.Prelude.{
  ℕ, String, string_eq, nat_eq, Bool, false, not, ◌&&◌, ◌||◌, Option, none, some, List, [], ◌∷◌,
  any, ltb, ◌==◌, if◌then◌else◌,
}

pub record User : Type 0 where
  pub id : String
  pub username : String
  pub role : String
  pub tenant_id : String
  pub display_name : String
  pub enabled : Bool

pub record ApiKey : Type 0 where
  pub id : String
  pub user_id : String
  pub key_hash : String
  pub tenant_id : String
  pub scopes : Option (List String)
  pub enabled : Bool
  pub last_used_at : Option ℕ

-- The dictionary of a request's user; the last entry is there for an API key alone.
pub record Principal : Type 0 where
  pub id : String
  pub username : String
  pub role : String
  pub tenant_id : String
  pub display_name : String
  pub api_key : Option (String × Option (List String))

pub data Access {ℓ} (A : Type ℓ) : Type ℓ where
  granted : A → Access A
  refused : ℕ → Access A

pub record Db : Type 0 where
  pub users : List User
  pub keys : List ApiKey

abbrev pub mock_user : Principal
mock_user = record {
  id = "dev-admin-00000000";
  username = "dev-admin";
  role = "admin";
  tenant_id = "default";
  display_name = "Development Admin";
  api_key = none;
}

unfoldable pub find {ℓ} : {A : Type ℓ} → (A → Bool) → List A → Option A
find test [] = none
find test (x ∷ xs) = if test x then some x else find test xs

-- What `verify_jwt_token` gives: the `sub` of a valid token, or 401.
pub data Token : Type 0 where
  valid : Option String → Token
  invalid : Token

unfoldable pub user_access : Option User → Access Principal
user_access none = refused 401
user_access (some user) =
    if user.enabled
    then granted (record {
      id = user.id;
      username = user.username;
      role = user.role;
      tenant_id = user.tenant_id;
      display_name = user.display_name;
      api_key = none;
    })
    else refused 403

unfoldable pub token_access : Db → Token → Access Principal
unfolding user_access find
token_access db invalid = refused 401
token_access db (valid none) = refused 401
token_access db (valid (some sub)) =
    if sub == "" then refused 401 else user_access (find (λ u. u.id == sub) db.users)

-- `last_used_at` of the key with an id.
unfoldable pub touch : String → ℕ → List ApiKey → List ApiKey
touch id now [] = []
touch id now (k ∷ ks) =
    let rest = touch id now ks in
    if k.id == id then record k { last_used_at = some now } ∷ rest else k ∷ rest

unfoldable pub owner_access : Db → ApiKey → Option User → ℕ → Access Principal × Db
unfolding touch
owner_access db key none now = (refused 401, db)
owner_access db key (some user) now =
    if user.enabled
    then (
      granted (record {
        id = user.id;
        username = user.username;
        role = user.role;
        tenant_id = key.tenant_id;
        display_name = user.display_name;
        api_key = some (key.id, key.scopes);
      }),
      record db { keys = touch key.id now db.keys },
    )
    else (refused 401, db)

unfoldable pub key_access : Db → Option ApiKey → ℕ → Access Principal × Db
unfolding owner_access find
key_access db none now = (refused 401, db)
key_access db (some key) now = owner_access db key (find (λ u. u.id == key.user_id) db.users) now

-- A header that is there and not empty.
abbrev pub given : Option String → Bool
given none = false
given (some s) = not (s == "")

abbrev pub text_of : Option String → String
text_of none = ""
text_of (some s) = s

module _ (verify : String → Token) (hash : String → String) where
  unfoldable pub get_current_user :
      (disable_auth : Bool) (credentials api_key_header : Option String)
      → Db
      → ℕ
      → Access Principal × Db
  unfolding token_access key_access find
  get_current_user disable_auth credentials api_key_header db now =
      if disable_auth
      then (granted mock_user, db)
      else if given credentials
      then (token_access db (verify (text_of credentials)), db)
      else if given api_key_header
      then key_access db
          (find (λ k. (k.key_hash == hash (text_of api_key_header)) && k.enabled) db.keys) now
      else (refused 401, db)

unfoldable pub require_console_user : Principal → Access Principal
require_console_user p = elim p.api_key [ none ↦ granted p | some _ ↦ refused 403 ]

-- `ROLE_HIERARCHY.get(role, 0)`
unfoldable pub role_level : String → ℕ
role_level role =
    if role == "admin" then 3 else if role == "editor" then 2 else if role == "viewer" then 1 else 0

-- The check of a role; `none` is the `ValueError` for a role that does not exist.
unfoldable pub require_role : String → Principal → Option (Access Principal)
unfolding role_level
require_role min_role p =
    if role_level min_role == 0
    then none
    else some (if ltb (role_level p.role) (role_level min_role) then refused 403 else granted p)

abbrev pub is_safe : String → Bool
is_safe method = (method == "GET") || (method == "HEAD") || (method == "OPTIONS")

abbrev pub scopes_of : Principal → List String
scopes_of p = elim p.api_key [ none ↦ [] | some k ↦ elim k.1 [ none ↦ [] | some scopes ↦ scopes ] ]

abbrev pub restricts : List String → String → Bool
restricts [] scope = false
restricts (s ∷ scopes) scope = not (any (λ x. x == scope) (s ∷ scopes))

unfoldable pub require_scope : (scope method : String) → Principal → Access Principal
unfolding role_level
require_scope scope method p =
    if restricts (scopes_of p) scope
    then refused 403
    else if (scope == "manage")
        && not (is_safe method)
        && ltb (role_level p.role) (role_level "editor")
    then refused 403
    else granted p
