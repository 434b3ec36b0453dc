-- ===== src/Auth/Tests.antt =====
-- Runs of the authentication and the limiter, and instances of their theorems.
use aezab.Prelude.{
  ℕ, ◌≤◌, ◌<◌, ◌≡◌, ◌↔◌, ◌⊎◌, refl, String, string_eq, true, false, none, some, List, [], ◌∷◌,
  length, arith, ◌==◌, if◌then◌else◌,
}
use aezab.Auth.Access.{
  User, ApiKey, Principal, granted, refused, Db, Token, valid, invalid, get_current_user,
  require_scope,
}
use aezab.Auth.Grants.{StandsFor, ByToken, ByKey, get_current_user-granted}
use aezab.Auth.Scopes.{MayUse, MayManage, require_scope_lem}
use aezab.Auth.Rate.{consume_rate_limit}
use aezab.Auth.Trim.{recent}
use aezab.Auth.Window.{Request, after, log, consume_rate_limit_lem, passed, passed-limit}

abbrev ann : User
ann = record {
  id = "u1";
  username = "ann";
  role = "viewer";
  tenant_id = "t1";
  display_name = "Ann";
  enabled = true;
}

abbrev key : ApiKey
key = record {
  id = "k1";
  user_id = "u1";
  key_hash = "h";
  tenant_id = "t2";
  scopes = some ("invoke" ∷ []);
  enabled = true;
  last_used_at = none;
}

abbrev db : Db
db = record { users = ann ∷ []; keys = key ∷ [] }

abbrev by_key : Principal
by_key = record {
  id = "u1";
  username = "ann";
  role = "viewer";
  tenant_id = "t2";
  display_name = "Ann";
  api_key = some ("k1", some ("invoke" ∷ []));
}

abbrev verify : String → Token
verify text = if text == "good" then valid (some "u1") else invalid

abbrev hash : String → String
hash text = "h"

key_lets_in : (get_current_user verify hash false none (some "secret") db 5).0 ≡ granted by_key
unfolding get_current_user
key_lets_in = refl

bad_token : (get_current_user verify hash false (some "bad") (some "secret") db 5).0 ≡ refused 401
unfolding get_current_user
bad_token = refl

get_current_user-granted_example :
    (user : User) × StandsFor db by_key user
    × (ByToken (verify "") by_key user ⊎ ByKey db "h" by_key user)
get_current_user-granted_example =
    get_current_user-granted verify hash none (some "secret") db 5 by_key key_lets_in

viewer_changes : require_scope "invoke" "POST" by_key ≡ granted by_key
unfolding require_scope
viewer_changes = refl

require_scope_lem_example :
    (require_scope "manage" "POST" by_key ≡ granted by_key)
    ↔ (MayUse "manage" by_key × MayManage "manage" "POST" by_key)
require_scope_lem_example = require_scope_lem "manage" "POST" by_key

-- With two requests a minute and ten ticks a second, the third in a minute is refused.
abbrev two : String → ℕ
two k = 2

abbrev requests : List Request
requests = ("a", 300) ∷ ("b", 200) ∷ ("a", 100) ∷ []

third_waits : (consume_rate_limit 10 (after 10 two requests) "a" 2 650).0 ≡ some 6
unfolding consume_rate_limit
third_waits = refl

consume_rate_limit_lem_example :
    ((consume_rate_limit 10 (after 10 two requests) "a" 2 650).0 ≡ none)
    ↔ (length (recent 10 650 (log 10 two requests "a")) < 2)
consume_rate_limit_lem_example =
    consume_rate_limit_lem 10 two requests "a" 650
      (omega arith, (omega arith, (omega arith, (omega arith, tt))))

passed-limit_example : length (recent 10 650 (passed 10 two requests "a")) ≤ 2
passed-limit_example =
    passed-limit 10 two requests "a" 650 (omega arith, (omega arith, (omega arith, tt)))
      (omega arith)
