-- ===== src/Guard/Cache.antt =====
-- server/engine/request_guard.py: the cache of responses under a client's idempotency key. Each
-- function reads the clock once, and then holds the guard to its end.
use aezab.Prelude.{
  ℕ, ◌+◌, ◌-◌, String, string_eq, pair_eq, Bool, true, Option, none, some, List, [], ◌∷◌, ◌++◌,
  length, drop, leb, ◌==◌, if◌then◌else◌,
}
use aezab.Prelude.Dict.{Dict, get, put, remove}
use aezab.Value.{Value}

pub record Cached : Type 0 where
  pub expires_at : ℕ
  pub response : Value

abbrev pub Key : Type 0
Key = String × String

abbrev pub Cache : Type 0
Cache = Dict Key Cached

abbrev pub max_entries : ℕ
max_entries = 1000

unfoldable pub purge_expired : ℕ → Cache → Cache
purge_expired now [] = []
purge_expired now ((k, e) ∷ c) =
    let rest = purge_expired now c in if leb e.expires_at now then rest else (k, e) ∷ rest

-- `not key`
abbrev pub no_key : Option String → Bool
no_key none = true
no_key (some key) = key == ""

-- `move_to_end` for an entry that is in the cache
unfoldable pub move_to_end : Cache → Key → Cached → Cache
move_to_end c k e = remove c k ++ ((k, e) ∷ [])

unfoldable pub answer_found : Cache → Key → Option Cached → ℕ → Option Value × Cache
unfolding move_to_end
answer_found c k none now = (none, c)
answer_found c k (some e) now =
    if leb e.expires_at now then (none, remove c k) else (some e.response, move_to_end c k e)

unfoldable pub get_live : Cache → Key → ℕ → Option Value × Cache
unfolding answer_found
get_live c k now = answer_found c k (get c k) now

unfoldable pub get_idempotent_response : Cache → String → Option String → ℕ → Option Value × Cache
unfolding get_live purge_expired
get_idempotent_response c tenant none now = (none, c)
get_idempotent_response c tenant (some key) now =
    if key == "" then (none, c) else get_live (purge_expired now c) (tenant, key) now

-- `popitem(last=False)` while there are more than the bound
unfoldable pub evict : Cache → Cache
evict c = drop (length c - max_entries) c

unfoldable pub store_live : Cache → Key → Cached → Cache
unfolding move_to_end evict
store_live c k e = evict (move_to_end (put c k e) k e)

unfoldable pub store_idempotent_response : Cache → String → Option String → Value → ℕ → ℕ → Cache
unfolding store_live purge_expired
store_idempotent_response c tenant none response ttl now = c
store_idempotent_response c tenant (some key) response ttl now =
    if key == ""
    then c
    else store_live (purge_expired now c) (tenant, key)
        (record { expires_at = now + ttl; response = response })

-- What a request does to the cache, with its clock reading.
pub data Call : Type 0 where
  look : String → Option String → ℕ → Call
  store : String → Option String → Value → ℕ → ℕ → Call

unfoldable pub perform : Cache → Call → Cache
unfolding get_idempotent_response store_idempotent_response
perform c (look tenant key now) = (get_idempotent_response c tenant key now).1
perform c (store tenant key response ttl now) =
    store_idempotent_response c tenant key response ttl now

-- The cache after calls, the latest of which stands first.
unfoldable pub after : List Call → Cache
unfolding perform
after [] = []
after (call ∷ before) = perform (after before) call
