-- ===== src/Auth/Rate.antt =====
-- server/middleware/auth.py: the sliding window of requests. A clock reading is a number of ticks,
-- `second` of them to a second. The windows are a `defaultdict`: a key without one has the empty one.
use Prim.Native.String.{◌++◌ as ◌+++◌}
use aezab.Prelude.{
  ℕ, zero, suc, ◌+◌, ◌-◌, ◌*◌, ◌/◌, max, String, string_eq, Bool, true, Option, none, some, List,
  [], ◌∷◌, ◌++◌, length, ltb, leb, ◌==◌, if◌then◌else◌,
}
use aezab.Prelude.Int.{ℤ, pos, negsuc}

abbrev pub Windows : Type 0
Windows = String → List ℕ

abbrev pub host_or_unknown : Option String → String
host_or_unknown none = "unknown"
host_or_unknown (some host) = host

-- `f"{prefix}{id}"` for an id that is given and not empty
abbrev pub or_key : Option String → String → String → String
or_key none prefix rest = rest
or_key (some id) prefix rest = if id == "" then rest else prefix +++ id

unfoldable pub rate_limit_key : Option String → Option String → Option String → String
rate_limit_key api_key_id user_id client =
    or_key api_key_id "key:" (or_key user_id "user:" ("ip:" +++ host_or_unknown client))

module _ (second : ℕ) where
  -- `now - t > _RATE_LIMIT_WINDOW_SECONDS`
  abbrev pub is_old : ℕ → ℕ → Bool
  is_old now t = ltb (t + 60 * second) now

  -- `while window and now - window[0] > ...: window.popleft()`
  unfoldable pub trim : ℕ → List ℕ → List ℕ
  trim now [] = []
  trim now (t ∷ w) = if is_old now t then trim now w else t ∷ w

  -- The window is empty, or its last time is old.
  unfoldable pub is_stale : ℕ → List ℕ → Bool
  is_stale now [] = true
  is_stale now (t ∷ []) = is_old now t
  is_stale now (t ∷ u ∷ w) = is_stale now (u ∷ w)

  abbrev pub retry_after : ℕ → List ℕ → ℕ
  retry_after now [] = 1
  retry_after now (oldest ∷ w) = max 1 ((60 * second - (now - oldest)) / second + 1)

  -- The windows without the old times of the key and the stale windows of the others.
  unfoldable pub purged : Windows → String → ℕ → Windows
  unfolding trim is_stale
  purged ws key now k =
      if k == key then trim now (ws k) else if is_stale now (ws k) then [] else ws k

  abbrev pub append_time : Windows → String → ℕ → Windows
  append_time ws key now k = if k == key then ws k ++ (now ∷ []) else ws k

  -- `none` for a request that passes, else the seconds of `Retry-After`. The limit is positive.
  unfoldable pub consume_rate_limit : Windows → String → ℕ → ℕ → Option ℕ × Windows
  unfolding purged
  consume_rate_limit ws key limit now =
      if leb limit (length (trim now (ws key)))
      then (some (retry_after now (trim now (ws key))), purged ws key now)
      else (none, append_time (purged ws key now) key now)

  -- The user's key id and id, and the client's host, name the window; a limit up to 0 turns it off.
  unfoldable pub enforce_rate_limit :
      Windows → (api_key_id user_id client : Option String) → ℤ → ℕ → Option ℕ × Windows
  unfolding consume_rate_limit
  enforce_rate_limit ws api_key_id user_id client (negsuc n) now = (none, ws)
  enforce_rate_limit ws api_key_id user_id client (pos zero) now = (none, ws)
  enforce_rate_limit ws api_key_id user_id client (pos (suc n)) now =
      consume_rate_limit ws (rate_limit_key api_key_id user_id client) (suc n) now

  unfoldable pub enforce_login_rate_limit : Windows → Option String → ℕ → Option ℕ × Windows
  unfolding consume_rate_limit
  enforce_login_rate_limit ws client now =
      consume_rate_limit ws ("login-ip:" +++ host_or_unknown client) 10 now
