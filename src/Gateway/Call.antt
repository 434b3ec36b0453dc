-- ===== src/Gateway/Call.antt =====
-- server/engine/tool_gateway.py: the dispatch of one call, the HTTP call behind the circuit breaker, and
-- the loop of attempts. A query of business data, a built-in handler and an HTTP server are answers of
-- the world; the state is the process's breaker and what was done so far, latest first. The gateway has
-- an audit logger, and the secrets of the tools decrypt. The text of a `ToolInvocationError` is kept
-- without the tool's name in front.
use Prim.Native.String.{◌++◌ as ◌+++◌}
use aezab.Prelude.{
  ℕ, zero, suc, ◌+◌, ◌*◌, ◌^◌, String, string_eq, Bool, true, false, not, ◌&&◌, ◌||◌, Option, none,
  some, List, [], ◌∷◌, any, ltb, leb, ◌==◌, if◌then◌else◌,
}
use aezab.Prelude.Dict.{Dict, get, put}
use aezab.Value.{Value, str, obj, entry, end, Runtime}
use aezab.Breaker.{CircuitBreaker, can_execute, record_success, record_failure}
use aezab.Gateway.Schema.{InputSchema, SchemaError, validate_input_schema}

-- `auth_config`, with the defaults of the reads put in.
pub record Auth : Type 0 where
  pub auth_type : String
  pub header : String
  pub token : String

pub record Tool : Type 0 where
  pub id : String
  pub name : String
  pub category : String
  pub endpoint : String
  pub method : String
  pub input_schema : Option InputSchema
  pub auth_config : Option Auth
  pub timeout_ms : ℕ
  pub max_retries : ℕ
  pub retry_backoff_ms : ℕ
  pub tenant_id : String
  pub enabled : Bool

pub record Request : Type 0 where
  pub method : String
  pub url : String
  -- sent as the query's parameters, else as a JSON body
  pub as_params : Bool
  pub input : Dict String Value
  pub headers : Dict String String
  pub timeout_ms : ℕ
  pub trust_env : Bool

pub data Action : Type 0 where
  query : String → String → Dict String Value → Action
  handle : String → Dict String Value → Action
  http : Request → Action
  sleep_ms : ℕ → Action
  audit : Bool → ℕ → Action

-- What comes back of a query or a handler, and of a request.
pub data Reply : Type 0 where
  returned : Value → Reply
  raised : String → Reply

pub data HttpReply : Type 0 where
  response : ℕ → Option Value → String → HttpReply
  no_response : String → HttpReply

pub data Message : Type 0 where
  text : String → Message
  schema : SchemaError → Message
  failed_after : ℕ → Message → Message

-- `error` is an exception; it is final if it is a `ToolInvocationError` that is not recoverable.
pub data Outcome : Type 0 where
  result : Value → Outcome
  error : (recoverable : Bool) → Message → Outcome

pub record World : Type 0 where
  pub py : Runtime
  pub lt : Value → Value → Bool
  pub equals : Value → Value → Bool
  pub reply : List Action → Reply
  pub http_reply : List Action → HttpReply
  -- the text of the exception for a status that is no success
  pub status_error : ℕ → String
  -- the clock's reading with a number, after these actions
  pub clock : List Action → ℕ → ℕ
  pub decrypt : String → String
  -- `urlparse(url).path` and `urlparse(url).hostname or ""`
  pub url_path : String → String
  pub url_host : String → String

pub record Gate : Type 0 where
  pub breaker : CircuitBreaker
  pub actions : List Action

abbrev pub did : Gate → Action → Gate
did g a = record g { actions = a ∷ g.actions }

abbrev pub builtin_tool_aliases : Dict String String
builtin_tool_aliases =
    ("calculator", "calculator")
    ∷ ("calc", "calculator")
    ∷ ("weather", "weather")
    ∷ ("unit_converter", "unit_converter")
    ∷ ("unit", "unit_converter")
    ∷ ("converter", "unit_converter")
    ∷ ("timestamp", "timestamp")
    ∷ ("timestamp_tool", "timestamp")
    ∷ ("time", "timestamp")
    ∷ ("create_work_order", "create_work_order")
    ∷ ("work_order", "create_work_order")
    ∷ ("webhook", "webhook")
    ∷ ("webhook_receiver", "webhook")
    ∷ []

abbrev pub handler_paths : List String
handler_paths =
    "/api/v1/mock-tools/calculator" ∷ "/api/v1/mock-tools/weather"
    ∷ "/api/v1/mock-tools/unit_converter" ∷ "/api/v1/mock-tools/timestamp"
    ∷ "/api/v1/mock-tools/create_work_order" ∷ "/api/v1/mock-tools/webhook" ∷ []

-- `_MOCK_TOOL_HANDLERS.get(path)`; a handler is its path.
unfoldable pub handler_at : String → Option String
handler_at path = if any (λ p. p == path) handler_paths then some path else none

-- `text.replace(old, new)` for texts of one character
unfoldable pub replace_char : String → String → String → String
replace_char old new String.[] = ""
replace_char old new (String.◌∷◌ c s) =
    (if String.◌∷◌ c String.[] == old then new else String.◌∷◌ c String.[])
    +++ replace_char old new s

unfoldable pub normalize_tool_name : Runtime → String → String
unfolding replace_char
normalize_tool_name py name = replace_char " " "_" (replace_char "-" "_" (py.lower (py.strip name)))

abbrev pub aliased_handler : Option String → Option String
aliased_handler none = none
aliased_handler (some name) = handler_at ("/api/v1/mock-tools/" +++ name)

unfoldable pub resolve_builtin_handler : Runtime → String → Option String
unfolding normalize_tool_name get handler_at
resolve_builtin_handler py name =
    aliased_handler (get builtin_tool_aliases (normalize_tool_name py name))

unfoldable pub resolve_mock_handler : World → String → Option String
unfolding handler_at
resolve_mock_handler w endpoint =
    if endpoint == "" then none else handler_at (w.py.rstrip "/" (w.url_path endpoint))

abbrev pub or_handler : Option String → Option String → Option String
or_handler none next = next
or_handler (some h) next = some h

unfoldable pub get_mock_handler : World → Tool → Option String
unfolding resolve_builtin_handler resolve_mock_handler
get_mock_handler w tool =
    or_handler
      (if tool.category == "function" then resolve_builtin_handler w.py tool.name else none)
      (resolve_mock_handler w tool.endpoint)

unfoldable pub is_localhost : World → String → Bool
is_localhost w url =
    (w.url_host url == "localhost") || (w.url_host url == "127.0.0.1") || (w.url_host url == "::1")

unfoldable pub with_auth : World → Option Auth → Dict String String → Dict String String
with_auth w none headers = headers
with_auth w (some a) headers =
    if a.auth_type == "bearer"
    then put headers "Authorization" ("Bearer " +++ w.decrypt a.token)
    else if a.auth_type == "api_key"
    then put headers a.header (w.decrypt a.token)
    else headers

-- `headers.update(extra)`
unfoldable pub update : Dict String String → Dict String String → Dict String String
update headers [] = headers
update headers ((k, v) ∷ extra) = update (put headers k v) extra

-- The methods that the code knows; any other is sent as a POST.
unfoldable pub known_method : String → String
known_method m =
    if (m == "GET") || (m == "POST") || (m == "PUT") || (m == "DELETE") then m else "POST"

unfoldable pub make_request : World → Tool → Dict String Value → Dict String String → Request
unfolding with_auth update known_method is_localhost
make_request w tool input extra =
    let method = known_method (w.py.upper tool.method) in
    record {
      method = method;
      url = tool.endpoint;
      as_params = (method == "GET") || (method == "DELETE");
      input = input;
      headers =
          update (with_auth w tool.auth_config (("Content-Type", "application/json") ∷ [])) extra;
      timeout_ms = tool.timeout_ms;
      trust_env = not (is_localhost w tool.endpoint);
    }

abbrev pub service_name : Tool → String
service_name tool = "tool:" +++ tool.endpoint

abbrev pub fail_service : World → Tool → Message → Gate → Outcome × Gate
fail_service w tool m g = (
  error true m,
  record g {
    breaker =
        record_failure g.breaker (service_name tool) (w.clock g.actions 0) (w.clock g.actions 1);
  },
)

abbrev pub body_value : Option Value → String → Value
body_value none raw = obj (entry "raw" (str raw) end)
body_value (some v) raw = v

unfoldable pub settle : World → Tool → HttpReply → Gate → Outcome × Gate
settle w tool (no_response e) g = fail_service w tool (text e) g
settle w tool (response code body raw) g =
    if leb 200 code && ltb code 300
    then (
      result (body_value body raw),
      record g {
        breaker =
            record_success g.breaker (service_name tool) (w.clock g.actions 0) (w.clock g.actions 1)
              (w.clock g.actions 2);
      },
    )
    else fail_service w tool (text (w.status_error code)) g

unfoldable pub send : World → Tool → Request → Gate → Outcome × Gate
unfolding settle
send w tool r g = let g' = did g (http r) in settle w tool (w.http_reply g'.actions) g'

unfoldable pub call_http_tool :
    World → Tool → Dict String Value → Dict String String → Gate → Outcome × Gate
unfolding send make_request
call_http_tool w tool input extra g =
    if tool.endpoint == ""
    then (error false (text "No endpoint configured for HTTP tool"), g)
    else let (admitted, b) =
        can_execute g.breaker (service_name tool) (w.clock g.actions 0) (w.clock g.actions 1) in
      if admitted
      then send w tool (make_request w tool input extra) (record g { breaker = b })
      else (
        error true (text ("Circuit breaker open for " +++ tool.endpoint)),
        record g { breaker = b },
      )

abbrev pub outcome_of : Reply → Outcome
outcome_of (returned v) = result v
outcome_of (raised e) = error true (text e)

abbrev pub call_handler :
    World → Tool → Dict String Value → Dict String String → Option String → Gate → Outcome × Gate
call_handler w tool input extra none g = call_http_tool w tool input extra g
call_handler w tool input extra (some h) g =
    let g' = did g (handle h input) in (outcome_of (w.reply g'.actions), g')

unfoldable pub dispatch :
    World → Tool → Dict String Value → Dict String String → Gate → Outcome × Gate
unfolding get_mock_handler call_http_tool
dispatch w tool input extra g =
    if tool.category == "data_query"
    then (let g' = did g (query tool.endpoint tool.tenant_id input) in
        (outcome_of (w.reply g'.actions), g'))
    else call_handler w tool input extra (get_mock_handler w tool) g

abbrev pub call_valid :
    World
    → Tool
    → Dict String Value
    → Dict String String
    → Option SchemaError
    → Gate
    → Outcome × Gate
call_valid w tool input extra (some e) g = (error false (schema e), g)
call_valid w tool input extra none g = dispatch w tool input extra g

unfoldable pub call : World → Tool → Dict String Value → Dict String String → Gate → Outcome × Gate
unfolding dispatch
call w tool input extra g =
    call_valid w tool input extra (validate_input_schema w.lt w.equals tool.input_schema input) g

abbrev pub pause : Tool → ℕ → Gate → Gate
pause tool attempt g =
    if ltb attempt tool.max_retries
    then did g (sleep_ms (tool.retry_backoff_ms * 2 ^ attempt))
    else g

-- A result is logged and returned, a final error ends the loop, and any other waits for the next attempt.
abbrev pub after_call :
    Tool → ℕ → (Outcome → Gate → Outcome × Gate) → Outcome → Gate → Outcome × Gate
after_call tool attempt again (result v) g = (result v, did g (audit true (attempt + 1)))
after_call tool attempt again (error false m) g = (error false m, g)
after_call tool attempt again (error true m) g = again (error true m) (pause tool attempt g)

module _ (w : World) (tool : Tool) (input : Dict String Value) (extra : Dict String String) where
  -- The attempts that are left; the outcome of the last one.
  unfoldable pub attempts : ℕ → ℕ → Outcome → Gate → Outcome × Gate
  unfolding call
  attempts zero attempt last g = (last, g)
  attempts (suc left) attempt last g =
      let (o, g') = call w tool input extra g in
      after_call tool attempt (attempts left (attempt + 1)) o g'

  -- The failure of all attempts is logged and raised as one that can be recovered from.
  abbrev pub conclude : Outcome × Gate → Outcome × Gate
  conclude (result v, g) = (result v, g)
  conclude (error r m, g) = (
    error true (failed_after (tool.max_retries + 1) m),
    did g (audit false (tool.max_retries + 1)),
  )

  unfoldable pub invoke_tool : Gate → Outcome × Gate
  unfolding attempts
  invoke_tool g = conclude (attempts (tool.max_retries + 1) 0 (error true (text "None")) g)

-- The enabled tool with an id.
unfoldable pub get_tool : String → List Tool → Option Tool
get_tool tool_id [] = none
get_tool tool_id (t ∷ ts) = if (t.id == tool_id) && t.enabled then some t else get_tool tool_id ts

abbrev pub invoke_found :
    World → Option Tool → Dict String Value → Dict String String → Gate → Outcome × Gate
invoke_found w none input extra g = (error false (text "Tool not found or disabled"), g)
invoke_found w (some tool) input extra g = invoke_tool w tool input extra g

unfoldable pub invoke :
    World → List Tool → String → Dict String Value → Dict String String → Gate → Outcome × Gate
unfolding get_tool invoke_tool
invoke w tools tool_id input extra g = invoke_found w (get_tool tool_id tools) input extra g
