-- ===== src/Gateway/Tests.antt =====
-- Calls of a small tool, and instances of the theorems about the gateway.
use aezab.Prelude.{
  ◌+◌, ◌*◌, ◌^◌, ◌≤◌, ◌≡◌, refl, String, string_eq, true, false, none, some, List, [], ◌∷◌, arith,
  ◌==◌, length,
}
use aezab.Prelude.Dict.{Dict, get, has, put}
use aezab.Prelude.Int.{show_int}
use aezab.Value.{Value, str, Runtime}
use aezab.Breaker.{CircuitBreaker, can_execute, record_failure}
use aezab.Breaker.Laws.{view}
use aezab.Gateway.Schema.{
  FieldSchema, InputSchema, missing, too_short, known_error, validate_input_schema,
}
use aezab.Gateway.Call.{
  Tool, Action, HttpReply, response, returned, World, Gate, schema, failed_after, result, error,
  did, audit, http, invoke_tool, get_mock_handler, get_tool,
}
use aezab.Gateway.Retry.{calls_of, waited, invoke_tool-bounds, invoke_tool-invalid}
use aezab.Gateway.Open.{invoke_tool-open}
use aezab.Gateway.Probe.{reached, test_connectivity}

abbrev py : Runtime
py = record {
  repr = λ v. "";
  lower = λ t. t;
  upper = λ t. t;
  strip = λ t. t;
  rstrip = λ cs t. t;
  re_match = λ p t. some true;
  re_search = λ p t. some true;
  parse_float = λ t. none;
  float_of_int = show_int;
  float_lt = λ a b. false;
  float_le = λ a b. true;
  split_commas = λ t. t ∷ [];
  join = λ s ts. "";
  is_in = λ a b. a == b;
  extension = λ t. "";
  parse_int = λ t. none;
  int_of_float = λ t. none;
}

-- A server that answers 503 to the first request and 200 to the next.
abbrev answer : List Action → HttpReply
answer (http r ∷ []) = response 503 none "busy"
answer _ = response 200 (some (str "ok")) ""

-- The clock goes on by one for each action, from 100.
abbrev world : World
world = record {
  py = py;
  lt = λ a b. false;
  equals = λ a b. false;
  reply = λ l. returned (str "");
  http_reply = answer;
  status_error = λ code. "no success";
  clock = λ l n. 100 + length l;
  decrypt = λ t. t;
  url_path = λ u. u;
  url_host = λ u. "crm";
}

abbrev name_field : FieldSchema
name_field = record {
  types = "string" ∷ [];
  one_of = none;
  minimum = none;
  maximum = none;
  min_length = some 2;
  max_length = none;
}

abbrev name_schema : InputSchema
name_schema = record {
  schema_type = some "object";
  properties = ("name", some name_field) ∷ [];
  required = "name" ∷ [];
  is_closed = true;
}

abbrev crm : Tool
crm = record {
  id = "t1";
  name = "crm";
  category = "http";
  endpoint = "http://crm/create";
  method = "POST";
  input_schema = some name_schema;
  auth_config = none;
  timeout_ms = 1000;
  max_retries = 2;
  retry_backoff_ms = 500;
  tenant_id = "default";
  enabled = true;
}

abbrev breaker : CircuitBreaker
breaker = record {
  failure_threshold = 3;
  failure_window = 60;
  recovery_timeout = 30;
  circuits = [];
}

abbrev start : Gate
start = record { breaker = breaker; actions = [] }

abbrev named : Dict String Value
named = ("name", str "Ada") ∷ []

retried_once : (invoke_tool world crm named [] start).0 ≡ result (str "ok")
unfolding invoke_tool validate_input_schema has known_error can_execute record_failure put
retried_once = refl

one_pause : waited (invoke_tool world crm named [] start).1.actions ≡ 500
unfolding invoke_tool validate_input_schema has known_error can_execute record_failure put
one_pause = refl

short_name :
    validate_input_schema world.lt world.equals (some name_schema) (("name", str "A") ∷ [])
    ≡ some (too_short "name" 2)
unfolding validate_input_schema has known_error get
short_name = refl

invoke_tool-bounds_example :
    (calls_of (invoke_tool world crm named [] start).1.actions ≤ 0 + (2 + 1))
    × (waited (invoke_tool world crm named [] start).1.actions + 500 ≤ 0 + 500 * 2 ^ 2)
invoke_tool-bounds_example = invoke_tool-bounds world crm named [] start

invoke_tool-invalid_example : invoke_tool world crm [] [] start ≡ (
  error true (failed_after (2 + 1) (schema (missing ("name" ∷ [])))),
  did start (audit false (2 + 1)),
)
unfolding validate_input_schema has known_error get
invoke_tool-invalid_example = invoke_tool-invalid world crm [] [] start (missing ("name" ∷ [])) refl

-- The circuit after a failure at 100 of a breaker that opens at the first one.
abbrev tripped : Gate
tripped = record start {
  breaker =
      record_failure (record breaker { failure_threshold = 1; recovery_timeout = 30 })
        "tool:http://crm/create" 100 100;
}

abbrev stopped : World
stopped = record world { clock = λ l n. 110 }

invoke_tool-open_example :
    (calls_of (invoke_tool stopped crm named [] tripped).1.actions ≡ 0)
    × (view (invoke_tool stopped crm named [] tripped).1.breaker "tool:http://crm/create"
        ≡ view tripped.breaker "tool:http://crm/create")
unfolding record_failure get_mock_handler get put
invoke_tool-open_example =
    invoke_tool-open stopped crm named [] tripped refl refl refl (λ l h. omega arith)

reached_busy : (test_connectivity world (crm ∷ []) "t1" none start).0 ≡ reached 503
unfolding test_connectivity get_tool get_mock_handler
reached_busy = refl
