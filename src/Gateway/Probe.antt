-- ===== src/Gateway/Probe.antt =====
-- server/engine/tool_gateway.py: `test_connectivity`, which the console offers for a tool.
use aezab.Prelude.{
  ℕ, refl, inl, inr, String, string_eq, Bool, true, not, Option, none, some, List, [], ◌∷◌,
  Bool-cases, ◌==◌, if◌then◌else◌,
}
use aezab.Prelude.Dict.{Dict}
use aezab.Value.{Value, Entries, bool, obj, entry, end}
use aezab.Gateway.Call.{
  Tool, Request, http, HttpReply, response, no_response, Message, text, Outcome, result, error,
  World, Gate, did, is_localhost, get_mock_handler, call, get_tool,
}
use aezab.Gateway.Retry.{AtMostOne, AtMostOne-refl, AtMostOne-call, call-AtMostOne}

-- The report: a failure with its error, an answer with its success, a handler of the process, or the
-- status of the server.
pub data Report : Type 0 where
  failed : Message → Report
  answered : Bool → Value → Report
  in_process : Report
  reached : ℕ → Report

-- `response.get("success", True) is not False`
abbrev pub succeeds : Entries → Bool
succeeds end = true
succeeds (entry k (bool b) es) = if k == "success" then b else succeeds es
succeeds (entry k v es) = if k == "success" then true else succeeds es

-- A response that is no object has no `get`.
abbrev pub report_of : Outcome → Report
report_of (error r m) = failed m
report_of (result (obj es)) = answered (succeeds es) (obj es)
report_of (result v) = failed (text "no attribute 'get'")

-- A request without input, with a timeout of ten seconds; every status counts.
abbrev pub probe_request : World → Tool → Request
probe_request w tool = record {
  method = w.py.upper tool.method;
  url = tool.endpoint;
  as_params = true;
  input = [];
  headers = ("Content-Type", "application/json") ∷ [];
  timeout_ms = 10000;
  trust_env = not (is_localhost w tool.endpoint);
}

abbrev pub reached_of : HttpReply → Report
reached_of (response code body raw) = reached code
reached_of (no_response e) = failed (text e)

abbrev pub probe : World → Tool → Option String → Gate → Report × Gate
probe w tool (some h) g = (in_process, g)
probe w tool none g =
    if tool.endpoint == ""
    then (failed (text "No endpoint configured"), g)
    else (let g' = did g (http (probe_request w tool)) in
        (reached_of (w.http_reply g'.actions), g'))

abbrev pub test_tool : World → Tool → Option (Dict String Value) → Gate → Report × Gate
test_tool w tool (some input) g = let (o, g') = call w tool input [] g in (report_of o, g')
test_tool w tool none g =
    if tool.category == "data_query"
    then (failed (text "Supply query filters to test this data source"), g)
    else probe w tool (get_mock_handler w tool) g

abbrev pub test_found : World → Option Tool → Option (Dict String Value) → Gate → Report × Gate
test_found w none input g = (failed (text "Tool not found"), g)
test_found w (some tool) input g = test_tool w tool input g

unfoldable pub test_connectivity :
    World → List Tool → String → Option (Dict String Value) → Gate → Report × Gate
test_connectivity w tools tool_id input g = test_found w (get_tool tool_id tools) input g

probe-AtMostOne :
    (w : World) (tool : Tool) (o : Option String) (g : Gate)
    → AtMostOne g.actions (probe w tool o g).1.actions
probe-AtMostOne w tool (some h) g = AtMostOne-refl g.actions
probe-AtMostOne w tool none g = elim (Bool-cases (tool.endpoint == "")) [
  | inl y ↦ rw y (AtMostOne-refl g.actions)
  | inr n ↦ rw n (AtMostOne-call (http (probe_request w tool)) g.actions refl refl)
]

test_tool-AtMostOne :
    (w : World) (tool : Tool) (o : Option (Dict String Value)) (g : Gate)
    → AtMostOne g.actions (test_tool w tool o g).1.actions
test_tool-AtMostOne w tool (some input) g = call-AtMostOne w tool input [] g
test_tool-AtMostOne w tool none g = elim (Bool-cases (tool.category == "data_query")) [
  | inl y ↦ rw y (AtMostOne-refl g.actions)
  | inr n ↦ rw n (probe-AtMostOne w tool (get_mock_handler w tool) g)
]

test_found-AtMostOne :
    (w : World) (t : Option Tool) (o : Option (Dict String Value)) (g : Gate)
    → AtMostOne g.actions (test_found w t o g).1.actions
test_found-AtMostOne w none o g = AtMostOne-refl g.actions
test_found-AtMostOne w (some tool) o g = test_tool-AtMostOne w tool o g

-- A test of a tool makes at most one call and never waits, whatever the tool's retries.
pub test_connectivity-AtMostOne :
    (w : World) (tools : List Tool) (tool_id : String) (o : Option (Dict String Value)) (g : Gate)
    → AtMostOne g.actions (test_connectivity w tools tool_id o g).1.actions
unfolding test_connectivity
test_connectivity-AtMostOne w tools tool_id o g =
    test_found-AtMostOne w (get_tool tool_id tools) o g
