-- ===== src/Lib.antt =====
-- Aezab: the core of the server, modelled and verified.
--
-- The server runs agents for tenants. A message of a user is admitted, may drive a configured
-- workflow step by step, and calls tools and webhooks on the way. Each module below models one part
-- of it; its comment names the source, by paths from the repository's root.
--
-- * Prelude has the shared notation, lists, `Dict` (Python's `dict`, in the order of insertion) and
--   Python's integers.
-- * Value has Python's values as they stand in JSON columns, and `Runtime`, what the program uses of
--   the interpreter and is not written in the repository: the regular expression engine, the Unicode
--   tables, the float arithmetic and the `repr` of containers. A float is held by its `repr`.
-- * Rules models server/engine/rule_evaluator.py: the operators, and the choice of a branch. The
--   integers of a comparison lie within the range of a float.
-- * Breaker models server/engine/circuit_breaker.py. Each method holds the lock for all of its body,
--   so a sequence of `Call`s is a schedule of any number of threads.
-- * Workflow models server/engine/workflow_executor.py, with the tables of server/models/workflow.py
--   and server/models/session.py. The executor's state is a `Run`: the session, the queued events,
--   the audit entries, and the calls of the world so far. `World` answers each call from all the calls
--   before it: the tools, the language model, the decision service and the webhooks. A handler takes
--   as `process` the processing of the step that it enters, one level deeper. `process` counts the
--   depth down from 21, as `MAX_AUTO_ADVANCE_DEPTH` is 20, so the fuel is the program's own bound and
--   at 0 the model answers as the program does. The definition of the workflow (`get_steps`) is taken
--   to stay the same while one message is processed, and a database to be there (the tests alone
--   build an executor without one).
-- * Budget models server/engine/context_budget.py. The binary search over a text has the text's length
--   as fuel, the grouping of messages their number, and both are enough since a round makes the
--   interval or the list shorter. The messages that `kept` holds are marked in the list of all groups.
-- * Guard.Cache models the cache of idempotent responses of server/engine/request_guard.py; each
--   function holds the guard after its clock reading, so a list of `Call`s is a schedule.
-- * Guard.Sessions models the admission count and the locks of sessions of the same file, with the use
--   that `_admit_invoke` of server/api/invoke.py makes of them. `Step` is the step relation of the
--   process over all the invocations in flight: a step is a stretch of code between two `await`s, and
--   an `asyncio.Lock` hands itself to any call that waits. Counting, Sound and Leave carry what each
--   step keeps; Exclusion draws the conclusions for every state that can be reached.
-- * Gateway models server/engine/tool_gateway.py, over the breaker of Breaker: Schema the validation of a
--   tool's input, Call the dispatch, the HTTP call and the attempts, Probe the test of a tool. The state
--   is a `Gate`, the breaker and what was done so far; a `World` answers the requests. The attempts are
--   counted down from `max_retries + 1`, the loop's own bound. The table of tools refuses negative
--   retries, so they are natural numbers.
-- * Summary models server/engine/summary_scheduler.py: the prompt and the rows of one fold, and in
--   Process the folds in flight, as a step relation in which turns save rows, and requests delete a
--   session with its rows, at any time. The loop that
--   clips a single row has one more than the row's tokens as fuel, enough since each round takes some
--   away, where the prompt without the row's text fits; where it does not, the program's loop does not
--   end. Answers of the model are related to prompts by a parameter.
-- * Flow models `_validate_automatic_cycles` of server/api/workflows.py, which runs on steps that passed
--   the other checks. The search has one more than the number of automatic steps as fuel for its depth,
--   enough since no step is entered twice on a path. Routes, References and Graph relate the graph to
--   the steps, Walks and Search the search to the graph.
-- * Decision models server/engine/decision_service.py: the request to the choice API and the validation
--   of its answer. The executor of Workflow takes the outcome as an answer of its `World`.
-- * Auth models server/middleware/auth.py: Access the authentication, the roles and the scopes over the
--   tables of server/models/user.py, Rate the limiter. A token's verification and a key's hash are
--   parameters. Trim and Window compare the limiter with a log that forgets nothing.
--
-- Times are numbers of clock ticks, and each reading of a clock is an argument.
--
-- Not modelled: the prompts of a workflow to the language model and the parsing of its answers, which
-- are answers of `World`; the texts of the log; the details of audit entries beyond ids and outcomes;
-- the latencies; the model and the other probabilities of a decision in the executor's state; the
-- built-in tools and the queries of business data, which are answers of the gateway's `World`; the
-- tasks' shutdown; the checks of a workflow's fields and rules before that for loops; the login, the
-- retrieval of knowledge, the adapters of model providers, the HTTP API, the console and the SDKs.
pub mod Auth
pub mod Breaker
pub mod Budget
pub mod Decision
pub mod Flow
pub mod Gateway
pub mod Guard
pub mod Prelude
pub mod Rules
pub mod Summary
pub mod Value
pub mod Workflow
