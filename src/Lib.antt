-- ===== src/Lib.antt =====
-- Verification of the API security scanner.
--
-- The scanner replays the requests of one user with the tokens of others and compares the answers. The
-- pipeline that judges them is at the root of the repository: `result_collector.py` buffers the
-- responses of each endpoint and pairs those of the reference role with the others; `diff_engine.py`
-- compares each pair; `issue_classifier.py` turns an anomaly into issues; `report_generator.py` sums
-- them up.
--
-- The parts:
-- - Prelude (Prelude/Tests, Prelude/Lists): the libraries' names, Boolean tests, list functions.
-- - Text (Text/Laws): `str` as a list of code points, with the methods that the code calls.
-- - Dict (Dict/Laws): `dict` as pairs in insertion order.
-- - Json: the values of `json.loads`, with truth, equality and `str` of scalars.
-- - Models: models.py, a record for each dataclass, a data type for each enumeration.
-- - Runtime: what the pipeline takes from outside the repository, one record of operations and of
--   the documented laws that the proofs use. Examples/Samples gives one that meets them.
-- - DiffEngine: diff_engine.py. Similarity is `_body_similarity`, Flatten `_flatten_json`, Ids
--   `_extract_ids`, Fields `_field_diff`, Compare `compare_responses`, `batch_compare` and
--   `detect_data_leak`.
-- - Classifier: issue_classifier.py. Meta is `ISSUE_META`, Severity `_score_bola` and `_score_bfla`,
--   Repro `_build_curl` and `_build_repro`, Checks the six `_check_` functions, Classify
--   `classify_diff` and `classify_all`.
-- - Report: `build_report` of report_generator.py.
-- - Collector: `ScanResultCollector` of result_collector.py, a function for each method.
-- - Prelude/Raises: Option as code that may raise.
-- - Discovery: endpoint_discovery.py, which lists the endpoints of an OpenAPI specification. Paths is
--   `_normalize_path`, Operation the three functions on an operation's fields, Parser the class and
--   `parse`. `none` is an exception that `parse` does not catch.
-- - Worker: executor/workers/engine.py. Tables has the rows, payloads and events, and the record Services
--   of the database, Redis and the rate limiter with the laws that are used; Engine handles a payload:
--   `_process_payload`, `_save_response`, `_evaluate_scan_completion`, `_handle_retry`. What the rate
--   limiter and the HTTP client answer are arguments; every statement of a store succeeds.
-- - Pool: executor/worker_manager/manager.py, a function for each method; one round of the monitor.
-- - TaskQueue: executor/task_queue/publisher.py and consumer.py, with Redis as the record of operations
--   and laws of the same name.
-- - RateLimiter: the local token bucket of executor/rate_limiter/limiter.py, in exact arithmetic;
--   Budget is one bucket, Alone all of them, Waiting is RateLimiter.acquire over them, where fuel
--   counts the rounds of the loop.
-- - Auth: accounts and tokens. Password and Tokens are executor/api/auth.py; Requests (the validators and
--   responses) and Accounts (the routes) are executor/api/auth_routes.py. PyJWT, uuid and the tables are
--   the record Services, PBKDF2 is an argument, random values and the clock are in Draws. A route returns
--   the tables with its response; an error leaves them as they were. Call is a client's call. Startup is the
--   administrator that executor/api/main.py adds when the server starts.
-- - Api: executor/api/main.py and executor/api/routes.py. Middleware is the rate limit and the timeout;
--   Scans is `submit_tasks`, `get_scan_progress` and `delete_scan`; Scores the scores of the dashboard, of
--   a token and of `/diff`; Charts the telemetry and the timeline. The tables are a record of operations
--   and laws; the submission goes through TaskQueue. Clocks count microseconds.
-- - Integration: executor/integration and jwt_role_testing/role_swapper.py, which make tasks of endpoints,
--   and `discover_and_submit` of executor/api/routes.py. What a specification parses to, and what the
--   mutation engine answers, are arguments.
-- - Analysis: executor/analysis/report_service.py, which feeds a scan's saved responses to the Collector,
--   and `get_scan_role_swaps` of executor/api/routes.py (RoleSwaps). Token decoding, JSON and urlparse are
--   the record Parsers.
-- - Examples: tests at concrete inputs, and each theorem applied to such inputs.
--
-- Names are those of the source, without the leading underscore. A method takes and returns its object;
-- an `Optional` is an Option.
--
-- Choices. A similarity is the fraction that SequenceMatcher divides out, so comparisons with a
-- threshold and rounding (half to even) are exact where the code has floats; thresholds, rounded
-- similarities and rates are in ten-thousandths, times in microseconds, durations in hundredths of a
-- second. A float of a JSON body is its `repr`. A set is a list without repetition; where the code
-- lists a set, the order is Runtime.listing. `uuid4` and `utcnow` are numbered by their calls.
-- `lower` and `strip` act on ASCII; what `\d` matches is Runtime.is_decimal. The callback of the
-- collector is seen by the issues that it is called with; it is only called under a `try` that
-- catches. The one function on fuel in the pipeline is the decimal text of a number n, which has
-- fuel n + 1 and at most as many digits.
--
-- Around it stands the executor: `executor/task_queue` holds the requests in Redis, the engines of
-- `executor/workers` take, send, save and retry them under the limits of `executor/rate_limiter`, and
-- `executor/worker_manager` starts and stops engines, and `executor/api` is the web interface to them.
-- `executor/integration` makes the requests of the endpoints that `endpoint_discovery.py` lists, and
-- `executor/analysis` hands the answers to the pipeline.
--
-- Not modelled: the writers of report_generator.py (JSON, HTML, PDF: output formatting); the web
-- frontend; the API routes that list rows, create scans, stream or chat; logging and metrics; network
-- and database access, whose failures are left out as well; executor/endpoint_discovery, an unfinished
-- copy of endpoint_discovery.py.
mod Prelude
pub mod Text
pub mod Dict
pub mod Json
pub mod Models
pub mod Runtime
pub mod DiffEngine
pub mod Classifier
pub mod Report
pub mod Collector
pub mod Discovery
pub mod Worker
pub mod Pool
pub mod TaskQueue
pub mod RateLimiter
pub mod Auth
pub mod Api
pub mod Integration
pub mod Analysis
mod Examples
