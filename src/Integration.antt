-- ===== src/Integration.antt =====
-- The bridges of executor/integration, which make the tasks of a scan, and discover_and_submit of
-- executor/api/routes.py, which submits them. What a specification parses to and what the mutation
-- engine, a program in JavaScript, answers are arguments.
pub mod Swaps
pub mod Discovered
use integrated_work.Prelude.{
  ℕ, ◌+◌, ◌*◌, Bool, true, false, not, ◌&&◌, ◌||◌, Option, none, some, List, [], ◌∷◌, ◌++◌, map,
  keep, extend_all, nonempty, take, any, length, ◌==◌, if◌then◌else◌,
}
use mathlib.Core.List.{reverse}
use integrated_work.Text.{Text, txt, text_eq, join, starts_with}
use integrated_work.Dict.{Dict}
use integrated_work.Json.{Value, null, str, obj, field, end}
use integrated_work.Auth.Tokens.{Reply, ok, raised, ◌>>=◌}
use integrated_work.TaskQueue.{Redis}
use integrated_work.Api.Scans.{TaskSubmit, ScanRow, Tables, Stores, submit_tasks}

-- What the bridges read of an endpoint's dict.
pub record Endpoint : Type 0 where
  pub path : Text
  pub method : Text
  pub has_auth : Bool
  pub request_body_required : Bool
  pub has_body_schema : Bool

-- s.lstrip("/") and s.rstrip("/")
unfoldable pub lstrip_slash : Text → Text
lstrip_slash [] = []
lstrip_slash (c ∷ s) = let rest = lstrip_slash s in if c == b'/' then rest else c ∷ s

unfoldable pub rstrip_slash : Text → Text
unfolding lstrip_slash
rstrip_slash s = reverse (lstrip_slash (reverse s))

unfoldable pub target_url : (base_url path : Text) → Text
unfolding rstrip_slash lstrip_slash text_eq
target_url base_url path =
    if text_eq base_url [] then path else rstrip_slash base_url ++ txt "/" ++ lstrip_slash path

-- {"Content-Type": "application/json"}
abbrev pub json_headers : Dict Text
json_headers = (txt "Content-Type", txt "application/json") ∷ []

-- The loop of generate_tasks_from_spec.
unfoldable pub crawler_task : (base_url : Text) → Endpoint → TaskSubmit
crawler_task base_url ep =
    let has_payload = ep.request_body_required && ep.has_body_schema in
    record {
      method = ep.method;
      url = target_url base_url ep.path;
      headers = some (if has_payload then json_headers else []);
      payload =
          if has_payload
          then obj
              (field (txt "_comment") (str (txt "Auto-generated dummy payload for crawler")) end)
          else null;
      auth_token = none;
      retry_count = 3;
      priority_level = txt "P3";
      mutation_strategy = none;
      mutation_reason = none;
    }

-- A test case of role_swapper.py. Its endpoint's role is always "admin".
pub record TestCase : Type 0 where
  pub test_name : Text
  pub url : Text
  pub method : Text
  pub token_name : Text
  pub token : Text
  pub expected_role : Text

pub record SwapperEndpoint : Type 0 where
  pub path : Text
  pub method : Text
  pub expected_role : Text

unfoldable pub test_case : (base_url : Text) → SwapperEndpoint → Text × Text → TestCase
test_case base_url ep (token_name, token) = record {
  test_name = token_name ++ txt " testing " ++ ep.path;
  url = base_url ++ ep.path;
  method = ep.method;
  token_name = token_name;
  token = token;
  expected_role = ep.expected_role;
}

unfoldable pub generate_test_cases :
    (base_url : Text) → List SwapperEndpoint → (tokens : Dict Text) → List TestCase
generate_test_cases base_url endpoints tokens =
    extend_all (λ ep. map (test_case base_url ep) tokens) endpoints

unfoldable pub swapper_endpoint : Endpoint → SwapperEndpoint
swapper_endpoint ep = record { path = ep.path; method = ep.method; expected_role = txt "admin" }

unfoldable pub jwt_task : TestCase → TaskSubmit
jwt_task tc = record {
  method = tc.method;
  url = tc.url;
  headers = some json_headers;
  payload = null;
  auth_token = some tc.token;
  retry_count = 3;
  priority_level = txt "P2";
  mutation_strategy = none;
  mutation_reason = none;
}

unfoldable pub generate_jwt_tasks :
    List Endpoint → (tokens : Dict Text) → (base_url : Text) → List TaskSubmit
generate_jwt_tasks endpoints tokens base_url =
    let swapper_endpoints =
      map swapper_endpoint (keep (λ (ep : Endpoint). ep.has_auth) endpoints) in
    if nonempty swapper_endpoints
    then map jwt_task (generate_test_cases base_url swapper_endpoints tokens)
    else []

-- A request for the mutation engine, and a mutation of its answer with the defaults of `get`.
pub record NodeRequest : Type 0 where
  pub method : Text
  pub path : Text
  pub has_dummy_body : Bool

pub record Mutation : Type 0 where
  pub method : Text
  pub path : Text
  pub headers : Dict Text
  pub body : Value
  pub strategy : Text
  pub reason : Text

unfoldable pub node_request : (base_url : Text) → Endpoint → NodeRequest
node_request base_url ep = record {
  method = ep.method;
  path = target_url base_url ep.path;
  has_dummy_body = ep.request_body_required;
}

unfoldable pub fuzzing_task : Mutation → TaskSubmit
fuzzing_task m = record {
  method = m.method;
  url = m.path;
  headers = some m.headers;
  payload = m.body;
  auth_token = none;
  retry_count = 1;
  priority_level = txt "P4";
  mutation_strategy = some m.strategy;
  mutation_reason = some m.reason;
}

-- No answer, after an error of the engine, gives no tasks.
unfoldable pub mutation_tasks : Option (List (List Mutation)) → List TaskSubmit
mutation_tasks none = []
mutation_tasks (some results) = extend_all (map fuzzing_task) results

unfoldable pub generate_mutations :
    (node : List NodeRequest → Option (List (List Mutation)))
    → List Endpoint
    → (base_url : Text) → List TaskSubmit
generate_mutations node endpoints base_url =
    let requests = map (node_request base_url) endpoints in
    if nonempty requests then mutation_tasks (node requests) else []

-- The body of DiscoverRequest, less the source of the specification.
pub record DiscoverRequest : Type 0 where
  pub base_url : Option Text
  pub jwt_tokens : Option (Dict Text)

-- What generate_tasks_from_spec finds: the endpoints and the URL that they are under, or the errors.
pub data Found : Type 0 where
  endpoints_at : (base_url : Text) → List Endpoint → Found
  errors : List Text → Found

-- `req.base_url or scan.target`
unfoldable pub base_or : Option Text → Text → Text
base_or none target = target
base_or (some b) target = if text_eq b [] then target else b

-- `JWTBridge.generate_jwt_tasks(…) if req.jwt_tokens`
unfoldable pub swap_tasks : List Endpoint → Option (Dict Text) → Text → List TaskSubmit
swap_tasks endpoints none base_url = []
swap_tasks endpoints (some tokens) base_url =
    if nonempty tokens then generate_jwt_tasks endpoints tokens base_url else []

-- The tasks of a specification. The crawler's alone are under the URL that was found.
unfoldable pub all_tasks :
    (node : List NodeRequest → Option (List (List Mutation)))
    → (base_url found_url : Text) → List Endpoint
    → Option (Dict Text)
    → List TaskSubmit
all_tasks node base_url found_url endpoints tokens =
    map (crawler_task found_url) endpoints
    ++ (swap_tasks endpoints tokens base_url ++ generate_mutations node endpoints base_url)

-- The end of generate_tasks_from_spec: no endpoints is a ValueError.
unfoldable pub checked : Found → Reply (Text × List Endpoint)
checked (errors es) = raised 400 (txt "Spec discovery failed: " ++ join (txt "; ") (take 5 es))
checked (endpoints_at base_url endpoints) =
    if nonempty endpoints
    then ok (base_url, endpoints)
    else raised 400 (txt "No endpoints discovered. Parser errors: []")

-- Identifiers for the rows, one a task.
abbrev pub with_ids : (ℕ → Text) → ℕ → List TaskSubmit → List (Text × TaskSubmit)
with_ids new_id n [] = []
with_ids new_id n (t ∷ ts) = (new_id n, t) ∷ with_ids new_id (n + 1) ts

-- `last_parse_errors` is never assigned, so it is the empty list.
module _ {S T D : Type 0} (tables : Tables S T) (redis : Redis D) (queue_name : Text)
    (node : List NodeRequest → Option (List (List Mutation))) (new_id : ℕ → Text) where
  -- `discover base_url` is what the source parses to.
  unfoldable pub discover_found :
      (scan_id enqueued_at : Text) (now : ℕ)
      → DiscoverRequest
      → (discover : Text → Found) → ScanRow
      → Stores S T D
      → Reply (ℕ × Stores S T D)
  discover_found scan_id enqueued_at now req discover scan w =
      let base_url = base_or req.base_url scan.target in
      checked (discover base_url) >>= λ (found_url, endpoints).
      let tasks = all_tasks node base_url found_url endpoints req.jwt_tokens in
      if nonempty tasks
      then submit_tasks tables redis queue_name scan_id enqueued_at now (with_ids new_id 0 tasks) w
      else raised 400 (
          txt "No endpoints were found in the provided specification. "
          ++ txt "Ensure the source is a reachable OpenAPI/Swagger document.")

  unfoldable pub discover_and_submit :
      (scan_id enqueued_at : Text) (now : ℕ)
      → DiscoverRequest
      → (discover : Text → Found) → Stores S T D
      → Reply (ℕ × Stores S T D)
  discover_and_submit scan_id enqueued_at now req discover w =
      elim (tables.find_scan scan_id w.scans) [
        | none ↦ raised 404 (txt "Scan not found")
        | some scan ↦ discover_found scan_id enqueued_at now req discover scan w
      ]
