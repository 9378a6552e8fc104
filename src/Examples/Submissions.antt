-- ===== src/Examples/Submissions.antt =====
-- A scan whose tasks are submitted, by themselves and from a specification.
use integrated_work.Prelude.{
  ℕ, ◌+◌, ◌*◌, ◌≡◌, refl, true, false, Option, none, some, List, [], ◌∷◌, map, length, keep,
  extend_all, if◌then◌else◌,
}
use integrated_work.Text.{Text, txt, text_eq, show_nat}
use integrated_work.Dict.{Dict, get, put}
use integrated_work.Dict.Laws.{get-put}
use integrated_work.Json.{null}
use integrated_work.Auth.Tokens.{ok}
use integrated_work.Worker.Tables.{TaskStatus, queued, success, failed, pending}
use integrated_work.Api.Scans.{TaskSubmit, ScanRow, TaskRow, Tables, Stores}
use integrated_work.Api.Scans.Submitted
use integrated_work.Integration.{
  Endpoint, NodeRequest, Mutation, DiscoverRequest, Found, endpoints_at, generate_jwt_tasks,
  discover_and_submit, node_request, base_or,
}
use integrated_work.Integration.Swaps
use integrated_work.Integration.Discovered
use integrated_work.Examples.Queues.{Lists, redis}

-- The counts of the one scan of the sample.
abbrev counts : Dict TaskRow → List (TaskStatus × ℕ)
counts t = (success, 2) ∷ (queued, 3) ∷ (failed, 1) ∷ []

abbrev tables : Tables (Dict ScanRow) (Dict TaskRow)
tables = record {
  find_scan = get;
  set_scan = put;
  find-set_scan = λ i j v s. get-put j i v s;
  delete_scan = λ i s. keep (λ (p : Text × ScanRow). if text_eq p.0 i then false else true) s;
  delete_tasks =
      λ i t. keep (λ (p : Text × TaskRow). if text_eq p.1.scan_id i then false else true) t;
  find_task = get;
  add_task = put;
  find-add_task = λ i j v t. get-put j i v t;
  status_counts = λ i t. counts t;
}

abbrev scan : ScanRow
scan = record { target = txt "http://host/"; status = pending; started_at = none }

abbrev world : Stores (Dict ScanRow) (Dict TaskRow) Lists
world = record { scans = (txt "s", scan) ∷ []; tasks = []; redis = ([], []) }

abbrev get_user : TaskSubmit
get_user = record {
  method = txt "GET";
  url = txt "http://host/users/1";
  headers = none;
  payload = null;
  auth_token = some (txt "T");
  retry_count = 3;
  priority_level = txt "P2";
  mutation_strategy = none;
  mutation_reason = none;
}

abbrev tasks : List (Text × TaskSubmit)
tasks = (txt "t1", get_user) ∷ (txt "t2", record get_user { priority_level = txt "P4" }) ∷ []

abbrev open_endpoint : Endpoint
open_endpoint = record {
  path = txt "/health";
  method = txt "GET";
  has_auth = false;
  request_body_required = false;
  has_body_schema = false;
}

abbrev guarded : Endpoint
guarded = record open_endpoint { path = txt "/users"; has_auth = true }

abbrev roles : Dict Text
roles = (txt "admin", txt "A") ∷ (txt "user", txt "U") ∷ []

sent-generate_jwt_tasks_example :
    map Swaps.sent (generate_jwt_tasks (open_endpoint ∷ guarded ∷ []) roles (txt "http://host"))
    ≡ extend_all
        (λ ep. map (Swaps.swapped (txt "http://host") ep) roles)
        (keep (λ (ep : Endpoint). ep.has_auth) (open_endpoint ∷ guarded ∷ []))
unfolding text_eq
sent-generate_jwt_tasks_example =
    Swaps.sent-generate_jwt_tasks (open_endpoint ∷ guarded ∷ []) roles (txt "http://host")
      (refl, (refl, tt))

abbrev mutation : Mutation
mutation = record {
  method = txt "POST";
  path = txt "http://host/users";
  headers = [];
  body = null;
  strategy = txt "null_body";
  reason = txt "no body";
}

-- An engine with one mutation for each request.
abbrev node : List NodeRequest → Option (List (List Mutation))
node requests = some (map (λ r. mutation ∷ []) requests)

abbrev discovery : DiscoverRequest
discovery = record { base_url = none; jwt_tokens = some roles }

abbrev discover : Text → Found
discover base_url = endpoints_at base_url (open_endpoint ∷ guarded ∷ [])

count-discover_and_submit_example :
    (after : Stores (Dict ScanRow) (Dict TaskRow) Lists) × (discover_and_submit tables redis
        (txt "q")
        node
        show_nat
        (txt "s")
        (txt "now")
        5
        discovery
        discover
        world
      ≡ ok (
        length (open_endpoint ∷ guarded ∷ [])
            + length (Discovered.with_auth (open_endpoint ∷ guarded ∷ []))
              * Discovered.count_tokens discovery.jwt_tokens
            + Discovered.count_answer (
                node (
                  map
                    (node_request (base_or discovery.base_url scan.target))
                    (open_endpoint ∷ guarded ∷ []))),
        after,
      ))
unfolding get text_eq base_or
count-discover_and_submit_example =
    Discovered.count-discover_and_submit tables redis (txt "q") node show_nat (txt "s") (txt "now")
      5 discovery discover scan world scan.target open_endpoint (guarded ∷ []) refl refl
