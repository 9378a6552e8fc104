-- ===== src/Analysis.antt =====
-- ReportService of executor/analysis/report_service.py: the saved responses of a scan, fed to the
-- collector. Token
-- decoding, the parsing and writing of JSON and urlparse are parameters. The claims read are texts.
pub mod Unknown
pub mod RoleSwaps
use integrated_work.Prelude.{
  ℕ, zero, suc, ◌+◌, ◌-◌, Bool, true, false, not, ◌&&◌, ◌||◌, Option, none, some, List, [], ◌∷◌,
  ◌++◌, map, keep, any, extend_all, length, nonempty, leb, ltb, ◌==◌, if◌then◌else◌,
}
use integrated_work.Text.{Text, txt, text_eq, starts_with, lower}
use integrated_work.Dict.{Dict, get, put}
use integrated_work.Json.{Value, null, str, truthy}
use integrated_work.Models.{ScanResponse, DiffResult, ScanReport}
use integrated_work.Runtime.{Runtime}
use integrated_work.DiffEngine.Compare.{compare_responses}
use integrated_work.Collector.{Collector, Metadata, on_result, on_results_batch, flush}

-- The claims `role` and `user_id` of a token, none where it has no such claim.
pub record TokenClaims : Type 0 where
  pub role : Option Text
  pub user_id : Option Text

-- jwt.decode without a check of the signature, json.loads, json.dumps and urlparse(…).path; none raises.
pub record Parsers : Type 0 where
  pub claims : Text → Option TokenClaims
  pub loads : Text → Option Value
  pub dumps : Value → Text
  pub path_of : Text → Text

pub record SavedResponse : Type 0 where
  pub status_code : Option ℕ
  pub response_headers : Option (Dict Text)
  pub response_body : Option Text
  pub latency_ms : Option ℕ

-- A task with its response.
pub record TaskRow : Type 0 where
  pub method : Text
  pub url : Text
  pub headers : Option (Dict Text)
  pub payload : Value
  pub response : Option SavedResponse

-- s.replace("Bearer ", ""), with the characters of a match that are still to be skipped
unfoldable pub without_bearer : (skip : ℕ) → Text → Text
without_bearer skip [] = []
without_bearer (suc skip) (c ∷ s) = without_bearer skip s
without_bearer zero (c ∷ s) =
    let inside = without_bearer 6 s in
    let rest = without_bearer 0 s in
    if starts_with (c ∷ s) (txt "Bearer ") then inside else c ∷ rest

-- task.headers["Authorization"], where there are headers and the key is among them
unfoldable pub authorization : Option (Dict Text) → Option Text
unfolding get
authorization none = none
authorization (some headers) = get (txt "Authorization") headers

-- What a token says: its text, a role and a user.
pub record Identity : Type 0 where
  pub role : Text
  pub user_id : Text
  pub token : Option Text

unfoldable pub text_or : Text → Option Text → Text
text_or default none = default
text_or default (some s) = s

unfoldable pub dict_or : Option (Dict Text) → Dict Text
dict_or none = []
dict_or (some d) = d

unfoldable pub parse_body : (loads : Text → Option Value) → Option Text → Value
parse_body loads none = null
parse_body loads (some body) =
    if text_eq body [] then null else elim (loads body) [ none ↦ null | some v ↦ v ]

-- task.payload if it is a str, else json.dumps(task.payload) if it is truthy, else None
unfoldable pub request_body : (dumps : Value → Text) → Value → Option Text
unfolding truthy
request_body dumps (str s) = some s
request_body dumps v = if truthy v then some (dumps v) else none

-- What the claims of a token give, or what stands in for those of one that is not decoded.
unfoldable pub identity_of :
    (claim_role claim_user default_role default_user token : Text) → Option TokenClaims → Identity
identity_of claim_role claim_user default_role default_user token none = record {
  role = default_role;
  user_id = default_user;
  token = some token;
}
identity_of claim_role claim_user default_role default_user token (some c) = record {
  role = text_or claim_role c.role;
  user_id = text_or claim_user c.user_id;
  token = some token;
}

-- `if not resp or resp.status_code is None: continue`, for the response of a task made as `make` says
unfoldable pub with_status :
    (make : (status : ℕ) → TaskRow → SavedResponse → ScanResponse)
    → TaskRow
    → SavedResponse
    → Option ℕ
    → List ScanResponse
with_status make task resp none = []
with_status make task resp (some status) = make status task resp ∷ []

unfoldable pub answered_by :
    (make : (status : ℕ) → TaskRow → SavedResponse → ScanResponse)
    → TaskRow
    → Option SavedResponse
    → List ScanResponse
answered_by make task none = []
answered_by make task (some resp) = with_status make task resp resp.status_code

abbrev pub answered :
    (make : (status : ℕ) → TaskRow → SavedResponse → ScanResponse) → TaskRow → List ScanResponse
answered make task = answered_by make task task.response

module _ (parsers : Parsers) where
  -- The same for an optional header.
  unfoldable pub read_identity :
      (claim_role claim_user default_role default_user : Text) → Option Text → Identity
  read_identity claim_role claim_user default_role default_user none = record {
    role = default_role;
    user_id = default_user;
    token = none;
  }
  read_identity claim_role claim_user default_role default_user (some header) =
      let token = without_bearer 0 header in
      identity_of claim_role claim_user default_role default_user token (parsers.claims token)

  unfoldable pub to_response :
      (endpoint : Text) → Identity → (now status : ℕ) → TaskRow → SavedResponse → ScanResponse
  to_response endpoint who now status task resp = record {
    endpoint = endpoint;
    method = task.method;
    url = task.url;
    status_code = status;
    headers = dict_or resp.response_headers;
    body = resp.response_body;
    body_json = parse_body parsers.loads resp.response_body;
    user_id = some who.user_id;
    role = some who.role;
    tenant_id = none;
    token = who.token;
    request_headers = dict_or task.headers;
    request_body = request_body parsers.dumps task.payload;
    latency_ms = resp.latency_ms;
    timestamp = now;
  }

  -- The responses that generate_report feeds to the collector.
  unfoldable pub report_response : (now status : ℕ) → TaskRow → SavedResponse → ScanResponse
  report_response now status task resp =
      to_response task.url
        (read_identity (txt "user") (txt "unknown") (txt "user") (txt "unknown")
          (authorization task.headers))
        now status task resp

  unfoldable pub fed : (now : ℕ) → List TaskRow → List ScanResponse
  fed now tasks = extend_all (answered (report_response now)) tasks

  -- ScanResultCollector(target_url=…, scan_name=…, similarity_threshold=0.65, reference_role="admin")
  unfoldable pub report_collector : (target name : Text) (now : ℕ) → Collector
  report_collector target name now = record {
    target_url = target;
    scan_name = name;
    similarity_threshold = 6500;
    reference_role = txt "admin";
    has_callback = false;
    buffer = [];
    diffs = [];
    issues = [];
    request_count = 0;
    scan_start = now;
    calls = [];
    drawn = 0;
  }

  -- The report of a scan; `save`, which writes files, is left out.
  unfoldable pub generate_report :
      (rt : Runtime) (target name : Text) (now : ℕ) → List TaskRow → ScanReport Metadata
  generate_report rt target name now tasks =
      (flush rt (on_results_batch (fed now tasks) (report_collector target name now))).0
