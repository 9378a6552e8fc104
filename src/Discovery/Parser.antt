-- ===== src/Discovery/Parser.antt =====
-- OpenAPIParser of endpoint_discovery.py: `parse`, and the result that it builds.
pub mod Unique
pub mod Found
pub mod Total
use integrated_work.Prelude.{
  ℕ, Bool, true, false, not, ◌&&◌, ◌||◌, Option, none, some, List, [], ◌∷◌, ◌++◌, map, any, length,
  nonempty, if◌then◌else◌, ◌>>=◌,
}
use integrated_work.Text.{Text, txt, text_eq, upper, contains}
use integrated_work.Json.{Value, Fields, null, obj, end, field}
use integrated_work.Discovery.Paths.{normalize_path}
use integrated_work.Discovery.Operation.{
  get_field, has_field, check_auth, extract_body_schema, process_parameters,
}

pub record DiscoveredEndpoint : Type 0 where
  pub method : Text
  pub path : Text
  pub request_body_required : Value
  pub has_auth : Bool
  pub parameters : List Fields
  pub request_body_schema : Value
  pub source : Text

pub record OpenApiParser : Type 0 where
  pub spec : Fields
  pub endpoints : List DiscoveredEndpoint
  pub errors_encountered : List Text
  pub seen_endpoints : List (Text × Text)

-- OpenAPIParser(spec_data)
unfoldable pub new_parser : Value → OpenApiParser
new_parser spec_data = record {
  spec = elim spec_data [ obj fs ↦ fs | _ ↦ end ];
  endpoints = [];
  errors_encountered = [];
  seen_endpoints = [];
}

unfoldable pub valid_methods : List Text
valid_methods =
    txt "GET"
    ∷ txt "POST"
    ∷ txt "PUT"
    ∷ txt "DELETE"
    ∷ txt "PATCH"
    ∷ txt "OPTIONS"
    ∷ txt "HEAD"
    ∷ txt "TRACE"
    ∷ []

-- key in self.seen_endpoints
unfoldable pub is_seen : Text × Text → List (Text × Text) → Bool
unfolding any text_eq
is_seen key seen = any (λ k. text_eq k.0 key.0 && text_eq k.1 key.1) seen

unfoldable pub add_error : Text → OpenApiParser → OpenApiParser
add_error e p = record p { errors_encountered = p.errors_encountered ++ e ∷ [] }

pub missing_responses : Text → Text → Fields → OpenApiParser → OpenApiParser
unfolding has_field add_error
missing_responses method path details p =
    if has_field (txt "responses") details
    then p
    else add_error (txt "Missing 'responses' field for " ++ method ++ txt " " ++ path ++ txt ".") p

-- The endpoint and its key, behind the validations.
unfoldable pub add_endpoint : Text → Text → Fields → OpenApiParser → Option OpenApiParser
add_endpoint method path details p = do
  body ← extract_body_schema method details
  some (record p {
    endpoints =
        p.endpoints
        ++ record {
          method = method;
          path = path;
          request_body_required = body.1;
          has_auth = check_auth p.spec details;
          parameters = process_parameters details;
          request_body_schema = body.0;
          source = txt "openapi";
        }
          ∷ [];
    seen_endpoints = p.seen_endpoints ++ (method, path) ∷ [];
  })

-- One method of a path: `name` and `path` as they stand in the specification.
unfoldable pub parse_details : Text → Text → Value → OpenApiParser → Option OpenApiParser
unfolding is_seen add_error missing_responses normalize_path
parse_details method path (obj details) p =
    let normalized = normalize_path path in
    if is_seen (method, normalized) p.seen_endpoints
    then some (
        add_error
          (txt "Duplicate endpoint detected: "
            ++ method
            ++ txt " "
            ++ normalized
            ++ txt ". Keeping first occurrence.")
          p)
    else add_endpoint method normalized details (missing_responses method path details p)
parse_details method path _ p =
    some
      (add_error (txt "Missing or invalid details for " ++ method ++ txt " " ++ path ++ txt ".") p)

unfoldable pub parse_method : Text → Text → Value → OpenApiParser → Option OpenApiParser
unfolding upper contains valid_methods add_error
parse_method path name details p =
    if contains (upper name) valid_methods
    then parse_details (upper name) path details p
    else some (
        add_error
          (txt "Invalid HTTP method '" ++ name ++ txt "' for path '" ++ path ++ txt "'. Skipping.")
          p)

-- for method_name, details in methods.items(): …
unfoldable pub parse_methods : Text → Fields → OpenApiParser → Option OpenApiParser
parse_methods path end p = some p
parse_methods path (field name details fs) p =
    parse_method path name details p >>= λ q. parse_methods path fs q

unfoldable pub parse_path : Text → Value → OpenApiParser → Option OpenApiParser
unfolding add_error
parse_path path (obj methods) p = parse_methods path methods p
parse_path path _ p =
    some (
      add_error (txt "Invalid methods definition for path '" ++ path ++ txt "'. Expected object.")
        p)

-- for path, methods in paths_obj.items(): …
unfoldable pub parse_paths : Fields → OpenApiParser → Option OpenApiParser
parse_paths end p = some p
parse_paths (field path methods fs) p = parse_path path methods p >>= λ q. parse_paths fs q

unfoldable pub parse_section : Option Value → OpenApiParser → Option OpenApiParser
unfolding add_error
parse_section none p = some (add_error (txt "Missing 'paths' section in specification.") p)
parse_section (some null) p = some (add_error (txt "Missing 'paths' section in specification.") p)
parse_section (some (obj paths)) p = parse_paths paths p
parse_section (some _) p = some (add_error (txt "'paths' section is not a valid object.") p)

-- The parser behind `parse`; an empty specification is left alone.
unfoldable pub parse_spec : Fields → OpenApiParser → Option OpenApiParser
unfolding parse_section get_field
parse_spec end p = some p
parse_spec (field k v fs) p = parse_section (get_field (txt "paths") (field k v fs)) p

unfoldable pub run_parse : OpenApiParser → Option OpenApiParser
unfolding parse_spec
run_parse p = parse_spec p.spec p

-- What to_dict and _build_result return.
pub record EndpointDict : Type 0 where
  pub method : Text
  pub path : Text
  pub request_body_required : Value
  pub has_auth : Bool

pub record ParseResult : Type 0 where
  pub endpoints : List EndpointDict
  pub errors_encountered : List Text
  pub total_endpoints : ℕ

unfoldable pub to_dict : DiscoveredEndpoint → EndpointDict
to_dict e = record {
  method = e.method;
  path = e.path;
  request_body_required = e.request_body_required;
  has_auth = e.has_auth;
}

unfoldable pub build_result : OpenApiParser → ParseResult
unfolding to_dict
build_result p = record {
  endpoints = map to_dict p.endpoints;
  errors_encountered = p.errors_encountered;
  total_endpoints = length p.endpoints;
}

unfoldable pub parse : OpenApiParser → Option ParseResult
unfolding run_parse build_result
parse p = run_parse p >>= λ q. some (build_result q)
