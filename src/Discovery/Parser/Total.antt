-- ===== src/Discovery/Parser/Total.antt =====
-- Specifications of which `parse` raises nothing.
use integrated_work.Prelude.{
  Bool, true, false, ◌&&◌, ◌≡◌, refl, Option, none, some, if◌then◌else◌, is_some, and_cases,
}
use integrated_work.Text.{Text, txt, upper, contains}
use integrated_work.Json.{Value, Fields, null, obj, end, field}
use integrated_work.Discovery.Paths.{normalize_path}
use integrated_work.Discovery.Operation.{get_field, extract_body_schema}
use integrated_work.Discovery.Operation.WellFormed.{
  well_formed, is_some-extract_body_schema, is_some-bind,
}
use integrated_work.Discovery.Parser.{
  OpenApiParser, new_parser, valid_methods, is_seen, add_endpoint, parse_details, parse_method,
  parse_methods, parse_path, parse_paths, parse_section, parse_spec, run_parse, parse,
}

-- Every object of details has the documented shape; what is no object is not looked into.
abbrev pub sound_details : Value → Bool
sound_details (obj details) = well_formed details
sound_details _ = true

abbrev pub sound_methods : Fields → Bool
sound_methods end = true
sound_methods (field name details fs) = sound_details details && sound_methods fs

abbrev pub sound_path : Value → Bool
sound_path (obj methods) = sound_methods methods
sound_path _ = true

abbrev pub sound_paths : Fields → Bool
sound_paths end = true
sound_paths (field path methods fs) = sound_path methods && sound_paths fs

abbrev pub sound_section : Option Value → Bool
sound_section (some (obj paths)) = sound_paths paths
sound_section _ = true

is_some-if_both :
    {A : Type 0} (c : Bool) (m n : Option A)
    → is_some m ≡ true
    → is_some n ≡ true
    → is_some (if c then m else n) ≡ true
is_some-if_both true m n h g = h
is_some-if_both false m n h g = g

is_some-parse_details :
    (method path : Text) (details : Value) (p : OpenApiParser)
    → sound_details details ≡ true
    → is_some (parse_details method path details p) ≡ true
unfolding parse_details add_endpoint is_some
is_some-parse_details method path (obj details) p h =
    is_some-if_both (is_seen (method, normalize_path path) p.seen_endpoints) _ _ refl (
      is_some-bind (extract_body_schema method details) _
        (is_some-extract_body_schema method details h) (λ body. refl))
is_some-parse_details method path _ p h = refl

is_some-parse_method :
    (path name : Text) (details : Value) (p : OpenApiParser)
    → sound_details details ≡ true
    → is_some (parse_method path name details p) ≡ true
unfolding parse_method is_some
is_some-parse_method path name details p h =
    is_some-if_both (contains (upper name) valid_methods) _ _
      (is_some-parse_details (upper name) path details p h) refl

is_some-parse_methods :
    (path : Text) (fs : Fields) (p : OpenApiParser)
    → sound_methods fs ≡ true
    → is_some (parse_methods path fs p) ≡ true
unfolding parse_methods is_some
is_some-parse_methods path end p h = refl
is_some-parse_methods path (field name details fs) p h =
    is_some-bind (parse_method path name details p) _
      (is_some-parse_method path name details p (and_cases _ _ h).0)
      (λ q. is_some-parse_methods path fs q (and_cases _ _ h).1)

is_some-parse_path :
    (path : Text) (methods : Value) (p : OpenApiParser)
    → sound_path methods ≡ true
    → is_some (parse_path path methods p) ≡ true
unfolding parse_path is_some
is_some-parse_path path (obj methods) p h = is_some-parse_methods path methods p h
is_some-parse_path path _ p h = refl

is_some-parse_paths :
    (fs : Fields) (p : OpenApiParser) → sound_paths fs ≡ true → is_some (parse_paths fs p) ≡ true
unfolding parse_paths is_some
is_some-parse_paths end p h = refl
is_some-parse_paths (field path methods fs) p h =
    is_some-bind (parse_path path methods p) _
      (is_some-parse_path path methods p (and_cases _ _ h).0)
      (λ q. is_some-parse_paths fs q (and_cases _ _ h).1)

is_some-parse_section :
    (o : Option Value) (p : OpenApiParser)
    → sound_section o ≡ true
    → is_some (parse_section o p) ≡ true
unfolding parse_section is_some
is_some-parse_section none p h = refl
is_some-parse_section (some null) p h = refl
is_some-parse_section (some (obj paths)) p h = is_some-parse_paths paths p h
is_some-parse_section (some _) p h = refl

is_some-parse_spec :
    (spec : Fields) (p : OpenApiParser)
    → sound_section (get_field (txt "paths") spec) ≡ true
    → is_some (parse_spec spec p) ≡ true
unfolding parse_spec is_some
is_some-parse_spec end p h = refl
is_some-parse_spec (field k v fs) p h =
    is_some-parse_section (get_field (txt "paths") (field k v fs)) p h

-- `parse` returns a result, whatever else is wrong with the specification, if every object of details
-- states its request body as an object of objects and its parameters as a list of objects, where it
-- states them.
pub is_some-parse :
    (spec : Fields)
    → sound_section (get_field (txt "paths") spec) ≡ true
    → is_some (parse (new_parser (obj spec))) ≡ true
unfolding parse run_parse new_parser is_some
is_some-parse spec h =
    is_some-bind (parse_spec spec (new_parser (obj spec))) _
      (is_some-parse_spec spec (new_parser (obj spec)) h) (λ q. refl)
