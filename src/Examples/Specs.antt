-- ===== src/Examples/Specs.antt =====
-- The parser on small specifications.
use integrated_work.Prelude.{◌≡◌, refl, true, false, map, is_some, IfSome}
use integrated_work.Text.{txt}
use integrated_work.Json.{Fields, null, obj, end, field}
use integrated_work.Discovery.Paths.{normalize_path}
use integrated_work.Discovery.Operation.{get_field, get_field_or, extract_body_schema}
use integrated_work.Discovery.Parser.{
  new_parser, is_seen, add_endpoint, parse_details, parse_method, parse_methods, parse_path,
  parse_paths, run_parse, parse,
}
use integrated_work.Discovery.Parser.Unique
use integrated_work.Discovery.Parser.Found
use integrated_work.Discovery.Parser.Total

-- {"get": {"responses": {}}, "fetch": {}}
abbrev methods : Fields
methods =
    field (txt "get") (obj (field (txt "responses") (obj end) end))
      (field (txt "fetch") (obj end) end)

-- Two paths that are one when normalized.
abbrev paths : Fields
paths = field (txt "/users/") (obj methods) (field (txt "//users") (obj methods) end)

abbrev spec : Fields
spec = field (txt "paths") (obj paths) end

-- {"paths": {"/a": {"post": {"requestBody": null}}}}
abbrev null_body : Fields
null_body =
    field (txt "paths")
      (obj (
        field (txt "/a") (obj (field (txt "post") (obj (field (txt "requestBody") null end)) end))
          end))
      end

normalized : normalize_path (txt "//api///users/") ≡ txt "/api/users"
unfolding normalize_path
normalized = refl

normalized_bare : normalize_path (txt "users") ≡ txt "/users"
unfolding normalize_path
normalized_bare = refl

-- A request body that is null raises out of `parse`.
raised : is_some (parse (new_parser (obj null_body))) ≡ false
unfolding parse new_parser is_some parse_paths parse_path parse_methods parse_method parse_details
    add_endpoint extract_body_schema
raised = refl

run_parse-IsConsistent_example : IfSome Unique.IsConsistent (run_parse (new_parser (obj spec)))
run_parse-IsConsistent_example =
    Unique.run_parse-IsConsistent (new_parser (obj spec))
      (Unique.new_parser-IsConsistent (obj spec))

run_parse-operations_example :
    IfSome
      (λ q.
        is_seen (txt "GET", txt "/users") (map Unique.key_of q.endpoints)
        ≡ is_seen (txt "GET", txt "/users") (Found.operations paths))
      (run_parse (new_parser (obj spec)))
unfolding get_field
run_parse-operations_example = Found.run_parse-operations (txt "GET", txt "/users") spec paths refl

is_some-parse_example : is_some (parse (new_parser (obj spec))) ≡ true
unfolding get_field get_field_or
is_some-parse_example = Total.is_some-parse spec refl
