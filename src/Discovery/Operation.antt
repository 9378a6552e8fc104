-- ===== src/Discovery/Operation.antt =====
-- `_check_auth`, `_extract_body_schema` and `_process_parameters` of endpoint_discovery.py, on the
-- fields of one operation. A schema that is missing is `null`, as `None` is.
pub mod WellFormed
use integrated_work.Prelude.{
  Bool, true, false, not, ◌&&◌, ◌||◌, Option, none, some, List, [], ◌∷◌, if◌then◌else◌, ◌>>=◌,
  is_some,
}
use integrated_work.Text.{Text, txt, text_eq, contains, has_part}
use integrated_work.Json.{
  Value, Items, Fields, null, bool, int, neg, real, str, arr, obj, nil, cons, end, field, truthy,
}

-- fields.get(k), k in fields, and fields.get(k, v)
unfoldable pub get_field : Text → Fields → Option Value
unfolding text_eq
get_field k end = none
get_field k (field j v fs) = if text_eq j k then some v else get_field k fs

unfoldable pub has_field : Text → Fields → Bool
unfolding get_field is_some
has_field k fs = is_some (get_field k fs)

unfoldable pub get_field_or : Text → Fields → Value → Value
unfolding get_field
get_field_or k fs v = elim (get_field k fs) [ none ↦ v | some w ↦ w ]

-- fields[k] = v, of a key that is not there
unfoldable pub add_field : Text → Value → Fields → Fields
add_field k v end = field k v end
add_field k v (field j w fs) = field j w (add_field k v fs)

-- isinstance(v, list) and len(v) > 0
unfoldable pub is_filled_list : Value → Bool
is_filled_list (arr (cons v vs)) = true
is_filled_list _ = false

-- The first argument is the specification.
unfoldable pub check_auth : Fields → Fields → Bool
unfolding get_field get_field_or is_filled_list
check_auth spec details = elim (get_field (txt "security") details) [
  | some security ↦ is_filled_list security
  | none ↦ is_filled_list (get_field_or (txt "security") spec (arr nil))
]

-- v == s, for a value and a text
is_text : Text → Value → Bool
unfolding text_eq
is_text s (str t) = text_eq t s
is_text s _ = false

has_text : Text → Items → Bool
unfolding is_text
has_text s nil = false
has_text s (cons v vs) = is_text s v || has_text s vs

-- content["application/json"].get("schema")
schema_of : Option Value → Option Value
unfolding get_field_or
schema_of none = some null
schema_of (some (obj media)) = some (get_field_or (txt "schema") media null)
schema_of (some _) = none

-- The value of `schema` behind the test of "application/json" in content.
unfoldable pub json_schema : Value → Option Value
unfolding schema_of get_field has_text has_part
json_schema (obj content) = schema_of (get_field (txt "application/json") content)
json_schema (arr vs) = if has_text (txt "application/json") vs then none else some null
json_schema (str s) = if has_part s (txt "application/json") then none else some null
json_schema _ = none

-- The schema and the requirement that `requestBody` states.
unfoldable pub body_of : Option Value → Option (Value × Value)
unfolding json_schema get_field_or
body_of none = some (null, bool false)
body_of (some (obj rb)) = do
  schema ← json_schema (get_field_or (txt "content") rb (obj end))
  some (schema, get_field_or (txt "required") rb (bool false))
body_of (some _) = none

-- for param in …: if param.get("in") == "body": …
unfoldable pub body_param : Items → Value × Value → Option (Value × Value)
unfolding is_text get_field_or
body_param nil found = some found
body_param (cons (obj p) ps) found =
    let rest = body_param ps found in
    if is_text (txt "body") (get_field_or (txt "in") p null)
    then some (get_field_or (txt "schema") p null, get_field_or (txt "required") p (bool false))
    else rest
body_param (cons _ ps) found = none

-- The loop over `parameters`; texts and dicts can be iterated too, and their members have no `get`.
unfoldable pub from_parameters : Value → Value × Value → Option (Value × Value)
unfolding body_param
from_parameters (arr ps) found = body_param ps found
from_parameters (str []) found = some found
from_parameters (obj end) found = some found
from_parameters _ found = none

is_null : Value → Bool
is_null null = true
is_null _ = false

unfoldable pub body_methods : List Text
body_methods = txt "POST" ∷ txt "PUT" ∷ txt "PATCH" ∷ []

-- schema = {}, where there is none and the method has a body.
unfoldable pub default_schema : Text → Value → Value
unfolding is_null body_methods contains
default_schema method schema =
    if is_null schema && contains method body_methods then obj end else schema

-- The schema, and whether it is required.
unfoldable pub extract_body_schema : Text → Fields → Option (Value × Value)
unfolding body_of get_field from_parameters default_schema truthy
extract_body_schema method details = do
  stated ← body_of (get_field (txt "requestBody") details)
  found ←
      (if truthy stated.0
        then some stated
        else from_parameters (get_field_or (txt "parameters") details (arr nil)) stated)
  some (default_schema method found.0, found.1)

-- if k not in p: p[k] = v
unfoldable pub add_default : Text → Value → Fields → Fields
unfolding has_field add_field
add_default k v p = if has_field k p then p else add_field k v p

unfoldable pub process_parameter : Fields → Fields
unfolding add_default
process_parameter p =
    add_default (txt "required") (bool false)
      (add_default (txt "schema") (obj (field (txt "type") (str (txt "string")) end)) p)

unfoldable pub process_items : Items → List Fields
unfolding process_parameter
process_items nil = []
process_items (cons (obj p) ps) = process_parameter p ∷ process_items ps
process_items (cons _ ps) = process_items ps

unfoldable pub process_parameters : Fields → List Fields
unfolding process_items get_field_or
process_parameters details = elim (get_field_or (txt "parameters") details (arr nil)) [
  | arr ps ↦ process_items ps
  | _ ↦ []
]
