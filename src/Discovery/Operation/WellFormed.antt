-- ===== src/Discovery/Operation/WellFormed.antt =====
-- Operations on which the parser raises nothing, and the defaults of parameters.
use integrated_work.Prelude.{
  Bool, true, false, not, ◌&&◌, ◌≡◌, refl, Option, none, some, arith, if◌then◌else◌, ◌>>=◌, is_some,
  and_cases,
}
use integrated_work.Text.{Text, txt, text_eq}
use integrated_work.Text.Laws.{text_eq_iff}
use integrated_work.Json.{Value, Items, Fields, bool, str, arr, obj, nil, cons, end, field, truthy}
use integrated_work.Discovery.Operation.{
  get_field, has_field, get_field_or, add_field, schema_of, json_schema, body_of, body_param,
  from_parameters, extract_body_schema, add_default, process_parameter,
}

abbrev pub is_object : Value → Bool
is_object (obj fs) = true
is_object _ = false

abbrev pub all_objects : Items → Bool
all_objects nil = true
all_objects (cons v vs) = is_object v && all_objects vs

abbrev pub is_object_list : Value → Bool
is_object_list (arr vs) = all_objects vs
is_object_list _ = false

abbrev pub optional_object : Option Value → Bool
optional_object none = true
optional_object (some v) = is_object v

-- The content of a request body is an object, and so is its JSON media type if it is there.
abbrev pub is_content : Value → Bool
is_content (obj content) = optional_object (get_field (txt "application/json") content)
is_content _ = false

abbrev pub is_request_body : Option Value → Bool
is_request_body none = true
is_request_body (some (obj rb)) = is_content (get_field_or (txt "content") rb (obj end))
is_request_body (some _) = false

-- The shape that the OpenAPI documents give `requestBody` and `parameters`.
abbrev pub well_formed : Fields → Bool
well_formed details =
    is_request_body (get_field (txt "requestBody") details)
    && is_object_list (get_field_or (txt "parameters") details (arr nil))

is_some-schema_of : (o : Option Value) → optional_object o ≡ true → is_some (schema_of o) ≡ true
unfolding schema_of is_some
is_some-schema_of none h = refl
is_some-schema_of (some (obj media)) h = refl
is_some-schema_of (some _) h = cc

is_some-json_schema : (v : Value) → is_content v ≡ true → is_some (json_schema v) ≡ true
unfolding json_schema
is_some-json_schema (obj content) h =
    is_some-schema_of (get_field (txt "application/json") content) h
is_some-json_schema _ h = cc

pub is_some-bind :
    {A B : Type 0} (m : Option A) (f : A → Option B)
    → is_some m ≡ true
    → ((a : A) → is_some (f a) ≡ true)
    → is_some (m >>= f) ≡ true
unfolding is_some
is_some-bind none f h g = cc
is_some-bind (some a) f h g = g a

is_some-body_of : (o : Option Value) → is_request_body o ≡ true → is_some (body_of o) ≡ true
unfolding body_of is_some
is_some-body_of none h = refl
is_some-body_of (some (obj rb)) h =
    is_some-bind (json_schema (get_field_or (txt "content") rb (obj end))) _
      (is_some-json_schema (get_field_or (txt "content") rb (obj end)) h) (λ a. refl)
is_some-body_of (some _) h = cc

is_some-body_param :
    (ps : Items) (found : Value × Value)
    → all_objects ps ≡ true
    → is_some (body_param ps found) ≡ true
unfolding body_param is_some
is_some-body_param nil found h = refl
is_some-body_param (cons (obj p) ps) found h = ground (arith, is_some-body_param ps found)
is_some-body_param (cons _ ps) found h = cc

is_some-from_parameters :
    (v : Value) (found : Value × Value)
    → is_object_list v ≡ true
    → is_some (from_parameters v found) ≡ true
unfolding from_parameters
is_some-from_parameters (arr ps) found h = is_some-body_param ps found h
is_some-from_parameters _ found h = cc

is_some-if :
    {A : Type 0} (c : Bool) (a : A) (o : Option A)
    → is_some o ≡ true
    → is_some (if c then some a else o) ≡ true
unfolding is_some
is_some-if true a o h = refl
is_some-if false a o h = h

-- On an operation of the documented shape the extraction of the schema raises nothing.
pub is_some-extract_body_schema :
    (method : Text) (details : Fields)
    → well_formed details ≡ true
    → is_some (extract_body_schema method details) ≡ true
unfolding extract_body_schema is_some
is_some-extract_body_schema method details h =
    let parts = and_cases _ _ h in
    is_some-bind (body_of (get_field (txt "requestBody") details)) _
      (is_some-body_of (get_field (txt "requestBody") details) parts.0)
      (λ stated.
        is_some-bind
          (if truthy stated.0
            then some stated
            else from_parameters (get_field_or (txt "parameters") details (arr nil)) stated)
          _
          (is_some-if (truthy stated.0) stated
            (from_parameters (get_field_or (txt "parameters") details (arr nil)) stated)
            (is_some-from_parameters (get_field_or (txt "parameters") details (arr nil)) stated
              parts.1))
          (λ found. refl))

get_field-add_field :
    (k j : Text) (v : Value) (p : Fields)
    → get_field k (add_field j v p)
      ≡ (if has_field k p then get_field k p else if text_eq j k then some v else none)
unfolding get_field add_field has_field is_some
get_field-add_field k j v end = refl
get_field-add_field k j v (field i w p) = ground (arith, get_field-add_field k j v p)

get_field-add_default :
    (k j : Text) (v : Value) (p : Fields)
    → get_field k (add_default j v p)
      ≡ (if text_eq j k && not (has_field j p) then some v else get_field k p)
unfolding add_default has_field is_some
get_field-add_default k j v p = ground (arith, get_field-add_field k j v p, text_eq_iff j k)

-- Two defaults under different keys.
get_field-defaults :
    (k a b : Text) (v w : Value) (p : Fields)
    → text_eq a b ≡ false
    → get_field k (add_default b w (add_default a v p)) ≡ (
        if is_some (get_field k p)
        then get_field k p
        else if text_eq a k
        then some v
        else if text_eq b k
        then some w
        else none)
unfolding has_field is_some
get_field-defaults k a b v w p d = ground (
  arith,
  get_field-add_default k b w (add_default a v p),
  get_field-add_default k a v p,
  get_field-add_default b a v p,
  text_eq_iff a k,
  text_eq_iff b k,
)

-- A parameter keeps what it states; only a missing schema becomes that of a text, and only a missing
-- requirement becomes false.
pub get_field-process_parameter :
    (k : Text) (p : Fields)
    → get_field k (process_parameter p) ≡ (
        if is_some (get_field k p)
        then get_field k p
        else if text_eq (txt "schema") k
        then some (obj (field (txt "type") (str (txt "string")) end))
        else if text_eq (txt "required") k
        then some (bool false)
        else none)
unfolding process_parameter text_eq
get_field-process_parameter k p =
    get_field-defaults k (txt "schema") (txt "required")
      (obj (field (txt "type") (str (txt "string")) end)) (bool false) p refl
