-- ===== src/Discovery/Parser/Unique.antt =====
-- What holds of the endpoints that a parser finds.
use integrated_work.Prelude.{
  Bool, true, false, ◌&&◌, ◌||◌, ◌≡◌, refl, ap, sym, ◌∙◌, Option, none, some, List, [], ◌∷◌, ◌++◌,
  map, any, arith, if◌then◌else◌, IfSome, bind-IfSome, bind-IfSome_any, if-IfSome, All, All-append,
}
use mathlib.Core.List.{map-append}
use integrated_work.Text.{Text, txt, upper, contains, text_eq}
use integrated_work.Text.Laws.{text_eq_iff}
use integrated_work.Json.{Value, Fields, null, obj, end, field}
use integrated_work.Discovery.Paths.{normalize_path}
use integrated_work.Discovery.Paths.Normal.{is_normal, normalize_path_lem}
use integrated_work.Discovery.Operation.{get_field, has_field, extract_body_schema}
use integrated_work.Discovery.Parser.{
  DiscoveredEndpoint, OpenApiParser, new_parser, valid_methods, is_seen, add_error,
  missing_responses, add_endpoint, parse_details, parse_method, parse_methods, parse_path,
  parse_paths, parse_section, parse_spec, run_parse,
}

abbrev pub key_of : DiscoveredEndpoint → Text × Text
key_of e = (e.method, e.path)

-- No pair stands twice.
abbrev pub AreUnique : List (Text × Text) → Type 0
AreUnique [] = Unit {0}
AreUnique (k ∷ ks) = (is_seen k ks ≡ false) × AreUnique ks

-- An endpoint has a known method and a normalized path.
abbrev pub IsValid : DiscoveredEndpoint → Type 0
IsValid e = (contains e.method valid_methods ≡ true) × (is_normal e.path ≡ true)

-- The endpoints of a parser are valid, and each method and path of them stands once.
pub record IsConsistent (p : OpenApiParser) : Type 0 where
  pub seen : p.seen_endpoints ≡ map key_of p.endpoints
  pub unique : AreUnique p.seen_endpoints
  pub valid : All IsValid p.endpoints

add_error-IsConsistent :
    (e : Text) (p : OpenApiParser) → IsConsistent p → IsConsistent (add_error e p)
unfolding add_error
add_error-IsConsistent e p h = record { seen = h.seen; unique = h.unique; valid = h.valid }

if-IsConsistent :
    (c : Bool) (p q : OpenApiParser)
    → IsConsistent p
    → IsConsistent q
    → IsConsistent (if c then p else q)
if-IsConsistent true p q h g = h
if-IsConsistent false p q h g = g

missing_responses-IsConsistent :
    (method path : Text) (details : Fields) (p : OpenApiParser)
    → IsConsistent p
    → IsConsistent (missing_responses method path details p)
unfolding missing_responses
missing_responses-IsConsistent method path details p h =
    if-IsConsistent (has_field (txt "responses") details) p _ h (add_error-IsConsistent _ p h)

pub missing_responses-seen :
    (method path : Text) (details : Fields) (p : OpenApiParser)
    → (missing_responses method path details p).seen_endpoints ≡ p.seen_endpoints
unfolding missing_responses add_error
missing_responses-seen method path details p = ground arith

-- A pair of texts, tested as a tuple is.
abbrev pub same_key : Text × Text → Text × Text → Bool
same_key k j = text_eq k.0 j.0 && text_eq k.1 j.1

same_key-sym : (k j : Text × Text) → same_key k j ≡ same_key j k
same_key-sym k j =
    ground
      (arith, text_eq_iff k.0 j.0, text_eq_iff k.1 j.1, text_eq_iff j.0 k.0, text_eq_iff j.1 k.1)

pub is_seen-append :
    (j k : Text × Text) (ks : List (Text × Text))
    → is_seen j (ks ++ k ∷ []) ≡ (is_seen j ks || same_key k j)
unfolding is_seen any
is_seen-append j k [] = ground arith
is_seen-append j k (i ∷ ks) = ground (arith, is_seen-append j k ks)

append-AreUnique :
    (k : Text × Text) (ks : List (Text × Text))
    → is_seen k ks ≡ false
    → AreUnique ks
    → AreUnique (ks ++ k ∷ [])
unfolding is_seen any
append-AreUnique k [] h u = (refl, tt)
append-AreUnique k (i ∷ ks) h u = (
  ground (arith, is_seen-append i k ks, same_key-sym i k),
  append-AreUnique k ks (ground arith) u.1,
)

keys-append :
    (es : List DiscoveredEndpoint) (e : DiscoveredEndpoint)
    → map key_of es ++ key_of e ∷ [] ≡ map key_of (es ++ e ∷ [])
keys-append es e = sym (map-append key_of es (e ∷ []))

add_endpoint-IsConsistent :
    (method path : Text) (details : Fields) (p : OpenApiParser)
    → contains method valid_methods ≡ true
    → is_normal path ≡ true
    → is_seen (method, path) p.seen_endpoints ≡ false
    → IsConsistent p
    → IfSome IsConsistent (add_endpoint method path details p)
unfolding add_endpoint
add_endpoint-IsConsistent method path details p known n f h =
    bind-IfSome_any IsConsistent (extract_body_schema method details) _ (λ body. record {
      seen = ap (λ ks. ks ++ (method, path) ∷ []) h.seen ∙ keys-append p.endpoints _;
      unique = append-AreUnique (method, path) p.seen_endpoints f h.unique;
      valid = All-append IsValid p.endpoints _ h.valid ((known, n), tt);
    })

parse_details-IsConsistent :
    (method path : Text) (details : Value) (p : OpenApiParser)
    → contains method valid_methods ≡ true
    → IsConsistent p
    → IfSome IsConsistent (parse_details method path details p)
unfolding parse_details
parse_details-IsConsistent method path (obj details) p known h =
    if-IfSome IsConsistent (is_seen (method, normalize_path path) p.seen_endpoints) _ _
      (λ _. add_error-IsConsistent _ p h)
      (λ f.
        add_endpoint-IsConsistent method (normalize_path path) details
          (missing_responses method path details p) known (normalize_path_lem path).0
          (rw (missing_responses-seen method path details p) f)
          (missing_responses-IsConsistent method path details p h))
parse_details-IsConsistent method path _ p known h = add_error-IsConsistent _ p h

parse_method-IsConsistent :
    (path name : Text) (details : Value) (p : OpenApiParser)
    → IsConsistent p
    → IfSome IsConsistent (parse_method path name details p)
unfolding parse_method
parse_method-IsConsistent path name details p h =
    if-IfSome IsConsistent (contains (upper name) valid_methods) _ _
      (λ known. parse_details-IsConsistent (upper name) path details p known h)
      (λ _. add_error-IsConsistent _ p h)

parse_methods-IsConsistent :
    (path : Text) (fs : Fields) (p : OpenApiParser)
    → IsConsistent p
    → IfSome IsConsistent (parse_methods path fs p)
unfolding parse_methods
parse_methods-IsConsistent path end p h = h
parse_methods-IsConsistent path (field name details fs) p h =
    bind-IfSome IsConsistent IsConsistent (parse_method path name details p) _
      (parse_method-IsConsistent path name details p h)
      (λ q g. parse_methods-IsConsistent path fs q g)

parse_path-IsConsistent :
    (path : Text) (methods : Value) (p : OpenApiParser)
    → IsConsistent p
    → IfSome IsConsistent (parse_path path methods p)
unfolding parse_path
parse_path-IsConsistent path (obj methods) p h = parse_methods-IsConsistent path methods p h
parse_path-IsConsistent path _ p h = add_error-IsConsistent _ p h

parse_paths-IsConsistent :
    (fs : Fields) (p : OpenApiParser) → IsConsistent p → IfSome IsConsistent (parse_paths fs p)
unfolding parse_paths
parse_paths-IsConsistent end p h = h
parse_paths-IsConsistent (field path methods fs) p h =
    bind-IfSome IsConsistent IsConsistent (parse_path path methods p) _
      (parse_path-IsConsistent path methods p h) (λ q g. parse_paths-IsConsistent fs q g)

parse_section-IsConsistent :
    (o : Option Value) (p : OpenApiParser)
    → IsConsistent p
    → IfSome IsConsistent (parse_section o p)
unfolding parse_section
parse_section-IsConsistent none p h = add_error-IsConsistent _ p h
parse_section-IsConsistent (some null) p h = add_error-IsConsistent _ p h
parse_section-IsConsistent (some (obj paths)) p h = parse_paths-IsConsistent paths p h
parse_section-IsConsistent (some _) p h = add_error-IsConsistent _ p h

parse_spec-IsConsistent :
    (spec : Fields) (p : OpenApiParser) → IsConsistent p → IfSome IsConsistent (parse_spec spec p)
unfolding parse_spec
parse_spec-IsConsistent end p h = h
parse_spec-IsConsistent (field k v fs) p h =
    parse_section-IsConsistent (get_field (txt "paths") (field k v fs)) p h

-- Whatever the specification is, the endpoints of a parser that was consistent before `parse` have
-- known methods and normalized paths behind it, and no method and path stands among them twice.
pub run_parse-IsConsistent :
    (p : OpenApiParser) → IsConsistent p → IfSome IsConsistent (run_parse p)
unfolding run_parse
run_parse-IsConsistent p h = parse_spec-IsConsistent p.spec p h

pub new_parser-IsConsistent : (spec_data : Value) → IsConsistent (new_parser spec_data)
unfolding new_parser
new_parser-IsConsistent spec_data = record { seen = refl; unique = tt; valid = tt }
