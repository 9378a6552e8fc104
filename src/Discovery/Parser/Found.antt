-- ===== src/Discovery/Parser/Found.antt =====
-- Which endpoints a parser finds.
use mathlib.Core.Path.{subst}
use integrated_work.Text.Laws.{text_eq_iff}
use integrated_work.Prelude.{
  Bool, true, false, ◌||◌, ◌≡◌, refl, ap, sym, ◌∙◌, Option, none, some, List, [], ◌∷◌, ◌++◌, map,
  any, arith, if◌then◌else◌, ◌>>=◌, IfSome, bind-IfSome, bind-IfSome_any, if-IfSome, IfSome-map,
}
use integrated_work.Text.{Text, txt, upper, contains}
use integrated_work.Json.{Value, Fields, obj, end, field}
use integrated_work.Discovery.Paths.{normalize_path}
use integrated_work.Discovery.Operation.{get_field, extract_body_schema}
use integrated_work.Discovery.Parser.{
  OpenApiParser, new_parser, valid_methods, is_seen, add_error, missing_responses, add_endpoint,
  parse_details, parse_method, parse_methods, parse_path, parse_paths, parse_section, parse_spec,
  run_parse,
}
use integrated_work.Discovery.Parser.Unique.{
  key_of, IsConsistent, run_parse-IsConsistent, new_parser-IsConsistent, same_key,
  missing_responses-seen,
}

-- The operations that a specification states: a known method, with an object for its details.
abbrev pub operation : Text → Text → Value → List (Text × Text)
operation path name (obj details) =
    if contains (upper name) valid_methods then (upper name, normalize_path path) ∷ [] else []
operation path name _ = []

abbrev pub operations_of : Text → Fields → List (Text × Text)
operations_of path end = []
operations_of path (field name details fs) = operation path name details ++ operations_of path fs

abbrev pub path_operations : Text → Value → List (Text × Text)
path_operations path (obj methods) = operations_of path methods
path_operations path _ = []

abbrev pub operations : Fields → List (Text × Text)
operations end = []
operations (field path methods fs) = path_operations path methods ++ operations fs

-- A parser has seen what another had and these operations.
abbrev Sees : (Text × Text) → OpenApiParser → List (Text × Text) → OpenApiParser → Type 0
Sees k p ops q = is_seen k q.seen_endpoints ≡ (is_seen k p.seen_endpoints || is_seen k ops)

pub is_seen-++ :
    (k : Text × Text) (xs ys : List (Text × Text))
    → is_seen k (xs ++ ys) ≡ (is_seen k xs || is_seen k ys)
unfolding is_seen any
is_seen-++ k [] ys = refl
is_seen-++ k (x ∷ xs) ys = ground (arith, is_seen-++ k xs ys)

-- Equal pairs are seen alike.
is_seen-same :
    (j k : Text × Text) (ks : List (Text × Text))
    → same_key j k ≡ true
    → is_seen j ks ≡ is_seen k ks
unfolding is_seen any
is_seen-same j k [] h = refl
is_seen-same j k (i ∷ ks) h =
    ground (arith, is_seen-same j k ks, text_eq_iff j.0 k.0, text_eq_iff j.1 k.1)

absorbed :
    (j k : Text × Text) (ks : List (Text × Text))
    → is_seen j ks ≡ true
    → is_seen k ks ≡ (is_seen k ks || is_seen k (j ∷ []))
unfolding is_seen any
absorbed j k ks h = ground (arith, is_seen-same j k ks)

or_assoc : (a b c : Bool) → (a || b || c) ≡ ((a || b) || c)
or_assoc a b c = ground arith

both :
    {A : Type 0} (P Q R : A → Type 0) (m : Option A)
    → IfSome P m
    → IfSome Q m
    → ((a : A) → P a → Q a → R a)
    → IfSome R m
both P Q R none h g f = tt
both P Q R (some a) h g f = f a h g

module _ (k : Text × Text) where
  -- Two steps see what the first and then the second sees.
  Sees-trans :
      (p q : OpenApiParser) (xs ys : List (Text × Text)) (r : OpenApiParser)
      → Sees k p xs q
      → Sees k q ys r
      → Sees k p (xs ++ ys) r
  Sees-trans p q xs ys r h g = ground (arith, h, g, is_seen-++ k xs ys)

  bind-Sees :
      (p : OpenApiParser) (xs ys : List (Text × Text)) (m : Option OpenApiParser)
      (f : OpenApiParser → Option OpenApiParser)
      → IfSome (Sees k p xs) m
      → ((q : OpenApiParser) → IfSome (Sees k q ys) (f q))
      → IfSome (Sees k p (xs ++ ys)) (m >>= f)
  bind-Sees p xs ys m f h g = bind-IfSome (Sees k p xs) (Sees k p (xs ++ ys)) m f h (λ q e.
      IfSome-map (Sees k q ys) (Sees k p (xs ++ ys)) (f q) (λ r. Sees-trans p q xs ys r e) (g q))

  unchanged : (b : Bool) → b ≡ (b || false)
  unchanged b = ground arith

  kept-Sees : (p : OpenApiParser) → Sees k p [] p
  unfolding is_seen any
  kept-Sees p = unchanged (is_seen k p.seen_endpoints)

  add_endpoint-Sees :
      (method path : Text) (details : Fields) (p : OpenApiParser)
      → IfSome (Sees k p ((method, path) ∷ [])) (add_endpoint method path details p)
  unfolding add_endpoint
  add_endpoint-Sees method path details p =
      bind-IfSome_any (Sees k p ((method, path) ∷ [])) (extract_body_schema method details) _
        (λ body. is_seen-++ k p.seen_endpoints ((method, path) ∷ []))

  parse_object-Sees :
      (method path : Text) (details : Fields) (p : OpenApiParser)
      → IfSome
          (Sees k p ((method, normalize_path path) ∷ []))
          (parse_details method path (obj details) p)
  unfolding parse_details add_error
  parse_object-Sees method path details p =
      if-IfSome (Sees k p ((method, normalize_path path) ∷ []))
        (is_seen (method, normalize_path path) p.seen_endpoints) _ _
        (λ h. absorbed (method, normalize_path path) k p.seen_endpoints h)
        (λ _.
          subst
            (λ seen.
              IfSome
                (λ q.
                  is_seen k q.seen_endpoints
                  ≡ (is_seen k seen || is_seen k ((method, normalize_path path) ∷ [])))
                (add_endpoint method (normalize_path path) details
                  (missing_responses method path details p)))
            (missing_responses-seen method path details p)
            (add_endpoint-Sees method (normalize_path path) details
              (missing_responses method path details p)))

  if-Sees :
      (c : Bool) (p : OpenApiParser) (xs : List (Text × Text)) (m n : Option OpenApiParser)
      → IfSome (Sees k p xs) m
      → IfSome (Sees k p []) n
      → IfSome (Sees k p (if c then xs else [])) (if c then m else n)
  if-Sees true p xs m n h g = h
  if-Sees false p xs m n h g = g

  invalid-Sees :
      (c : Bool) (p : OpenApiParser) (m n : Option OpenApiParser)
      → IfSome (Sees k p []) m
      → IfSome (Sees k p []) n
      → IfSome (Sees k p []) (if c then m else n)
  invalid-Sees true p m n h g = h
  invalid-Sees false p m n h g = g

  parse_method-Sees :
      (path name : Text) (details : Value) (p : OpenApiParser)
      → IfSome (Sees k p (operation path name details)) (parse_method path name details p)
  unfolding parse_method parse_details
  parse_method-Sees path name (obj details) p =
      if-Sees (contains (upper name) valid_methods) p _ _ _
        (parse_object-Sees (upper name) path details p) (kept-Sees p)
  parse_method-Sees path name _ p =
      invalid-Sees (contains (upper name) valid_methods) p _ _ (kept-Sees p) (kept-Sees p)

  parse_methods-Sees :
      (path : Text) (fs : Fields) (p : OpenApiParser)
      → IfSome (Sees k p (operations_of path fs)) (parse_methods path fs p)
  unfolding parse_methods is_seen any
  parse_methods-Sees path end p = unchanged (is_seen k p.seen_endpoints)
  parse_methods-Sees path (field name details fs) p =
      bind-Sees p (operation path name details) (operations_of path fs)
        (parse_method path name details p) (λ q. parse_methods path fs q)
        (parse_method-Sees path name details p) (λ q. parse_methods-Sees path fs q)

  parse_path-Sees :
      (path : Text) (methods : Value) (p : OpenApiParser)
      → IfSome (Sees k p (path_operations path methods)) (parse_path path methods p)
  unfolding parse_path
  parse_path-Sees path (obj methods) p = parse_methods-Sees path methods p
  parse_path-Sees path _ p = kept-Sees p

  parse_paths-Sees :
      (fs : Fields) (p : OpenApiParser) → IfSome (Sees k p (operations fs)) (parse_paths fs p)
  unfolding parse_paths is_seen any
  parse_paths-Sees end p = unchanged (is_seen k p.seen_endpoints)
  parse_paths-Sees (field path methods fs) p =
      bind-Sees p (path_operations path methods) (operations fs) (parse_path path methods p)
        (λ q. parse_paths fs q) (parse_path-Sees path methods p) (λ q. parse_paths-Sees fs q)

  parse_spec-Sees :
      (spec paths : Fields) (p : OpenApiParser)
      → get_field (txt "paths") spec ≡ some (obj paths)
      → IfSome (Sees k p (operations paths)) (parse_spec spec p)
  unfolding parse_spec parse_section get_field
  parse_spec-Sees end paths p h = cc
  parse_spec-Sees (field j v fs) paths p h =
      subst (λ o. IfSome (Sees k p (operations paths)) (parse_section o p)) (sym h)
        (parse_paths-Sees paths p)

  -- If `parse` of a specification with a `paths` object raises nothing, the methods and paths of the
  -- endpoints found are exactly those of the operations that the object states with a known method and
  -- an object of details, the method in upper case and the path normalized.
  pub run_parse-operations :
      (spec paths : Fields)
      → get_field (txt "paths") spec ≡ some (obj paths)
      → IfSome
          (λ q. is_seen k (map key_of q.endpoints) ≡ is_seen k (operations paths))
          (run_parse (new_parser (obj spec)))
  unfolding run_parse new_parser is_seen any
  run_parse-operations spec paths h =
      both IsConsistent (Sees k (new_parser (obj spec)) (operations paths)) _
        (run_parse (new_parser (obj spec)))
        (run_parse-IsConsistent (new_parser (obj spec)) (new_parser-IsConsistent (obj spec)))
        (parse_spec-Sees spec paths (new_parser (obj spec)) h)
        (λ q c e. ap (is_seen k) (sym (c.seen)) ∙ e)
