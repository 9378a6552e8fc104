-- ===== src/DiffEngine/Flatten.antt =====
-- `_flatten_json` of diff_engine.py: a JSON value as a dict from dotted paths to scalars.
pub mod Keys
pub mod Scalars
use integrated_work.Prelude.{
  ℕ, zero, suc, ◌+◌, Bool, true, false, ◌≡◌, List, [], ◌∷◌, ◌++◌, if◌then◌else◌, ◌&&◌,
}
use integrated_work.Text.{Text, txt, show_nat}
use integrated_work.Dict.{Dict, put, update}
use integrated_work.Json.{
  Value, Items, Fields, null, bool, int, neg, real, str, arr, obj, nil, cons, end, field, truthy,
}

-- f"{prefix}.{k}" if prefix else k
unfoldable pub field_key : Text → Text → Text
field_key [] k = k
field_key (c ∷ p) k = (c ∷ p) ++ txt "." ++ k

-- f"{prefix}[{i}]"
unfoldable pub item_key : Text → ℕ → Text
unfolding show_nat
item_key p i = p ++ txt "[" ++ show_nat i ++ txt "]"

-- The loops take the dict that they update; the loop over a list counts its items.
unfoldable mutual
  unfolding field_key item_key put update

  pub flatten : Value → Text → Dict Value
  flatten (arr vs) p = flatten_items vs p 0 []
  flatten (obj fs) p = flatten_fields fs p []
  flatten null p = put p null []
  flatten (bool b) p = put p (bool b) []
  flatten (int n) p = put p (int n) []
  flatten (neg n) p = put p (neg n) []
  flatten (real r) p = put p (real r) []
  flatten (str s) p = put p (str s) []

  pub flatten_items : Items → Text → ℕ → Dict Value → Dict Value
  flatten_items nil p i result = result
  flatten_items (cons v vs) p i result =
      flatten_items vs p (i + 1) (update result (flatten v (item_key p i)))

  pub flatten_fields : Fields → Text → Dict Value → Dict Value
  flatten_fields end p result = result
  flatten_fields (field k v fs) p result =
      flatten_fields fs p (update result (flatten v (field_key p k)))

-- _flatten_json(body) if body else {}
unfoldable pub flatten_body : Value → Dict Value
unfolding truthy flatten
flatten_body v = if truthy v then flatten v [] else []
