-- ===== src/DiffEngine/Fields.antt =====
-- `_field_diff` of diff_engine.py: the keys that two bodies share, and those of one alone.
pub mod Split
use integrated_work.Prelude.{
  Bool, true, false, not, ◌&&◌, Option, none, some, List, [], ◌∷◌, keep, if◌then◌else◌,
}
use integrated_work.Text.{Text}
use integrated_work.Dict.{Dict, get, put, has, keys}
use integrated_work.Json.{Value, null, bool, int, neg, real, str, arr, obj, truthy, scalar_eq}
use integrated_work.Models.{Change}
use integrated_work.Runtime.{Runtime}
use integrated_work.DiffEngine.Flatten.{flatten_body}

-- What `_field_diff` returns.
pub record FieldDiff : Type 0 where
  pub leaked : List Text
  pub added : List Text
  pub removed : List Text
  pub value_changes : Dict Change

-- if flat_a[k] != flat_b[k]: value_changes[k] = {…}. A missing key would raise; none is missing.
unfoldable pub add_change : Text → Option Value → Option Value → Dict Change → Dict Change
add_change k (some v) (some w) changes =
    if scalar_eq v w then changes else put k (record { a = v; b = w }) changes
add_change k _ _ changes = changes

-- for k in common: …
unfoldable pub changes_from : Dict Value → Dict Value → List Text → Dict Change → Dict Change
unfolding add_change
changes_from flat_a flat_b [] changes = changes
changes_from flat_a flat_b (k ∷ common) changes =
    changes_from flat_a flat_b common (add_change k (get k flat_a) (get k flat_b) changes)

-- keys_a & keys_b, and keys_a - keys_b
unfoldable pub shared_keys : Dict Value → Dict Value → List Text
shared_keys flat_a flat_b = keep (λ k. has k flat_b) (keys flat_a)

unfoldable pub own_keys : Dict Value → Dict Value → List Text
own_keys flat_a flat_b = keep (λ k. not (has k flat_b)) (keys flat_a)

-- body is None
unfoldable pub is_null : Value → Bool
is_null null = true
is_null _ = false

module _ (rt : Runtime) where
  unfoldable pub diff_of : Dict Value → Dict Value → FieldDiff
  unfolding changes_from shared_keys own_keys
  diff_of flat_a flat_b =
      let common = rt.listing (shared_keys flat_a flat_b) in
      record {
        leaked = common;
        added = rt.listing (own_keys flat_b flat_a);
        removed = rt.listing (own_keys flat_a flat_b);
        value_changes = changes_from flat_a flat_b common [];
      }

  unfoldable pub field_diff : Value → Value → FieldDiff
  unfolding diff_of is_null
  field_diff body_a body_b =
      if is_null body_a && is_null body_b
      then record { leaked = []; added = []; removed = []; value_changes = [] }
      else diff_of (flatten_body body_a) (flatten_body body_b)
