-- ===== src/DiffEngine/Flatten/Scalars.antt =====
-- Flattening reaches the leaves: no list and no dict is left among the values.
use integrated_work.Prelude.{ℕ, ◌+◌, ◌≡◌, refl, true, [], some, all}
use integrated_work.Text.{Text}
use integrated_work.Dict.{Dict, get, put}
use integrated_work.Dict.Laws.{all_values, all_values-update, all_values-get}
use integrated_work.Json.{
  Value, Items, Fields, null, bool, int, neg, real, str, arr, obj, nil, cons, end, field, is_scalar,
}
use integrated_work.DiffEngine.Flatten.{field_key, item_key, flatten, flatten_items, flatten_fields}

mutual
  unfolding flatten put all is_scalar

  scalars : (v : Value) (p : Text) → all_values is_scalar (flatten v p) ≡ true
  scalars (arr vs) p = scalars_items vs p 0 [] refl
  scalars (obj fs) p = scalars_fields fs p [] refl
  scalars null p = refl
  scalars (bool b) p = refl
  scalars (int n) p = refl
  scalars (neg n) p = refl
  scalars (real r) p = refl
  scalars (str s) p = refl

  scalars_items :
      (vs : Items) (p : Text) (i : ℕ) (d : Dict Value)
      → all_values is_scalar d ≡ true
      → all_values is_scalar (flatten_items vs p i d) ≡ true
  scalars_items nil p i d h = h
  scalars_items (cons v vs) p i d h =
      scalars_items vs p (i + 1) _
        (all_values-update is_scalar d (flatten v (item_key p i)) h (scalars v (item_key p i)))

  scalars_fields :
      (fs : Fields) (p : Text) (d : Dict Value)
      → all_values is_scalar d ≡ true
      → all_values is_scalar (flatten_fields fs p d) ≡ true
  scalars_fields end p d h = h
  scalars_fields (field k v fs) p d h =
      scalars_fields fs p _
        (all_values-update is_scalar d (flatten v (field_key p k)) h (scalars v (field_key p k)))

-- Whatever key is looked up in a flattened value, what is found there is a scalar.
pub get-flatten-is_scalar :
    (k : Text) (v : Value) (p : Text) (w : Value)
    → get k (flatten v p) ≡ some w
    → is_scalar w ≡ true
get-flatten-is_scalar k v p w e = all_values-get is_scalar k (flatten v p) w (scalars v p) e
