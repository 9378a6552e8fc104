-- ===== src/DiffEngine/Flatten/Keys.antt =====
-- The keys of a flattened value are the paths of its leaves, and its values are scalars.
use integrated_work.Prelude.{ℕ, ◌+◌, ◌≡◌, refl, ◌||◌, List, [], ◌∷◌, ◌++◌, arith}
use integrated_work.Text.{Text, contains}
use integrated_work.Text.Laws.{contains-append}
use integrated_work.Dict.{Dict, put, update, has, keys}
use integrated_work.Dict.Laws.{has-update, Distinct, update-Distinct}
use integrated_work.Json.{
  Value, Items, Fields, null, bool, int, neg, real, str, arr, obj, nil, cons, end, field,
}
use integrated_work.DiffEngine.Flatten.{
  field_key, item_key, flatten, flatten_items, flatten_fields, flatten_body,
}

-- The paths at which a value has a scalar, from left to right.
mutual
  pub paths : Value → Text → List Text
  paths (arr vs) p = paths_items vs p 0
  paths (obj fs) p = paths_fields fs p
  paths null p = p ∷ []
  paths (bool b) p = p ∷ []
  paths (int n) p = p ∷ []
  paths (neg n) p = p ∷ []
  paths (real r) p = p ∷ []
  paths (str s) p = p ∷ []

  pub paths_items : Items → Text → ℕ → List Text
  paths_items nil p i = []
  paths_items (cons v vs) p i = paths v (item_key p i) ++ paths_items vs p (i + 1)

  pub paths_fields : Fields → Text → List Text
  paths_fields end p = []
  paths_fields (field k v fs) p = paths v (field_key p k) ++ paths_fields fs p

mutual
  unfolding flatten paths has contains put

  has-flatten_step :
      (k : Text) (v : Value) (p : Text) → has k (flatten v p) ≡ contains k (paths v p)
  has-flatten_step k (arr vs) p = has-flatten_items k vs p 0 []
  has-flatten_step k (obj fs) p = has-flatten_fields k fs p []
  has-flatten_step k null p = refl
  has-flatten_step k (bool b) p = refl
  has-flatten_step k (int n) p = refl
  has-flatten_step k (neg n) p = refl
  has-flatten_step k (real r) p = refl
  has-flatten_step k (str s) p = refl

  has-flatten_items :
      (k : Text) (vs : Items) (p : Text) (i : ℕ) (d : Dict Value)
      → has k (flatten_items vs p i d) ≡ (has k d || contains k (paths_items vs p i))
  has-flatten_items k nil p i d = ground arith
  has-flatten_items k (cons v vs) p i d = ground (
    arith,
    has-flatten_items k vs p (i + 1) (update d (flatten v (item_key p i))),
    has-update k d (flatten v (item_key p i)),
    has-flatten_step k v (item_key p i),
    contains-append k (paths v (item_key p i)) (paths_items vs p (i + 1)),
  )

  has-flatten_fields :
      (k : Text) (fs : Fields) (p : Text) (d : Dict Value)
      → has k (flatten_fields fs p d) ≡ (has k d || contains k (paths_fields fs p))
  has-flatten_fields k end p d = ground arith
  has-flatten_fields k (field j v fs) p d = ground (
    arith,
    has-flatten_fields k fs p (update d (flatten v (field_key p j))),
    has-update k d (flatten v (field_key p j)),
    has-flatten_step k v (field_key p j),
    contains-append k (paths v (field_key p j)) (paths_fields fs p),
  )

-- Flattening has exactly the keys at which the value has a leaf: no leaf is lost, none invented.
pub has-flatten : (k : Text) (v : Value) (p : Text) → has k (flatten v p) ≡ contains k (paths v p)
has-flatten k v p = has-flatten_step k v p

mutual
  unfolding flatten put keys contains

  flatten-Distinct : (v : Value) (p : Text) → Distinct (keys (flatten v p))
  flatten-Distinct (arr vs) p = flatten_items-Distinct vs p 0 [] tt
  flatten-Distinct (obj fs) p = flatten_fields-Distinct fs p [] tt
  flatten-Distinct null p = (refl, tt)
  flatten-Distinct (bool b) p = (refl, tt)
  flatten-Distinct (int n) p = (refl, tt)
  flatten-Distinct (neg n) p = (refl, tt)
  flatten-Distinct (real r) p = (refl, tt)
  flatten-Distinct (str s) p = (refl, tt)

  flatten_items-Distinct :
      (vs : Items) (p : Text) (i : ℕ) (d : Dict Value)
      → Distinct (keys d)
      → Distinct (keys (flatten_items vs p i d))
  flatten_items-Distinct nil p i d h = h
  flatten_items-Distinct (cons v vs) p i d h =
      flatten_items-Distinct vs p (i + 1) _ (update-Distinct d (flatten v (item_key p i)) h)

  flatten_fields-Distinct :
      (fs : Fields) (p : Text) (d : Dict Value)
      → Distinct (keys d)
      → Distinct (keys (flatten_fields fs p d))
  flatten_fields-Distinct end p d h = h
  flatten_fields-Distinct (field k v fs) p d h =
      flatten_fields-Distinct fs p _ (update-Distinct d (flatten v (field_key p k)) h)

pub flatten_body-Distinct : (v : Value) → Distinct (keys (flatten_body v))
unfolding flatten_body keys
flatten_body-Distinct v = ground (arith, flatten-Distinct v [])
