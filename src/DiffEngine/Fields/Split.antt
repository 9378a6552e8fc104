-- ===== src/DiffEngine/Fields/Split.antt =====
-- The field lists split the keys of two bodies, and `value_changes` names the shared keys that differ.
use integrated_work.Prelude.{
  ◌∙◌, ◌+◌, ◌≡◌, refl, ap, true, not, ◌&&◌, Option, none, some, List, [], ◌∷◌, arith, length,
  length-keep-not, if◌then◌else◌, is_some,
}
use integrated_work.Text.{Text, text_eq, contains}
use integrated_work.Text.Laws.{contains-keep, text_eq_iff}
use integrated_work.Dict.{Dict, get, has, keys}
use integrated_work.Dict.Laws.{contains-keys, get-put, has-get}
use integrated_work.Json.{Value, null, truthy, scalar_eq}
use integrated_work.Models.{Change}
use integrated_work.Runtime.{Runtime}
use integrated_work.DiffEngine.Flatten.{flatten_body}
use integrated_work.DiffEngine.Fields.{
  add_change, changes_from, shared_keys, own_keys, is_null, field_diff,
}

contains-shared_keys :
    (k : Text) (a b : Dict Value) → contains k (shared_keys a b) ≡ (has k a && has k b)
unfolding shared_keys
contains-shared_keys k a b =
    contains-keep k (λ j. has j b) (keys a) ∙ ap (λ t. t && has k b) (contains-keys k a)

contains-own_keys :
    (k : Text) (a b : Dict Value) → contains k (own_keys a b) ≡ (has k a && not (has k b))
unfolding own_keys
contains-own_keys k a b =
    contains-keep k (λ j. not (has j b)) (keys a) ∙ ap (λ t. t && not (has k b)) (contains-keys k a)

-- What one shared key, or its absence, contributes to `value_changes`.
abbrev pub change_at : Option Value → Option Value → Option Change
change_at (some v) (some w) = if scalar_eq v w then none else some (record { a = v; b = w })
change_at _ _ = none

abbrev pub or_else : Option Change → Option Change → Option Change
or_else (some c) d = some c
or_else none d = d

get-add_change :
    (j k : Text) (o p : Option Value) (d : Dict Change)
    → get j (add_change k o p d)
      ≡ (if text_eq k j then or_else (change_at o p) (get j d) else get j d)
unfolding add_change
get-add_change j k (some v) (some w) d = ground (arith, get-put j k (record { a = v; b = w }) d)
get-add_change j k (some v) none d = ground arith
get-add_change j k none p d = ground arith

module _ (a b : Dict Value) where
  get-changes_from :
      (j : Text) (common : List Text) (d : Dict Change)
      → get j (changes_from a b common d)
        ≡ (if contains j common then or_else (change_at (get j a) (get j b)) (get j d) else get j d)
  unfolding changes_from contains
  get-changes_from j [] d = refl
  get-changes_from j (k ∷ common) d = ground (
    arith,
    get-changes_from j common (add_change k (get k a) (get k b) d),
    get-add_change j k (get k a) (get k b) d,
    text_eq_iff k j,
  )

flatten_body-null : (v : Value) → is_null v ≡ true → flatten_body v ≡ []
unfolding flatten_body is_null truthy
flatten_body-null null h = refl
flatten_body-null _ h = cc

module _ (rt : Runtime) (body_a body_b : Value) where
  abbrev flat_a : Dict Value
  flat_a = flatten_body body_a

  abbrev flat_b : Dict Value
  flat_b = flatten_body body_b

  -- Also where both bodies are `None` the lists are those of the flattened bodies.
  contains-leaked :
      (k : Text)
      → contains k (field_diff rt body_a body_b).leaked
        ≡ (has k (flatten_body body_a) && has k (flatten_body body_b))
  unfolding field_diff contains has
  contains-leaked k = ground (
    arith,
    rt.contains-listing k (shared_keys flat_a flat_b),
    contains-shared_keys k flat_a flat_b,
    flatten_body-null body_a,
    flatten_body-null body_b,
  )

  contains-added :
      (k : Text)
      → contains k (field_diff rt body_a body_b).added
        ≡ (has k (flatten_body body_b) && not (has k (flatten_body body_a)))
  unfolding field_diff contains has
  contains-added k = ground (
    arith,
    rt.contains-listing k (own_keys flat_b flat_a),
    contains-own_keys k flat_b flat_a,
    flatten_body-null body_a,
    flatten_body-null body_b,
  )

  contains-removed :
      (k : Text)
      → contains k (field_diff rt body_a body_b).removed
        ≡ (has k (flatten_body body_a) && not (has k (flatten_body body_b)))
  unfolding field_diff contains has
  contains-removed k = ground (
    arith,
    rt.contains-listing k (own_keys flat_a flat_b),
    contains-own_keys k flat_a flat_b,
    flatten_body-null body_a,
    flatten_body-null body_b,
  )

  -- For every key: it is leaked exactly if both flattened bodies have it, added exactly if only the
  -- second has it, and removed exactly if only the first has it.
  pub field_diff-split :
      (k : Text)
      → (contains k (field_diff rt body_a body_b).leaked
          ≡ (has k (flatten_body body_a) && has k (flatten_body body_b)))
        × (contains k (field_diff rt body_a body_b).added
            ≡ (has k (flatten_body body_b) && not (has k (flatten_body body_a))))
        × (contains k (field_diff rt body_a body_b).removed
            ≡ (has k (flatten_body body_a) && not (has k (flatten_body body_b))))
  field_diff-split k = (contains-leaked k, contains-added k, contains-removed k)

  -- The leaked and the removed fields are together as many as the first body has keys.
  pub length-field_diff :
      length (field_diff rt body_a body_b).leaked + length (field_diff rt body_a body_b).removed
      ≡ length (keys (flatten_body body_a))
  unfolding field_diff shared_keys own_keys keys
  length-field_diff = ground (
    arith,
    rt.length-listing (shared_keys flat_a flat_b),
    rt.length-listing (own_keys flat_a flat_b),
    length-keep-not (λ k. has k flat_b) (keys flat_a),
    flatten_body-null body_a,
    flatten_body-null body_b,
  )

  -- `value_changes` holds, under each key at which both bodies have a value and the two differ, that
  -- pair of values, and nothing under any other key.
  pub get-value_changes :
      (k : Text)
      → get k (field_diff rt body_a body_b).value_changes
        ≡ change_at (get k (flatten_body body_a)) (get k (flatten_body body_b))
  unfolding field_diff get is_some
  get-value_changes k = ground (
    arith,
    get-changes_from flat_a flat_b k (rt.listing (shared_keys flat_a flat_b)) [],
    rt.contains-listing k (shared_keys flat_a flat_b),
    contains-shared_keys k flat_a flat_b,
    has-get k flat_a,
    has-get k flat_b,
    flatten_body-null body_a,
    flatten_body-null body_b,
  )
