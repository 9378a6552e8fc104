-- ===== src/DiffEngine/Ids/Sound.antt =====
-- The extracted identifiers are those of the flattened pairs, each listed once.
use integrated_work.Prelude.{
  ◌≡◌, refl, Bool, false, ◌||◌, Option, none, some, List, [], ◌∷◌, any, arith,
}
use integrated_work.Text.{Text, text_eq, contains}
use integrated_work.Text.Laws.{contains-set_add}
use integrated_work.Dict.{Dict}
use integrated_work.Runtime.{Runtime}
use integrated_work.Json.{Value}
use integrated_work.DiffEngine.Flatten.{flatten_body}
use integrated_work.DiffEngine.Ids.{id_of, add_id, collect_ids, extract_ids}

-- A flattened pair yields the identifier x.
abbrev pub yields : Text → Option Text → Bool
yields x none = false
yields x (some i) = text_eq i x

contains-add_id :
    (x : Text) (o : Option Text) (ids : List Text)
    → contains x (add_id o ids) ≡ (yields x o || contains x ids)
unfolding add_id
contains-add_id x none ids = refl
contains-add_id x (some i) ids = contains-set_add x i ids

module _ (rt : Runtime) where
  contains-collect_ids :
      (x : Text) (flat : Dict Value) (ids : List Text)
      → contains x (collect_ids rt flat ids)
        ≡ (contains x ids || any (λ p. yields x (id_of rt p.0 p.1)) flat)
  unfolding collect_ids any
  contains-collect_ids x [] ids = ground arith
  contains-collect_ids x ((key, v) ∷ flat) ids = ground (
    arith,
    contains-collect_ids x flat (add_id (id_of rt key v) ids),
    contains-add_id x (id_of rt key v) ids,
  )

  -- A text is an identifier of a body exactly if some pair of the flattened body yields it.
  pub contains-extract_ids :
      (x : Text) (body : Value)
      → contains x (extract_ids rt body)
        ≡ any (λ p. yields x (id_of rt p.0 p.1)) (flatten_body body)
  unfolding extract_ids contains
  contains-extract_ids x body = contains-collect_ids x (flatten_body body) []
