-- ===== src/Dict.antt =====
-- Python's `dict` with text keys: the pairs in insertion order. A write to a key that is there keeps
-- its place.
pub mod Laws
use integrated_work.Prelude.{
  ℕ, Bool, true, false, ◌||◌, Option, none, some, List, [], ◌∷◌, map, if◌then◌else◌,
}
use integrated_work.Text.{Text, text_eq}

abbrev pub Dict {ℓ} : Type ℓ → Type ℓ
Dict V = List (Text × V)

module _ {ℓ} {V : Type ℓ} where
  -- d.get(k)
  unfoldable pub get : Text → Dict V → Option V
  get k [] = none
  get k ((j, v) ∷ d) = if text_eq j k then some v else get k d

  -- d[k] = v
  unfoldable pub put : Text → V → Dict V → Dict V
  put k v [] = (k, v) ∷ []
  put k v ((j, w) ∷ d) = if text_eq j k then (j, v) ∷ d else (j, w) ∷ put k v d

  -- d.update(e)
  unfoldable pub update : Dict V → Dict V → Dict V
  update d [] = d
  update d ((k, v) ∷ e) = update (put k v d) e

  -- k in d
  unfoldable pub has : Text → Dict V → Bool
  has k [] = false
  has k ((j, v) ∷ d) = text_eq j k || has k d

  -- d.keys()
  unfoldable pub keys : Dict V → List Text
  keys d = map (λ p. p.0) d
