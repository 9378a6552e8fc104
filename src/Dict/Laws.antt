-- ===== src/Dict/Laws.antt =====
-- Laws of dictionaries, in the form that needs no side condition.
use integrated_work.Prelude.{
  Bool, true, all, and_cases, ◌≡◌, refl, false, ◌||◌, some, List, [], ◌∷◌, arith, if◌then◌else◌,
  is_some, All, IfSome, Bool-cases, inl, inr,
}
use integrated_work.Text.{Text, text_eq, contains}
use integrated_work.Text.Laws.{text_eq_iff}
use integrated_work.Dict.{Dict, get, put, update, has, keys}

module _ {ℓ} {V : Type ℓ} where
  pub get-put :
      (j k : Text) (v : V) (d : Dict V)
      → get j (put k v d) ≡ (if text_eq k j then some v else get j d)
  unfolding get put
  get-put j k v [] = refl
  get-put j k v ((i, w) ∷ d) =
      ground (arith, text_eq_iff i k, text_eq_iff i j, text_eq_iff k j, get-put j k v d)

  pub has-put : (j k : Text) (v : V) (d : Dict V) → has j (put k v d) ≡ (text_eq k j || has j d)
  unfolding has put
  has-put j k v [] = refl
  has-put j k v ((i, w) ∷ d) =
      ground (arith, text_eq_iff i k, text_eq_iff i j, text_eq_iff k j, has-put j k v d)

  pub has-update : (j : Text) (d e : Dict V) → has j (update d e) ≡ (has j d || has j e)
  unfolding has update
  has-update j d [] = ground arith
  has-update j d ((k, v) ∷ e) = ground (arith, has-update j (put k v d) e, has-put j k v d)

  pub has-get : (k : Text) (d : Dict V) → has k d ≡ is_some (get k d)
  unfolding has get is_some
  has-get k [] = refl
  has-get k ((j, v) ∷ d) = ground (arith, has-get k d)

  pub contains-keys : (k : Text) (d : Dict V) → contains k (keys d) ≡ has k d
  unfolding contains keys has
  contains-keys k [] = refl
  contains-keys k ((j, v) ∷ d) = ground (arith, contains-keys k d)

-- No key stands twice.
abbrev pub Distinct : List Text → Type 0
Distinct [] = Unit {0}
Distinct (x ∷ xs) = (contains x xs ≡ false) × Distinct xs

module _ {ℓ} {V : Type ℓ} where
  pub put-Distinct :
      (k : Text) (v : V) (d : Dict V) → Distinct (keys d) → Distinct (keys (put k v d))
  unfolding keys put
  put-Distinct k v [] h = unfold contains in (refl, tt)
  put-Distinct k v ((j, w) ∷ d) h = ground (
    arith,
    put-Distinct k v d,
    contains-keys j (put k v d),
    has-put j k v d,
    contains-keys j d,
    text_eq_iff k j,
    text_eq_iff j k,
  )

  pub update-Distinct : (d e : Dict V) → Distinct (keys d) → Distinct (keys (update d e))
  unfolding update
  update-Distinct d [] h = h
  update-Distinct d ((k, v) ∷ e) h = update-Distinct (put k v d) e (put-Distinct k v d h)

  -- Every value passes a test.
  abbrev pub all_values : (V → Bool) → Dict V → Bool
  all_values q d = all (λ p. q p.1) d

  pub all_values-put :
      (q : V → Bool) (k : Text) (v : V) (d : Dict V)
      → q v ≡ true
      → all_values q d ≡ true
      → all_values q (put k v d) ≡ true
  unfolding put all
  all_values-put q k v [] h g = ground arith
  all_values-put q k v ((j, w) ∷ d) h g = ground (arith, all_values-put q k v d)

  pub all_values-update :
      (q : V → Bool) (d e : Dict V)
      → all_values q d ≡ true
      → all_values q e ≡ true
      → all_values q (update d e) ≡ true
  unfolding update all
  all_values-update q d [] h g = h
  all_values-update q d ((k, v) ∷ e) h g =
      let (a, b) = and_cases (q v) _ g in
      all_values-update q (put k v d) e (all_values-put q k v d a h) b

  -- A value that is found passes the test.
  pub all_values-get :
      (q : V → Bool) (k : Text) (d : Dict V) (v : V)
      → all_values q d ≡ true
      → get k d ≡ some v
      → q v ≡ true
  unfolding get all
  all_values-get q k [] v h g = cc
  all_values-get q k ((j, w) ∷ d) v h g = ground (arith, all_values-get q k d v)

-- What holds of every value holds of those behind a write, and of the one that is read.
pub put-All {ℓ κ} :
    {V : Type ℓ} (P : V → Type κ) (k : Text) (v : V) (d : Dict V)
    → P v
    → All (λ (p : Text × V). P p.1) d
    → All (λ (p : Text × V). P p.1) (put k v d)
unfolding put
put-All P k v [] e h = (e, tt)
put-All P k v ((j, w) ∷ d) e h = elim (Bool-cases (text_eq j k)) [
  | inl x ↦ rw (x) (e, h.1)
  | inr x ↦ rw (x) (h.0, put-All P k v d e h.1)
]

pub get-All {ℓ κ} :
    {V : Type ℓ} (P : V → Type κ) (k : Text) (d : Dict V)
    → All (λ (p : Text × V). P p.1) d
    → IfSome P (get k d)
unfolding get
get-All P k [] h = tt
get-All P k ((j, w) ∷ d) h = elim (Bool-cases (text_eq j k)) [
  | inl x ↦ rw (x) h.0
  | inr x ↦ rw (x) (get-All P k d h.1)
]
