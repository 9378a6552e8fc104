-- ===== src/DiffEngine/Similarity/Bounds.antt =====
-- The similarity of two bodies lies between 0 and 1, and rounding it keeps its order to a threshold.
use native.Mathlib.Decide.{dec_lt}
use native.Mathlib.Nat.{
  le-div_iff_mul-le, div-add-mod', div-le_of_le-mul, mul-le-mul_right, mul_comm,
}
use integrated_work.Prelude.{
  ◌%◌, ℕ, zero, suc, ◌*◌, ◌/◌, ◌≤◌, ◌<◌, ◌≡◌, true, Option, none, some, arith, leb→le, le→leb,
}
use integrated_work.Text.{Text, strip}
use integrated_work.Runtime.{Runtime}
use integrated_work.DiffEngine.Similarity.{
  Ratio, round_half_even, at_least, round4, ratio, body_similarity,
}

-- A fraction from 0 to 1.
abbrev pub IsFraction : Ratio → Type 0
IsFraction x = (0 < x.den) × (x.num ≤ x.den)

le-div : (k n d : ℕ) → 0 < d → k * d ≤ n → k ≤ n / d
le-div k n d p h = (le-div_iff_mul-le {k = d} p).1 h

div-le-round_half_even : (n d : ℕ) → n / d ≤ round_half_even n d
unfolding round_half_even
div-le-round_half_even n d = ground arith

-- Rounding does not go below an integer that the number reaches.
pub le-round_half_even : (k n d : ℕ) → 0 < d → k * d ≤ n → k ≤ round_half_even n d
le-round_half_even k n d p h = omega (arith, le-div k n d p h, div-le-round_half_even n d)

round_up-le : (k n d : ℕ) → n / d < k → round_half_even n d ≤ k
unfolding round_half_even
round_up-le k n d h = ground arith

-- At an exact multiple nothing is rounded.
rem-eq-zero : (k n d : ℕ) → n ≤ k * d → k ≤ n / d → n % d ≡ 0
rem-eq-zero k n d h q = omega (arith, div-add-mod' n d, mul-le-mul_right d q)

exact-le : (k n d : ℕ) → 0 < d → n % d ≡ 0 → n / d ≤ k → round_half_even n d ≤ k
unfolding round_half_even
exact-le k n d p r q = ground arith

pub round_half_even-le : (k n d : ℕ) → 0 < d → n ≤ k * d → round_half_even n d ≤ k
round_half_even-le k n d p h = elim (dec_lt (n / d) k) [
  | yes q ↦ round_up-le k n d q
  | no q ↦ exact-le k n d p (rem-eq-zero k n d h (omega arith)) (div-le_of_le-mul d (rw mul_comm h))
]

pub at_least-round4 : (x : Ratio) (t : ℕ) → 0 < x.den → at_least x t ≡ true → t ≤ round4 x
unfolding at_least round4
at_least-round4 x t p h = le-round_half_even t (x.num * 10000) x.den p (leb→le _ _ h)

ratio-IsFraction : (m t : ℕ) → 2 * m ≤ t → IsFraction (ratio m t)
unfolding ratio
ratio-IsFraction m zero h = omega arith
ratio-IsFraction m (suc t) h = omega arith

ratio-at_least : (m total t : ℕ) → 2 * m ≡ total → t ≤ 10000 → at_least (ratio m total) t ≡ true
unfolding ratio at_least
ratio-at_least m zero t e h = le→leb _ _ (omega arith)
ratio-at_least m (suc n) t e h = le→leb _ _ (omega (arith, e, mul-le-mul_right (suc n) h))

module _ (rt : Runtime) where
  pub body_similarity-IsFraction : (a b : Option Text) → IsFraction (body_similarity rt a b)
  unfolding body_similarity
  body_similarity-IsFraction none none = omega arith
  body_similarity-IsFraction none (some b) = omega arith
  body_similarity-IsFraction (some a) none = omega arith
  body_similarity-IsFraction (some a) (some b) =
      ratio-IsFraction _ _ (rt.matches_le (strip a) (strip b))

  -- The rounded similarity is at most 1, and where the similarity itself reaches a threshold the
  -- rounded one does too.
  pub round4-bounds :
      (a b : Option Text) (t : ℕ)
      → (round4 (body_similarity rt a b) ≤ 10000)
        × (at_least (body_similarity rt a b) t ≡ true → t ≤ round4 (body_similarity rt a b))
  unfolding round4
  round4-bounds a b t =
      let (p, q) = body_similarity-IsFraction a b in
      (
        round_half_even-le 10000 _ _ p (omega arith),
        λ h. at_least-round4 (body_similarity rt a b) t p h,
      )

  -- Equal bodies have similarity 1.
  pub same_body-at_least :
      (s : Text) (t : ℕ) → t ≤ 10000 → at_least (body_similarity rt (some s) (some s)) t ≡ true
  unfolding body_similarity at_least
  same_body-at_least s t h = ratio-at_least _ _ t (omega (arith, rt.matches_self (strip s))) h
