-- ===== src/DiffEngine/Similarity.antt =====
-- `_body_similarity` of diff_engine.py. The ratio of SequenceMatcher is kept as the fraction that it
-- divides out, so its comparisons and its rounding are exact.
pub mod Bounds
use integrated_work.Prelude.{
  ℕ, zero, suc, ◌+◌, ◌-◌, ◌*◌, ◌/◌, ◌%◌, Bool, true, false, not, ◌&&◌, Option, none, some, List, [],
  ◌∷◌, ◌++◌, length, ltb, leb, ◌==◌, if◌then◌else◌,
}
use integrated_work.Text.{Text, txt, strip, show_nat}
use integrated_work.Runtime.{Runtime}

pub record Ratio : Type 0 where
  pub num : ℕ
  pub den : ℕ

-- n / d to the nearest integer, a tie to the even one.
unfoldable pub round_half_even : ℕ → ℕ → ℕ
round_half_even n d =
    let q = n / d in
    let r = n % d in
    if ltb (2 * r) d then q else if ltb d (2 * r) then q + 1 else if q % 2 == 0 then q else q + 1

-- x >= t, for a threshold t in ten-thousandths.
unfoldable pub at_least : Ratio → ℕ → Bool
at_least x t = leb (t * x.den) (x.num * 10000)

-- round(x, 4), in ten-thousandths.
unfoldable pub round4 : Ratio → ℕ
unfolding round_half_even
round4 x = round_half_even (x.num * 10000) x.den

-- f"{x:.0%}"
unfoldable pub percent : Ratio → Text
unfolding round_half_even show_nat
percent x = show_nat (round_half_even (x.num * 100) x.den) ++ txt "%"

-- SequenceMatcher.ratio: 2 * M / T, and 1 for two empty texts.
unfoldable pub ratio : (matched total : ℕ) → Ratio
ratio m zero = record { num = 1; den = 1 }
ratio m (suc t) = record { num = 2 * m; den = suc t }

module _ (rt : Runtime) where
  unfoldable pub body_similarity : Option Text → Option Text → Ratio
  unfolding ratio strip
  body_similarity none none = record { num = 1; den = 1 }
  body_similarity none (some b) = record { num = 0; den = 1 }
  body_similarity (some a) none = record { num = 0; den = 1 }
  body_similarity (some a) (some b) =
      let a' = strip a in let b' = strip b in ratio (rt.matches a' b') (length a' + length b')
