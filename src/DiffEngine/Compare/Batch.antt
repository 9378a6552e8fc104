-- ===== src/DiffEngine/Compare/Batch.antt =====
-- `batch_compare` is the comparison of every pair, less those that are no anomaly.
use integrated_work.Prelude.{ℕ, ◌≡◌, refl, List, [], ◌∷◌, map, arith, keep}
use integrated_work.Models.{ScanResponse}
use integrated_work.Runtime.{Runtime}
use integrated_work.DiffEngine.Compare.{compare_responses, batch_compare}

-- The batch returns the results of all pairs in their order, with those left out that are no anomaly.
pub batch_compare-eq-keep :
    (rt : Runtime) (pairs : List (ScanResponse × ScanResponse)) (threshold : ℕ)
    → batch_compare rt pairs threshold
      ≡ keep (λ d. d.is_anomaly) (map (λ p. compare_responses rt p.0 p.1 threshold) pairs)
unfolding batch_compare keep
batch_compare-eq-keep rt [] threshold = refl
batch_compare-eq-keep rt ((a, b) ∷ pairs) threshold =
    ground (arith, batch_compare-eq-keep rt pairs threshold)
