-- ===== src/Collector/Members.antt =====
-- What holds of all the buffered responses holds of both sides of every pair.
use integrated_work.Prelude.{
  not, Option, none, some, List, [], ◌∷◌, map, keep, any, extend_all, length, nonempty, ltb,
  if◌then◌else◌, All, All-append, All-keep, IfSome, Bool-cases, inl, inr,
}
use integrated_work.Text.{Text}
use integrated_work.Dict.{Dict, get}
use integrated_work.Dict.Laws.{put-All, get-All}
use integrated_work.Models.{ScanResponse}
use integrated_work.Runtime.{Runtime}
use integrated_work.Collector.{
  Collector, buffered, buffer_key, on_result, on_results_batch, is_reference, is_pair, pairs_of,
  first_pairs, build_pairs,
}
use integrated_work.Collector.Batch.{all_pairs}

module _ (P : ScanResponse → Type 0) where
  abbrev pub Both : ScanResponse × ScanResponse → Type 0
  Both (a, b) = P a × P b

  abbrev pub AllBuffered : Dict (List ScanResponse) → Type 0
  AllBuffered buffer = All (λ (e : Text × List ScanResponse). All P e.1) buffer

  with_one :
      (a : ScanResponse) (os : List ScanResponse) → P a → All P os → All Both (map (λ o. (a, o)) os)
  with_one a [] h g = tt
  with_one a (o ∷ os) h g = ((h, g.0), with_one a os h g.1)

  pairs_of-Both :
      (refs others : List ScanResponse)
      → All P refs
      → All P others
      → All Both (pairs_of refs others)
  unfolding pairs_of extend_all
  pairs_of-Both [] others h g = tt
  pairs_of-Both (r ∷ refs) others h g =
      All-append Both (map (λ o. (r, o)) (keep (is_pair r) others)) (pairs_of refs others)
        (with_one r (keep (is_pair r) others) h.0 (All-keep P (is_pair r) others g))
        (pairs_of-Both refs others h.1 g)

  first_pairs-Both : (rs : List ScanResponse) → All P rs → All Both (first_pairs rs)
  unfolding first_pairs
  first_pairs-Both [] h = tt
  first_pairs-Both (r ∷ []) h = tt
  first_pairs-Both (r ∷ s ∷ rs) h = pairs_of-Both (r ∷ []) (s ∷ rs) (h.0, tt) h.1

  build_pairs-Both :
      (rt : Runtime) (role : Text) (rs : List ScanResponse)
      → All P rs
      → All Both (build_pairs rt role rs)
  unfolding build_pairs
  build_pairs-Both rt role rs h =
      let refs = keep (is_reference role) rs in
      let others = keep (λ r. not (any (rt.same r) refs)) rs in
      elim (Bool-cases (nonempty refs)) [
        | inl e ↦ rw (e) (
            pairs_of-Both refs others (All-keep P (is_reference role) rs h)
              (All-keep P (λ r. not (any (rt.same r) refs)) rs h))
        | inr e ↦ rw (e) (first_pairs-Both rs h)
      ]

  pub all_pairs-Both :
      (rt : Runtime) (role : Text) (buffer : Dict (List ScanResponse))
      → AllBuffered buffer
      → All Both (all_pairs rt role buffer)
  unfolding all_pairs
  all_pairs-Both rt role [] h = tt
  all_pairs-Both rt role ((key, rs) ∷ rest) h =
      All-append Both (if ltb (length rs) 2 then [] else build_pairs rt role rs)
        (all_pairs rt role rest)
        (elim (Bool-cases (ltb (length rs) 2)) [
          | inl e ↦ rw (e) tt
          | inr e ↦ rw (e) (build_pairs-Both rt role rs h.0)
        ])
        (all_pairs-Both rt role rest h.1)

  buffered-All :
      (k : Text) (buffer : Dict (List ScanResponse))
      → AllBuffered buffer
      → All P (buffered k buffer)
  unfolding buffered
  buffered-All k buffer h = or_none (get k buffer) (get-All (All P) k buffer h)
    where
      or_none :
          (o : Option (List ScanResponse))
          → IfSome (All P) o
          → All P (elim o [ none ↦ [] | some rs ↦ rs ])
      or_none none g = tt
      or_none (some rs) g = g

  pub on_results_batch-AllBuffered :
      (rs : List ScanResponse) (c : Collector)
      → All P rs
      → AllBuffered c.buffer
      → AllBuffered (on_results_batch rs c).buffer
  unfolding on_results_batch on_result
  on_results_batch-AllBuffered [] c h g = g
  on_results_batch-AllBuffered (r ∷ rs) c h g =
      on_results_batch-AllBuffered rs (on_result r c) h.1 (
        put-All (All P) (buffer_key r) _ c.buffer
          (All-append P (buffered (buffer_key r) c.buffer) (r ∷ [])
            (buffered-All (buffer_key r) c.buffer g) (h.0, tt))
          g)
