-- ===== src/Collector/Pairs.antt =====
-- Which responses are compared with which.
use mathlib.Core.List.{append-nil}
use integrated_work.Prelude.{
  ◌≡◌, refl, ap, Bool, true, false, not, List, [], ◌∷◌, ◌++◌, map, keep, any, All, All-map,
  keep-congr, keep_eq_self, keep-All, nonempty-keep, Bool-ext, extend_all, arith, Bool-cases, inl,
  inr,
}
use integrated_work.Text.{Text}
use integrated_work.Models.{ScanResponse}
use integrated_work.Runtime.{Runtime}
use integrated_work.DiffEngine.Compare.{opt_eq}
use integrated_work.DiffEngine.Compare.Anomaly.{opt_eq→eq}
use integrated_work.Collector.{is_reference, is_pair, pairs_of, build_pairs}

-- Responses of one role are references together.
is_reference-role :
    (role : Text) (a b : ScanResponse) → a.role ≡ b.role → is_reference role a ≡ is_reference role b
unfolding is_reference
is_reference-role role a b e = cc

module _ (rt : Runtime) (role : Text) where
  same-is_reference :
      (r : ScanResponse) (rs : List ScanResponse)
      → any (rt.same r) (keep (is_reference role) rs) ≡ true
      → is_reference role r ≡ true
  unfolding any keep
  same-is_reference r [] h = cc
  same-is_reference r (s ∷ rs) h =
      ground (arith, same-is_reference r rs, rt.same_role r s, is_reference-role role r s)

  references-same :
      (rs : List ScanResponse)
      → All
          (λ r. is_reference role r ≡ true → any (rt.same r) (keep (is_reference role) rs) ≡ true)
          rs
  unfolding any keep
  references-same [] = tt
  references-same (s ∷ rs) = (
    λ h. ground (arith, rt.same_refl s),
    All-map _ _ rs (λ r f h. ground (arith, f h)) (references-same rs),
  )

  -- The challengers are the responses of another role, though the code tells them by equality.
  others-eq :
      (rs : List ScanResponse)
      → keep (λ r. not (any (rt.same r) (keep (is_reference role) rs))) rs
        ≡ keep (λ r. not (is_reference role r)) rs
  others-eq rs = keep-congr _ _ rs (
      All-map _ _ rs (λ r f. ap not (Bool-ext _ _ (same-is_reference r rs) f)) (references-same rs))

module _ (role : Text) where
  -- A reference and a challenger differ in role, so `is_pair` holds of them.
  reference-is_pair :
      (r s : ScanResponse)
      → is_reference role r ≡ true
      → is_reference role s ≡ false
      → is_pair r s ≡ true
  reference-is_pair r s h g = elim (Bool-cases (opt_eq r.role s.role)) [
    | inl e ↦ ground (arith, is_reference-role role r s (opt_eq→eq r.role s.role e))
    | inr e ↦ unfold is_pair in ground arith
  ]

-- Every element of the first list with every one of the second.
abbrev pub product : List ScanResponse → List ScanResponse → List (ScanResponse × ScanResponse)
product [] others = []
product (r ∷ refs) others = map (λ o. (r, o)) others ++ product refs others

not-true : (b : Bool) → not b ≡ true → b ≡ false
not-true true h = cc
not-true false h = refl

module _ (role : Text) where
  pairs_of-product :
      (refs others : List ScanResponse)
      → All (λ r. is_reference role r ≡ true) refs
      → All (λ o. not (is_reference role o) ≡ true) others
      → pairs_of refs others ≡ product refs others
  unfolding pairs_of extend_all
  pairs_of-product [] others h g = refl
  pairs_of-product (r ∷ refs) others h g = cc (
    pairs_of-product refs others h.1 g,
    keep_eq_self (is_pair r) others
        (All-map _ _ others (λ o e. reference-is_pair role r o h.0 (not-true _ e)) g),
  )

-- With a response of the reference role, every response of that role is paired with every response
-- of another role and with no other.
pub build_pairs-product :
    (rt : Runtime) (role : Text) (responses : List ScanResponse)
    → any (is_reference role) responses ≡ true
    → build_pairs rt role responses
      ≡ product
          (keep (is_reference role) responses)
          (keep (λ r. not (is_reference role r)) responses)
unfolding build_pairs
build_pairs-product rt role responses h = ground (
  arith,
  nonempty-keep (is_reference role) responses,
  others-eq rt role responses,
  pairs_of-product role (keep (is_reference role) responses)
      (keep (λ r. not (is_reference role r)) responses) (keep-All (is_reference role) responses)
      (keep-All (λ r. not (is_reference role r)) responses),
)

-- With none, the first response is paired with each later one of another user or role.
pub build_pairs-first :
    (rt : Runtime) (role : Text) (r : ScanResponse) (rest : List ScanResponse)
    → any (is_reference role) (r ∷ rest) ≡ false
    → build_pairs rt role (r ∷ rest) ≡ map (λ o. (r, o)) (keep (is_pair r) rest)
unfolding build_pairs extend_all keep
build_pairs-first rt role r [] h = ground (arith, nonempty-keep (is_reference role) (r ∷ []))
build_pairs-first rt role r (s ∷ rest) h = ground (
  arith,
  nonempty-keep (is_reference role) (r ∷ s ∷ rest),
  append-nil {A = ScanResponse × ScanResponse} (map (λ o. (r, o)) (keep (is_pair r) (s ∷ rest))),
)
