-- ===== src/Api/Middleware/Retry.antt =====
-- A client that waits as long as a 429 asks is served.
use mathlib.Core.Path.{subst}
use integrated_work.Prelude.{
  ℕ, ◌+◌, ◌-◌, ◌*◌, ◌/◌, ◌≤◌, ◌<◌, ◌≡◌, refl, ap, sym, ◌∙◌, Bool, true, false, not, ◌&&◌, List, [],
  ◌∷◌, length, length-append, All, All-append, All-map, leb, leb→le, ltb, if◌then◌else◌, arith,
  Bool-cases, and_cases, inl, inr,
}
use integrated_work.Text.{Text, text_eq}
use integrated_work.Text.Laws.{text_eq_iff, text_eq_refl}
use integrated_work.Dict.{Dict, get, put}
use integrated_work.Api.Middleware.{
  Request, Limits, client_ip, is_exempt, window, drop_old, passed, limited, retry_after, admit,
  bucket_of, rate_limit_middleware,
}
use integrated_work.Api.Middleware.Window.{run, ordered_from, bucket_of-put}

-- A bucket is no longer than the limit and holds no time to come.
abbrev Fits : (limit now : ℕ) → List ℕ → Type 0
Fits limit now b = (length b ≤ limit) × All (λ x. x ≤ now) b

wait-Fits : (limit n now : ℕ) (b : List ℕ) → n ≤ now → Fits limit n b → Fits limit now b
wait-Fits limit n now b e v =
    (v.0, All-map (λ x. x ≤ n) (λ x. x ≤ now) b (λ x l. omega (arith, l, e)) v.1)

drop_old-Fits : (limit n now : ℕ) (b : List ℕ) → Fits limit n b → Fits limit n (drop_old now b)
unfolding drop_old
drop_old-Fits limit n now [] v = v
drop_old-Fits limit n now (x ∷ b) v = elim (Bool-cases (ltb window (now - x))) [
  | inl e ↦ rw (e) (drop_old-Fits limit n now b (omega (arith, v.0), v.1.1))
  | inr e ↦ rw (e) v
]

admit-Fits : (limit now : ℕ) (b : List ℕ) → Fits limit now b → Fits limit now (admit limit now b).1
unfolding admit
admit-Fits limit now b v = elim (Bool-cases (leb limit (length b))) [
  | inl e ↦ rw (e) v
  | inr e ↦ rw (e) (
    ground (arith, length-append b (now ∷ [])),
    All-append (λ x. x ≤ now) b (now ∷ []) v.1 (omega arith, tt),
  )
]

length-drop_old : (now : ℕ) (b : List ℕ) → length (drop_old now b) ≤ length b
unfolding drop_old
length-drop_old now [] = omega arith
length-drop_old now (x ∷ b) = ground (arith, length-drop_old now b)

admit-passed : (limit now : ℕ) (b : List ℕ) → length b < limit → (admit limit now b).0 ≡ passed
unfolding admit
admit-passed limit now b h = ground arith

admit-limited :
    (limit now r : ℕ) (b : List ℕ) → (admit limit now b).0 ≡ limited r → (admit limit now b).1 ≡ b
unfolding admit
admit-limited limit now r b e = ground arith

asked :
    (limit now r x : ℕ) (b : List ℕ)
    → (admit limit now (x ∷ b)).0 ≡ limited r
    → r ≡ (window - (now - x)) / 1000000 + 1
unfolding admit retry_after
asked limit now r x b e = ground arith

old_first :
    (x now later r : ℕ)
    → x ≤ now
    → r ≡ (window - (now - x)) / 1000000 + 1
    → now + r * 1000000 ≤ later
    → ltb window (later - x) ≡ true
old_first x now later r h e l = ground arith

waited :
    (limit now later r : ℕ) (b : List ℕ)
    → Fits limit now b
    → 0 < limit
    → (admit limit now b).0 ≡ limited r
    → now + r * 1000000 ≤ later
    → (admit limit later (drop_old later b)).0 ≡ passed
unfolding admit drop_old retry_after
waited limit now later r [] v g e l = ground arith
waited limit now later r (x ∷ b) v g e l =
    rw (old_first x now later r v.1.0 (asked limit now r x b e) l)
      (admit-passed limit later (drop_old later b) (omega (arith, length-drop_old later b, v.0)))

module _ (limits : Limits) where
  abbrev limit : ℕ
  limit = limits.rate_limit_per_minute

  step-Fits :
      (ip : Text) (n now : ℕ) (request : Request) (buckets : Dict (List ℕ))
      → n ≤ now
      → Fits limit n (bucket_of ip buckets)
      → Fits limit now (bucket_of ip (rate_limit_middleware limits now request buckets).1)
  unfolding rate_limit_middleware
  step-Fits ip n now request buckets e v =
      let w = wait-Fits limit n now (bucket_of ip buckets) e v in
      elim (Bool-cases (is_exempt limits request)) [
        | inl x ↦ rw (x) w
        | inr x ↦
            rw (x, bucket_of-put limits ip (client_ip request) _ buckets)
              (elim (Bool-cases (text_eq (client_ip request) ip)) [
                | inl y ↦ rw (y) (
                    admit-Fits limit now _ (
                      drop_old-Fits limit now now (bucket_of (client_ip request) buckets) (
                        subst (λ j. Fits limit now (bucket_of j buckets))
                          (sym ((text_eq_iff (client_ip request) ip).0 y)) w)))
                | inr y ↦ rw (y) w
              ])
      ]

  abbrev pub last_time : ℕ → List (ℕ × Request) → ℕ
  last_time t [] = t
  last_time t ((now, request) ∷ rest) = last_time now rest

  run-Fits :
      (ip : Text) (n : ℕ) (requests : List (ℕ × Request)) (buckets : Dict (List ℕ))
      → ordered_from limits n requests ≡ true
      → Fits limit n (bucket_of ip buckets)
      → Fits limit (last_time n requests) (bucket_of ip (run limits requests buckets).1)
  unfolding run
  run-Fits ip n [] buckets e v = v
  run-Fits ip n ((now, request) ∷ rest) buckets e v =
      let (first, later) = and_cases (leb n now) (ordered_from limits now rest) e in
      run-Fits ip now rest (rate_limit_middleware limits now request buckets).1 later
        (step-Fits ip n now request buckets (leb→le n now first) v)

  counted :
      (now : ℕ) (request : Request) (buckets : Dict (List ℕ))
      → is_exempt limits request ≡ false
      → rate_limit_middleware limits now request buckets ≡ (
          let b = drop_old now (bucket_of (client_ip request) buckets) in
          ((admit limit now b).0, put (client_ip request) (admit limit now b).1 buckets))
  unfolding rate_limit_middleware
  counted now request buckets e = rw (e) refl

  -- A request of another client, or one that is exempt, leaves the bucket of a client as it is.
  bucket_of-other :
      (ip : Text) (now : ℕ) (request : Request) (buckets : Dict (List ℕ))
      → text_eq (client_ip request) ip ≡ false
      → bucket_of ip (rate_limit_middleware limits now request buckets).1 ≡ bucket_of ip buckets
  unfolding rate_limit_middleware
  bucket_of-other ip now request buckets other = elim (Bool-cases (is_exempt limits request)) [
    | inl x ↦ rw (x) refl
    | inr x ↦ rw (x, bucket_of-put limits ip (client_ip request) _ buckets, other) refl
  ]

  -- None of the requests is of the client.
  unfoldable pub of_others : Text → List (ℕ × Request) → Bool
  of_others ip [] = true
  of_others ip ((now, request) ∷ rest) = not (text_eq (client_ip request) ip) && of_others ip rest

  bucket_of-run :
      (ip : Text) (requests : List (ℕ × Request)) (buckets : Dict (List ℕ))
      → of_others ip requests ≡ true
      → bucket_of ip (run limits requests buckets).1 ≡ bucket_of ip buckets
  unfolding run of_others
  bucket_of-run ip [] buckets h = refl
  bucket_of-run ip ((now, request) ∷ rest) buckets h =
      let (other, others) =
        and_cases (not (text_eq (client_ip request) ip)) (of_others ip rest) h in
      bucket_of-run ip rest (rate_limit_middleware limits now request buckets).1 others
      ∙ bucket_of-other ip now request buckets (ground (arith, other))

  -- After any requests, from no buckets and at times that do not go back, and with a limit of at least
  -- one: a client whose request is limited, with so many seconds to wait, is let pass when it asks again
  -- after that time, if it asked nothing in between, whatever other clients asked in between.
  pub served_after_wait :
      (requests between : List (ℕ × Request)) (now later r : ℕ) (request : Request)
      → ordered_from limits 0 requests ≡ true
      → last_time 0 requests ≤ now
      → 0 < limits.rate_limit_per_minute
      → is_exempt limits request ≡ false
      → of_others (client_ip request) between ≡ true
      → let (outcome, after) =
          rate_limit_middleware limits now request (run limits requests []).1 in
        outcome ≡ limited r
        → now + r * 1000000 ≤ later
        → (rate_limit_middleware limits later request (run limits between after).1).0 ≡ passed
  unfolding bucket_of get
  served_after_wait requests between now later r request o m g e w h l =
      let ip = client_ip request in
      let buckets = (run limits requests []).1 in
      let after = (rate_limit_middleware limits now request buckets).1 in
      let b = drop_old now (bucket_of ip buckets) in
      let fits = drop_old-Fits limit now now (bucket_of ip buckets) (
        wait-Fits limit (last_time 0 requests) now (bucket_of ip buckets) m
          (run-Fits ip 0 requests [] o (omega arith, tt))) in
      let first = counted now request buckets e in
      let refused : (admit limit now b).0 ≡ limited r = sym (ap (λ p. p.0) first) ∙ h in
      let kept =
        ap (λ p. p.1) first ∙ ap (λ c. put ip c buckets) (admit-limited limit now r b refused) in
      let bucket =
        bucket_of-run ip between after w
        ∙ ap (bucket_of ip) kept
        ∙ bucket_of-put limits ip ip b buckets
        ∙ ap (λ t. if t then b else bucket_of ip buckets) (text_eq_refl ip) in
      ap (λ p. p.0) (counted later request (run limits between after).1 e)
      ∙ ap (λ c. (admit limit later (drop_old later c)).0) bucket
      ∙ waited limit now later r b fits g refused l
