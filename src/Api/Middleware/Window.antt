-- ===== src/Api/Middleware/Window.antt =====
-- How many requests of a client the rate limit admits in any sixty seconds.
use mathlib.Core.Path.{subst}
use mathlib.Core.List.{append_assoc, append-nil}
use integrated_work.Prelude.{
  ℕ, ◌≤◌, ◌≡◌, refl, ap, sym, ◌∙◌, Bool, true, not, ◌&&◌, List, [], ◌∷◌, ◌++◌, map, keep, length,
  leb, leb→le, if◌then◌else◌, arith, Bool-cases, and_cases, inl, inr,
}
use integrated_work.Text.{Text, text_eq}
use integrated_work.Text.Laws.{text_eq_iff}
use integrated_work.Dict.{Dict, get, put}
use integrated_work.Dict.Laws.{get-put}
use integrated_work.Api.Middleware.{
  Request, Limits, client_ip, is_exempt, drop_old, Outcome, admit, bucket_of, rate_limit_middleware,
}
use integrated_work.Api.Middleware.Bucket.{
  recent, within, keep-recent, drop_old-recent, Inv, wait-Inv, drop_old-Inv, is_passed, admit-Inv,
}

module _ (limits : Limits) where
  -- The requests that the limit admitted, each with its time and its client, and the buckets behind them.
  unfoldable pub run : List (ℕ × Request) → Dict (List ℕ) → List (ℕ × Text) × Dict (List ℕ)
  run [] buckets = ([], buckets)
  run ((now, request) ∷ rest) buckets =
      let (outcome, next) = rate_limit_middleware limits now request buckets in
      let (log, last) = run rest next in
      (
        if not (is_exempt limits request) && is_passed outcome
            then (now, client_ip request) ∷ log
            else log,
        last,
      )

  abbrev pub times : Text → List (ℕ × Text) → List ℕ
  times ip log = map (λ p. p.0) (keep (λ p. text_eq p.1 ip) log)

  abbrev pub ordered_from : ℕ → List (ℕ × Request) → Bool
  ordered_from t [] = true
  ordered_from t ((now, request) ∷ rest) = leb t now && ordered_from now rest

  -- The times of a client with that of one more request.
  abbrev and_now : (ip : Text) → (now : ℕ) → Request → Outcome → List ℕ → List ℕ
  and_now ip now request outcome h =
      if not (is_exempt limits request) && (text_eq (client_ip request) ip && is_passed outcome)
      then h ++ now ∷ []
      else h

  pub bucket_of-put :
      (ip j : Text) (b : List ℕ) (buckets : Dict (List ℕ))
      → bucket_of ip (put j b buckets) ≡ (if text_eq j ip then b else bucket_of ip buckets)
  unfolding bucket_of
  bucket_of-put ip j b buckets = ground (arith, get-put ip j b buckets)

  admitted-Inv :
      (limit n now : ℕ) (h b : List ℕ)
      → n ≤ now
      → Inv limit n h b
      → let (outcome, c) = admit limit now (drop_old now b) in
        Inv limit now (if is_passed outcome then h ++ now ∷ [] else h) c
  admitted-Inv limit n now h b e v =
      let w = wait-Inv limit n now h b e v in
      admit-Inv limit now h (drop_old now b)
        (ap (keep (recent now)) (drop_old-recent now b v.sorted)
          ∙ keep-recent now now b (omega arith)
          ∙ sym (drop_old-recent now b v.sorted))
        (drop_old-Inv limit now h b w)

  step-Inv :
      (ip : Text) (n now : ℕ) (request : Request) (h : List ℕ) (buckets : Dict (List ℕ))
      → n ≤ now
      → Inv limits.rate_limit_per_minute n h (bucket_of ip buckets)
      → Inv limits.rate_limit_per_minute now
          (and_now ip now request (rate_limit_middleware limits now request buckets).0 h)
          (bucket_of ip (rate_limit_middleware limits now request buckets).1)
  unfolding rate_limit_middleware
  step-Inv ip n now request h buckets e v = elim (Bool-cases (is_exempt limits request)) [
    | inl x ↦ rw (x) (wait-Inv limits.rate_limit_per_minute n now h (bucket_of ip buckets) e v)
    | inr x ↦
        rw (x, bucket_of-put ip (client_ip request) _ buckets)
          (elim (Bool-cases (text_eq (client_ip request) ip)) [
            | inl y ↦ rw (y) (
                admitted-Inv limits.rate_limit_per_minute n now h
                  (bucket_of (client_ip request) buckets) e
                  (subst (λ j. Inv limits.rate_limit_per_minute n h (bucket_of j buckets))
                    (sym ((text_eq_iff (client_ip request) ip).0 y)) v))
            | inr y ↦
                rw (y) (wait-Inv limits.rate_limit_per_minute n now h (bucket_of ip buckets) e v)
          ])
  ]

  times-run :
      (ip : Text) (now : ℕ) (request : Request) (outcome : Outcome) (h : List ℕ)
      (log : List (ℕ × Text))
      → h
          ++ times ip (
              if not (is_exempt limits request) && is_passed outcome
              then (now, client_ip request) ∷ log
              else log)
        ≡ and_now ip now request outcome h ++ times ip log
  unfolding keep
  times-run ip now request outcome h log = ground (arith, append_assoc h (now ∷ []) (times ip log))

  run-Inv :
      (ip : Text) (n : ℕ) (requests : List (ℕ × Request)) (h : List ℕ) (buckets : Dict (List ℕ))
      → ordered_from n requests ≡ true
      → Inv limits.rate_limit_per_minute n h (bucket_of ip buckets)
      → (t : ℕ)
      → length (keep (within t) (h ++ times ip (run requests buckets).0))
        ≤ limits.rate_limit_per_minute
  unfolding run keep
  run-Inv ip n [] h buckets e v t =
      subst (λ xs. length (keep (within t) xs) ≤ limits.rate_limit_per_minute) (sym (append-nil h))
        (v.bounded t)
  run-Inv ip n ((now, request) ∷ rest) h buckets e v t =
      let (first, later) = and_cases (leb n now) (ordered_from now rest) e in
      let (outcome, next) = rate_limit_middleware limits now request buckets in
      subst (λ xs. length (keep (within t) xs) ≤ limits.rate_limit_per_minute)
        (sym (times-run ip now request outcome h (run rest next).0))
        (run-Inv ip now rest (and_now ip now request outcome h) next later
          (step-Inv ip n now request h buckets (leb→le n now first) v) t)

  -- From no buckets, for requests at times that do not go back: of the requests of one client that the
  -- limit counts, it lets at most `rate_limit_per_minute` pass in any sixty seconds.
  pub length-times :
      (ip : Text) (requests : List (ℕ × Request)) (t : ℕ)
      → ordered_from 0 requests ≡ true
      → length (keep (within t) (times ip (run requests []).0)) ≤ limits.rate_limit_per_minute
  unfolding keep bucket_of get
  length-times ip requests t e =
      run-Inv ip 0 requests [] [] e
        (record { same = refl; sorted = tt; below = tt; bounded = λ t. omega arith }) t
