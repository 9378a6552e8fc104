-- ===== src/Integration/Swaps.antt =====
-- The requests that swap the roles.
use mathlib.Core.List.{map-append}
use native.Mathlib.Nat.{add-mul}
use integrated_work.Prelude.{
  ℕ, ◌*◌, ◌≡◌, refl, ap, ◌∙◌, false, Option, some, List, [], ◌∷◌, ◌++◌, map, keep, extend_all,
  length, length-append, nonempty, All, if◌then◌else◌, arith,
}
use integrated_work.Text.{Text, txt, text_eq}
use integrated_work.Dict.{Dict, get, put}
use integrated_work.Auth.Tokens.{blank}
use integrated_work.Api.Scans.{TaskSubmit, submitted_headers, add_token, headers_or}
use integrated_work.Integration.{
  Endpoint, test_case, generate_test_cases, swapper_endpoint, jwt_task, generate_jwt_tasks,
}

-- Method, URL and authorization of the request that a submitted task stands for.
abbrev pub sent : TaskSubmit → Text × Text × Option Text
sent t = (t.method, t.url, get (txt "Authorization") (submitted_headers t))

-- The request to an endpoint with a token.
abbrev pub swapped : (base_url : Text) → Endpoint → Text × Text → Text × Text × Option Text
swapped base_url ep (name, token) = (ep.method, base_url ++ ep.path, some (txt "Bearer " ++ token))

sent-jwt_task :
    (base_url : Text) (ep : Endpoint) (tok : Text × Text)
    → text_eq tok.1 [] ≡ false
    → sent (jwt_task (test_case base_url (swapper_endpoint ep) tok)) ≡ swapped base_url ep tok
unfolding jwt_task test_case swapper_endpoint submitted_headers add_token headers_or blank put get
    text_eq
sent-jwt_task base_url ep (name, token) h = rw (h) refl

sent-tokens :
    (base_url : Text) (ep : Endpoint) (tokens : Dict Text)
    → All (λ (t : Text × Text). text_eq t.1 [] ≡ false) tokens
    → map sent (map jwt_task (map (test_case base_url (swapper_endpoint ep)) tokens))
      ≡ map (swapped base_url ep) tokens
sent-tokens base_url ep [] h = refl
sent-tokens base_url ep (t ∷ tokens) h =
    ground (arith, sent-jwt_task base_url ep t h.0, sent-tokens base_url ep tokens h.1)

sent-test_cases :
    (base_url : Text) (eps : List Endpoint) (tokens : Dict Text)
    → All (λ (t : Text × Text). text_eq t.1 [] ≡ false) tokens
    → map sent (map jwt_task (generate_test_cases base_url (map swapper_endpoint eps) tokens))
      ≡ extend_all (λ ep. map (swapped base_url ep) tokens) eps
unfolding generate_test_cases extend_all
sent-test_cases base_url [] tokens h = refl
sent-test_cases base_url (ep ∷ eps) tokens h =
    rw
      (
        map-append jwt_task (map (test_case base_url (swapper_endpoint ep)) tokens)
            (generate_test_cases base_url (map swapper_endpoint eps) tokens),
        map-append sent (map jwt_task (map (test_case base_url (swapper_endpoint ep)) tokens))
            (map jwt_task (generate_test_cases base_url (map swapper_endpoint eps) tokens)),
        sent-tokens base_url ep tokens h,
        sent-test_cases base_url eps tokens h,
      )
      refl

sent-found :
    (eps : List Endpoint) (tokens : Dict Text) (base_url : Text)
    → All (λ (t : Text × Text). text_eq t.1 [] ≡ false) tokens
    → map sent (
        if nonempty (map swapper_endpoint eps)
        then map jwt_task (generate_test_cases base_url (map swapper_endpoint eps) tokens)
        else [])
      ≡ extend_all (λ ep. map (swapped base_url ep) tokens) eps
unfolding extend_all
sent-found [] tokens base_url h = refl
sent-found (ep ∷ eps) tokens base_url h = sent-test_cases base_url (ep ∷ eps) tokens h

-- With no empty token: the requests of the JWT tasks, once they are submitted, are those of each
-- endpoint with authentication with each token, in this order, and each carries its token.
pub sent-generate_jwt_tasks :
    (eps : List Endpoint) (tokens : Dict Text) (base_url : Text)
    → All (λ (t : Text × Text). text_eq t.1 [] ≡ false) tokens
    → map sent (generate_jwt_tasks eps tokens base_url)
      ≡ extend_all
          (λ ep. map (swapped base_url ep) tokens)
          (keep (λ (ep : Endpoint). ep.has_auth) eps)
unfolding generate_jwt_tasks
sent-generate_jwt_tasks eps tokens base_url h =
    sent-found (keep (λ (ep : Endpoint). ep.has_auth) eps) tokens base_url h

pub length-extend_all :
    {A B : Type 0} (f : B → List A) (n : ℕ) (xs : List B)
    → ((x : B) → length (f x) ≡ n)
    → length (extend_all f xs) ≡ length xs * n
unfolding extend_all
length-extend_all f n [] h = omega arith
length-extend_all f n (x ∷ xs) h =
    length-append (f x) (extend_all f xs)
    ∙ omega (arith, h x, length-extend_all f n xs h, add-mul 1 (length xs) n)

pub length-map : {A B : Type 0} (f : A → B) (xs : List A) → length (map f xs) ≡ length xs
length-map f [] = refl
length-map f (x ∷ xs) = omega (arith, length-map f xs)

pub length-generate_jwt_tasks :
    (eps : List Endpoint) (tokens : Dict Text) (base_url : Text)
    → length (generate_jwt_tasks eps tokens base_url)
      ≡ length (keep (λ (ep : Endpoint). ep.has_auth) eps) * length tokens
unfolding generate_jwt_tasks generate_test_cases
length-generate_jwt_tasks eps tokens base_url = made (keep (λ (ep : Endpoint). ep.has_auth) eps)
  where
    made :
        (xs : List Endpoint)
        → length (
            if nonempty (map swapper_endpoint xs)
            then map jwt_task
                (extend_all (λ ep. map (test_case base_url ep) tokens) (map swapper_endpoint xs))
            else [])
          ≡ length xs * length tokens
    made [] = omega arith
    made (x ∷ xs) =
        length-map jwt_task _
        ∙ length-extend_all (λ ep. map (test_case base_url ep) tokens) (length tokens)
            (map swapper_endpoint (x ∷ xs)) (λ ep. length-map (test_case base_url ep) tokens)
        ∙ ap (λ n. n * length tokens) (length-map swapper_endpoint (x ∷ xs))
