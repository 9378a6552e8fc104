-- ===== src/Integration/Discovered.antt =====
-- How many tasks a discovery submits.
use integrated_work.Prelude.{
  ℕ, ◌+◌, ◌*◌, ◌≡◌, refl, ap, ◌∙◌, Option, none, some, List, [], ◌∷◌, ◌++◌, map, keep, extend_all,
  length, length-append, arith,
}
use integrated_work.Text.{Text}
use integrated_work.Dict.{Dict}
use integrated_work.Auth.Tokens.{ok}
use integrated_work.TaskQueue.{Redis}
use integrated_work.Api.Scans.{TaskSubmit, ScanRow, Tables, Stores, submit_found}
use integrated_work.Api.Scans.Submitted.{submitted, length-submit_found}
use integrated_work.Integration.{
  Endpoint, NodeRequest, Mutation, DiscoverRequest, Found, endpoints_at, crawler_task, node_request,
  fuzzing_task, mutation_tasks, generate_mutations, swap_tasks, all_tasks, base_or, checked,
  with_ids, discover_found, discover_and_submit,
}
use integrated_work.Integration.Swaps.{length-map, length-generate_jwt_tasks}

length-with_ids :
    (new_id : ℕ → Text) (n : ℕ) (ts : List TaskSubmit) → length (with_ids new_id n ts) ≡ length ts
length-with_ids new_id n [] = refl
length-with_ids new_id n (t ∷ ts) = omega (arith, length-with_ids new_id (n + 1) ts)

-- The numbers of tokens and of mutations.
abbrev pub count_tokens : Option (Dict Text) → ℕ
count_tokens none = 0
count_tokens (some tokens) = length tokens

abbrev pub count_mutations : List (List Mutation) → ℕ
count_mutations [] = 0
count_mutations (ms ∷ results) = length ms + count_mutations results

abbrev pub with_auth : List Endpoint → List Endpoint
with_auth eps = keep (λ (ep : Endpoint). ep.has_auth) eps

length-swap_tasks :
    (eps : List Endpoint) (tokens : Option (Dict Text)) (base_url : Text)
    → length (swap_tasks eps tokens base_url) ≡ length (with_auth eps) * count_tokens tokens
unfolding swap_tasks
length-swap_tasks eps none base_url = omega arith
length-swap_tasks eps (some []) base_url = omega arith
length-swap_tasks eps (some (t ∷ tokens)) base_url =
    length-generate_jwt_tasks eps (t ∷ tokens) base_url

length-mutation_tasks :
    (results : List (List Mutation))
    → length (mutation_tasks (some results)) ≡ count_mutations results
unfolding mutation_tasks extend_all
length-mutation_tasks [] = refl
length-mutation_tasks (ms ∷ results) =
    length-append (map fuzzing_task ms) (mutation_tasks (some results))
    ∙ omega (arith, length-map fuzzing_task ms, length-mutation_tasks results)

-- An engine that fails returns none.
abbrev pub count_answer : Option (List (List Mutation)) → ℕ
count_answer none = 0
count_answer (some results) = count_mutations results

length-answer : (o : Option (List (List Mutation))) → length (mutation_tasks o) ≡ count_answer o
unfolding mutation_tasks
length-answer none = refl
length-answer (some results) = length-mutation_tasks results

module _ (node : List NodeRequest → Option (List (List Mutation))) where
  length-all_tasks :
      (base_url found_url : Text) (ep : Endpoint) (eps : List Endpoint)
      (tokens : Option (Dict Text))
      → length (all_tasks node base_url found_url (ep ∷ eps) tokens)
        ≡ length (ep ∷ eps)
          + length (with_auth (ep ∷ eps)) * count_tokens tokens
          + count_answer (node (map (node_request base_url) (ep ∷ eps)))
  unfolding all_tasks generate_mutations
  length-all_tasks base_url found_url ep eps tokens =
      let swaps = swap_tasks (ep ∷ eps) tokens base_url in
      omega (
        arith,
        length-append (map (crawler_task found_url) (ep ∷ eps))
            (swaps ++ generate_mutations node (ep ∷ eps) base_url),
        length-append swaps (generate_mutations node (ep ∷ eps) base_url),
        length-map (crawler_task found_url) (ep ∷ eps),
        length-swap_tasks (ep ∷ eps) tokens base_url,
        length-answer (node (map (node_request base_url) (ep ∷ eps))),
      )

module _ {S T D : Type 0} (tables : Tables S T) (redis : Redis D) (queue_name : Text)
    (node : List NodeRequest → Option (List (List Mutation))) (new_id : ℕ → Text) where
  -- For a scan that is there, and a source in which endpoints are found: discover_and_submit succeeds,
  -- and counts a task for each endpoint, one for each endpoint with authentication and each token, and
  -- one for each mutation that the engine returns, none if it fails. (Its last branch, without tasks, is never reached.)
  pub count-discover_and_submit :
      (scan_id enqueued_at : Text) (now : ℕ) (req : DiscoverRequest) (discover : Text → Found)
      (scan : ScanRow) (w : Stores S T D) (found_url : Text) (ep : Endpoint) (eps : List Endpoint)
      → tables.find_scan scan_id w.scans ≡ some scan
      → discover (base_or req.base_url scan.target) ≡ endpoints_at found_url (ep ∷ eps)
      → (after : Stores S T D) × (discover_and_submit tables redis queue_name node new_id scan_id
            enqueued_at now req discover w
          ≡ ok (
            length (ep ∷ eps)
                + length (with_auth (ep ∷ eps)) * count_tokens req.jwt_tokens
                + count_answer
                    (node (map (node_request (base_or req.base_url scan.target)) (ep ∷ eps))),
            after,
          ))
  unfolding discover_and_submit discover_found checked all_tasks
  count-discover_and_submit scan_id enqueued_at now req discover scan w found_url ep eps e f =
      let base_url = base_or req.base_url scan.target in
      let tasks = with_ids new_id 0 (all_tasks node base_url found_url (ep ∷ eps) req.jwt_tokens) in
      let found = submit_found tables redis queue_name scan_id enqueued_at now tasks scan w in
      (
        found.1,
        rw (e, discover_and_submit, f)
            (submitted tables redis queue_name scan_id enqueued_at now tasks scan w e
              ∙ ap (λ n. ok (n, found.1))
                  (length-submit_found tables redis queue_name scan_id enqueued_at now tasks scan w
                    ∙ length-with_ids new_id 0
                        (all_tasks node base_url found_url (ep ∷ eps) req.jwt_tokens)
                    ∙ length-all_tasks node base_url found_url ep eps req.jwt_tokens)),
      )
