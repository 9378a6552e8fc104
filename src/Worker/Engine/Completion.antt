-- ===== src/Worker/Engine/Completion.antt =====
-- When a scan is finished.
use mathlib.Core.Option
use integrated_work.Prelude.{
  ℕ, ◌+◌, ◌≡◌, refl, ap, ◌∙◌, Bool, true, false, not, ◌&&◌, ◌||◌, Option, none, some, List, [], ◌∷◌,
  any, all, nonempty, ltb, if◌then◌else◌, is_some, arith,
}
use integrated_work.Text.{Text, text_eq}
use integrated_work.Text.Laws.{text_eq_refl}
use integrated_work.Worker.Tables.{
  TaskStatus, processing, retrying, success, ScanStatus, completed, Task, Scan, SavedResponse,
  QueuePayload, Services, World,
}
use integrated_work.Worker.Engine.{
  Reply, is_open, is_success, response_of, error_of, finished, evaluate_scan_completion,
  update_found, update_task_status, mark_task_processing, store_response, save_found, save_response,
  handle_retry, settle, limited, process_payload,
}
use integrated_work.Worker.Engine.Outcome.{
  final_status, save_response-found, store_response-tasks, started-task, limited-tasks,
  process_payload-task,
}

any-true : (xs : List TaskStatus) → any (λ _. true) xs ≡ nonempty xs
unfolding any
any-true [] = refl
any-true (x ∷ xs) = refl

any-not : (f : TaskStatus → Bool) (xs : List TaskStatus) → any (λ x. not (f x)) xs ≡ not (all f xs)
unfolding any all
any-not f [] = refl
any-not f (x ∷ xs) = ground (arith, any-not f xs)

retrying-elim :
    (o : Option Text) (c : Bool)
    → is_some o ≡ true
    → c ≡ true
    → (elim o [ none ↦ success | some _ ↦ if c then retrying else TaskStatus.failed ]) ≡ retrying
unfolding is_some
retrying-elim none c h g = cc
retrying-elim (some e) c h g = rw g refl

final-retrying :
    (payload : QueuePayload) (reply : Reply)
    → is_some (error_of reply) ≡ true
    → ltb payload.attempt payload.max_retries ≡ true
    → final_status payload true reply ≡ retrying
final-retrying payload reply h g =
    retrying-elim (error_of reply) (ltb payload.attempt payload.max_retries) h g

module _ {T S R Q L : Type 0} (sv : Services T S R Q L) where
  find-set_scan_same : (k : Text) (s : Scan) (db : S) → sv.find_scan k (sv.set_scan k s db) ≡ some s
  find-set_scan_same k s db = ground (arith, sv.find-set_scan k k s db, text_eq_refl k)

  -- The scan of an evaluation: finished if it is there, has tasks, and none of them is open; completed
  -- if all of them succeeded, failed if not. In all other cases it is what it was.
  pub find_scan-evaluate :
      (k : Text) (w : World T S R Q L)
      → sv.find_scan k (evaluate_scan_completion sv k w).scans ≡ (
          if is_some (sv.find_scan k w.scans)
            && nonempty (sv.statuses k w.tasks)
            && not (any is_open (sv.statuses k w.tasks))
          then some (record {
            status =
                if all is_success (sv.statuses k w.tasks) then completed else ScanStatus.failed;
            finished_at = some (sv.now w.queue);
          })
          else sv.find_scan k w.scans)
  unfolding evaluate_scan_completion finished
  find_scan-evaluate k w =
      let status : ScanStatus =
        if all is_success (sv.statuses k w.tasks) then completed else ScanStatus.failed in
      ground (
        arith,
        find-set_scan_same k (record { status = status; finished_at = some (sv.now w.queue) })
            w.scans,
      )

  update_found-scans :
      (i : Text) (st : TaskStatus) (o : Option Task) (w : World T S R Q L)
      → (update_found sv i st o w).scans ≡ w.scans
  unfolding update_found
  update_found-scans i st none w = refl
  update_found-scans i st (some t) w = refl

  update-scans :
      (i : Text) (st : TaskStatus) (w : World T S R Q L)
      → (update_task_status sv i st w).scans ≡ w.scans
  unfolding update_task_status
  update-scans i st w = ground (arith, update_found-scans i st (sv.find_task i w.tasks) w)

  limited-scans :
      (payload : QueuePayload) (reply : Reply) (w : World T S R Q L)
      → (limited sv payload reply w).scans ≡ w.scans
  unfolding limited
  limited-scans payload (Reply.raised e) w = refl
  limited-scans payload (Reply.answered c l h b) w = ground arith

  store_response-scans :
      (i : Text) (r : SavedResponse) (w : World T S R Q L)
      → (store_response sv i r w).scans ≡ w.scans
  unfolding store_response
  store_response-scans i r w = ground arith

  retry-scans :
      (backoff : ℕ) (payload : QueuePayload) (error : Text) (w : World T S R Q L)
      → (handle_retry sv backoff payload error w).scans ≡ w.scans
  unfolding handle_retry
  retry-scans backoff payload error w = ground (
    arith,
    update-scans payload.task_id retrying w,
    update-scans payload.task_id TaskStatus.failed w,
  )

  -- The evaluation behind a failure that is saved: with no other task open, the scan is failed.
  failed-scan :
      (i : Text) (t u : Task) (s : Scan) (w x : World T S R Q L)
      → sv.find_task i w.tasks ≡ some u
      → x.tasks ≡ sv.set_task i t w.tasks
      → t.status ≡ TaskStatus.failed
      → sv.find_scan t.scan_id x.scans ≡ some s
      → any is_open (sv.other_statuses i t.scan_id w.tasks) ≡ false
      → Option.map
          (λ (v : Scan). v.status)
          (sv.find_scan t.scan_id (evaluate_scan_completion sv t.scan_id x).scans)
        ≡ some ScanStatus.failed
  unfolding is_open is_success is_some
  failed-scan i t u s w x found e f g none_open =
      let k = t.scan_id in
      let here = sv.any-statuses-set_task in
      let tested : (p : TaskStatus → Bool)
          → any p (sv.statuses k x.tasks)
            ≡ ((text_eq k k && p t.status) || any p (sv.other_statuses i k w.tasks)) =
        λ p. rw e (here p i k t u w.tasks found) in
      ground (
        arith,
        find_scan-evaluate k x,
        tested is_open,
        tested (λ _. true),
        tested (λ v. not (is_success v)),
        any-true (sv.statuses k x.tasks),
        any-not is_success (sv.statuses k x.tasks),
        text_eq_refl k,
      )

  save_failed-scan :
      (i : Text) (r : SavedResponse) (t : Task) (s : Scan) (w : World T S R Q L)
      → sv.find_task i w.tasks ≡ some t
      → sv.find_scan t.scan_id w.scans ≡ some s
      → any is_open (sv.other_statuses i t.scan_id w.tasks) ≡ false
      → Option.map
          (λ (v : Scan). v.status)
          (sv.find_scan t.scan_id (save_found sv i TaskStatus.failed r (some t) w).scans)
        ≡ some ScanStatus.failed
  unfolding save_found
  save_failed-scan i r t s w h g none_open =
      let row : Task = record t { status = TaskStatus.failed; attempts = t.attempts + 1 } in
      let changed = record w { tasks = sv.set_task i row w.tasks } in
      failed-scan i row t s w _ h (store_response-tasks sv i r changed) refl
        (ap (sv.find_scan t.scan_id) (store_response-scans i r changed) ∙ g) none_open

  settle_failed-scan :
      (backoff : ℕ) (payload : QueuePayload) (r : SavedResponse) (o : Option Text) (t : Task)
      (s : Scan) (w : World T S R Q L)
      → sv.is_uuid payload.task_id ≡ true
      → is_some o ≡ true
      → sv.find_task payload.task_id w.tasks ≡ some t
      → sv.find_scan t.scan_id w.scans ≡ some s
      → any is_open (sv.other_statuses payload.task_id t.scan_id w.tasks) ≡ false
      → Option.map
          (λ (v : Scan). v.status)
          (sv.find_scan t.scan_id (settle sv backoff payload r o w).scans)
        ≡ some ScanStatus.failed
  unfolding settle is_some
  settle_failed-scan backoff payload r none t s w u e h g none_open = cc
  settle_failed-scan backoff payload r (some error) t s w u e h g none_open =
      let i = payload.task_id in
      let saved = save_response sv i TaskStatus.failed r w in
      ap (λ x. Option.map (λ (v : Scan). v.status) (sv.find_scan t.scan_id x))
        (retry-scans backoff payload error saved
          ∙ ap (λ x. x.scans) (save_response-found sv i u TaskStatus.failed r t w h))
      ∙ save_failed-scan i r t s w h g none_open

  marked-others :
      (i k : Text) (t : Task) (w : World T S R Q L)
      → sv.is_uuid i ≡ true
      → sv.find_task i w.tasks ≡ some t
      → sv.other_statuses i k (mark_task_processing sv i w).tasks ≡ sv.other_statuses i k w.tasks
  unfolding mark_task_processing update_task_status update_found
  marked-others i k t w u h =
      rw (u, h) (sv.other_statuses-set_task i k (record t { status = processing }) w.tasks)

  marked-scans : (i : Text) (w : World T S R Q L) → (mark_task_processing sv i w).scans ≡ w.scans
  unfolding mark_task_processing
  marked-scans i w = update-scans i processing w

  -- A task, under a UUID, that fails with retries left when no other task of its scan is open leaves the
  -- scan, which is in the database, failed although the task itself is retrying.
  pub scan-failed_while_retrying :
      (backoff : ℕ) (payload : QueuePayload) (reply : Reply) (t : Task) (s : Scan)
      (w : World T S R Q L)
      → sv.is_uuid payload.task_id ≡ true
      → is_some (error_of reply) ≡ true
      → ltb payload.attempt payload.max_retries ≡ true
      → sv.find_task payload.task_id w.tasks ≡ some t
      → sv.find_scan t.scan_id w.scans ≡ some s
      → any is_open (sv.other_statuses payload.task_id t.scan_id w.tasks) ≡ false
      → let after = process_payload sv backoff payload true reply w in
        (Option.map (λ (v : Scan). v.status) (sv.find_scan t.scan_id after.scans)
          ≡ some ScanStatus.failed)
        × (Option.map (λ (v : Task). v.status) (sv.find_task payload.task_id after.tasks)
            ≡ some retrying)
  unfolding process_payload
  scan-failed_while_retrying backoff payload reply t s w u e more h g none_open =
      let i = payload.task_id in
      let k = t.scan_id in
      let marked = mark_task_processing sv i w in
      let same_tasks = limited-tasks sv payload reply marked in
      (
        settle_failed-scan backoff payload (response_of reply) (error_of reply)
            (record t { status = processing }) s (limited sv payload reply marked) u e
            (ap (sv.find_task i) same_tasks ∙ started-task sv payload u backoff t w h)
            (ap (sv.find_scan k) (limited-scans payload reply marked ∙ marked-scans i w) ∙ g)
            (ap (λ db. any is_open (sv.other_statuses i k db)) same_tasks
              ∙ ap (any is_open) (marked-others i k t w u h)
              ∙ none_open),
        ap (Option.map (λ (v : Task). v.status))
              (process_payload-task sv payload u backoff true reply t w h)
            ∙ ap some (final-retrying payload reply e more),
      )
