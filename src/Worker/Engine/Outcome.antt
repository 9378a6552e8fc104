-- ===== src/Worker/Engine/Outcome.antt =====
-- What becomes of a payload and of its scan.
use integrated_work.Prelude.{
  ℕ, ◌+◌, ◌≡◌, refl, ap, ◌∙◌, Bool, true, false, Option, none, some, List, ltb, if◌then◌else◌,
  arith,
}
use integrated_work.Text.{Text}
use integrated_work.Text.Laws.{text_eq_refl}
use integrated_work.Worker.Tables.{
  TaskStatus, processing, retrying, success, Task, SavedResponse, QueuePayload, Services, World,
}
use integrated_work.Worker.Engine.{
  Reply, response_of, error_of, finished, evaluate_scan_completion, update_found,
  update_task_status, mark_task_processing, store_response, save_found, save_response, handle_retry,
  settle, limited, give_up, process_payload,
}

-- The status that a payload leaves its task in.
abbrev pub final_status : QueuePayload → Bool → Reply → TaskStatus
final_status payload acquired reply =
    if acquired
    then (elim (error_of reply) [
      | none ↦ success
      | some _ ↦ if ltb payload.attempt payload.max_retries then retrying else TaskStatus.failed
    ])
    else TaskStatus.failed

module _ {T S R Q L : Type 0} (sv : Services T S R Q L) where
  finished-tasks :
      (k : Text) (found : List TaskStatus) (w : World T S R Q L)
      → (finished sv k found w).tasks ≡ w.tasks
  unfolding finished
  finished-tasks k found w = refl

  evaluate-tasks :
      (k : Text) (w : World T S R Q L) → (evaluate_scan_completion sv k w).tasks ≡ w.tasks
  unfolding evaluate_scan_completion
  evaluate-tasks k w = ground (arith, finished-tasks k (sv.statuses k w.tasks) w)

  pub store_response-tasks :
      (i : Text) (r : SavedResponse) (w : World T S R Q L)
      → (store_response sv i r w).tasks ≡ w.tasks
  unfolding store_response
  store_response-tasks i r w = ground arith

  pub limited-tasks :
      (payload : QueuePayload) (reply : Reply) (w : World T S R Q L)
      → (limited sv payload reply w).tasks ≡ w.tasks
  unfolding limited
  limited-tasks payload (Reply.raised e) w = refl
  limited-tasks payload (Reply.answered c l h b) w = ground arith

  pub find-set_same : (i : Text) (t : Task) (db : T) → sv.find_task i (sv.set_task i t db) ≡ some t
  find-set_same i t db = ground (arith, sv.find-set_task i i t db, text_eq_refl i)

  pub save_found-tasks :
      (i : Text) (st : TaskStatus) (r : SavedResponse) (t : Task) (w : World T S R Q L)
      → (save_found sv i st r (some t) w).tasks
        ≡ sv.set_task i (record t { status = st; attempts = t.attempts + 1 }) w.tasks
  unfolding save_found
  save_found-tasks i st r t w =
      let row : Task = record t { status = st; attempts = t.attempts + 1 } in
      evaluate-tasks t.scan_id _
      ∙ store_response-tasks i r (record w { tasks = sv.set_task i row w.tasks })

  module _ (i : Text) (u : sv.is_uuid i ≡ true) where
    update-task :
        (st : TaskStatus) (t : Task) (w : World T S R Q L)
        → sv.find_task i w.tasks ≡ some t
        → sv.find_task i (update_task_status sv i st w).tasks ≡ some (record t { status = st })
    unfolding update_task_status update_found
    update-task st t w h = rw (u, h) (find-set_same i (record t { status = st }) w.tasks)

    save-task :
        (st : TaskStatus) (r : SavedResponse) (t : Task) (w : World T S R Q L)
        → sv.find_task i w.tasks ≡ some t
        → sv.find_task i (save_response sv i st r w).tasks
          ≡ some (record t { status = st; attempts = t.attempts + 1 })
    unfolding save_response
    save-task st r t w h =
        rw (u, h)
          (ap (sv.find_task i) (save_found-tasks i st r t w)
            ∙ find-set_same i (record t { status = st; attempts = t.attempts + 1 }) w.tasks)

    pub save_response-found :
        (st : TaskStatus) (r : SavedResponse) (t : Task) (w : World T S R Q L)
        → sv.find_task i w.tasks ≡ some t
        → save_response sv i st r w ≡ save_found sv i st r (some t) w
    unfolding save_response
    save_response-found st r t w h = rw (u, h) refl

  module _ (payload : QueuePayload) (u : sv.is_uuid payload.task_id ≡ true) (backoff : ℕ) where
    pub retry-task :
        (error : Text) (t : Task) (w : World T S R Q L)
        → sv.find_task payload.task_id w.tasks ≡ some t
        → sv.find_task payload.task_id (handle_retry sv backoff payload error w).tasks
          ≡ some (record t {
            status =
                if ltb payload.attempt payload.max_retries then retrying else TaskStatus.failed;
          })
    unfolding handle_retry
    retry-task error t w h = ground (
      arith,
      update-task payload.task_id u retrying t w h,
      update-task payload.task_id u TaskStatus.failed t w h,
    )

    settle-task :
        (r : SavedResponse) (error : Option Text) (t : Task) (w : World T S R Q L)
        → sv.find_task payload.task_id w.tasks ≡ some t
        → sv.find_task payload.task_id (settle sv backoff payload r error w).tasks
          ≡ some (record t {
            status = elim error [
              | none ↦ success
              | some _ ↦
                  if ltb payload.attempt payload.max_retries then retrying else TaskStatus.failed
            ];
            attempts = t.attempts + 1;
          })
    unfolding settle
    settle-task r none t w h = save-task payload.task_id u success r t w h
    settle-task r (some error) t w h =
        retry-task error (record t { status = TaskStatus.failed; attempts = t.attempts + 1 })
          (save_response sv payload.task_id TaskStatus.failed r w)
          (save-task payload.task_id u TaskStatus.failed r t w h)

    pub started-task :
        (t : Task) (w : World T S R Q L)
        → sv.find_task payload.task_id w.tasks ≡ some t
        → sv.find_task payload.task_id (mark_task_processing sv payload.task_id w).tasks
          ≡ some (record t { status = processing })
    unfolding mark_task_processing
    started-task t w h = update-task payload.task_id u processing t w h

    -- Whatever the reply, a task that is in the database under a UUID has one attempt more when its
    -- payload has been processed, and its status is: success if a reply came that is no 429; retrying if
    -- the reply failed and the payload has retries left; and failed if it has none, or if the rate
    -- limiter timed out.
    pub process_payload-task :
        (acquired : Bool) (reply : Reply) (t : Task) (w : World T S R Q L)
        → sv.find_task payload.task_id w.tasks ≡ some t
        → sv.find_task payload.task_id (process_payload sv backoff payload acquired reply w).tasks
          ≡ some
              (record t { status = final_status payload acquired reply; attempts = t.attempts + 1 })
    unfolding process_payload give_up
    process_payload-task false reply t w h =
        save-task payload.task_id u TaskStatus.failed _ (record t { status = processing })
          (mark_task_processing sv payload.task_id w) (started-task t w h)
    process_payload-task true reply t w h =
        settle-task (response_of reply) (error_of reply) (record t { status = processing })
          (limited sv payload reply (mark_task_processing sv payload.task_id w))
          (ap (sv.find_task payload.task_id)
              (limited-tasks payload reply (mark_task_processing sv payload.task_id w))
            ∙ started-task t w h)
