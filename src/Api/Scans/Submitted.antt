-- ===== src/Api/Scans/Submitted.antt =====
-- What a submission leaves in the tables and in the queues.
use integrated_work.Prelude.{
  ℕ, ◌≡◌, refl, ◌∙◌, Option, none, some, List, [], ◌∷◌, map, length, arith,
}
use integrated_work.Text.{Text}
use integrated_work.Auth.Tokens.{ok}
use integrated_work.Worker.Tables.{QueuePayload}
use integrated_work.TaskQueue.{Redis, publish_batch}
use integrated_work.Api.Scans.{
  TaskSubmit, ScanRow, TaskRow, Tables, Stores, task_row, queue_payloads, submit_found,
  submit_tasks,
}

length-publish_batch :
    {D : Type 0} (redis : Redis D) (queue_name : Text) (payloads : List QueuePayload) (d : D)
    → (publish_batch redis queue_name payloads d).0 ≡ length payloads
unfolding publish_batch
length-publish_batch redis queue_name [] d = refl
length-publish_batch redis queue_name (p ∷ payloads) d = refl

length-map : {A B : Type 0} (f : A → B) (xs : List A) → length (map f xs) ≡ length xs
length-map f [] = refl
length-map f (x ∷ xs) = omega (arith, length-map f xs)

-- The row of a submitted task, or the one that was there.
abbrev pub row_or : (scan_id : Text) → Option TaskSubmit → Option TaskRow → Option TaskRow
row_or scan_id none old = old
row_or scan_id (some d) old = some (task_row scan_id d)

module _ {S T D : Type 0} (tables : Tables S T) (redis : Redis D) (queue_name : Text) where
  pub submitted :
      (scan_id enqueued_at : Text) (now : ℕ) (tasks : List (Text × TaskSubmit)) (scan : ScanRow)
      (w : Stores S T D)
      → tables.find_scan scan_id w.scans ≡ some scan
      → submit_tasks tables redis queue_name scan_id enqueued_at now tasks w
        ≡ ok (submit_found tables redis queue_name scan_id enqueued_at now tasks scan w)
  unfolding submit_tasks
  submitted scan_id enqueued_at now tasks scan w e = rw (e, submit_tasks) refl

  length-queue_payloads :
      (scan_id enqueued_at : Text) (tasks : List (Text × TaskSubmit))
      → length (queue_payloads tables redis queue_name scan_id enqueued_at tasks) ≡ length tasks
  unfolding queue_payloads
  length-queue_payloads scan_id enqueued_at tasks = length-map _ tasks

  pub length-submit_found :
      (scan_id enqueued_at : Text) (now : ℕ) (tasks : List (Text × TaskSubmit)) (scan : ScanRow)
      (w : Stores S T D)
      → (submit_found tables redis queue_name scan_id enqueued_at now tasks scan w).0 ≡ length tasks
  unfolding submit_found
  length-submit_found scan_id enqueued_at now tasks scan w =
      length-publish_batch redis queue_name _ w.redis
      ∙ length-queue_payloads scan_id enqueued_at tasks
