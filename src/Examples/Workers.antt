-- ===== src/Examples/Workers.antt =====
-- A worker on the sample stores.
use mathlib.Core.Option
use integrated_work.Prelude.{
  ◌+◌, ◌≡◌, refl, true, not, ◌&&◌, some, any, all, nonempty, is_some, if◌then◌else◌,
}
use integrated_work.Text.{txt, text_eq}
use integrated_work.Dict.{get}
use integrated_work.Worker.Tables.{Task, Scan, ScanStatus, completed, retrying}
use integrated_work.Worker.Engine.{
  Reply, is_open, is_success, error_of, evaluate_scan_completion, process_payload,
}
use integrated_work.Worker.Engine.Outcome
use integrated_work.Worker.Engine.Completion
use integrated_work.Examples.Stores.{stores, task, scan, world, payload}

process_payload-task_example :
    get
      (txt "task-1")
      (process_payload stores 2 payload true (Reply.raised (txt "timeout")) world).tasks
    ≡ some (record task {
      status = Outcome.final_status payload true (Reply.raised (txt "timeout"));
      attempts = task.attempts + 1;
    })
unfolding get text_eq
process_payload-task_example =
    Outcome.process_payload-task stores payload refl 2 true (Reply.raised (txt "timeout")) task
      world refl

find_scan-evaluate_example :
    get (txt "scan-1") (evaluate_scan_completion stores (txt "scan-1") world).scans ≡ (
      if is_some (get (txt "scan-1") world.scans)
        && nonempty (stores.statuses (txt "scan-1") world.tasks)
        && not (any is_open (stores.statuses (txt "scan-1") world.tasks))
      then some (record {
        status =
            if all is_success (stores.statuses (txt "scan-1") world.tasks)
            then completed
            else ScanStatus.failed;
        finished_at = some 100;
      })
      else get (txt "scan-1") world.scans)
find_scan-evaluate_example = Completion.find_scan-evaluate stores (txt "scan-1") world

scan-failed_while_retrying_example :
    let after = process_payload stores 2 payload true (Reply.raised (txt "timeout")) world in
    (Option.map (λ (v : Scan). v.status) (get (txt "scan-1") after.scans) ≡ some ScanStatus.failed)
    × (Option.map (λ (v : Task). v.status) (get (txt "task-1") after.tasks) ≡ some retrying)
unfolding get text_eq is_some error_of any
scan-failed_while_retrying_example =
    Completion.scan-failed_while_retrying stores 2 payload (Reply.raised (txt "timeout")) task scan
      world refl refl refl refl refl refl
