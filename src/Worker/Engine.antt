-- ===== src/Worker/Engine.antt =====
-- The handling of one payload by WorkerEngine. What the rate limiter and the HTTP client answer are
-- arguments. The semaphore and the metrics are left out.
pub mod Outcome
pub mod Completion
use integrated_work.Prelude.{
  ℕ, suc, ◌+◌, ◌-◌, ◌*◌, ◌^◌, Bool, true, false, not, Option, none, some, List, [], ◌∷◌, ◌++◌, any,
  all, nonempty, ltb, ◌==◌, if◌then◌else◌, is_some,
}
use integrated_work.Text.{Text, txt, has_part}
use integrated_work.Dict.{Dict}
use integrated_work.Worker.Tables.{
  TaskStatus, queued, processing, retrying, success, ScanStatus, completed, Task, Scan,
  SavedResponse, QueuePayload, Event, task_status_updated, task_completed, scan_completed, Services,
  World,
}

-- What http_executor.execute returns or raises.
pub data Reply : Type 0 where
  answered : (status_code latency : ℕ) → (headers : Dict Text) → (body : Text) → Reply
  raised : Text → Reply

-- s in (QUEUED, PROCESSING, RETRYING), and s == SUCCESS
unfoldable pub is_open : TaskStatus → Bool
is_open queued = true
is_open processing = true
is_open retrying = true
is_open _ = false

unfoldable pub is_success : TaskStatus → Bool
is_success success = true
is_success _ = false

-- The response that a reply or its failure leaves, its status, and the error.
unfoldable pub failure : Text → SavedResponse
unfolding has_part
failure error = record {
  status_code = if has_part error (txt "429") then some 429 else none;
  latency_ms = none;
  response_headers = none;
  response_body = none;
  error_message = some error;
}

unfoldable pub is_too_many : ℕ → Bool
is_too_many status_code = status_code == 429

unfoldable pub response_of : Reply → SavedResponse
unfolding failure is_too_many
response_of (raised error) = failure error
response_of (answered code latency headers body) =
    if is_too_many code then failure (txt "HTTP 429 Too Many Requests") else record {
      status_code = some code;
      latency_ms = some latency;
      response_headers = some headers;
      response_body = some body;
      error_message = none;
    }

-- The error of a reply that failed.
unfoldable pub error_of : Reply → Option Text
unfolding is_too_many
error_of (raised error) = some error
error_of (answered code latency headers body) =
    if is_too_many code then some (txt "HTTP 429 Too Many Requests") else none

module _ {T S R Q L : Type 0} (sv : Services T S R Q L) where
  -- scan.status and scan.finished_at, when no task of the scan is open.
  unfoldable pub finished : Text → List TaskStatus → World T S R Q L → World T S R Q L
  unfolding is_success all
  finished scan_id found w =
      let status : ScanStatus = if all is_success found then completed else ScanStatus.failed in
      record w {
        scans =
            sv.set_scan scan_id (record { status = status; finished_at = some (sv.now w.queue) })
              w.scans;
        queue = sv.publish (scan_completed scan_id status) w.queue;
      }

  unfoldable pub evaluate_scan_completion : Text → World T S R Q L → World T S R Q L
  unfolding finished is_open any is_some
  evaluate_scan_completion scan_id w =
      let found = sv.statuses scan_id w.tasks in
      if is_some (sv.find_scan scan_id w.scans)
      then if nonempty found then if any is_open found then w else finished scan_id found w else w
      else w

  -- The task and its new status: the row, and the event.
  unfoldable pub update_found : Text → TaskStatus → Option Task → World T S R Q L → World T S R Q L
  update_found task_id status none w = w
  update_found task_id status (some task) w = record w {
    tasks = sv.set_task task_id (record task { status = status }) w.tasks;
    queue = sv.publish (task_status_updated task_id task.scan_id status) w.queue;
  }

  unfoldable pub update_task_status : Text → TaskStatus → World T S R Q L → World T S R Q L
  unfolding update_found
  update_task_status task_id status w =
      if sv.is_uuid task_id then update_found task_id status (sv.find_task task_id w.tasks) w else w

  unfoldable pub mark_task_processing : Text → World T S R Q L → World T S R Q L
  unfolding update_task_status
  mark_task_processing task_id w = update_task_status task_id processing w

  -- The response's row: changed if it is there, else added.
  unfoldable pub store_response : Text → SavedResponse → World T S R Q L → World T S R Q L
  unfolding is_some
  store_response task_id r w =
      if is_some (sv.find_response task_id w.responses)
      then record w { responses = sv.change_response task_id r w.responses }
      else record w { responses = sv.add_response task_id r w.responses }

  unfoldable pub save_found :
      Text → TaskStatus → SavedResponse → Option Task → World T S R Q L → World T S R Q L
  unfolding store_response evaluate_scan_completion
  save_found task_id status r none w = store_response task_id r w
  save_found task_id status r (some task) w =
      let row : Task = record task { status = status; attempts = task.attempts + 1 } in
      let stored : World T S R Q L =
        store_response task_id r (record w { tasks = sv.set_task task_id row w.tasks }) in
      evaluate_scan_completion task.scan_id (record stored {
        queue =
            sv.publish (task_completed task_id task.scan_id status r.status_code r.latency_ms)
              stored.queue;
      })

  unfoldable pub save_response :
      Text → TaskStatus → SavedResponse → World T S R Q L → World T S R Q L
  unfolding save_found
  save_response task_id status r w =
      if sv.is_uuid task_id then save_found task_id status r (sv.find_task task_id w.tasks) w else w

  -- DEFAULT_RETRY_BACKOFF * 2 ** (attempt - 1), with the attempt already counted.
  unfoldable pub retry_delay : (backoff attempt : ℕ) → ℕ
  retry_delay backoff attempt = backoff * 2 ^ (attempt - 1)

  unfoldable pub handle_retry : ℕ → QueuePayload → Text → World T S R Q L → World T S R Q L
  unfolding update_task_status retry_delay
  handle_retry backoff payload error w =
      if ltb payload.attempt payload.max_retries
      then (let next : QueuePayload = record payload { attempt = payload.attempt + 1 } in
          let marked = update_task_status payload.task_id retrying w in
          record marked {
            queue = sv.schedule_delayed next (retry_delay backoff next.attempt) marked.queue;
          })
      else (let marked = update_task_status payload.task_id TaskStatus.failed w in
          record marked {
            queue =
                sv.send_to_dlq payload (txt "Max retries exceeded. Last error: " ++ error)
                  marked.queue;
          })

  -- The steps behind the HTTP request.
  unfoldable pub settle :
      ℕ → QueuePayload → SavedResponse → Option Text → World T S R Q L → World T S R Q L
  unfolding save_response handle_retry
  settle backoff payload r none w = save_response payload.task_id success r w
  settle backoff payload r (some error) w =
      handle_retry backoff payload error (save_response payload.task_id TaskStatus.failed r w)

  -- rate_limiter.report_429, on an answer with that status.
  unfoldable pub limited : QueuePayload → Reply → World T S R Q L → World T S R Q L
  unfolding is_too_many
  limited payload (raised error) w = w
  limited payload (answered code latency headers body) w =
      if is_too_many code then record w { limiter = sv.report_429 payload.url w.limiter } else w

  -- The rate limiter timed out: the outer handler.
  unfoldable pub give_up : QueuePayload → Text → World T S R Q L → World T S R Q L
  unfolding save_response
  give_up payload error w =
      let r : SavedResponse = record {
        status_code = none;
        latency_ms = none;
        response_headers = none;
        response_body = none;
        error_message = some (txt "Worker error: " ++ error);
      } in
      let saved = save_response payload.task_id TaskStatus.failed r w in
      record saved { queue = sv.send_to_dlq payload error saved.queue }

  unfoldable pub process_payload :
      ℕ → QueuePayload → (acquired : Bool) → Reply → World T S R Q L → World T S R Q L
  unfolding mark_task_processing give_up settle limited response_of error_of
  process_payload backoff payload acquired reply w =
      let started = mark_task_processing payload.task_id w in
      if acquired
      then settle backoff payload (response_of reply) (error_of reply)
          (limited payload reply started)
      else give_up payload (txt "Rate limit timeout exceeded") started
