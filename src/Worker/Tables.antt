-- ===== src/Worker/Tables.antt =====
-- What a worker reads and writes: rows, payloads and events, and the stores behind them as parameters.
-- Every statement of the database succeeds, and so does every command of Redis.
use integrated_work.Prelude.{ℕ, ◌≡◌, Bool, ◌&&◌, ◌||◌, Option, some, List, any, if◌then◌else◌}
use integrated_work.Text.{Text, text_eq}
use integrated_work.Dict.{Dict}
use integrated_work.Json.{Value}

pub data TaskStatus : Type 0 where
  queued processing retrying success failed : TaskStatus

pub data ScanStatus : Type 0 where
  pending running paused completed failed cancelled : ScanStatus

-- The columns of Task and Scan that a worker uses.
pub record Task : Type 0 where
  pub scan_id : Text
  pub status : TaskStatus
  pub attempts : ℕ

pub record Scan : Type 0 where
  pub status : ScanStatus
  pub finished_at : Option ℕ

-- A ScanResponse row, less its keys. A latency is in microseconds.
pub record SavedResponse : Type 0 where
  pub status_code : Option ℕ
  pub latency_ms : Option ℕ
  pub response_headers : Option (Dict Text)
  pub response_body : Option Text
  pub error_message : Option Text

-- `payload` is any JSON value, `null` for None.
pub record QueuePayload : Type 0 where
  pub task_id : Text
  pub scan_id : Text
  pub method : Text
  pub url : Text
  pub headers : Option (Dict Text)
  pub payload : Value
  pub mutation_strategy : Option Text
  pub mutation_reason : Option Text
  pub attempt : ℕ
  pub max_retries : ℕ
  pub enqueued_at : Text
  pub priority_level : Text

-- What is published; the worker's identifier and the time are added as it is.
pub data Event : Type 0 where
  task_status_updated : (task_id scan_id : Text) → TaskStatus → Event
  task_completed :
      (task_id scan_id : Text) → TaskStatus → (status_code latency_ms : Option ℕ) → Event
  scan_completed : (scan_id : Text) → ScanStatus → Event

-- The tables of the database, the queues of Redis and the rate limiter, as types of their own. The laws
-- are that a row read is the row last written, and that a query over tasks reads the rows.
pub record Services (T S R Q L : Type 0) : Type 0 where
  -- uuid.UUID(s) raises no ValueError.
  pub is_uuid : Text → Bool
  -- session.get(Task, …) and the commit of a changed row.
  pub find_task : Text → T → Option Task
  pub set_task : Text → Task → T → T
  pub find-set_task :
      (i j : Text) (t : Task) (db : T)
      → find_task j (set_task i t db) ≡ (if text_eq i j then some t else find_task j db)
  -- select(Task.status).where(Task.scan_id == …), and the same for the tasks but one.
  pub statuses : Text → T → List TaskStatus
  pub other_statuses : (task_id scan_id : Text) → T → List TaskStatus
  pub any-statuses-set_task :
      (f : TaskStatus → Bool) (i k : Text) (t u : Task) (db : T)
      → find_task i db ≡ some u
      → any f (statuses k (set_task i t db))
        ≡ ((text_eq t.scan_id k && f t.status) || any f (other_statuses i k db))
  pub other_statuses-set_task :
      (i k : Text) (t : Task) (db : T)
      → other_statuses i k (set_task i t db) ≡ other_statuses i k db
  pub find_scan : Text → S → Option Scan
  pub set_scan : Text → Scan → S → S
  pub find-set_scan :
      (i j : Text) (t : Scan) (db : S)
      → find_scan j (set_scan i t db) ≡ (if text_eq i j then some t else find_scan j db)
  -- The response of a task: select, then a change or an insert.
  pub find_response : Text → R → Option SavedResponse
  pub add_response : Text → SavedResponse → R → R
  pub change_response : Text → SavedResponse → R → R
  pub publish : Event → Q → Q
  -- schedule_delayed and send_to_dlq, by their payload and the delay in seconds or the reason.
  pub schedule_delayed : QueuePayload → ℕ → Q → Q
  pub send_to_dlq : QueuePayload → Text → Q → Q
  pub report_429 : Text → L → L
  -- datetime.now, as the time that belongs to what has been published so far.
  pub now : Q → ℕ

pub record World (T S R Q L : Type 0) : Type 0 where
  pub tasks : T
  pub scans : S
  pub responses : R
  pub queue : Q
  pub limiter : L
