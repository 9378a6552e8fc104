-- ===== src/Api/Scans.antt =====
-- Submitting tasks and the progress of a scan: executor/api/schemas.py (TaskSubmit) and submit_tasks,
-- get_scan_progress and delete_scan of executor/api/routes.py. The tables are parameters; the repeated
-- keyword arguments of the call of Task are read once.
pub mod Submitted
pub mod Partition
use integrated_work.Prelude.{
  ℕ, ◌+◌, ◌≡◌, Bool, true, false, ◌||◌, Option, none, some, List, [], ◌∷◌, ◌++◌, map, if◌then◌else◌,
}
use integrated_work.Text.{Text, txt, text_eq}
use integrated_work.Dict.{Dict, put}
use integrated_work.Json.{Value}
use integrated_work.Auth.Tokens.{Reply, ok, raised, blank}
use integrated_work.Worker.Tables.{
  TaskStatus, queued, processing, retrying, success, failed, ScanStatus, pending, running, paused,
  QueuePayload,
}
use integrated_work.TaskQueue.{Redis, publish_batch}

pub record TaskSubmit : Type 0 where
  pub method : Text
  pub url : Text
  pub headers : Option (Dict Text)
  pub payload : Value
  pub auth_token : Option Text
  pub retry_count : ℕ
  pub priority_level : Text
  pub mutation_strategy : Option Text
  pub mutation_reason : Option Text

-- The columns of the tables Scan and Task that the routes use.
pub record ScanRow : Type 0 where
  pub target : Text
  pub status : ScanStatus
  pub started_at : Option ℕ

pub record TaskRow : Type 0 where
  pub scan_id : Text
  pub method : Text
  pub url : Text
  pub headers : Dict Text
  pub payload : Value
  pub mutation_strategy : Option Text
  pub mutation_reason : Option Text
  pub status : TaskStatus
  pub max_retries : ℕ

-- session.get, and the commits of a new or a changed row; a deletion takes the tasks of the scan along.
pub record Tables (S T : Type 0) : Type 0 where
  pub find_scan : Text → S → Option ScanRow
  pub set_scan : Text → ScanRow → S → S
  pub find-set_scan :
      (i j : Text) (v : ScanRow) (s : S)
      → find_scan j (set_scan i v s) ≡ (if text_eq i j then some v else find_scan j s)
  pub delete_scan : Text → S → S
  pub delete_tasks : (scan_id : Text) → T → T
  pub find_task : Text → T → Option TaskRow
  pub add_task : Text → TaskRow → T → T
  pub find-add_task :
      (i j : Text) (v : TaskRow) (t : T)
      → find_task j (add_task i v t) ≡ (if text_eq i j then some v else find_task j t)
  -- select(Task.status, count).where(Task.scan_id == …).group_by(Task.status)
  pub status_counts : Text → T → List (TaskStatus × ℕ)

pub record Stores (S T D : Type 0) : Type 0 where
  pub scans : S
  pub tasks : T
  pub redis : D

-- `t_data.headers or {}`
unfoldable pub headers_or : Option (Dict Text) → Dict Text
headers_or none = []
headers_or (some h) = h

-- The bearer's token, unless it is empty.
unfoldable pub add_token : Option Text → Dict Text → Dict Text
add_token none headers = headers
add_token (some token) headers =
    if blank (some token)
    then headers
    else put (txt "Authorization") (txt "Bearer " ++ token) headers

unfoldable pub submitted_headers : TaskSubmit → Dict Text
submitted_headers t = add_token t.auth_token (headers_or t.headers)

unfoldable pub task_row : (scan_id : Text) → TaskSubmit → TaskRow
task_row scan_id t = record {
  scan_id = scan_id;
  method = t.method;
  url = t.url;
  headers = submitted_headers t;
  payload = t.payload;
  mutation_strategy = t.mutation_strategy;
  mutation_reason = t.mutation_reason;
  status = queued;
  max_retries = t.retry_count;
}

-- The payload of a row, with the defaults of QueuePayload.
unfoldable pub queue_payload :
    (enqueued_at task_id : Text) → TaskRow → (priority_level : Text) → QueuePayload
queue_payload enqueued_at task_id row priority_level = record {
  task_id = task_id;
  scan_id = row.scan_id;
  method = row.method;
  url = row.url;
  headers = some row.headers;
  payload = row.payload;
  mutation_strategy = row.mutation_strategy;
  mutation_reason = row.mutation_reason;
  attempt = 0;
  max_retries = row.max_retries;
  enqueued_at = enqueued_at;
  priority_level = priority_level;
}

unfoldable pub is_startable : ScanStatus → Bool
is_startable pending = true
is_startable paused = true
is_startable _ = false

-- `scan.started_at or now`
unfoldable pub started_or : ℕ → Option ℕ → ℕ
started_or now none = now
started_or now (some t) = t

unfoldable pub started : (now : ℕ) → ScanRow → ScanRow
started now scan = record scan {
  status = running;
  started_at = some (started_or now scan.started_at);
}

-- The stats dict.
pub record Stats : Type 0 where
  pub queued_tasks : ℕ
  pub processing_tasks : ℕ
  pub retrying_tasks : ℕ
  pub success_tasks : ℕ
  pub failed_tasks : ℕ

-- stats[status] = count
unfoldable pub set_stat : TaskStatus → ℕ → Stats → Stats
set_stat queued n s = record s { queued_tasks = n }
set_stat processing n s = record s { processing_tasks = n }
set_stat retrying n s = record s { retrying_tasks = n }
set_stat success n s = record s { success_tasks = n }
set_stat failed n s = record s { failed_tasks = n }

unfoldable pub tally : List (TaskStatus × ℕ) → Stats × ℕ → Stats × ℕ
unfolding set_stat
tally [] (stats, total) = (stats, total)
tally ((status, count) ∷ rows) (stats, total) =
    tally rows (set_stat status count stats, total + count)

abbrev pub no_stats : Stats
no_stats = record {
  queued_tasks = 0;
  processing_tasks = 0;
  retrying_tasks = 0;
  success_tasks = 0;
  failed_tasks = 0;
}

pub record Progress : Type 0 where
  pub status : ScanStatus
  pub total_tasks : ℕ
  pub completed_tasks : ℕ
  pub failed_tasks : ℕ
  pub pending_tasks : ℕ

unfoldable pub progress_of : ScanStatus → Stats × ℕ → Progress
progress_of status (stats, total) = record {
  status = status;
  total_tasks = total;
  completed_tasks = stats.success_tasks;
  failed_tasks = stats.failed_tasks;
  pending_tasks = stats.queued_tasks + stats.processing_tasks + stats.retrying_tasks;
}

module _ {S T D : Type 0} (tables : Tables S T) (redis : Redis D) (queue_name : Text) where
  unfoldable pub start_scan : (scan_id : Text) (now : ℕ) → ScanRow → S → S
  start_scan scan_id now scan s =
      if is_startable scan.status then tables.set_scan scan_id (started now scan) s else s

  -- Each task comes with the identifier that its row gets.
  unfoldable pub add_tasks : (scan_id : Text) → List (Text × TaskSubmit) → T → T
  add_tasks scan_id [] t = t
  add_tasks scan_id ((i, d) ∷ tasks) t =
      add_tasks scan_id tasks (tables.add_task i (task_row scan_id d) t)

  unfoldable pub queue_payloads :
      (scan_id enqueued_at : Text) → List (Text × TaskSubmit) → List QueuePayload
  queue_payloads scan_id enqueued_at tasks =
      map
        (λ (p : Text × TaskSubmit).
          queue_payload enqueued_at p.0 (task_row scan_id p.1) p.1.priority_level)
        tasks

  -- The number of tasks of the message, and what is written; `enqueued_at` is the clock's text.
  unfoldable pub submit_found :
      (scan_id enqueued_at : Text) (now : ℕ)
      → List (Text × TaskSubmit)
      → ScanRow
      → Stores S T D
      → ℕ × Stores S T D
  submit_found scan_id enqueued_at now tasks scan w =
      let (published, d) =
        publish_batch redis queue_name (queue_payloads scan_id enqueued_at tasks) w.redis in
      (
        published,
        record {
          scans = start_scan scan_id now scan w.scans;
          tasks = add_tasks scan_id tasks w.tasks;
          redis = d;
        },
      )

  unfoldable pub submit_tasks :
      (scan_id enqueued_at : Text) (now : ℕ)
      → List (Text × TaskSubmit)
      → Stores S T D
      → Reply (ℕ × Stores S T D)
  submit_tasks scan_id enqueued_at now tasks w = elim (tables.find_scan scan_id w.scans) [
    | none ↦ raised 404 (txt "Scan not found")
    | some scan ↦ ok (submit_found scan_id enqueued_at now tasks scan w)
  ]

  unfoldable pub get_scan_progress : (scan_id : Text) → Stores S T D → Reply Progress
  get_scan_progress scan_id w = elim (tables.find_scan scan_id w.scans) [
    | none ↦ raised 404 (txt "Scan not found")
    | some scan ↦
        ok (progress_of scan.status (tally (tables.status_counts scan_id w.tasks) (no_stats, 0)))
  ]

  unfoldable pub delete_scan : (scan_id : Text) → Stores S T D → Reply (Stores S T D)
  delete_scan scan_id w = elim (tables.find_scan scan_id w.scans) [
    | none ↦ raised 404 (txt "Scan not found")
    | some scan ↦ ok (record w {
      scans = tables.delete_scan scan_id w.scans;
      tasks = tables.delete_tasks scan_id w.tasks;
    })
  ]
