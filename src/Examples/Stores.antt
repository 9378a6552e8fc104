-- ===== src/Examples/Stores.antt =====
-- Stores that meet the laws, a scan and a task.
use integrated_work.Prelude.{
  ℕ, suc, ◌≡◌, Bool, ◌&&◌, ◌||◌, none, some, List, [], ◌∷◌, any, if◌then◌else◌, arith,
}
use integrated_work.Text.{Text, txt, text_eq}
use integrated_work.Text.Laws.{text_eq_refl}
use integrated_work.Dict.{Dict, get, put}
use integrated_work.Dict.Laws.{get-put}
use integrated_work.Json.{null}
use integrated_work.Worker.Tables.{
  TaskStatus, queued, running, Task, Scan, SavedResponse, QueuePayload, Event, Services, World,
}

abbrev pub statuses_of : Text → Dict Task → List TaskStatus
statuses_of k [] = []
statuses_of k ((j, t) ∷ d) =
    let rest = statuses_of k d in if text_eq t.scan_id k then t.status ∷ rest else rest

abbrev pub statuses_without : Text → Text → Dict Task → List TaskStatus
statuses_without i k [] = []
statuses_without i k ((j, t) ∷ d) =
    let rest = statuses_without i k d in
    if text_eq j i then statuses_of k d else if text_eq t.scan_id k then t.status ∷ rest else rest

pub any-statuses_of-put :
    (f : TaskStatus → Bool) (i k : Text) (t u : Task) (d : Dict Task)
    → get i d ≡ some u
    → any f (statuses_of k (put i t d))
      ≡ ((text_eq t.scan_id k && f t.status) || any f (statuses_without i k d))
unfolding get put any
any-statuses_of-put f i k t u [] h = cc
any-statuses_of-put f i k t u ((j, v) ∷ d) h = ground (arith, any-statuses_of-put f i k t u d)

pub statuses_without-put :
    (i k : Text) (t : Task) (d : Dict Task)
    → statuses_without i k (put i t d) ≡ statuses_without i k d
unfolding put
statuses_without-put i k t [] = ground (arith, text_eq_refl i)
statuses_without-put i k t ((j, v) ∷ d) = ground (arith, statuses_without-put i k t d)

abbrev pub stores : Services (Dict Task) (Dict Scan) (Dict SavedResponse) (List Event) ℕ
stores = record {
  is_uuid = λ i. text_eq i (txt "task-1");
  find_task = get;
  set_task = put;
  find-set_task = λ i j t d. get-put j i t d;
  statuses = statuses_of;
  other_statuses = statuses_without;
  any-statuses-set_task = any-statuses_of-put;
  other_statuses-set_task = statuses_without-put;
  find_scan = get;
  set_scan = put;
  find-set_scan = λ i j t d. get-put j i t d;
  find_response = get;
  add_response = put;
  change_response = put;
  publish = λ e q. e ∷ q;
  schedule_delayed = λ p n q. q;
  send_to_dlq = λ p r q. q;
  report_429 = λ url n. suc n;
  now = λ q. 100;
}

abbrev pub task : Task
task = record { scan_id = txt "scan-1"; status = queued; attempts = 0 }

abbrev pub scan : Scan
scan = record { status = running; finished_at = none }

abbrev pub world : World (Dict Task) (Dict Scan) (Dict SavedResponse) (List Event) ℕ
world = record {
  tasks = (txt "task-1", task) ∷ [];
  scans = (txt "scan-1", scan) ∷ [];
  responses = [];
  queue = [];
  limiter = 0;
}

abbrev pub payload : QueuePayload
payload = record {
  task_id = txt "task-1";
  scan_id = txt "scan-1";
  method = txt "GET";
  url = txt "http://api/users/42";
  headers = none;
  payload = null;
  mutation_strategy = none;
  mutation_reason = none;
  attempt = 0;
  max_retries = 3;
  enqueued_at = txt "2026";
  priority_level = txt "P3";
}
