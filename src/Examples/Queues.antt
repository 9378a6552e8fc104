-- ===== src/Examples/Queues.antt =====
-- A Redis that meets the laws: lists by their keys, and one sorted set, all of it due.
use integrated_work.Prelude.{
  ◌≡◌, refl, Option, none, some, List, [], ◌∷◌, ◌++◌, map, take, if◌then◌else◌, arith,
}
use integrated_work.Text.{Text, txt, text_eq}
use integrated_work.Text.Laws.{text_eq_iff}
use integrated_work.Dict.{Dict, get, put}
use integrated_work.Dict.Laws.{get-put}
use integrated_work.Worker.Tables.{QueuePayload}
use integrated_work.TaskQueue.{
  Redis, get_priority_queue, get_poll_queues, publish_batch, route_due, process_delayed_tasks,
}
use integrated_work.TaskQueue.Delivery
use integrated_work.Examples.Stores.{payload}

abbrev pub Lists : Type 0
Lists = Dict (List Text) × List Text

abbrev pub list_at : Text → Lists → List Text
list_at k d = elim (get k d.0) [ none ↦ [] | some xs ↦ xs ]

pub list_at-put :
    (j k : Text) (xs : List Text) (d : Lists)
    → list_at k (put j (list_at j d ++ xs) d.0, d.1)
      ≡ (if text_eq j k then list_at k d ++ xs else list_at k d)
list_at-put j k xs d = ground (arith, get-put k j (list_at j d ++ xs) d.0, text_eq_iff j k)

-- The first list that has an item.
abbrev pub popped : List Text → Lists → Option (Text × Text) × Lists
popped [] d = (none, d)
popped (k ∷ ks) d = elim (list_at k d) [
  | [] ↦ popped ks d
  | x ∷ xs ↦ (some (k, x), (put k xs d.0, d.1))
]

abbrev pub redis : Redis Lists
redis = record {
  encode = λ p. p.task_id;
  decode = λ t. some (record payload { task_id = t });
  items = list_at;
  rpush = λ k xs d. (put k (list_at k d ++ xs) d.0, d.1);
  items-rpush = list_at-put;
  due = λ k now d. d.1;
  zadd = λ k x score d. (d.0, d.1 ++ x ∷ []);
  zremrangebyscore = λ k now d. (d.0, []);
  due-zremrangebyscore = λ k now d. refl;
  items-zremrangebyscore = λ j k now d. refl;
  blpop = popped;
}

abbrev urgent : QueuePayload
urgent = record payload { task_id = txt "task-2"; priority_level = txt "p1" }

routed_urgent : get_priority_queue (txt "q") urgent.priority_level ≡ txt "q:critical"
unfolding get_priority_queue
routed_urgent = refl

polled :
    get_poll_queues (txt "q") 6000
    ≡ txt "q:high" ∷ txt "q:critical" ∷ txt "q:medium" ∷ txt "q:low" ∷ []
unfolding get_poll_queues
polled = refl

items-publish_batch_example :
    list_at (txt "q:critical") (publish_batch redis (txt "q") (payload ∷ urgent ∷ []) ([], [])).1
    ≡ list_at
        (txt "q:critical")
        (Delivery.published redis (txt "q") (payload ∷ urgent ∷ []) ([], []))
items-publish_batch_example =
    Delivery.items-publish_batch redis (txt "q") (txt "q:critical") (payload ∷ urgent ∷ []) ([], [])

items-process_delayed_tasks_example :
    (list_at (txt "q:medium") (process_delayed_tasks redis (txt "q") 10 ([], txt "task-1" ∷ []))
      ≡ list_at (txt "q:medium") ([], txt "task-1" ∷ [])
        ++ Delivery.sent_to (txt "q:medium") ((txt "q:medium", txt "task-1") ∷ []))
    × (map (λ (p : Text × Text). p.1) ((txt "q:medium", txt "task-1") ∷ [])
        ≡ take 50 (txt "task-1" ∷ []))
    × (redis.due
          (Delivery.delayed redis (txt "q"))
          10
          (process_delayed_tasks redis (txt "q") 10 ([], txt "task-1" ∷ []))
        ≡ [])
unfolding route_due get_priority_queue
items-process_delayed_tasks_example =
    Delivery.items-process_delayed_tasks redis (txt "q") (txt "q:medium") 10
      ((txt "q:medium", txt "task-1") ∷ []) ([], txt "task-1" ∷ []) refl refl
