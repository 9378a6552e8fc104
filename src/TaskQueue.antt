-- ===== src/TaskQueue.antt =====
-- QueuePublisher and QueueConsumer of executor/task_queue/publisher.py and consumer.py. Redis and the
-- JSON of a payload are parameters; every command of Redis succeeds. Times are in seconds.
pub mod Delivery
use integrated_work.Prelude.{
  ℕ, ◌+◌, ◌≡◌, Bool, Option, none, some, List, [], ◌∷◌, ◌++◌, map, take, length, nonempty, ltb,
  if◌then◌else◌, ◌>>=◌,
}
use integrated_work.Text.{Text, txt, text_eq, upper}
use integrated_work.Dict.{Dict, get, put}
use integrated_work.Worker.Tables.{QueuePayload}

pub record Redis (D : Type 0) : Type 0 where
  -- model_dump_json, and model_validate_json, which may raise.
  pub encode : QueuePayload → Text
  pub decode : Text → Option QueuePayload
  -- A list, and RPUSH to it.
  pub items : Text → D → List Text
  pub rpush : Text → List Text → D → D
  pub items-rpush :
      (j k : Text) (xs : List Text) (d : D)
      → items k (rpush j xs d) ≡ (if text_eq j k then items k d ++ xs else items k d)
  -- The members of a sorted set up to a score, in the order of the scores; ZADD and ZREMRANGEBYSCORE.
  pub due : Text → ℕ → D → List Text
  pub zadd : Text → Text → ℕ → D → D
  pub zremrangebyscore : Text → ℕ → D → D
  pub due-zremrangebyscore :
      (k : Text) (now : ℕ) (d : D) → due k now (zremrangebyscore k now d) ≡ []
  pub items-zremrangebyscore :
      (j k : Text) (now : ℕ) (d : D) → items k (zremrangebyscore j now d) ≡ items k d
  -- BLPOP: the first item of the first of the lists that has one, or none at the timeout.
  pub blpop : List Text → D → Option (Text × Text) × D

-- _get_priority_queue, of the publisher and of the consumer.
unfoldable pub get_priority_queue : Text → Text → Text
unfolding text_eq upper
get_priority_queue queue_name priority_level =
    let level = upper priority_level in
    if text_eq level (txt "P1")
    then queue_name ++ txt ":critical"
    else if text_eq level (txt "P2")
    then queue_name ++ txt ":high"
    else if text_eq level (txt "P3")
    then queue_name ++ txt ":medium"
    else if text_eq level (txt "P4")
    then queue_name ++ txt ":low"
    else queue_name ++ txt ":medium"

-- grouped[queue].append(data), of a defaultdict(list)
unfoldable pub grouped_at : Text → Dict (List Text) → List Text
unfolding get
grouped_at k g = elim (get k g) [ none ↦ [] | some xs ↦ xs ]

unfoldable pub group_from : List (Text × Text) → Dict (List Text) → Dict (List Text)
unfolding grouped_at put
group_from [] g = g
group_from ((k, text) ∷ rest) g = group_from rest (put k (grouped_at k g ++ text ∷ []) g)

-- _get_poll_queues, for r in ten-thousandths.
unfoldable pub get_poll_queues : Text → ℕ → List Text
get_poll_queues queue_name r =
    let q_critical = queue_name ++ txt ":critical" in
    let q_high = queue_name ++ txt ":high" in
    let q_medium = queue_name ++ txt ":medium" in
    let q_low = queue_name ++ txt ":low" in
    if ltb r 6000
    then q_critical ∷ q_high ∷ q_medium ∷ q_low ∷ []
    else if ltb r 8500
    then q_high ∷ q_critical ∷ q_medium ∷ q_low ∷ []
    else if ltb r 9500
    then q_medium ∷ q_critical ∷ q_high ∷ q_low ∷ []
    else q_low ∷ q_critical ∷ q_high ∷ q_medium ∷ []

module _ {D : Type 0} (redis : Redis D) (queue_name : Text) where
  -- The queue and the text of a payload.
  unfoldable pub routed : QueuePayload → Text × Text
  routed p = (get_priority_queue queue_name p.priority_level, redis.encode p)

  unfoldable pub publish : QueuePayload → D → Bool × D
  unfolding routed
  publish p d = (Bool.true, redis.rpush (routed p).0 ((routed p).1 ∷ []) d)

  -- for target_q, data_list in grouped.items(): …
  unfoldable pub push_all : Dict (List Text) → D → D
  push_all [] d = d
  push_all ((k, data_list) ∷ g) d = push_all g (redis.rpush k data_list d)

  unfoldable pub publish_batch : List QueuePayload → D → ℕ × D
  unfolding push_all group_from
  publish_batch [] d = (0, d)
  publish_batch (p ∷ payloads) d =
      (length (p ∷ payloads), push_all (group_from (map routed (p ∷ payloads)) []) d)

  unfoldable pub schedule_delayed : (now delay_seconds : ℕ) → QueuePayload → D → Bool × D
  schedule_delayed now delay_seconds p d = (
    Bool.true,
    redis.zadd (queue_name ++ txt ":delayed") (redis.encode p) (now + delay_seconds) d,
  )

  -- The queue of each text that is due; a text that is no payload raises.
  unfoldable pub route_due : List Text → Option (List (Text × Text))
  route_due [] = some []
  route_due (task_json ∷ rest) = do
    payload ← redis.decode task_json
    later ← route_due rest
    some ((get_priority_queue queue_name payload.priority_level, task_json) ∷ later)

  -- The pipeline; where the payloads raised, nothing is written.
  unfoldable pub move_due : ℕ → Option (List (Text × Text)) → D → D
  unfolding push_all group_from
  move_due now none d = d
  move_due now (some pairs) d =
      redis.zremrangebyscore (queue_name ++ txt ":delayed") now (push_all (group_from pairs []) d)

  unfoldable pub process_delayed_tasks : ℕ → D → D
  unfolding route_due move_due
  process_delayed_tasks now d =
      let due_tasks = take 50 (redis.due (queue_name ++ txt ":delayed") now d) in
      if nonempty due_tasks then move_due now (route_due due_tasks) d else d

  -- `r` is random.random(); a text that is no payload raises, and the item is gone.
  unfoldable pub consume : (now r : ℕ) → D → Option QueuePayload × D
  unfolding process_delayed_tasks get_poll_queues
  consume now r d =
      let (result, e) = redis.blpop (get_poll_queues queue_name r) (process_delayed_tasks now d) in
      (result >>= λ kv. redis.decode kv.1, e)
