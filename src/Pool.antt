-- ===== src/Pool.antt =====
-- WorkerPoolManager of executor/worker_manager/manager.py. An engine is the number of its object, since
-- `remove` compares by identity; that it runs in the background is not modelled. Which engines are idle
-- in a round, and the depth of the queues, are arguments.
pub mod Bounds
use integrated_work.Prelude.{
  ℕ, zero, suc, ◌+◌, ◌-◌, Bool, List, [], ◌∷◌, ◌++◌, keep, length, ltb, leb, ◌==◌, if◌then◌else◌,
}

pub record WorkerPool : Type 0 where
  pub min_workers : ℕ
  pub max_workers : ℕ
  pub active_engines : List ℕ
  pub running : Bool
  pub created : ℕ

-- _calculate_desired_workers
unfoldable pub desired_workers : WorkerPool → ℕ → ℕ
desired_workers p queue_depth =
    if leb 10000 queue_depth
    then 100
    else if leb 1000 queue_depth
    then 50
    else if leb 100 queue_depth
    then 10
    else if leb 10 queue_depth
    then 5
    else p.min_workers

-- for _ in range(count): …
unfoldable pub scale_up : ℕ → WorkerPool → WorkerPool
scale_up zero p = p
scale_up (suc count) p =
    let rest =
      scale_up count (record p {
        active_engines = p.active_engines ++ p.created ∷ [];
        created = p.created + 1;
      }) in
    if leb p.max_workers (length p.active_engines) then p else rest

-- self.active_engines.remove(engine)
unfoldable pub remove : ℕ → List ℕ → List ℕ
remove e [] = []
remove e (x ∷ xs) = if x == e then xs else x ∷ remove e xs

-- for engine in idle_engines: …
unfoldable pub stop_engines : ℕ → List ℕ → List ℕ → List ℕ
unfolding remove
stop_engines floor [] engines = engines
stop_engines floor (e ∷ idle) engines =
    let rest = stop_engines floor idle (remove e engines) in
    if leb (length engines) floor then engines else rest

unfoldable pub cleanup_idle_workers : (ℕ → Bool) → WorkerPool → WorkerPool
unfolding stop_engines keep
cleanup_idle_workers is_idle p = record p {
  active_engines = stop_engines p.min_workers (keep is_idle p.active_engines) p.active_engines;
}

-- min(desired - current, max - current), which is only added when positive
unfoldable pub to_add : (desired current max_workers : ℕ) → ℕ
to_add desired current max_workers =
    if ltb (max_workers - current) (desired - current)
    then max_workers - current
    else desired - current

-- One round of _monitor_loop.
unfoldable pub monitor : (ℕ → Bool) → ℕ → WorkerPool → WorkerPool
monitor is_idle queue_depth p =
    let cleaned = cleanup_idle_workers is_idle p in
    let current = length cleaned.active_engines in
    let desired = desired_workers cleaned queue_depth in
    if ltb current desired
    then scale_up (to_add desired current cleaned.max_workers) cleaned
    else cleaned

unfoldable pub start : WorkerPool → WorkerPool
unfolding scale_up
start p = scale_up p.min_workers (record p { running = Bool.true })

unfoldable pub stop : WorkerPool → WorkerPool
stop p = record p { active_engines = []; running = Bool.false }
