-- ===== src/Examples/Pools.antt =====
-- A pool of two engines.
use integrated_work.Prelude.{◌≡◌, ◌≤◌, refl, true, [], ◌∷◌, ◌==◌, arith}
use integrated_work.Pool.{WorkerPool, desired_workers, start, monitor}
use integrated_work.Pool.Bounds

abbrev pool : WorkerPool
pool = record {
  min_workers = 1;
  max_workers = 8;
  active_engines = 0 ∷ 1 ∷ [];
  running = true;
  created = 2;
}

started : (start pool).active_engines ≡ 0 ∷ 1 ∷ 2 ∷ []
unfolding start
started = refl

asked : desired_workers pool 1000 ≡ 50
unfolding desired_workers
asked = refl

monitor_bounds_example :
    (Bounds.size (monitor (λ e. e == 0) 20 pool) ≤ 8)
    × (Bounds.smaller (desired_workers pool 20) 8 ≤ Bounds.size (monitor (λ e. e == 0) 20 pool))
    × (Bounds.size (monitor (λ e. e == 0) 20 pool) ≤ 5)
    × (1 ≤ Bounds.size pool → 1 ≤ Bounds.size (monitor (λ e. e == 0) 20 pool))
unfolding desired_workers
monitor_bounds_example = Bounds.monitor_bounds (λ e. e == 0) 20 pool (omega arith)
