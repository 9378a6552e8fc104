-- ===== src/Pool/Bounds.antt =====
-- How many engines a pool runs, and which of them it stops.
use integrated_work.Prelude.{
  ℕ, zero, suc, ◌+◌, ◌≡◌, ◌≤◌, ◌<◌, refl, ap, ◌∙◌, Bool, true, false, ◌||◌, List, [], ◌∷◌, ◌++◌,
  keep, any, length, length-append, ltb, ◌==◌, if◌then◌else◌, arith,
}
use integrated_work.Pool.{
  WorkerPool, desired_workers, scale_up, remove, stop_engines, cleanup_idle_workers, to_add,
  monitor,
}

abbrev pub size : WorkerPool → ℕ
size p = length p.active_engines

abbrev pub smaller : ℕ → ℕ → ℕ
smaller a b = if ltb a b then a else b

-- As many engines as asked for are added, up to the maximum.
size-scale_up :
    (n : ℕ) (p : WorkerPool)
    → size p ≤ p.max_workers
    → size (scale_up n p) ≡ smaller (size p + n) p.max_workers
unfolding scale_up
size-scale_up zero p h = ground arith
size-scale_up (suc n) p h =
    let next : WorkerPool = record p {
      active_engines = p.active_engines ++ p.created ∷ [];
      created = p.created + 1;
    } in
    ground (arith, size-scale_up n next, length-append p.active_engines (p.created ∷ []))

length-remove-le : (e : ℕ) (xs : List ℕ) → length (remove e xs) ≤ length xs
unfolding remove
length-remove-le e [] = omega arith
length-remove-le e (x ∷ xs) = ground (arith, length-remove-le e xs)

le-length-remove : (e : ℕ) (xs : List ℕ) → length xs ≤ length (remove e xs) + 1
unfolding remove
le-length-remove e [] = omega arith
le-length-remove e (x ∷ xs) = ground (arith, le-length-remove e xs)

length-stop_engines-le :
    (floor : ℕ) (idle xs : List ℕ) → length (stop_engines floor idle xs) ≤ length xs
unfolding stop_engines
length-stop_engines-le floor [] xs = omega arith
length-stop_engines-le floor (e ∷ idle) xs =
    ground (arith, length-stop_engines-le floor idle (remove e xs), length-remove-le e xs)

floor-stop_engines :
    (floor : ℕ) (idle xs : List ℕ) → floor ≤ length xs → floor ≤ length (stop_engines floor idle xs)
unfolding stop_engines
floor-stop_engines floor [] xs h = h
floor-stop_engines floor (e ∷ idle) xs h =
    ground (arith, floor-stop_engines floor idle (remove e xs), le-length-remove e xs)

-- An engine is in a list.
abbrev pub member : ℕ → List ℕ → Bool
member e xs = any (λ x. x == e) xs

member-remove : (k e : ℕ) (xs : List ℕ) → (e == k) ≡ false → member k (remove e xs) ≡ member k xs
unfolding remove any
member-remove k e [] h = refl
member-remove k e (x ∷ xs) h = ground (arith, member-remove k e xs)

member-stop_engines :
    (k floor : ℕ) (idle xs : List ℕ)
    → member k idle ≡ false
    → member k (stop_engines floor idle xs) ≡ member k xs
unfolding stop_engines any
member-stop_engines k floor [] xs h = refl
member-stop_engines k floor (e ∷ idle) xs h =
    ground (arith, member-stop_engines k floor idle (remove e xs), member-remove k e xs)

member-keep : (k : ℕ) (f : ℕ → Bool) (xs : List ℕ) → f k ≡ false → member k (keep f xs) ≡ false
unfolding keep any
member-keep k f [] h = refl
member-keep k f (x ∷ xs) h = ground (arith, member-keep k f xs h, λ (e : x ≡ k). ap f e)

member-append : (k : ℕ) (xs ys : List ℕ) → member k (xs ++ ys) ≡ (member k xs || member k ys)
unfolding any
member-append k [] ys = refl
member-append k (x ∷ xs) ys = ground (arith, member-append k xs ys)

member-scale_up :
    (k n : ℕ) (p : WorkerPool)
    → member k p.active_engines ≡ true
    → member k (scale_up n p).active_engines ≡ true
unfolding scale_up
member-scale_up k zero p h = h
member-scale_up k (suc n) p h =
    let next : WorkerPool = record p {
      active_engines = p.active_engines ++ p.created ∷ [];
      created = p.created + 1;
    } in
    ground (arith, member-scale_up k n next, member-append k p.active_engines (p.created ∷ []))

module _ (is_idle : ℕ → Bool) (queue_depth : ℕ) (p : WorkerPool) where
  abbrev cleaned : WorkerPool
  cleaned = cleanup_idle_workers is_idle p

  size-cleaned : size cleaned ≤ size p
  unfolding cleanup_idle_workers
  size-cleaned =
      length-stop_engines-le p.min_workers (keep is_idle p.active_engines) p.active_engines

  max-cleaned : cleaned.max_workers ≡ p.max_workers
  unfolding cleanup_idle_workers
  max-cleaned = refl

  desired-cleaned : desired_workers cleaned queue_depth ≡ desired_workers p queue_depth
  unfolding cleanup_idle_workers desired_workers
  desired-cleaned = refl

  floor-cleaned : p.min_workers ≤ size p → p.min_workers ≤ size cleaned
  unfolding cleanup_idle_workers
  floor-cleaned h =
      floor-stop_engines p.min_workers (keep is_idle p.active_engines) p.active_engines h

  size-added :
      (d m : ℕ)
      → cleaned.max_workers ≡ m
      → size cleaned ≤ m
      → size cleaned < d
      → size (scale_up (to_add d (size cleaned) m) cleaned) ≡ smaller d m
  unfolding to_add
  size-added d m e h l = ground (arith, size-scale_up (to_add d (size cleaned) m) cleaned)

  size-monitor :
      size p ≤ p.max_workers
      → size (monitor is_idle queue_depth p) ≡ (
          if ltb (size cleaned) (desired_workers p queue_depth)
          then smaller (desired_workers p queue_depth) p.max_workers
          else size cleaned)
  unfolding monitor
  size-monitor h = ground (
    arith,
    max-cleaned,
    desired-cleaned,
    size-cleaned,
    size-added (desired_workers p queue_depth) p.max_workers max-cleaned,
  )

  -- After a round a pool that kept its maximum keeps it; it has at least as many engines as the policy
  -- asks for, or its maximum where that is less; it has no more than the larger of this number and its
  -- size before, so that a pool that had no more than this number has exactly it; and it has its minimum
  -- if it had it before.
  pub monitor_bounds :
      size p ≤ p.max_workers
      → let target = smaller (desired_workers p queue_depth) p.max_workers in
        let later = size (monitor is_idle queue_depth p) in
        (later ≤ p.max_workers)
        × (target ≤ later)
        × (later ≤ (if ltb (size p) target then target else size p))
        × (p.min_workers ≤ size p → p.min_workers ≤ later)
  monitor_bounds h = (
    ground (arith, size-monitor, size-cleaned),
    ground (arith, size-monitor, size-cleaned),
    ground (arith, size-monitor, size-cleaned),
    λ m. ground (arith, size-monitor, size-cleaned, floor-cleaned),
  )

  busy-cleaned :
      (k : ℕ) → is_idle k ≡ false → member k cleaned.active_engines ≡ member k p.active_engines
  unfolding cleanup_idle_workers
  busy-cleaned k f =
      member-stop_engines k p.min_workers (keep is_idle p.active_engines) p.active_engines
        (member-keep k is_idle p.active_engines f)

  -- An engine that is not idle is still there after a round.
  pub busy-monitor :
      (k : ℕ)
      → is_idle k ≡ false
      → member k p.active_engines ≡ true
      → member k (monitor is_idle queue_depth p).active_engines ≡ true
  unfolding monitor
  busy-monitor k f h =
      let d = desired_workers cleaned queue_depth in
      let here : member k cleaned.active_engines ≡ true = busy-cleaned k f ∙ h in
      ground (arith, member-scale_up k (to_add d (size cleaned) cleaned.max_workers) cleaned here)
