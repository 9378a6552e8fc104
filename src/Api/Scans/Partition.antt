-- ===== src/Api/Scans/Partition.antt =====
-- The numbers of a progress report.
use integrated_work.Prelude.{
  ℕ, ◌+◌, ◌≡◌, ◌≢◌, refl, ◌∙◌, List, [], ◌∷◌, All, arith, Option-cases, inl, inr,
}
use integrated_work.Text.{Text}
use integrated_work.Auth.Tokens.{IfOk}
use integrated_work.Worker.Tables.{TaskStatus, queued, processing, retrying, success, failed}
use integrated_work.TaskQueue.{Redis}
use integrated_work.Api.Scans.{
  Tables, Stores, Stats, set_stat, tally, no_stats, Progress, progress_of, get_scan_progress,
}

abbrev rank : TaskStatus → ℕ
rank queued = 0
rank processing = 1
rank retrying = 2
rank success = 3
rank failed = 4

-- No status has two rows, as behind a GROUP BY.
abbrev pub Grouped : List (TaskStatus × ℕ) → Type 0
Grouped [] = Unit
Grouped ((s, n) ∷ rows) = All (λ (r : TaskStatus × ℕ). rank s ≢ rank r.0) rows × Grouped rows

stat : TaskStatus → Stats → ℕ
stat queued s = s.queued_tasks
stat processing s = s.processing_tasks
stat retrying s = s.retrying_tasks
stat success s = s.success_tasks
stat failed s = s.failed_tasks

sum_stats : Stats → ℕ
sum_stats s =
    s.queued_tasks + s.processing_tasks + s.retrying_tasks + s.success_tasks + s.failed_tasks

sum_stats-set_stat :
    (t : TaskStatus) (n : ℕ) (s : Stats)
    → stat t s ≡ 0
    → sum_stats (set_stat t n s) ≡ sum_stats s + n
unfolding sum_stats set_stat stat
sum_stats-set_stat queued n s h = omega (arith, h)
sum_stats-set_stat processing n s h = omega (arith, h)
sum_stats-set_stat retrying n s h = omega (arith, h)
sum_stats-set_stat success n s h = omega (arith, h)
sum_stats-set_stat failed n s h = omega (arith, h)

stat-set_stat :
    (t u : TaskStatus) (n : ℕ) (s : Stats) → rank t ≢ rank u → stat u (set_stat t n s) ≡ stat u s
unfolding set_stat stat
stat-set_stat t u n s h = ground arith

-- The rows' statuses are at zero.
abbrev Fresh : List (TaskStatus × ℕ) → Stats → Type 0
Fresh rows s = All (λ (r : TaskStatus × ℕ). stat r.0 s ≡ 0) rows

set_stat-Fresh :
    (t : TaskStatus) (n : ℕ) (s : Stats) (rows : List (TaskStatus × ℕ))
    → All (λ (r : TaskStatus × ℕ). rank t ≢ rank r.0) rows
    → Fresh rows s
    → Fresh rows (set_stat t n s)
set_stat-Fresh t n s [] g h = tt
set_stat-Fresh t n s ((u, m) ∷ rows) g h =
    (stat-set_stat t u n s g.0 ∙ h.0, set_stat-Fresh t n s rows g.1 h.1)

sum_stats-tally :
    (rows : List (TaskStatus × ℕ)) (s : Stats) (total : ℕ)
    → Grouped rows
    → Fresh rows s
    → sum_stats (tally rows (s, total)).0 + total ≡ sum_stats s + (tally rows (s, total)).1
unfolding tally
sum_stats-tally [] s total g h = refl
sum_stats-tally ((t, n) ∷ rows) s total g h = omega (
  arith,
  sum_stats-tally rows (set_stat t n s) (total + n) g.1 (set_stat-Fresh t n s rows g.0 h.1),
  sum_stats-set_stat t n s h.0,
)

none-Fresh : (rows : List (TaskStatus × ℕ)) → Fresh rows no_stats
unfolding stat
none-Fresh [] = tt
none-Fresh ((queued, n) ∷ rows) = (refl, none-Fresh rows)
none-Fresh ((processing, n) ∷ rows) = (refl, none-Fresh rows)
none-Fresh ((retrying, n) ∷ rows) = (refl, none-Fresh rows)
none-Fresh ((success, n) ∷ rows) = (refl, none-Fresh rows)
none-Fresh ((failed, n) ∷ rows) = (refl, none-Fresh rows)

parts_sum :
    (stats : Stats)
    → sum_stats stats
      ≡ stats.success_tasks
        + stats.failed_tasks
        + (stats.queued_tasks + stats.processing_tasks + stats.retrying_tasks)
unfolding sum_stats
parts_sum stats = omega arith

total_parts :
    (rows : List (TaskStatus × ℕ))
    → Grouped rows
    → let (stats, total) = tally rows (no_stats, 0) in
      total
      ≡ stats.success_tasks
        + stats.failed_tasks
        + (stats.queued_tasks + stats.processing_tasks + stats.retrying_tasks)
unfolding sum_stats
total_parts rows g = omega (
  arith,
  sum_stats-tally rows no_stats 0 g (none-Fresh rows),
  parts_sum (tally rows (no_stats, 0)).0,
)

module _ {S T D : Type 0} (tables : Tables S T) (redis : Redis D) (queue_name : Text) where
  -- When the query returns no status twice, the completed, the failed and the pending tasks of a
  -- progress report are together its tasks.
  pub total-get_scan_progress :
      (scan_id : Text) (w : Stores S T D)
      → Grouped (tables.status_counts scan_id w.tasks)
      → IfOk
          (λ (p : Progress). p.total_tasks ≡ p.completed_tasks + p.failed_tasks + p.pending_tasks)
          (get_scan_progress tables redis queue_name scan_id w)
  unfolding get_scan_progress progress_of
  total-get_scan_progress scan_id w g =
      let rows = tables.status_counts scan_id w.tasks in
      elim (Option-cases (tables.find_scan scan_id w.scans)) [
        | inl e ↦ rw (e, get_scan_progress) tt
        | inr (scan, e) ↦ rw (e, get_scan_progress) (total_parts rows g)
      ]
