-- ===== src/Store/Orphans.antt =====
-- `recover_orphan_tasks` at start-up.
use aite.Base.{
  if◌then◌else◌, keep, All, sort_by, IsSorted, sort_by-IsSorted, sort_by-Perm, map-Pairs, Picked,
  keep-Picked, Decides, Pairs, ℕ, ◌≡◌, refl, ◌⊎◌, inl, inr, Bool, true, false, Option, none, some,
  List, [], ◌∷◌, map, Perm, arith,
}
use aite.Base.Exec.{Result, err, ok}
use aite.Contracts.Phases.{IsOrphan}
use aite.Contracts.Session.{Task, TaskStatus}
use aite.Store.{Db, on_opened, recover_orphan_tasks, with_conn}
use aite.Store.Statements.{
  StoreError, Tables, TaskRow, fail_orphans, failed_orphan, is_orphan, orphan_row, task_key,
}

is_orphan-Decides : (s : TaskStatus) → Decides (is_orphan s) (IsOrphan s)
unfolding is_orphan
is_orphan-Decides TaskStatus.created = inl (refl, inl refl)
is_orphan-Decides TaskStatus.planning = inl (refl, inr (inl refl))
is_orphan-Decides TaskStatus.answering = inl (refl, inr (inr (inl refl)))
is_orphan-Decides TaskStatus.working = inl (refl, inr (inr (inr refl)))
is_orphan-Decides TaskStatus.awaiting_approval = inr (refl, λ h. ground arith)
is_orphan-Decides TaskStatus.delivered = inr (refl, λ h. ground arith)
is_orphan-Decides TaskStatus.failed = inr (refl, λ h. ground arith)
is_orphan-Decides TaskStatus.cancelled = inr (refl, λ h. ground arith)

-- The second task is the first, failed at this time with the summary of the recovery.
abbrev pub IsFailedAt : ℕ → Task → Task → Type 0
IsFailedAt now k l =
    (l.status ≡ TaskStatus.failed)
    × (l.result_summary ≡ "进程重启前该任务仍在执行，已终止。请重新发起。")
    × (l.updated_at ≡ now)
    × (record l { status = k.status; result_summary = k.result_summary; updated_at = k.updated_at }
        ≡ k)

-- A row before and after: an orphan is failed in it, any other row is as before.
abbrev pub RecoveredRow : ℕ → TaskRow → TaskRow → Type 0
RecoveredRow now r s =
    (IsOrphan r.task.status × IsFailedAt now r.task s.task × (s.created_at ≡ r.created_at))
    ⊎ (¬ IsOrphan r.task.status × (s ≡ r))

abbrev recovered : ℕ → TaskRow → TaskRow
recovered now r = if orphan_row r then record r { task = failed_orphan now r.task } else r

recovered-RecoveredRow : (now : ℕ) (r : TaskRow) → RecoveredRow now r (recovered now r)
recovered-RecoveredRow now r = elim (is_orphan-Decides r.task.status) [
  | inl (e, h) ↦ rw e (inl (h, (refl, refl, refl, refl), refl))
  | inr (e, n) ↦ rw e (inr (n, refl))
]

-- What `recover_orphan_tasks` promises on a database: an error leaves the tables as they were. A
-- success changes nothing but rows of tasks, each as above; its answer has, for each orphan in the
-- order of creation time and id, that task failed.
abbrev pub Recovers : ℕ → Option Tables → Result StoreError (List Task) × Db → Type 0
Recovers now o (err e, db) = db.conn ≡ o
Recovers now none (ok ks, db) = ⊥
Recovers now (some t) (ok ks, db) =
    (t' : Tables) × (db.conn ≡ some t')
    × (t' ≡ record t { tasks = t'.tasks })
    × Pairs (RecoveredRow now) t.tasks t'.tasks
    × All (λ s. ¬ IsOrphan s.task.status) t'.tasks
    × (orphans : List TaskRow) × Picked (λ r. IsOrphan r.task.status) t.tasks orphans
    × (rows : List TaskRow) × Perm rows orphans
    × IsSorted (λ r. (r.created_at, r.task.id)) rows
    × Pairs (λ r k. IsFailedAt now r.task k) rows ks

module _ (now : ℕ) where
  NoOrphans : (rows : List TaskRow) → All (λ s. ¬ IsOrphan s.task.status) (map (recovered now) rows)
  NoOrphans [] = tt
  NoOrphans (r ∷ rows) = elim (is_orphan-Decides r.task.status) [
    | inl (e, h) ↦ (rw e (λ k. ground arith), NoOrphans rows)
    | inr (e, n) ↦ (rw e n, NoOrphans rows)
  ]

  fail_orphans-Recovers :
      (faults : List Bool) (t : Tables)
      → Recovers now
          (some t)
          ((fail_orphans now t).0, record { conn = some (fail_orphans now t).1; faults = faults })
  unfolding fail_orphans
  fail_orphans-Recovers faults t =
      let orphans = keep orphan_row t.tasks in
      (
        (fail_orphans now t).1,
        refl,
        refl,
        map-Pairs (RecoveredRow now) (recovered now) (recovered-RecoveredRow now) t.tasks,
        NoOrphans t.tasks,
        orphans,
        keep-Picked orphan_row (λ r. IsOrphan r.task.status) (λ r. is_orphan-Decides r.task.status)
            t.tasks,
        sort_by task_key orphans,
        sort_by-Perm task_key orphans,
        sort_by-IsSorted task_key orphans,
        map-Pairs (λ r k. IsFailedAt now r.task k) (λ r. failed_orphan now r.task)
            (λ r. (refl, refl, refl, refl)) (sort_by task_key orphans),
      )

  on_opened-Recovers :
      (faults : List Bool) (o : Option Tables)
      → Recovers now o (on_opened (fail_orphans now) faults o)
  unfolding fail_orphans
  on_opened-Recovers faults none = refl
  on_opened-Recovers [] (some t) = fail_orphans-Recovers [] t
  on_opened-Recovers (true ∷ faults) (some t) = refl
  on_opened-Recovers (false ∷ faults) (some t) = fail_orphans-Recovers faults t

-- On any database, `recover_orphan_tasks` fails and leaves the tables as they were, or succeeds:
-- then each task that was created, planning, answering or working is failed in its row, with the
-- recovery's summary and time and all else of it kept; every other row and table is unchanged, and
-- no task is left in one of these statuses. The answer is the list of the tasks so failed, each
-- once, in the order of creation time and id.
pub recover_orphan_tasks-Recovers :
    (now : ℕ) (db : Db) → Recovers now db.conn (recover_orphan_tasks now db)
unfolding with_conn
recover_orphan_tasks-Recovers now db = on_opened-Recovers now db.faults db.conn
