-- ===== src/Poll/Landing.antt =====
-- One run of `poll_cloud_backup`, and its runs until it is not queued again.
use backupsheep.Prelude.{
  ℕ, zero, suc, ◌+◌, ◌-◌, ◌*◌, ◌≤◌, ◌<◌, ◌≡◌, refl, sym, ◌∙◌, ap, true, false, not, ◌&&◌, List,
  Option, none, some, arith, ltb, count, find?, find_unique, find_some, Bool-cases, inl, inr,
  ==_iff,
}
use mathlib.Core.Path.{subst}
use backupsheep.Model.Status.{BackupStatus, in_active_statuses, in_terminal}
use backupsheep.Model.Rows.{Backup, Db, has_id, of_task, is_in_flight, set_status}
use backupsheep.Node.{
  save_backup, get_backup_from_celery_task_id, get_cloud_backup, set_task_status, activate,
  backup_complete_reset, backup_timeout_reset,
}
use backupsheep.Node.Resets.{set_task_status-found}
use backupsheep.Retention.Deletes.{IsSoftDelete}
use backupsheep.Retention.Retain.{count_le-retain}
use backupsheep.Finalize.Outcome.{landed, own_row_done}
use backupsheep.Poll.{
  PollEnd, polled, started, notify_fail, poll_complete, poll_failed, poll_in_progress,
  poll_answered, poll_found, poll_cloud_backup, wait, poll_next, poll_until,
}

-- The backup that is polled, and that its id and its task name it alone.
pub record IsPollable (i : ℕ) (backups : List Backup) : Type 0 where
  pub backup : Backup
  pub task : ℕ
  pub found : find? (has_id i) backups ≡ some backup
  pub its_task : backup.celery_task_id ≡ some task
  pub one_id : count (has_id i) backups ≤ 1
  pub one_task : count (of_task (some task)) backups ≤ 1

-- The backups in flight but for the polled one.
abbrev pub others_in_flight : ℕ → Db → ℕ
others_in_flight i db = count (λ x. is_in_flight x && not (has_id i x)) db.backups

-- What one run leaves of a table: when it is over, the backup has left the flight and no other has
-- entered it; when it is queued again, the table is as it was and the time is not over.
abbrev pub IsPolled : ℕ → ℕ → ℕ → Db → PollEnd × Db → Type 0
IsPolled i timeout started_at db (PollEnd.over, after) =
    count is_in_flight after.backups ≤ others_in_flight i db
IsPolled i timeout started_at db (PollEnd.requeued s, after) =
    (s ≡ started_at)
    × (after.backups ≡ db.backups)
    × (after.now ≡ db.now)
    × (db.now - started_at ≤ timeout)

terminal-not_in_flight : (s : BackupStatus) → in_terminal s ≡ true → in_active_statuses s ≡ false
unfolding in_terminal in_active_statuses
terminal-not_in_flight BackupStatus.complete h = refl
terminal-not_in_flight BackupStatus.failed h = refl
terminal-not_in_flight BackupStatus.timeout h = refl
terminal-not_in_flight BackupStatus.cancelled h = refl
terminal-not_in_flight BackupStatus.delete_requested h = refl
terminal-not_in_flight BackupStatus.delete_in_progress h = refl
terminal-not_in_flight BackupStatus.delete_completed h = refl
terminal-not_in_flight _ h = cc

module _ (i : ℕ) (db : Db) (h : IsPollable i db.backups) where
  id : h.backup.id ≡ i
  id = (==_iff h.backup.id i).0 (find_some (has_id i) db.backups h.backup h.found)

  -- The row of the polled backup leaves the flight.
  saved :
      (s : BackupStatus)
      → in_active_statuses s ≡ false
      → count is_in_flight (save_backup h.backup.id (set_status s) db).backups
        ≡ others_in_flight i db
  saved s done =
      landed h.backup.id s db done
      ∙ ap (λ j. count (λ x. is_in_flight x && not (has_id j x)) db.backups) id

  -- A reset by its task writes that row.
  reset :
      (s : BackupStatus)
      → set_task_status h.backup.celery_task_id s (activate db)
        ≡ save_backup h.backup.id (set_status s) (activate db)
  unfolding get_backup_from_celery_task_id activate
  reset s = set_task_status-found h.backup.celery_task_id s (activate db) h.backup (
      simp h.its_task (
        find_unique (has_id i) (of_task (some h.task)) db.backups h.backup h.found
          (rw h.its_task ((==_iff h.task h.task).1 refl)) h.one_task))

  reset_landed :
      (s : BackupStatus)
      → in_active_statuses s ≡ false
      → count is_in_flight (set_task_status h.backup.celery_task_id s (activate db)).backups
        ≡ others_in_flight i db
  unfolding save_backup activate
  reset_landed s done = ap (λ x. count is_in_flight x.backups) (reset s) ∙ saved s done

  in_progress-IsPolled :
      (timeout s : ℕ) → IsPolled i timeout s db (poll_in_progress timeout s h.backup db)
  unfolding poll_in_progress backup_timeout_reset notify_fail in_active_statuses
  in_progress-IsPolled timeout s = elim (Bool-cases (ltb timeout (db.now - s))) [
    | inl e ↦ rw e (omega (arith, reset_landed BackupStatus.timeout refl))
    | inr e ↦ rw e (refl, refl, refl, ground (arith, e))
  ]

  answered-IsPolled :
      (soft_delete : Backup → Db → Db) (d : IsSoftDelete soft_delete) (timeout s : ℕ)
      (a : BackupStatus)
      → IsPolled i timeout s db (poll_answered soft_delete timeout s a h.backup db)
  unfolding poll_answered poll_complete poll_failed notify_fail backup_complete_reset
      in_active_statuses activate save_backup
  answered-IsPolled soft_delete d timeout s BackupStatus.complete = omega (
    arith,
    count_le-retain soft_delete d is_in_flight h.backup
        (backup_complete_reset h.backup.celery_task_id db) d.not_in_flight,
    reset_landed BackupStatus.complete refl,
  )
  answered-IsPolled soft_delete d timeout s BackupStatus.failed =
      omega (arith, saved BackupStatus.failed refl)
  answered-IsPolled soft_delete d timeout s _ = in_progress-IsPolled timeout s

  -- One run of `poll_cloud_backup`, whatever the provider answers: when it is over the backup has left
  -- the flight, and no other backup has entered it; when the task is queued again the table is as it
  -- was, the time of the first run goes along, and the timeout has not passed.
  pub poll_cloud_backup-IsPolled :
      (soft_delete : Backup → Db → Db) (d : IsSoftDelete soft_delete) (timeout : ℕ)
      (answer : Option BackupStatus) (started_at : Option ℕ)
      → IsPolled i timeout
          (started started_at db)
          db
          (poll_cloud_backup soft_delete timeout answer i started_at db)
  unfolding poll_cloud_backup poll_found get_cloud_backup
  poll_cloud_backup-IsPolled soft_delete d timeout answer started_at =
      rw h.found (elim (Bool-cases (in_terminal h.backup.status)) [
        | inl e ↦ rw e (
            omega (
              arith,
              own_row_done i db h.backup h.found (terminal-not_in_flight h.backup.status e)
                  h.one_id,
            ))
        | inr e ↦
            rw e (answered-IsPolled soft_delete d timeout (started started_at db) (polled answer))
      ])

-- The runs have ended, with at most so many backups in flight.
abbrev pub HasEnded : ℕ → Option Db → Type 0
HasEnded limit none = ⊥
HasEnded limit (some after) = count is_in_flight after.backups ≤ limit

-- What follows a run, by what the run leaves.
next :
    (i timeout s seconds : ℕ) (db : Db) (again : ℕ → Db → Option Db)
    → ((after : Db)
        → after.backups ≡ db.backups
        → after.now ≡ db.now
        → db.now - s ≤ timeout
        → HasEnded (others_in_flight i db) (again s (wait seconds after)))
    → (x : PollEnd × Db) → IsPolled i timeout s db x
    → HasEnded (others_in_flight i db) (poll_next again seconds x)
unfolding poll_next
next i timeout s seconds db again rest (PollEnd.over, after) p = p
next i timeout s seconds db again rest (PollEnd.requeued r, after) (same, rows, clock, early) =
    subst (λ q. HasEnded (others_in_flight i db) (again q (wait seconds after))) (sym same)
      (rest after rows clock early)

module _ (interval timeout : ℕ) (soft_delete : Backup → Db → Db) (d : IsSoftDelete soft_delete)
    (delay : ℕ → ℕ) (answer : ℕ → Option BackupStatus) (i : ℕ) where
  -- From a first run at `s`, with time left for at most `n` more waits.
  poll_from :
      (n s : ℕ) (started_at : Option ℕ) (db : Db)
      → IsPollable i db.backups
      → started started_at db ≡ s
      → timeout + s < db.now + n * interval
      → HasEnded
          (others_in_flight i db)
          (poll_until (suc n) soft_delete interval timeout delay answer i started_at db)
  unfolding poll_until
  poll_from zero s started_at db h e late =
      next i timeout (started started_at db) (interval + delay db.now) db
        (λ q. poll_until zero soft_delete interval timeout delay answer i (some q))
        (λ after rows clock early. absurd (omega (arith, early, late, e)))
        (poll_cloud_backup soft_delete timeout (answer db.now) i started_at db)
        (poll_cloud_backup-IsPolled i db h soft_delete d timeout (answer db.now) started_at)
  poll_from (suc n) s started_at db h e late =
      next i timeout (started started_at db) (interval + delay db.now) db
        (λ q. poll_until (suc n) soft_delete interval timeout delay answer i (some q))
        (λ after rows clock early.
          subst
            (λ m. HasEnded m (
              poll_until (suc n) soft_delete interval timeout delay answer i
                (some (started started_at db)) (wait (interval + delay db.now) after)))
            (ap (λ bs. count (λ x. is_in_flight x && not (has_id i x)) bs) rows)
            (poll_from n s (some (started started_at db)) (wait (interval + delay db.now) after)
              (subst (IsPollable i) (sym rows) h) e (omega (arith, clock, late))))
        (poll_cloud_backup soft_delete timeout (answer db.now) i started_at db)
        (poll_cloud_backup-IsPolled i db h soft_delete d timeout (answer db.now) started_at)

  -- Whatever the provider answers and however late the queue is, the polling that starts with a first
  -- run ends after at most `n + 1` runs, where `n` waits of `interval` seconds exceed the timeout; the
  -- backup has left the flight then, and no other has entered it.
  pub poll_until-ends :
      (n : ℕ) (db : Db)
      → IsPollable i db.backups
      → timeout < n * interval
      → HasEnded
          (others_in_flight i db)
          (poll_until (suc n) soft_delete interval timeout delay answer i none db)
  poll_until-ends n db h late = poll_from n db.now none db h refl (omega (arith, late))
