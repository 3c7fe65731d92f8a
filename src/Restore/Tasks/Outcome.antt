-- ===== src/Restore/Tasks/Outcome.antt =====
-- What the restore tasks leave of the restore.
use backupsheep.Prelude.{
  ℕ, zero, suc, ◌+◌, ◌-◌, ◌*◌, ◌≤◌, ◌<◌, ◌≡◌, refl, sym, ◌∙◌, ap, true, [], ◌∷◌, ◌++◌, Option, none,
  some, ltb, find?, find-update, arith, Bool-cases, inl, inr,
}
use mathlib.Core.Path.{subst}
use backupsheep.Model.Status.{RestoreStatus}
use backupsheep.Model.Rows.{Text}
use backupsheep.Restore.Tasks.{
  Restore, Notice, Restores, RestoreEnd, restore_id, get_restore, save_restore, fail_with, failed,
  completed, begin_restore, after_engine, restore_found, restore_website_backup,
  restore_database_backup, timed_out, poll_restore_in_progress, poll_restore_answered,
  is_restore_over, restore_started, restore_polled, poll_restore_found, poll_cloud_restore,
  poll_restore_next, poll_restore_until,
}

-- What an engine leaves of a restore
abbrev pub ended : ℕ → Option Text → Restore → Restore
ended task none r = record r { status = RestoreStatus.complete; celery_task_id = some task }
ended task (some e) r = record r {
  status = RestoreStatus.failed;
  error = some e;
  celery_task_id = some task;
}

abbrev pub ended_notice : ℕ → Option Text → Notice
ended_notice i none = Notice.notify_restore_completed i
ended_notice i (some e) = Notice.notify_restore_failed i

found_again :
    (i : ℕ) (f : Restore → Restore) (db : Restores) (r : Restore)
    → ((x : Restore) → (f x).id ≡ x.id)
    → get_restore i db ≡ some r
    → get_restore i (save_restore i f db) ≡ some (f r)
unfolding get_restore save_restore
found_again i f db r keep h = find-update (restore_id i) f db.rows r (λ y. rw (keep y)) h

after_engine-ended :
    (i task : ℕ) (engine : Option Text) (db : Restores) (r : Restore)
    → get_restore i db ≡ some r
    → (get_restore i (after_engine i engine (begin_restore i task db)) ≡ some (ended task engine r))
      × ((after_engine i engine (begin_restore i task db)).notices
          ≡ (db.notices ++ Notice.notify_restore_started i ∷ []) ++ ended_notice i engine ∷ [])
unfolding after_engine begin_restore failed completed save_restore fail_with get_restore
after_engine-ended i task none db r found = (
  found_again i _ (begin_restore i task db) _ (λ x. refl) (found_again i _ db r (λ x. refl) found),
  refl,
)
after_engine-ended i task (some e) db r found = (
  found_again i _ (begin_restore i task db) _ (λ x. refl) (found_again i _ db r (λ x. refl) found),
  refl,
)

-- What one run leaves of the restore `r`: it has ended, and the members were told of the start and of
-- the end.
abbrev pub EndsAs : ℕ → ℕ → Option Text → Restores → Restore → Restores → Type 0
EndsAs i task engine db r after =
    (get_restore i after ≡ some (ended task engine r))
    × (after.notices
        ≡ (db.notices ++ Notice.notify_restore_started i ∷ []) ++ ended_notice i engine ∷ [])

-- A website restore and a database restore end in their one run: COMPLETE where the engine returns, and
-- FAILED with its error where it raises; in both cases the members are told of the start and of that
-- end, once each.
pub restores-ended :
    (i task : ℕ) (engine : Option Text) (db : Restores) (r : Restore)
    → get_restore i db ≡ some r
    → EndsAs i task engine db r (restore_website_backup i task engine db).1
      × EndsAs i task engine db r (restore_database_backup i task engine db).1
unfolding restore_website_backup restore_database_backup restore_found
restores-ended i task engine db r found = (
  rw found (after_engine-ended i task engine db r found),
  rw found (after_engine-ended i task engine db r found),
)

-- The restore has reached a final status.
abbrev pub IsOver : ℕ → Restores → Type 0
IsOver i db = (r : Restore) × ((get_restore i db ≡ some r) × (is_restore_over r.status ≡ true))

-- What one run leaves: a restore that is over, or the table as it was while the time is not over.
abbrev pub IsChecked : ℕ → ℕ → ℕ → Restores → RestoreEnd × Restores → Type 0
IsChecked i timeout started_at db (RestoreEnd.over, after) = IsOver i after
IsChecked i timeout started_at db (RestoreEnd.polls s, after) =
    (s ≡ some started_at)
    × ((after.rows ≡ db.rows) × ((after.now ≡ db.now) × (db.now - started_at ≤ timeout)))
IsChecked i timeout started_at db (_, after) = ⊥

module _ (i : ℕ) (db : Restores) (r : Restore) (found : get_restore i db ≡ some r) where
  failed-IsOver : (e : Option Text) → IsOver i (failed i e db)
  unfolding failed save_restore fail_with get_restore is_restore_over
  failed-IsOver e = (fail_with e r, (found_again i (fail_with e) db r (λ x. refl) found, refl))

  completed-IsOver : IsOver i (completed i db)
  unfolding completed save_restore get_restore is_restore_over
  completed-IsOver =
      (record r { status = RestoreStatus.complete }, (found_again i _ db r (λ x. refl) found, refl))

  in_progress-IsChecked :
      (timeout s : ℕ) → IsChecked i timeout s db (poll_restore_in_progress timeout s i db)
  unfolding poll_restore_in_progress
  in_progress-IsChecked timeout s = elim (Bool-cases (ltb timeout (db.now - s))) [
    | inl e ↦ rw e (failed-IsOver (some timed_out))
    | inr e ↦ rw e (refl, (refl, (refl, ground (arith, e))))
  ]

  answered-IsChecked :
      (timeout s : ℕ) (a : RestoreStatus)
      → IsChecked i timeout s db (poll_restore_answered timeout s a i r db)
  unfolding poll_restore_answered
  answered-IsChecked timeout s RestoreStatus.complete = completed-IsOver
  answered-IsChecked timeout s RestoreStatus.failed = failed-IsOver r.error
  answered-IsChecked timeout s _ = in_progress-IsChecked timeout s

  poll_cloud_restore-IsChecked :
      (timeout : ℕ) (answer : Option RestoreStatus) (started_at : Option ℕ)
      → IsChecked i timeout
          (restore_started started_at db)
          db
          (poll_cloud_restore timeout answer i started_at db)
  unfolding poll_cloud_restore poll_restore_found
  poll_cloud_restore-IsChecked timeout answer started_at =
      rw found (elim (Bool-cases (is_restore_over r.status)) [
        | inl e ↦ rw e (r, (found, e))
        | inr e ↦
            rw e
              (answered-IsChecked timeout (restore_started started_at db) (restore_polled answer))
      ])

-- The runs have come to a final status.
abbrev pub HasEnded : ℕ → Option Restores → Type 0
HasEnded i none = ⊥
HasEnded i (some db) = IsOver i db

next :
    (i timeout s seconds : ℕ) (db : Restores) (again : Option ℕ → Restores → Option Restores)
    → ((after : Restores)
        → after.rows ≡ db.rows
        → after.now ≡ db.now
        → db.now - s ≤ timeout
        → HasEnded i (again (some s) (record after { now = after.now + seconds })))
    → (x : RestoreEnd × Restores) → IsChecked i timeout s db x
    → HasEnded i (poll_restore_next again seconds x)
unfolding poll_restore_next
next i timeout s seconds db again rest (RestoreEnd.over, after) p = p
next i timeout s seconds db again rest (RestoreEnd.polls q, after) (same, (rows, (clock, early))) =
    subst (λ q. HasEnded i (again q (record after { now = after.now + seconds }))) (sym same)
      (rest after rows clock early)
next i timeout s seconds db again rest (RestoreEnd.does_not_exist, after) p = absurd p
next i timeout s seconds db again rest (RestoreEnd.crashed, after) p = absurd p

module _ (interval timeout : ℕ) (delay : ℕ → ℕ) (answer : ℕ → Option RestoreStatus) (i : ℕ) where
  poll_from :
      (n s : ℕ) (started_at : Option ℕ) (db : Restores) (r : Restore)
      → get_restore i db ≡ some r
      → restore_started started_at db ≡ s
      → timeout + s < db.now + n * interval
      → HasEnded i (poll_restore_until (suc n) interval timeout delay answer i started_at db)
  unfolding poll_restore_until get_restore
  poll_from zero s started_at db r found e late =
      next i timeout (restore_started started_at db) (interval + delay db.now) db
        (poll_restore_until zero interval timeout delay answer i)
        (λ after rows clock early. absurd (omega (arith, early, late, e)))
        (poll_cloud_restore timeout (answer db.now) i started_at db)
        (poll_cloud_restore-IsChecked i db r found timeout (answer db.now) started_at)
  poll_from (suc n) s started_at db r found e late =
      next i timeout (restore_started started_at db) (interval + delay db.now) db
        (poll_restore_until (suc n) interval timeout delay answer i)
        (λ after rows clock early.
          poll_from n s (some (restore_started started_at db))
            (record after { now = after.now + (interval + delay db.now) }) r
            (ap (find? (restore_id i)) rows ∙ found) e (omega (arith, clock, late)))
        (poll_cloud_restore timeout (answer db.now) i started_at db)
        (poll_cloud_restore-IsChecked i db r found timeout (answer db.now) started_at)

  -- The status checks of a restore end after at most `n + 1` runs, where `n` waits of `interval`
  -- seconds exceed the timeout, and then the restore is COMPLETE or FAILED, whatever the provider
  -- answers and however late the queue is.
  pub poll_restore_until-ends :
      (n : ℕ) (db : Restores) (r : Restore)
      → get_restore i db ≡ some r
      → timeout < n * interval
      → HasEnded i (poll_restore_until (suc n) interval timeout delay answer i none db)
  poll_restore_until-ends n db r found late =
      poll_from n db.now none db r found refl (omega (arith, late))
