-- ===== src/Finalize/Outcome.antt =====
-- What `finalize_backup` makes of a backup and of the completed backups of its schedule.
use backupsheep.Prelude.{
  none, ℕ, suc, ◌≤◌, ◌≡◌, refl, sym, ◌∙◌, ap, true, false, not, ◌&&◌, some, arith, count-update_one,
  ltb, count, count-update_out, count_split, find_some, Bool-cases, inl, inr, ==_iff,
  count-update_same, count_comm, count-found,
}
use Prim.Native.Nat.{min}
use backupsheep.Model.Status.{BackupStatus, is_complete, in_active_statuses}
use backupsheep.Model.Rows.{Backup, Schedule, Message, Db, has_id, is_in_flight, set_status}
use backupsheep.Node.Holding.{Holds}
use backupsheep.Node.Free.{active_backup-none, Holds-row, Holds-alone}
use backupsheep.Node.{active_backup, send, save_backup, get_cloud_backup}
use backupsheep.Retention.{is_completed_of, schedule_of}
use backupsheep.Retention.Deletes.{IsSoftDelete}
use backupsheep.Retention.Retain.{count_le-retain, retain-keep_last}
use backupsheep.Upload.{has_files_table}
use backupsheep.Finalize.{storage_points_uploaded, settle, finalize_found, finalize_backup}

-- A backup that is found complete is not in flight under its id.
complete-not_in_flight : (s : BackupStatus) → is_complete s ≡ true → in_active_statuses s ≡ false
unfolding in_active_statuses is_complete
complete-not_in_flight BackupStatus.complete h = refl
complete-not_in_flight _ h = cc

found_id : (i : ℕ) (db : Db) (b : Backup) → get_cloud_backup i db ≡ some b → b.id ≡ i
unfolding get_cloud_backup
found_id i db b h = (==_iff b.id i).0 (find_some (has_id i) db.backups b h)

-- The rows of the flight that a write of a landing status leaves.
pub landed :
    (i : ℕ) (s : BackupStatus) (db : Db)
    → in_active_statuses s ≡ false
    → count is_in_flight (save_backup i (set_status s) db).backups
      ≡ count (λ x. is_in_flight x && not (has_id i x)) db.backups
unfolding save_backup
landed i s db done = count-update_out is_in_flight (has_id i) (set_status s) db.backups (λ x. done)

pub own_row_done :
    (i : ℕ) (db : Db) (b : Backup)
    → get_cloud_backup i db ≡ some b
    → is_in_flight b ≡ false
    → count (has_id i) db.backups ≤ 1
    → count is_in_flight db.backups ≡ count (λ x. is_in_flight x && not (has_id i x)) db.backups
unfolding get_cloud_backup
own_row_done i db b found done one = omega (
  arith,
  one,
  count_split is_in_flight (has_id i) db.backups,
  count_comm is_in_flight (has_id i) db.backups,
  count_split (has_id i) is_in_flight db.backups,
  count-found (has_id i) (λ x. not (is_in_flight x)) db.backups b found (rw done),
)

-- The completed backups of a schedule, where one that was not complete gets so.
completes :
    (i : ℕ) (db : Db) (b : Backup) (s : ℕ)
    → get_cloud_backup i db ≡ some b
    → is_complete b.status ≡ false
    → b.schedule_id ≡ some s
    → count (has_id i) db.backups ≤ 1
    → count (is_completed_of s) (save_backup b.id (set_status BackupStatus.complete) db).backups
      ≡ suc (count (is_completed_of s) db.backups)
unfolding save_backup get_cloud_backup is_complete
completes i db b s found e own one =
    count-update_one (is_completed_of s) (has_id b.id) (set_status BackupStatus.complete) db.backups
      b (simp (found_id i db b found) found) (rw e) (rw own ((==_iff s s).1 refl))
      (rw (found_id i db b found) one)

module _ (soft_delete : Backup → Db → Db) (d : IsSoftDelete soft_delete) (i : ℕ) (db : Db)
    (b : Backup) (known : has_files_table db.node.type db.node.integration ≡ true)
    (found : get_cloud_backup i db ≡ some b) where
  settled : (finalize_backup soft_delete i db).1.backups ≡ (settle soft_delete b db).backups
  unfolding finalize_backup finalize_found
  settled = rw (known, found)

  -- After `finalize_backup` the backup is not in flight, whatever has become of its uploads, and no
  -- other backup has entered the flight: those in flight are at most the others that were.
  pub finalize_backup_lands :
      count (has_id i) db.backups ≤ 1
      → count is_in_flight (finalize_backup soft_delete i db).1.backups
        ≤ count (λ x. is_in_flight x && not (has_id i x)) db.backups
  unfolding settle in_active_statuses
  finalize_backup_lands one = rw settled (elim (Bool-cases (is_complete b.status)) [
    | inl e ↦
        rw e (omega (arith, own_row_done i db b found (complete-not_in_flight b.status e) one))
    | inr e ↦ elim (Bool-cases (ltb 0 (storage_points_uploaded b))) [
      | inl u ↦
          rw (e, u)
            (omega (
              arith,
              count_le-retain soft_delete d is_in_flight b
                  (send (Message.notify_backup_success b.id)
                    (save_backup b.id (set_status BackupStatus.complete) db))
                  d.not_in_flight,
              own (landed b.id BackupStatus.complete db refl),
            ))
      | inr u ↦ rw (e, u) (omega (arith, own (landed b.id BackupStatus.upload_failed db refl)))
    ]
  ])
    where
      own :
          {n : ℕ}
          → n ≡ count (λ x. is_in_flight x && not (has_id b.id x)) db.backups
          → n ≡ count (λ x. is_in_flight x && not (has_id i x)) db.backups
      own h = rw (sym (found_id i db b found)) h

  -- Where some upload succeeded and the backup was not complete yet, its schedule keeps, with this
  -- backup, `keep_last` completed backups, or all of them where there are fewer.
  finalize_backup_retains :
      (s : Schedule) (k : ℕ)
      → is_complete b.status ≡ false
      → ltb 0 (storage_points_uploaded b) ≡ true
      → schedule_of b db ≡ some s
      → b.schedule_id ≡ some s.id
      → s.keep_last ≡ some (suc k)
      → ((j : ℕ) → count (has_id j) db.backups ≤ 1)
      → count (is_completed_of s.id) (finalize_backup soft_delete i db).1.backups
        ≡ min (suc k) (suc (count (is_completed_of s.id) db.backups))
  unfolding settle
  finalize_backup_retains s k e u scheduled own keep ids = rw settled (
      rw (e, u)
        (retain-keep_last soft_delete d b after s k scheduled keep (λ j.
            unfold save_backup in
            omega (
              arith,
              ids j,
              count-update_same (has_id j) (has_id b.id) (set_status BackupStatus.complete)
                  db.backups (λ x. refl),
            ))
          ∙ ap (min (suc k)) (completes i db b s.id found e own (ids i))))
    where
      after : Db
      after =
          send (Message.notify_backup_success b.id)
            (save_backup b.id (set_status BackupStatus.complete) db)

-- Where a task holds the backup, `finalize_backup` leaves the node free for the next backup: the guard
-- lets every task pass, whatever has become of the uploads.
pub finalize_backup_frees :
    (soft_delete : Backup → Db → Db) (d : IsSoftDelete soft_delete) (t i : ℕ) (db : Db)
    → has_files_table db.node.type db.node.integration ≡ true
    → Holds t i db
    → (u : ℕ) → active_backup u (finalize_backup soft_delete i db).1 ≡ none
finalize_backup_frees soft_delete d t i db known h u =
    let (b, (found, task)) = Holds-row t i db h in
    active_backup-none u (finalize_backup soft_delete i db).1 (
      omega (
        arith,
        finalize_backup_lands soft_delete d i db b known (unfold get_cloud_backup in found)
            (h.serialized.ids i),
        Holds-alone t i db h,
      ))
