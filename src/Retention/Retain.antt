-- ===== src/Retention/Retain.antt =====
-- The retention of one completed backup, and the soft deletes it may be run with.
use backupsheep.Prelude.{
  ℕ, suc, ◌≤◌, ◌≡◌, refl, ap, Bool, true, false, ◌∙◌, ◌&&◌, List, [], ◌∷◌, Option, none, some,
  arith, ltb, lt→ltb, count, update, Bool-cases, inl, inr,
}
use Prim.Native.Nat.{min}
use backupsheep.Model.Status.{is_complete, in_active_statuses}
use backupsheep.Model.Rows.{StoragePoint, Backup, Schedule, Db, has_id, set_status}
use backupsheep.Node.{save_backup}
use backupsheep.Retention.{
  is_completed_of, expired, or_zero, retain_schedule, schedule_of, retain, files_deleted, log_point,
  log_points, StorageAnswer, SnapshotAnswer, snapshot_status, has_file, returns_early,
  files_soft_delete, cloud_soft_delete,
}
use backupsheep.Retention.Deletes.{was_asked, IsSoftDelete, count_le-soft_delete_all}
use backupsheep.Retention.Expiry.{expired-keep_last}

-- Retention puts no backup where a deleted one is not.
pub count_le-retain :
    (soft_delete : Backup → Db → Db) (d : IsSoftDelete soft_delete) (p : Backup → Bool) (b : Backup)
    (db : Db)
    → ((o x : Backup) → p (d.writes o x) ≡ false)
    → count p (retain soft_delete b db).backups ≤ count p db.backups
unfolding retain retain_schedule
count_le-retain soft_delete d p b db out = go (schedule_of b db)
  where
    go :
        (s : Option Schedule)
        → count p (retain_schedule soft_delete s db).backups ≤ count p db.backups
    go none = omega arith
    go (some s) = elim (Bool-cases (ltb 0 (or_zero s.keep_last))) [
      | inl e ↦ rw e (
          count_le-soft_delete_all soft_delete d p (expired s.id (or_zero s.keep_last) db.backups)
            db out)
      | inr e ↦ rw e (omega arith)
    ]

-- A completed backup of a schedule leaves the completed backups that the schedule is to keep.
pub retain-keep_last :
    (soft_delete : Backup → Db → Db) (d : IsSoftDelete soft_delete) (b : Backup) (db : Db)
    (s : Schedule) (k : ℕ)
    → schedule_of b db ≡ some s
    → s.keep_last ≡ some (suc k)
    → ((i : ℕ) → count (has_id i) db.backups ≤ 1)
    → count (is_completed_of s.id) (retain soft_delete b db).backups
      ≡ min (suc k) (count (is_completed_of s.id) db.backups)
unfolding retain retain_schedule
retain-keep_last soft_delete d b db s k scheduled keep ids = rw scheduled (
    rw keep (
      rw (lt→ltb 0 (suc k) (omega arith))
        (expired-keep_last soft_delete d s.id (suc k) db (omega arith) ids)))

log_point-backups :
    (answer : StoragePoint → StorageAnswer) (i : ℕ) (p : StoragePoint) (db : Db)
    → (log_point answer i p db).backups ≡ db.backups
unfolding log_point
log_point-backups answer i p db =
    elim (Bool-cases (has_file p && returns_early p.storage_code (answer p))) [
      | inl e ↦ rw e refl
      | inr e ↦ rw e refl
    ]

log_points-backups :
    (answer : StoragePoint → StorageAnswer) (i : ℕ) (ps : List StoragePoint) (db : Db)
    → (log_points answer i ps db).backups ≡ db.backups
unfolding log_points
log_points-backups answer i [] db = refl
log_points-backups answer i (p ∷ ps) db =
    log_points-backups answer i ps (log_point answer i p db) ∙ log_point-backups answer i p db

-- The soft delete of a website, a database or a SaaS backup, whatever the storages answer.
pub files_soft_delete-IsSoftDelete :
    (answer : StoragePoint → StorageAnswer) → IsSoftDelete (files_soft_delete answer)
unfolding files_soft_delete save_backup files_deleted in_active_statuses is_complete was_asked
files_soft_delete-IsSoftDelete answer = record {
  writes = λ b x. files_deleted answer x;
  row = λ b db.
      ap (update (has_id b.id) (files_deleted answer))
        (log_points-backups answer b.id b.storage_points db);
  not_completed = λ s b x. refl;
  not_in_flight = λ b x. refl;
  asked = λ b x. refl;
  id = λ b x. refl;
}

pub snapshot_status-asked :
    (a : SnapshotAnswer)
    → (in_active_statuses (snapshot_status a) ≡ false)
      × (is_complete (snapshot_status a) ≡ false)
      × (was_asked (snapshot_status a) ≡ true)
unfolding snapshot_status in_active_statuses is_complete was_asked
snapshot_status-asked SnapshotAnswer.deleted = (refl, refl, refl)
snapshot_status-asked SnapshotAnswer.not_found = (refl, refl, refl)
snapshot_status-asked SnapshotAnswer.failed = (refl, refl, refl)

-- The soft delete of a provider's snapshot, whatever the provider answers.
pub cloud_soft_delete-IsSoftDelete :
    (answer : ℕ → SnapshotAnswer) → IsSoftDelete (cloud_soft_delete answer)
unfolding cloud_soft_delete save_backup
cloud_soft_delete-IsSoftDelete answer = record {
  writes = λ b. set_status (snapshot_status (answer b.id));
  row = λ b db. refl;
  not_completed = λ s b x. rw (snapshot_status-asked (answer b.id)).1 refl;
  not_in_flight = λ b x. (snapshot_status-asked (answer b.id)).0;
  asked = λ b x. (snapshot_status-asked (answer b.id)).2;
  id = λ b x. refl;
}
