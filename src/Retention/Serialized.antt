-- ===== src/Retention/Serialized.antt =====
-- Soft deletes and retention, and the table of the node.
use backupsheep.Prelude.{
  ℕ, refl, ◌&&◌, List, [], ◌∷◌, Option, none, some, ltb, Bool-cases, inl, inr,
}
use backupsheep.Model.Status.{in_active_statuses}
use backupsheep.Model.Rows.{StoragePoint, Backup, Schedule, Db, has_id, set_status}
use backupsheep.Node.{save_backup}
use backupsheep.Node.Rows.{set_status-KeepsKeys, update-IsSerialized_done}
use backupsheep.Node.Holding.{IsSerializedDb}
use backupsheep.Retention.{
  or_zero, expired, soft_delete_all, retain_schedule, schedule_of, retain, files_deleted, log_point,
  log_points, StorageAnswer, SnapshotAnswer, snapshot_status, has_file, returns_early,
  files_soft_delete, cloud_soft_delete,
}
use backupsheep.Retention.Retain.{snapshot_status-asked}

-- A soft delete that keeps the table of a node serialized.
abbrev pub KeepsSerialized : (Backup → Db → Db) → Type 0
KeepsSerialized soft_delete =
    (b : Backup) (db : Db) → IsSerializedDb db → IsSerializedDb (soft_delete b db)

log_point-IsSerialized :
    (answer : StoragePoint → StorageAnswer) (i : ℕ) (p : StoragePoint) (db : Db)
    → IsSerializedDb db
    → IsSerializedDb (log_point answer i p db)
unfolding log_point
log_point-IsSerialized answer i p db h =
    elim (Bool-cases (has_file p && returns_early p.storage_code (answer p))) [
      | inl e ↦ rw e h
      | inr e ↦ rw e h
    ]

log_points-IsSerialized :
    (answer : StoragePoint → StorageAnswer) (i : ℕ) (ps : List StoragePoint) (db : Db)
    → IsSerializedDb db
    → IsSerializedDb (log_points answer i ps db)
unfolding log_points
log_points-IsSerialized answer i [] db h = h
log_points-IsSerialized answer i (p ∷ ps) db h =
    log_points-IsSerialized answer i ps _ (log_point-IsSerialized answer i p db h)

pub files_soft_delete-KeepsSerialized :
    (answer : StoragePoint → StorageAnswer) → KeepsSerialized (files_soft_delete answer)
unfolding files_soft_delete save_backup files_deleted in_active_statuses
files_soft_delete-KeepsSerialized answer b db h =
    update-IsSerialized_done (files_deleted answer) (record { id = λ x. refl; task = λ x. refl })
      (has_id b.id) (log_points-IsSerialized answer b.id b.storage_points db h) (λ x. refl)

pub cloud_soft_delete-KeepsSerialized :
    (answer : ℕ → SnapshotAnswer) → KeepsSerialized (cloud_soft_delete answer)
unfolding cloud_soft_delete save_backup
cloud_soft_delete-KeepsSerialized answer b db h =
    update-IsSerialized_done (set_status (snapshot_status (answer b.id)))
      (set_status-KeepsKeys (snapshot_status (answer b.id))) (has_id b.id) h
      (λ x. (snapshot_status-asked (answer b.id)).0)

soft_delete_all-IsSerialized :
    (soft_delete : Backup → Db → Db)
    → KeepsSerialized soft_delete
    → (bs : List Backup) (db : Db) → IsSerializedDb db
    → IsSerializedDb (soft_delete_all soft_delete bs db)
unfolding soft_delete_all
soft_delete_all-IsSerialized soft_delete k [] db h = h
soft_delete_all-IsSerialized soft_delete k (b ∷ bs) db h =
    soft_delete_all-IsSerialized soft_delete k bs _ (k b db h)

pub retain-IsSerialized :
    (soft_delete : Backup → Db → Db)
    → KeepsSerialized soft_delete
    → (b : Backup) (db : Db) → IsSerializedDb db
    → IsSerializedDb (retain soft_delete b db)
unfolding retain retain_schedule
retain-IsSerialized soft_delete k b db h = go (schedule_of b db)
  where
    go : (s : Option Schedule) → IsSerializedDb (retain_schedule soft_delete s db)
    go none = h
    go (some s) = elim (Bool-cases (ltb 0 (or_zero s.keep_last))) [
      | inl e ↦ rw e (
          soft_delete_all-IsSerialized soft_delete k (expired s.id (or_zero s.keep_last) db.backups)
            db h)
      | inr e ↦ rw e h
    ]
