-- ===== src/Finalize/Serialized.antt =====
-- `finalize_backup` and the table of the node.
use backupsheep.Prelude.{ℕ, refl, Option, none, some, ltb, Bool-cases, inl, inr}
use backupsheep.Model.Status.{BackupStatus, is_complete, in_active_statuses}
use backupsheep.Model.Rows.{Backup, Db}
use backupsheep.Node.{get_cloud_backup}
use backupsheep.Node.Holding.{IsSerializedDb}
use backupsheep.Node.Resets.{save_backup-IsSerialized_done}
use backupsheep.Retention.Serialized.{KeepsSerialized, retain-IsSerialized}
use backupsheep.Upload.{has_files_table}
use backupsheep.Finalize.{storage_points_uploaded, settle, finalize_found, finalize_backup}

module _ (soft_delete : Backup → Db → Db) (k : KeepsSerialized soft_delete) where
  settle-IsSerialized :
      (b : Backup) (db : Db) → IsSerializedDb db → IsSerializedDb (settle soft_delete b db)
  unfolding settle in_active_statuses
  settle-IsSerialized b db h = elim (Bool-cases (is_complete b.status)) [
    | inl e ↦ rw e h
    | inr e ↦ rw e (elim (Bool-cases (ltb 0 (storage_points_uploaded b))) [
      | inl f ↦ rw f (
          retain-IsSerialized soft_delete k b _
            (save_backup-IsSerialized_done b.id BackupStatus.complete db refl h))
      | inr f ↦ rw f (save_backup-IsSerialized_done b.id BackupStatus.upload_failed db refl h)
    ])
  ]

  pub finalize_backup-IsSerialized :
      (i : ℕ) (db : Db) → IsSerializedDb db → IsSerializedDb (finalize_backup soft_delete i db).1
  unfolding finalize_backup finalize_found
  finalize_backup-IsSerialized i db h =
      elim (Bool-cases (has_files_table db.node.type db.node.integration)) [
        | inl e ↦ rw e (go (get_cloud_backup i db))
        | inr e ↦ rw e h
      ]
    where
      go : (b : Option Backup) → IsSerializedDb (finalize_found soft_delete b db).1
      go none = h
      go (some b) = settle-IsSerialized b db h
