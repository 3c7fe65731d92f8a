-- ===== src/Examples/Uploads.antt =====
-- The theorems on the uploads, the end of a backup, the polling and the retention.
use backupsheep.Prelude.{
  ℕ, ◌≤◌, ◌≡◌, refl, true, false, [], ◌∷◌, none, some, ltb, arith, count, find?, filter, any,
}
use Prim.Native.Nat.{min}
use backupsheep.Model.Status.{BackupStatus, PointStatus, NodeType, is_complete, is_upload_complete}
use backupsheep.Model.Rows.{Backup, Db, has_id}
use backupsheep.Node.{active_backup, get_cloud_backup}
use backupsheep.Retention.{
  SnapshotAnswer, StorageAnswer, is_completed_of, expired, soft_delete_all, schedule_of,
  files_soft_delete, cloud_soft_delete, insert_by_created, order_by_created,
}
use backupsheep.Retention.Deletes.{is_among}
use backupsheep.Retention.Expiry.{expired-keep_last}
use backupsheep.Retention.Retain.{files_soft_delete-IsSoftDelete, cloud_soft_delete-IsSoftDelete}
use backupsheep.Upload.{
  UploadCall, raises, UploadError, has_files_table, supported, storage_upload, get_point,
}
use backupsheep.Upload.Outcome.{HasFailed, point_of, storage_upload_raised}
use backupsheep.Finalize.{storage_points_uploaded, finalize_backup}
use backupsheep.Finalize.Outcome.{finalize_backup_frees}
use backupsheep.Poll.Liveness.{HasFreed, poll_until-frees}
use backupsheep.Poll.{poll_until}
use backupsheep.Poll.Landing.{IsPollable}
use backupsheep.Examples.{
  website-Holds, server-Holds, point, backup, old, running, nightly, db_of, website, server,
}

abbrev pub call : UploadCall
call = record { node_id = 1; backup_id = 11; stored_backup_id = 5; task_id = 40; retries = 0 }

pub website_known : has_files_table website.node.type website.node.integration ≡ true
unfolding has_files_table
website_known = refl

pub point_found : point_of call website ≡ some point
unfolding get_point get_cloud_backup find?
point_found = refl

pub s3_supported : supported point.storage_code ≡ true
unfolding supported
s3_supported = refl

storage_upload_raised_example :
    HasFailed call (storage_upload ltb (raises (UploadError.other false)) call website)
storage_upload_raised_example =
    storage_upload_raised ltb call website point website_known point_found s3_supported
      (UploadError.other false)

-- The backup 12 has been uploaded to its one storage, and nothing else is in flight.
abbrev stored : Backup
stored =
    backup 12 8 BackupStatus.upload_in_progress
      ((record point { status = PointStatus.upload_complete }) ∷ [])

abbrev uploaded : Db
uploaded = db_of NodeType.website (old ∷ stored ∷ [])

abbrev delete : Backup → Db → Db
delete = files_soft_delete (λ p. StorageAnswer.accepted)

stored_found : get_cloud_backup 12 uploaded ≡ some stored
unfolding get_cloud_backup find?
stored_found = refl

uploaded_ids : (i : ℕ) → count (has_id i) uploaded.backups ≤ 1
unfolding count
uploaded_ids i = ground arith

stored_incomplete : is_complete stored.status ≡ false
unfolding is_complete
stored_incomplete = refl

stored_uploaded : ltb 0 (storage_points_uploaded stored) ≡ true
unfolding storage_points_uploaded count is_upload_complete
stored_uploaded = refl

stored_schedule : schedule_of stored uploaded ≡ some nightly
unfolding schedule_of find?
stored_schedule = refl

-- Two completed backups of the schedule
abbrev newer : Backup
newer = backup 13 9 BackupStatus.complete []

abbrev completed : Db
completed = db_of NodeType.cloud (newer ∷ old ∷ [])

completed_ids : (i : ℕ) → count (has_id i) completed.backups ≤ 1
unfolding count
completed_ids i = ground arith

expired-keep_last_example :
    count
      (is_completed_of 2)
      (soft_delete_all
        (cloud_soft_delete (λ b. SnapshotAnswer.deleted))
        (expired 2 1 completed.backups)
        completed).backups
    ≡ min 1 (count (is_completed_of 2) completed.backups)
expired-keep_last_example =
    expired-keep_last (cloud_soft_delete (λ b. SnapshotAnswer.deleted))
      (cloud_soft_delete-IsSoftDelete (λ b. SnapshotAnswer.deleted)) 2 1 completed (omega arith)
      completed_ids

newer_found : find? (has_id 13) completed.backups ≡ some newer
unfolding find?
newer_found = refl

newer_completed : is_completed_of 2 newer ≡ true
unfolding is_complete
newer_completed = refl

newer_kept : is_among (expired 2 1 completed.backups) newer ≡ false
unfolding expired is_complete any filter order_by_created insert_by_created
newer_kept = refl

server-IsPollable : IsPollable 11 server.backups
unfolding find? count
server-IsPollable = record {
  backup = running;
  task = 7;
  found = refl;
  its_task = refl;
  one_id = omega arith;
  one_task = omega arith;
}

poll_until-frees_example : HasFreed (
    poll_until 722
      (cloud_soft_delete (λ b. SnapshotAnswer.deleted))
      120
      86400
      (λ t. 0)
      (λ t. none)
      11
      none
      server)
poll_until-frees_example =
    poll_until-frees 120 86400 (cloud_soft_delete (λ b. SnapshotAnswer.deleted))
      (cloud_soft_delete-IsSoftDelete (λ b. SnapshotAnswer.deleted)) (λ t. 0) (λ t. none) 721 7 11
      server server-Holds (omega arith)

finalize_backup_frees_example : active_backup 8 (finalize_backup delete 11 website).1 ≡ none
finalize_backup_frees_example =
    finalize_backup_frees delete (files_soft_delete-IsSoftDelete (λ p. StorageAnswer.accepted)) 7 11
      website website_known website-Holds 8
