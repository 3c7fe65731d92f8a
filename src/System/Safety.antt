-- ===== src/System/Safety.antt =====
-- What runs in any order keep of the rows of a node.
use backupsheep.Model.Rows.{Db}
use backupsheep.Node.{Outside}
use backupsheep.Node.Holding.{IsSerializedDb}
use backupsheep.Task.{TaskEnd}
use backupsheep.Task.Ends.{HasLanded}
use backupsheep.Task.Files.Serialized.{
  backup_website-HasLanded, backup_database-HasLanded, backup_wordpress-HasLanded,
  backup_basecamp-HasLanded,
}
use backupsheep.Task.Clouds.Serialized.{cloud_backup-HasLanded}
use backupsheep.Upload.Serialized.{storage_upload-IsSerialized}
use backupsheep.Retention.Serialized.{
  files_soft_delete-KeepsSerialized, cloud_soft_delete-KeepsSerialized,
}
use backupsheep.Finalize.Serialized.{finalize_backup-IsSerialized}
use backupsheep.Poll.Serialized.{poll_cloud_backup-IsSerialized}
use backupsheep.Cancel.Serialized.{
  website_cancel-IsSerialized, files_cancel-IsSerialized, cloud_cancel-IsSerialized,
}
use backupsheep.Deletion.Asked.{clean_delete_failed_backups-IsSerialized}
use backupsheep.System.{Step, Reach}

HasLanded-IsSerialized : (x : TaskEnd × Db) → HasLanded x → IsSerializedDb x.1
HasLanded-IsSerialized (TaskEnd.gave_up, db) h = h.0
HasLanded-IsSerialized (TaskEnd.timed_out, db) h = h.0
HasLanded-IsSerialized (_, db) h = h

Step-IsSerialized :
    (o : Outside) (db after : Db) → IsSerializedDb db → Step o db after → IsSerializedDb after
Step-IsSerialized o db _ h (Step.website_run a c) =
    HasLanded-IsSerialized _ (backup_website-HasLanded o a c db h)
Step-IsSerialized o db _ h (Step.database_run engine a c) =
    HasLanded-IsSerialized _ (backup_database-HasLanded o a c db h engine)
Step-IsSerialized o db _ h (Step.wordpress_run a c) =
    HasLanded-IsSerialized _ (backup_wordpress-HasLanded o a c db h)
Step-IsSerialized o db _ h (Step.basecamp_run a c) =
    HasLanded-IsSerialized _ (backup_basecamp-HasLanded o a c db h)
Step-IsSerialized o db _ h (Step.cloud_run p a c) =
    HasLanded-IsSerialized _ (cloud_backup-HasLanded p o a c db h)
Step-IsSerialized o db _ h (Step.upload_run b c) = storage_upload-IsSerialized o.may_retry c b db h
Step-IsSerialized o db _ h (Step.finalize_run deleted i) =
    finalize_backup-IsSerialized _ (files_soft_delete-KeepsSerialized deleted) i db h
Step-IsSerialized o db _ h (Step.poll_run deleted timeout answer i started_at) =
    poll_cloud_backup-IsSerialized _ (cloud_soft_delete-KeepsSerialized deleted) timeout answer i
      started_at db h
Step-IsSerialized o db _ h (Step.files_deleted deleted b) =
    files_soft_delete-KeepsSerialized deleted b db h
Step-IsSerialized o db _ h (Step.cloud_deleted deleted b) =
    cloud_soft_delete-KeepsSerialized deleted b db h
Step-IsSerialized o db _ h (Step.website_cancelled saves b) =
    website_cancel-IsSerialized saves b db h
Step-IsSerialized o db _ h (Step.files_cancelled b) = files_cancel-IsSerialized b db h
Step-IsSerialized o db _ h (Step.cloud_cancelled b) = cloud_cancel-IsSerialized b db h
Step-IsSerialized o db _ h Step.cleaned = clean_delete_failed_backups-IsSerialized db h
Step-IsSerialized o db _ h (Step.waited now later) = h

-- Whatever runs of the node's tasks, uploads, polls, soft deletes,
-- cancels and clean-ups follow one another, in
-- any order and with any answers from outside: of a table in which at most one backup is in flight and
-- ids and task ids are distinct, they make such a table.
pub Reach-IsSerialized :
    (o : Outside) (db after : Db) → IsSerializedDb db → Reach o db after → IsSerializedDb after
Reach-IsSerialized o db _ h Reach.start = h
Reach-IsSerialized o db _ h (Reach.later before step) =
    Step-IsSerialized o _ _ (Reach-IsSerialized o db _ h before) step
