-- ===== src/Model/Status.antt =====
-- The status and type columns: apps/console/utils/models.py (UtilBackup), apps/console/node/models.py
-- (CoreNode, CoreSchedule), apps/console/backup/models.py (the storage points and the restores),
-- apps/console/connection/models.py, apps/console/account/models.py, apps/console/storage/models.py.
use backupsheep.Prelude.{Bool, true, false}

-- UtilBackup.Status
pub data BackupStatus : Type 0 where
  pending in_progress complete failed retrying started max_retry_failed : BackupStatus
  upload_ready upload_in_progress upload_complete upload_validation upload_failed : BackupStatus
  delete_requested delete_in_progress delete_completed delete_failed : BackupStatus
  delete_failed_not_found delete_max_retry_failed : BackupStatus
  download_in_progress download_complete cancelled timeout : BackupStatus
  storage_validation_failed : BackupStatus

-- `status in UtilBackup.ACTIVE_STATUSES`
unfoldable pub in_active_statuses : BackupStatus → Bool
in_active_statuses BackupStatus.pending = true
in_active_statuses BackupStatus.in_progress = true
in_active_statuses BackupStatus.started = true
in_active_statuses BackupStatus.retrying = true
in_active_statuses BackupStatus.download_in_progress = true
in_active_statuses BackupStatus.download_complete = true
in_active_statuses BackupStatus.upload_ready = true
in_active_statuses BackupStatus.upload_in_progress = true
in_active_statuses BackupStatus.upload_validation = true
in_active_statuses BackupStatus.upload_complete = true
in_active_statuses _ = false

-- `status == UtilBackup.Status.COMPLETE`
unfoldable pub is_complete : BackupStatus → Bool
is_complete BackupStatus.complete = true
is_complete _ = false

-- `status in terminal`, the tuple of `poll_cloud_backup`
unfoldable pub in_terminal : BackupStatus → Bool
in_terminal BackupStatus.complete = true
in_terminal BackupStatus.failed = true
in_terminal BackupStatus.timeout = true
in_terminal BackupStatus.cancelled = true
in_terminal BackupStatus.delete_requested = true
in_terminal BackupStatus.delete_in_progress = true
in_terminal BackupStatus.delete_completed = true
in_terminal _ = false

-- UtilBackup.Type
pub data BackupType : Type 0 where
  on_demand scheduled : BackupType

-- CoreWebsiteBackupStoragePoints.Status; the other kinds of storage point declare the same statuses.
pub data PointStatus : Type 0 where
  upload_ready upload_retry upload_in_progress upload_complete upload_validation : PointStatus
  upload_failed upload_failed_storage_limit upload_failed_file_not_found : PointStatus
  upload_time_limit_reached delete_requested delete_completed delete_failed : PointStatus
  cancelled storage_validation_failed transferred : PointStatus

unfoldable pub is_upload_complete : PointStatus → Bool
is_upload_complete PointStatus.upload_complete = true
is_upload_complete _ = false

unfoldable pub is_upload_ready : PointStatus → Bool
is_upload_ready PointStatus.upload_ready = true
is_upload_ready _ = false

-- CoreNode.Status
pub data NodeStatus : Type 0 where
  active backup_ready backup_in_progress backup_retrying suspended paused : NodeStatus
  paused_max_retries delete_requested delete_completed : NodeStatus

-- CoreNode.Type
pub data NodeType : Type 0 where
  cloud volume website database saas : NodeType

-- CoreSchedule.Status
pub data ScheduleStatus : Type 0 where
  active paused delete_requested : ScheduleStatus

unfoldable pub schedule_is_active : ScheduleStatus → Bool
schedule_is_active ScheduleStatus.active = true
schedule_is_active _ = false

-- CoreConnection.Status
pub data ConnectionStatus : Type 0 where
  active pending suspended paused delete_requested token_refresh_fail : ConnectionStatus

-- CoreAccount.Status
pub data AccountStatus : Type 0 where
  active disabled delete_requested : AccountStatus

-- CoreStorage.Status
pub data StorageStatus : Type 0 where
  active pending suspended paused delete_requested : StorageStatus

unfoldable pub storage_is_active : StorageStatus → Bool
storage_is_active StorageStatus.active = true
storage_is_active _ = false

-- CoreCloudRestore.Status, and those of CoreWebsiteRestore and CoreDatabaseRestore
pub data RestoreStatus : Type 0 where
  pending in_progress complete failed : RestoreStatus

-- The code of a node's integration, as far as the upload tasks tell them apart
pub data Integration : Type 0 where
  wordpress basecamp other : Integration

-- CoreStorageType.code: the codes that `storage_upload` knows, and any other.
pub data StorageCode : Type 0 where
  dropbox google_drive aws_s3 wasabi do_spaces filebase backblaze_b2 linode : StorageCode
  vultr upcloud exoscale oracle scaleway pcloud onedrive cloudflare google_cloud : StorageCode
  azure leviia idrive ionos alibaba tencent rackcorp ibm local unsupported : StorageCode
