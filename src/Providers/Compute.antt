-- ===== src/Providers/Compute.antt =====
-- The methods `poll_status` of Vultr, Google Cloud, AWS, Lightsail and RDS in
-- apps/console/backup/models.py.
use backupsheep.Prelude.{
  ℕ, ◌+◌, Bool, true, false, Option, none, some, List, [], ◌∷◌, if◌then◌else◌,
}
use backupsheep.Model.Status.{BackupStatus, NodeType}
use backupsheep.Providers.{
  Size, SnapshotRow, HttpReply, guarded, save_complete, save_sized, gave_up, waiting, read_body,
  on_200,
}

-- `get(key, 0)`, and the sum of the volumes of an image
unfoldable pub size_or_zero : Option ℕ → ℕ
size_or_zero none = 0
size_or_zero (some n) = n

-- CoreVultrBackup; `is_ready` is `state == "COMPLETE"` of a block snapshot and `status == "complete"`
-- of another.
pub record VultrSnapshot : Type 0 where
  pub is_ready : Bool
  pub size : Option ℕ

unfoldable pub vultr_snapshot : SnapshotRow → VultrSnapshot → Option (BackupStatus × SnapshotRow)
unfolding save_complete size_or_zero
vultr_snapshot row s =
    if s.is_ready
    then save_complete
        (record row { size_gigabytes = some (Size.rounded_bytes (size_or_zero s.size)) })
    else waiting row

-- The replies of /v2/blocks/snapshots and of /v2/snapshots
unfoldable pub vultr_poll_status :
    NodeType
    → HttpReply VultrSnapshot
    → HttpReply VultrSnapshot
    → SnapshotRow
    → BackupStatus × SnapshotRow
unfolding guarded on_200 vultr_snapshot
vultr_poll_status NodeType.volume blocks snapshots row =
    guarded row (on_200 blocks (vultr_snapshot row) (waiting row))
vultr_poll_status _ blocks snapshots row =
    guarded row (on_200 snapshots (vultr_snapshot row) (waiting row))

-- CoreGoogleCloudBackup; a machine image fails as INVALID, a disk snapshot as FAILED.
pub data GoogleStatus : Type 0 where
  ready invalid failed deleting other : GoogleStatus

pub record GoogleSnapshot : Type 0 where
  pub status : GoogleStatus
  pub storage_bytes : Option ℕ

unfoldable pub google_ready : SnapshotRow → GoogleSnapshot → Option (BackupStatus × SnapshotRow)
unfolding save_complete size_or_zero
google_ready row s =
    save_complete (record row { size_gigabytes = some (Size.bytes (size_or_zero s.storage_bytes)) })

unfoldable pub google_image :
    SnapshotRow → GoogleSnapshot → GoogleStatus → Option (BackupStatus × SnapshotRow)
unfolding google_ready
google_image row s GoogleStatus.ready = google_ready row s
google_image row s GoogleStatus.invalid = gave_up row
google_image row s GoogleStatus.deleting = gave_up row
google_image row s _ = waiting row

unfoldable pub google_disk :
    SnapshotRow → GoogleSnapshot → GoogleStatus → Option (BackupStatus × SnapshotRow)
unfolding google_ready
google_disk row s GoogleStatus.ready = google_ready row s
google_disk row s GoogleStatus.failed = gave_up row
google_disk row s GoogleStatus.deleting = gave_up row
google_disk row s _ = waiting row

-- The reply of /global/machineImages or of /global/snapshots
unfoldable pub google_poll_status :
    NodeType → HttpReply GoogleSnapshot → SnapshotRow → BackupStatus × SnapshotRow
unfolding guarded on_200 google_image google_disk
google_poll_status NodeType.cloud reply row =
    guarded row (on_200 reply (λ s. google_image row s s.status) (waiting row))
google_poll_status NodeType.volume reply row =
    guarded row (on_200 reply (λ s. google_disk row s s.status) (waiting row))
google_poll_status _ reply row = (BackupStatus.in_progress, row)

-- CoreAWSBackup
pub data AwsState : Type 0 where
  available completed failed error invalid other : AwsState

-- A device has the size of its EBS volume, where it is one.
pub record AwsImage : Type 0 where
  pub state : AwsState
  pub devices : List (Option ℕ)

pub record AwsSnapshot : Type 0 where
  pub state : AwsState
  pub volume_size : ℕ

-- `items[0]`, an IndexError where there is none
unfoldable pub first_item : {A : Type 0} → List A → Option A
first_item [] = none
first_item (a ∷ rest) = some a

unfoldable pub sum_sizes : List (Option ℕ) → ℕ
unfolding size_or_zero
sum_sizes [] = 0
sum_sizes (d ∷ rest) = size_or_zero d + sum_sizes rest

-- The end of a snapshot that failed, once the service has removed it (`false` where that raises)
unfoldable pub removed : Bool → SnapshotRow → Option (BackupStatus × SnapshotRow)
removed false row = none
removed true row = gave_up row

unfoldable pub aws_image :
    Bool → SnapshotRow → AwsImage → AwsState → Option (BackupStatus × SnapshotRow)
unfolding save_sized sum_sizes removed
aws_image deregistered row image AwsState.available =
    save_sized row (some (sum_sizes image.devices))
aws_image deregistered row image AwsState.failed = removed deregistered row
aws_image deregistered row image AwsState.error = removed deregistered row
aws_image deregistered row image AwsState.invalid = removed deregistered row
aws_image deregistered row image _ = waiting row

-- `describe_images` is asked twice: whether there is an image, and for the image
unfoldable pub aws_images :
    Bool
    → Option (List AwsImage)
    → SnapshotRow
    → List AwsImage
    → Option (BackupStatus × SnapshotRow)
unfolding read_body first_item aws_image
aws_images deregistered again row [] = waiting row
aws_images deregistered again row (i ∷ rest) =
    read_body (read_body again first_item) (λ image. aws_image deregistered row image image.state)

unfoldable pub aws_snapshot :
    Bool → SnapshotRow → AwsSnapshot → AwsState → Option (BackupStatus × SnapshotRow)
unfolding save_sized removed
aws_snapshot deleted row s AwsState.completed = save_sized row (some s.volume_size)
aws_snapshot deleted row s AwsState.error = removed deleted row
aws_snapshot deleted row s _ = waiting row

unfoldable pub aws_poll_status :
    NodeType
    → Option (List AwsImage)
    → Option (List AwsImage)
    → Option (List AwsSnapshot)
    → Bool
    → SnapshotRow
    → BackupStatus × SnapshotRow
unfolding guarded read_body first_item aws_images aws_snapshot
aws_poll_status NodeType.cloud images again snapshots removed_ row =
    guarded row (read_body images (aws_images removed_ again row))
aws_poll_status NodeType.volume images again snapshots removed_ row =
    guarded row
      (read_body (read_body snapshots first_item) (λ s. aws_snapshot removed_ row s s.state))
aws_poll_status _ images again snapshots removed_ row = (BackupStatus.in_progress, row)

-- CoreLightsailBackup; the snapshot of an instance is good as available, that of a disk as completed.
pub record LightsailSnapshot : Type 0 where
  pub state : AwsState
  pub size_in_gb : Option ℕ

unfoldable pub lightsail_instance :
    SnapshotRow → LightsailSnapshot → AwsState → Option (BackupStatus × SnapshotRow)
unfolding save_sized
lightsail_instance row s AwsState.available = save_sized row s.size_in_gb
lightsail_instance row s AwsState.error = gave_up row
lightsail_instance row s _ = waiting row

unfoldable pub lightsail_disk :
    SnapshotRow → LightsailSnapshot → AwsState → Option (BackupStatus × SnapshotRow)
unfolding save_sized
lightsail_disk row s AwsState.completed = save_sized row s.size_in_gb
lightsail_disk row s AwsState.error = gave_up row
lightsail_disk row s _ = waiting row

-- `if response.get("instanceSnapshot")`, or `"diskSnapshot"`
unfoldable pub lightsail_response :
    (SnapshotRow → LightsailSnapshot → AwsState → Option (BackupStatus × SnapshotRow))
    → SnapshotRow
    → Option LightsailSnapshot
    → Option (BackupStatus × SnapshotRow)
lightsail_response check row none = waiting row
lightsail_response check row (some s) = check row s s.state

unfoldable pub lightsail_poll_status :
    NodeType → Option (Option LightsailSnapshot) → SnapshotRow → BackupStatus × SnapshotRow
unfolding guarded read_body lightsail_response lightsail_instance lightsail_disk
lightsail_poll_status NodeType.cloud response row =
    guarded row (read_body response (lightsail_response lightsail_instance row))
lightsail_poll_status NodeType.volume response row =
    guarded row (read_body response (lightsail_response lightsail_disk row))
lightsail_poll_status _ response row = (BackupStatus.in_progress, row)

-- CoreAWSRDSBackup, which records no size
unfoldable pub rds_snapshots : SnapshotRow → List AwsState → Option (BackupStatus × SnapshotRow)
unfolding save_complete
rds_snapshots row (AwsState.available ∷ rest) = save_complete row
rds_snapshots row (AwsState.failed ∷ rest) = gave_up row
rds_snapshots row _ = waiting row

unfoldable pub rds_poll_status : Option (List AwsState) → SnapshotRow → BackupStatus × SnapshotRow
unfolding guarded read_body rds_snapshots
rds_poll_status snapshots row = guarded row (read_body snapshots (rds_snapshots row))
