-- ===== src/Providers.antt =====
-- The methods `poll_status` of apps/console/backup/models.py: one status check of a snapshot, for every
-- provider but DigitalOcean. What a service replies is a parameter, with an exception of `get_client`
-- or of the request as a reply of its own. Identifiers and documents are opaque numbers; the keys that
-- the services document are there, but for those that are an `Option`.
pub mod Compute
pub mod DigitalOcean
pub mod Dispatch
pub mod Outage
pub mod Recorded
use backupsheep.Prelude.{
  ℕ, ◌+◌, Bool, true, false, ◌&&◌, Option, none, some, List, [], ◌∷◌, ◌==◌, find?, if◌then◌else◌,
}
use backupsheep.Model.Status.{BackupStatus, NodeType}

-- `size_gigabytes` of a row: as the service gives it, or its bytes divided by 1000 ** 3, as they are
-- or rounded to two places
pub data Size : Type 0 where
  gigabytes bytes rounded_bytes : ℕ → Size

-- `oracle.metadata.get("_bs_vol_type")`
pub data VolumeKind : Type 0 where
  boot block other : VolumeKind

-- `metadata` of a row: the document of the service, or the name, size and kind of a volume
pub data RowMetadata : Type 0 where
  document : ℕ → RowMetadata
  volume : ℕ → ℕ → VolumeKind → RowMetadata

-- The columns of a backup that a status check reads or writes
pub record SnapshotRow : Type 0 where
  pub unique_id : Option ℕ
  pub size_gigabytes : Option Size
  pub status : BackupStatus
  pub metadata : Option RowMetadata

-- An HTTP request: it raises, or is answered with a status code and a body that is read or not.
pub data HttpReply (A : Type 0) : Type 0 where
  raised : HttpReply A
  answered : ℕ → Option A → HttpReply A

-- `except Exception as e: return UtilBackup.Status.IN_PROGRESS`; `none` is an exception
unfoldable pub guarded :
    SnapshotRow → Option (BackupStatus × SnapshotRow) → BackupStatus × SnapshotRow
guarded row none = (BackupStatus.in_progress, row)
guarded row (some end) = end

-- `self.status = UtilBackup.Status.COMPLETE; self.save(); return UtilBackup.Status.COMPLETE`
unfoldable pub save_complete : SnapshotRow → Option (BackupStatus × SnapshotRow)
save_complete row = some (BackupStatus.complete, record row { status = BackupStatus.complete })

-- The same with a size, which is a KeyError where it is not there
unfoldable pub save_sized : SnapshotRow → Option ℕ → Option (BackupStatus × SnapshotRow)
unfolding save_complete
save_sized row none = none
save_sized row (some size) =
    save_complete (record row { size_gigabytes = some (Size.gigabytes size) })

abbrev pub gave_up : SnapshotRow → Option (BackupStatus × SnapshotRow)
gave_up row = some (BackupStatus.failed, row)

abbrev pub waiting : SnapshotRow → Option (BackupStatus × SnapshotRow)
waiting row = some (BackupStatus.in_progress, row)

unfoldable pub read_body : {A B : Type 0} → Option A → (A → Option B) → Option B
read_body none k = none
read_body (some a) k = k a

-- `if result.status_code == 200: ... result.json()`, and what follows it otherwise
unfoldable pub on_200 : {A B : Type 0} → HttpReply A → (A → Option B) → Option B → Option B
unfolding read_body
on_200 HttpReply.raised k rest = none
on_200 (HttpReply.answered code body) k rest = if code == 200 then read_body body k else rest

-- CoreHetznerBackup
pub data HetznerState : Type 0 where
  success error other : HetznerState

pub record HetznerImage : Type 0 where
  pub disk_size : Option ℕ
  pub document : ℕ

unfoldable pub hetzner_image : SnapshotRow → HetznerImage → Option (BackupStatus × SnapshotRow)
unfolding save_sized
hetzner_image row image =
    save_sized (record row { metadata = some (RowMetadata.document image.document) })
      image.disk_size

unfoldable pub hetzner_action :
    HttpReply HetznerImage → SnapshotRow → HetznerState → Option (BackupStatus × SnapshotRow)
unfolding on_200 hetzner_image
hetzner_action image row HetznerState.success = on_200 image (hetzner_image row) none
hetzner_action image row HetznerState.error = gave_up row
hetzner_action image row HetznerState.other = waiting row

unfoldable pub hetzner_poll_status :
    NodeType
    → HttpReply HetznerState
    → HttpReply HetznerImage
    → SnapshotRow
    → BackupStatus × SnapshotRow
unfolding guarded on_200 hetzner_action
hetzner_poll_status NodeType.cloud action image row =
    guarded row (on_200 action (hetzner_action image row) (waiting row))
hetzner_poll_status _ action image row = (BackupStatus.in_progress, row)

-- CoreUpCloudBackup
pub data UpCloudState : Type 0 where
  online error other : UpCloudState

pub record UpCloudStorage : Type 0 where
  pub state : UpCloudState
  pub size : Option ℕ
  pub document : ℕ

unfoldable pub upcloud_state :
    SnapshotRow → UpCloudStorage → UpCloudState → Option (BackupStatus × SnapshotRow)
unfolding save_sized
upcloud_state row storage UpCloudState.online =
    save_sized (record row { metadata = some (RowMetadata.document storage.document) }) storage.size
upcloud_state row storage UpCloudState.error = gave_up row
upcloud_state row storage UpCloudState.other = waiting row

unfoldable pub upcloud_poll_status :
    NodeType → HttpReply UpCloudStorage → SnapshotRow → BackupStatus × SnapshotRow
unfolding guarded on_200 upcloud_state
upcloud_poll_status NodeType.volume storage row =
    guarded row (on_200 storage (λ s. upcloud_state row s s.state) (waiting row))
upcloud_poll_status _ storage row = (BackupStatus.in_progress, row)

-- CoreOracleBackup
pub data OracleState : Type 0 where
  available faulty terminated terminating other : OracleState

pub record OracleBackup : Type 0 where
  pub lifecycle_state : OracleState
  pub display_name : ℕ
  pub size_in_gbs : ℕ

unfoldable pub oracle_state :
    VolumeKind → SnapshotRow → OracleBackup → OracleState → Option (BackupStatus × SnapshotRow)
unfolding save_complete
oracle_state kind row data_ OracleState.available = save_complete (record row {
  size_gigabytes = some (Size.gigabytes data_.size_in_gbs);
  metadata = some (RowMetadata.volume data_.display_name data_.size_in_gbs kind);
})
oracle_state kind row data_ OracleState.other = waiting row
oracle_state kind row data_ _ = gave_up row

unfoldable pub oracle_request :
    VolumeKind → HttpReply OracleBackup → SnapshotRow → Option (BackupStatus × SnapshotRow)
unfolding on_200 oracle_state
oracle_request VolumeKind.other request row = waiting row
oracle_request kind request row =
    on_200 request (λ d. oracle_state kind row d d.lifecycle_state) (waiting row)

unfoldable pub oracle_poll_status :
    NodeType → VolumeKind → HttpReply OracleBackup → SnapshotRow → BackupStatus × SnapshotRow
unfolding guarded oracle_request
oracle_poll_status NodeType.volume kind request row = guarded row (oracle_request kind request row)
oracle_poll_status _ kind request row = (BackupStatus.in_progress, row)

-- CoreOVHCABackup, CoreOVHEUBackup and CoreOVHUSBackup
pub data OvhStatus : Type 0 where
  active available other : OvhStatus

pub record OvhSnapshot : Type 0 where
  pub id : ℕ
  pub name : ℕ
  pub status : OvhStatus
  pub size : Option ℕ

unfoldable pub is_active_status : OvhStatus → Bool
is_active_status OvhStatus.active = true
is_active_status _ = false

unfoldable pub is_available_status : OvhStatus → Bool
is_available_status OvhStatus.available = true
is_available_status _ = false

unfoldable pub is_item_named : Option ℕ → OvhSnapshot → Bool
is_item_named none item = false
is_item_named (some name) item = item.name == name

unfoldable pub ovh_found : SnapshotRow → Option OvhSnapshot → Option (BackupStatus × SnapshotRow)
unfolding save_sized
ovh_found row none = waiting row
ovh_found row (some s) = save_sized (record row { unique_id = some s.id }) s.size

unfoldable pub ovh_snapshots :
    (OvhStatus → Bool) → SnapshotRow → List OvhSnapshot → Option (BackupStatus × SnapshotRow)
unfolding ovh_found is_item_named
ovh_snapshots ready row snapshots =
    ovh_found row (find? (λ item. is_item_named row.unique_id item && ready item.status) snapshots)

-- The check of the three, which read the snapshots of the project, or of its volumes (`none` where the
-- client raises)
unfoldable pub ovh_poll_status :
    NodeType → Option (List OvhSnapshot) → SnapshotRow → BackupStatus × SnapshotRow
unfolding guarded read_body ovh_snapshots is_active_status is_available_status
ovh_poll_status NodeType.cloud snapshots row =
    guarded row (read_body snapshots (ovh_snapshots is_active_status row))
ovh_poll_status NodeType.volume snapshots row =
    guarded row (read_body snapshots (ovh_snapshots is_available_status row))
ovh_poll_status _ snapshots row = (BackupStatus.in_progress, row)

unfoldable pub ovh_ca_poll_status :
    NodeType → Option (List OvhSnapshot) → SnapshotRow → BackupStatus × SnapshotRow
unfolding ovh_poll_status
ovh_ca_poll_status t snapshots row = ovh_poll_status t snapshots row

unfoldable pub ovh_eu_poll_status :
    NodeType → Option (List OvhSnapshot) → SnapshotRow → BackupStatus × SnapshotRow
unfolding ovh_poll_status
ovh_eu_poll_status t snapshots row = ovh_poll_status t snapshots row

unfoldable pub ovh_us_poll_status :
    NodeType → Option (List OvhSnapshot) → SnapshotRow → BackupStatus × SnapshotRow
unfolding ovh_poll_status
ovh_us_poll_status t snapshots row = ovh_poll_status t snapshots row
