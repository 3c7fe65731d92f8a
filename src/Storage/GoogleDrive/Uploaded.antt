-- ===== src/Storage/GoogleDrive/Uploaded.antt =====
-- The storage points that `storage_google_drive` leaves complete.
use backupsheep.Prelude.{◌*◌, ◌≡◌, Option, some, length}
use backupsheep.Model.Status.{PointStatus}
use backupsheep.Model.Rows.{Text}
use backupsheep.Upload.{Backend}
use backupsheep.Storage.Chunks.{Bytes}
use backupsheep.Storage.Chunks.Tiled.{Tiles}
use backupsheep.Storage.GoogleDrive.{Drive, drive_sent}

abbrev IsComplete : Backend → Text → Type 0
IsComplete b id = b ≡ Backend.leaves PointStatus.upload_complete (some id)

-- `open_upload` and what follows it
abbrev SavedBy : Drive → Option Bytes → Text → Type 0
SavedBy d local id =
    (file : Bytes) × (local ≡ some file)
    × ((drive_sent d file).file_id ≡ some id)
    × Tiles (262144 * 8192) (length file) 0 file (drive_sent d file).puts
