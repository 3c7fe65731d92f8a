-- ===== src/SoftDelete/Files.antt =====
-- The calls of BaseBackupStoragePoints.soft_delete, apps/console/backup/models.py, which delete the file
-- of a storage point. What the services and the disk do is a parameter; a call that makes a client or
-- decrypts its keys raises with the call that uses it.
pub mod Confined
use backupsheep.Prelude.{
  ℕ, Bool, true, false, not, ◌&&◌, List, [], ◌∷◌, Option, none, some, ◌==◌, if◌then◌else◌,
}
use backupsheep.Prelude.Text.{text_eq}
use backupsheep.Model.Status.{StorageCode}
use backupsheep.Model.Rows.{Text, StoragePoint}
use backupsheep.Retention.{StorageAnswer}
use backupsheep.Restore.Paths.{is_below}

-- The calls with what they return; for a Bool, `false` is an exception, and so is `none`.
pub record FileServices : Type 0 where
  pub delete_object : StorageCode → Text → Bool
  pub path_lower : Text → Option Text
  pub files_delete : Text → Bool
  pub drive_delete : Text → Option ℕ
  pub pcloud_post : Bool
  pub graph_delete : Text → Bool
  pub bucket_exists : Option Bool
  pub blob_exists : Text → Option Bool
  pub blob_delete : Text → Bool
  pub no_delete : Bool
  pub storage_root : Text
  pub realpath : Text → Text
  pub path_exists : Text → Bool
  pub remove : Text → Bool

-- What the calls come to, and the paths of the local disk that are removed.
pub record Deletion : Type 0 where
  pub answer : StorageAnswer
  pub removed : List Text

abbrev pub remote : StorageAnswer → Deletion
remote a = record { answer = a; removed = [] }

unfoldable pub returned_answer : Bool → StorageAnswer
returned_answer true = StorageAnswer.accepted
returned_answer false = StorageAnswer.raised

-- `dropbox`
unfoldable pub dropbox_deletion : FileServices → Option Text → StorageAnswer
unfolding returned_answer
dropbox_deletion s none = StorageAnswer.raised
dropbox_deletion s (some path) = returned_answer (s.files_delete path)

-- `google_drive`, where a code other than 204 raises nothing
unfoldable pub drive_deletion : Option ℕ → StorageAnswer
drive_deletion none = StorageAnswer.raised
drive_deletion (some code) = if code == 204 then StorageAnswer.accepted else StorageAnswer.refused

-- `google_cloud`: a bucket or a blob that does not exist is taken as deleted
unfoldable pub blob_deletion : FileServices → Text → Option Bool → StorageAnswer
unfolding returned_answer
blob_deletion s file none = StorageAnswer.raised
blob_deletion s file (some false) = StorageAnswer.accepted
blob_deletion s file (some true) = returned_answer (s.blob_delete file)

unfoldable pub bucket_deletion : FileServices → Text → Option Bool → StorageAnswer
unfolding blob_deletion
bucket_deletion s file none = StorageAnswer.raised
bucket_deletion s file (some false) = StorageAnswer.accepted
bucket_deletion s file (some true) = blob_deletion s file (s.blob_exists file)

-- `local`: a file is removed where the storage lets it, within the storage root
unfoldable pub remove_existing : FileServices → Text → Deletion
unfolding returned_answer
remove_existing s target =
    if s.path_exists target
    then record { answer = returned_answer (s.remove target); removed = target ∷ [] }
    else remote StorageAnswer.accepted

unfoldable pub local_deletion : FileServices → Text → Deletion
unfolding remove_existing text_eq is_below
local_deletion s file =
    let root = s.realpath s.storage_root in
    let target = s.realpath file in
    if s.no_delete
    then remote StorageAnswer.accepted
    else if not (text_eq target root) && not (is_below root target)
    then remote StorageAnswer.raised
    else remove_existing s target

-- `if self.storage.type.code == …`; a code that has no clause deletes nothing.
unfoldable pub file_deletion : FileServices → StorageCode → Text → Deletion
unfolding returned_answer dropbox_deletion drive_deletion bucket_deletion local_deletion
file_deletion s StorageCode.dropbox file = remote (dropbox_deletion s (s.path_lower file))
file_deletion s StorageCode.google_drive file = remote (drive_deletion (s.drive_delete file))
file_deletion s StorageCode.pcloud file = remote (returned_answer s.pcloud_post)
file_deletion s StorageCode.onedrive file = remote (returned_answer (s.graph_delete file))
file_deletion s StorageCode.google_cloud file = remote (bucket_deletion s file s.bucket_exists)
file_deletion s StorageCode.local file = local_deletion s file
file_deletion s StorageCode.unsupported file = remote StorageAnswer.accepted
file_deletion s code file = remote (returned_answer (s.delete_object code file))

-- `if self.storage_file_id`
unfoldable pub point_deletion : FileServices → StoragePoint → Deletion
unfolding file_deletion
point_deletion s p = elim p.storage_file_id [
  | none ↦ remote StorageAnswer.accepted
  | some [] ↦ remote StorageAnswer.accepted
  | some (c ∷ cs) ↦ file_deletion s p.storage_code (c ∷ cs)
]

-- The answers with which the soft delete of a backup goes on.
abbrev pub answers : FileServices → StoragePoint → StorageAnswer
answers s p = (point_deletion s p).answer
