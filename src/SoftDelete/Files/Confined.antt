-- ===== src/SoftDelete/Files/Confined.antt =====
-- What the soft delete of a storage point removes from the disk, and what it says of it.
use backupsheep.Prelude.{not, ◌&&◌, [], ◌∷◌, Option, none, some, All, Bool-cases, inl, inr}
use backupsheep.Prelude.Text.{text_eq}
use backupsheep.Model.Status.{StorageCode}
use backupsheep.Model.Rows.{Text, StoragePoint}
use backupsheep.Retention.{StorageAnswer}
use backupsheep.Restore.Paths.{is_below}
use backupsheep.Restore.Paths.Confined.{IsInside, IsInside-of_pass}
use backupsheep.SoftDelete.Files.{
  FileServices, Deletion, remote, remove_existing, local_deletion, file_deletion, point_deletion,
}

-- Every path that is removed is the storage root or is below it.
abbrev pub IsConfined : FileServices → Deletion → Type 0
IsConfined s d = All (IsInside (s.realpath s.storage_root)) d.removed

remove_existing-IsConfined :
    (s : FileServices) (target : Text)
    → IsInside (s.realpath s.storage_root) target
    → IsConfined s (remove_existing s target)
unfolding remove_existing
remove_existing-IsConfined s target h = elim (Bool-cases (s.path_exists target)) [
  | inl e ↦ rw e (h, tt)
  | inr e ↦ rw e tt
]

local_deletion-IsConfined : (s : FileServices) (file : Text) → IsConfined s (local_deletion s file)
unfolding local_deletion
local_deletion-IsConfined s file = elim (Bool-cases s.no_delete) [
  | inl e ↦ rw e tt
  | inr e ↦
      rw e
        (elim (Bool-cases (
          not (text_eq (s.realpath file) (s.realpath s.storage_root))
          && not (is_below (s.realpath s.storage_root) (s.realpath file)))) [
            | inl o ↦ rw o tt
            | inr o ↦ rw o (
                remove_existing-IsConfined s (s.realpath file)
                  (IsInside-of_pass (s.realpath s.storage_root) (s.realpath file) o))
          ])
]

file_deletion-IsConfined :
    (s : FileServices) (code : StorageCode) (file : Text) → IsConfined s (file_deletion s code file)
unfolding file_deletion
file_deletion-IsConfined s StorageCode.local file = local_deletion-IsConfined s file
file_deletion-IsConfined s StorageCode.dropbox file = tt
file_deletion-IsConfined s StorageCode.google_drive file = tt
file_deletion-IsConfined s StorageCode.pcloud file = tt
file_deletion-IsConfined s StorageCode.onedrive file = tt
file_deletion-IsConfined s StorageCode.google_cloud file = tt
file_deletion-IsConfined s StorageCode.unsupported file = tt
file_deletion-IsConfined s _ file = tt

-- Whatever file id a storage point has, of whatever storage, its soft delete removes nothing from the
-- local disk but what is the resolved storage root or below it.
pub point_deletion-IsConfined :
    (s : FileServices) (p : StoragePoint) → IsConfined s (point_deletion s p)
unfolding point_deletion
point_deletion-IsConfined s p = go p.storage_file_id
  where
    go :
        (file : Option Text)
        → IsConfined s (elim file [
          | none ↦ remote StorageAnswer.accepted
          | some [] ↦ remote StorageAnswer.accepted
          | some (c ∷ cs) ↦ file_deletion s p.storage_code (c ∷ cs)
        ])
    go none = tt
    go (some []) = tt
    go (some (c ∷ cs)) = file_deletion-IsConfined s p.storage_code (c ∷ cs)
