-- ===== src/Restore/Fetch.antt =====
-- `fetch_backup_zip` of apps/_tasks/integration/restore_common.py. Files are known by their sizes;
-- the storage's download URL and the download are arguments.
pub mod Sized
use backupsheep.Prelude.{
  ℕ, zero, suc, Bool, true, false, ◌||◌, List, [], ◌∷◌, Option, none, some, if◌then◌else◌,
}
use backupsheep.Prelude.Text.{codes, text_eq}
use backupsheep.Model.Status.{StorageCode}
use backupsheep.Model.Rows.{Text, StoragePoint}
use backupsheep.Restore.Paths.{RestoreError, Source, refused, path, local_source_path}

-- What the restore meets: the paths of the worker's disk, the sizes of its files, the URL that the
-- storage gives, and the size of what the download gives, if it does not raise.
pub record World : Type 0 where
  pub realpath : Text → Text
  pub is_file : Text → Bool
  pub storage_root : Text
  pub size : Text → ℕ
  pub download_url : Option Text
  pub download : Text → Option ℕ

-- The size of the fetched zip.
pub data Fetched : Type 0 where
  failed : RestoreError → Fetched
  fetched : ℕ → Fetched

-- `if os.path.getsize(dest_zip_path) == 0`
unfoldable pub unless_empty : ℕ → Fetched
unless_empty zero = failed RestoreError.empty_zip
unless_empty (suc n) = fetched (suc n)

unfoldable pub copy_local : World → Source → Fetched
unfolding unless_empty
copy_local w (refused e) = failed e
copy_local w (path t) = unless_empty (w.size t)

downloaded : Option ℕ → Fetched
unfolding unless_empty
downloaded none = failed RestoreError.download_failed
downloaded (some n) = unless_empty n

-- `url in GLACIER_SENTINELS`
unfoldable pub is_glacier_sentinel : Text → Bool
unfolding text_eq
is_glacier_sentinel url =
    text_eq url (codes "restore_requested") || text_eq url (codes "restore_in_progress")

fetch_url : World → Option Text → Fetched
unfolding is_glacier_sentinel downloaded
fetch_url w none = failed RestoreError.no_url
fetch_url w (some []) = failed RestoreError.no_url
fetch_url w (some (c ∷ cs)) =
    if is_glacier_sentinel (c ∷ cs)
    then failed RestoreError.archived
    else downloaded (w.download (c ∷ cs))

unfoldable pub is_local : StorageCode → Bool
is_local StorageCode.local = true
is_local _ = false

unfoldable pub fetch_backup_zip : World → StoragePoint → Fetched
unfolding local_source_path copy_local fetch_url is_local
fetch_backup_zip w p =
    if is_local p.storage_code
    then copy_local w (local_source_path w.realpath w.is_file w.storage_root p.storage_file_id)
    else fetch_url w w.download_url
