-- ===== src/Storage/GoogleDrive.antt =====
-- `storage_google_drive` of apps/_tasks/integration/storage/google_drive.py. What the Drive API gives is
-- an argument; a file id that is saved before a later request raises is not kept here.
pub mod Uploaded
use backupsheep.Prelude.{
  ℕ, ◌*◌, Bool, true, false, ◌&&◌, ◌||◌, not, List, [], ◌∷◌, Option, none, some, ◌==◌,
  if◌then◌else◌, filter,
}
use backupsheep.Prelude.Text.{codes, text_eq}
use backupsheep.Model.Status.{PointStatus}
use backupsheep.Model.Rows.{Text}
use backupsheep.Upload.{UploadError, Backend}
use backupsheep.Storage.Failures.{
  Failure, file_not_found, resumable_upload, failed, Call, returns, fails, contains, lower,
  raise_failed,
}
use backupsheep.Storage.Chunks.{Bytes, Put, Reply, Wire, Sent, send_chunks}

pub record Folder : Type 0 where
  pub id : Text
  pub name : Text
  pub trashed : Bool

-- A response to a `put`: its status code, and the `id` of its body where it has one.
pub record Answer : Type 0 where
  pub status_code : ℕ
  pub id : Option Text

-- A search returns the folders found, or `none` with a status code other than 200.
pub record Drive : Type 0 where
  pub search_bs : Call (Option (List Folder))
  pub create_bs : Call Text
  pub search_node : Text → Call (Option (List Folder))
  pub create_node : Text → Call Text
  pub open_session : Call Text
  pub put : ℕ → Put → Call Answer

is_named : Text → Folder → Bool
is_named name f = text_eq f.name name && not f.trashed

created : Call Text → Call (Option Text)
created (returns id) = returns (some id)
created (fails e) = fails e

first_or : Call Text → List Folder → Call (Option Text)
unfolding created
first_or create [] = created create
first_or create (f ∷ fs) = returns (some f.id)

-- The folder of that name, created if the search finds none.
unfoldable pub find_or_create : Text → Call (Option (List Folder)) → Call Text → Call (Option Text)
unfolding first_or is_named text_eq
find_or_create name (fails e) create = fails e
find_or_create name (returns none) create = returns none
find_or_create name (returns (some files)) create = first_or create (filter (is_named name) files)

-- `if bs_folder:` and what follows
unfoldable pub find_node_folder : Drive → Text → Call (Option Text) → Call (Option Text)
unfolding find_or_create
find_node_folder d slug (fails e) = fails e
find_node_folder d slug (returns none) = returns none
find_node_folder d slug (returns (some [])) = returns none
find_node_folder d slug (returns (some (c ∷ cs))) =
    find_or_create slug (d.search_node (c ∷ cs)) (d.create_node (c ∷ cs))

-- What the loop does after a response.
drive_reply : Call Answer → Option Text → Reply
drive_reply (fails e) id = Reply.stop e
drive_reply (returns r) id =
    if r.status_code == 201 || r.status_code == 200
    then elim r.id [ some new ↦ Reply.go_on (some new) | none ↦ Reply.stop (failed (codes "'id'")) ]
    else if r.status_code == 308
    then Reply.go_on id
    else if r.status_code == 404
    then Reply.stop (failed (codes "Upload file is missing in Google Drive. We will retry upload."))
    else Reply.stop (failed (codes "Unable to get final upload status from Google Drive API."))

unfoldable pub drive_wire : Drive → Wire
unfolding drive_reply
drive_wire d = record {
  chunk_size = 262144 * 8192;
  content_length = λ total. total;
  reply = λ i p id. drive_reply (d.put i p) id;
}

unfoldable pub drive_sent : Drive → Bytes → Sent
unfolding drive_wire send_chunks
drive_sent d file = send_chunks (drive_wire d) file none

-- The clauses of the outer `try`
unfoldable pub on_drive_failure : Failure → Backend
unfolding contains lower raise_failed
on_drive_failure file_not_found = Backend.leaves PointStatus.upload_failed_file_not_found none
on_drive_failure (failed t) = raise_failed t
on_drive_failure (resumable_upload t) =
    if contains (codes "quota has been exceeded") (lower t)
    then Backend.raises UploadError.google_drive_not_enough_storage
    else raise_failed t

-- The point as the last 200 or 201 has saved it, if there was one.
unfoldable pub drive_saved : Option Text → Backend
drive_saved none = Backend.leaves PointStatus.upload_in_progress none
drive_saved (some id) = Backend.leaves PointStatus.upload_complete (some id)

drive_end : Sent → Backend
unfolding on_drive_failure drive_saved
drive_end s = elim s.raised [ none ↦ drive_saved s.file_id | some e ↦ on_drive_failure e ]

-- `with open(local_zip, "rb")` and what follows
send_file : Drive → Option Bytes → Backend
unfolding on_drive_failure drive_end drive_sent
send_file d none = on_drive_failure file_not_found
send_file d (some file) = drive_end (drive_sent d file)

open_upload : Drive → Option Bytes → Call Text → Backend
unfolding send_file
open_upload d local (returns url) = send_file d local
open_upload d local (fails e) = on_drive_failure e

no_folder : Backend
unfolding raise_failed
no_folder =
    raise_failed (codes "Unable to get ID of BackupSheep and Node folder in your Google Drive.")

-- `if bs_folder and node_folder:` and what follows
unfoldable pub upload_into : Drive → Option Bytes → Call (Option Text) → Backend
unfolding open_upload no_folder
upload_into d local (fails e) = on_drive_failure e
upload_into d local (returns none) = no_folder
upload_into d local (returns (some [])) = no_folder
upload_into d local (returns (some (c ∷ cs))) = open_upload d local d.open_session

-- `slug` is the node's `name_slug`, and `local` the local zip, if it is there.
unfoldable pub storage_google_drive : Drive → Text → Option Bytes → Backend
unfolding find_or_create find_node_folder upload_into
storage_google_drive d slug local =
    upload_into d local
      (find_node_folder d slug (find_or_create (codes "BackupSheep") d.search_bs d.create_bs))
