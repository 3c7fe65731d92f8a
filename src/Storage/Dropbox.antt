-- ===== src/Storage/Dropbox.antt =====
-- `storage_dropbox` of apps/_tasks/integration/storage/dropbox.py. What the Dropbox client gives is an
-- argument. The shared link is left out: the code ignores whatever it does.
pub mod Uploaded
use backupsheep.Prelude.{
  ℕ, zero, suc, ◌+◌, ◌-◌, ◌*◌, Bool, true, false, List, [], ◌∷◌, Option, none, some, ltb, leb,
  if◌then◌else◌, length, take, drop,
}
use backupsheep.Prelude.Text.{codes}
use backupsheep.Model.Status.{PointStatus}
use backupsheep.Model.Rows.{Text}
use backupsheep.Upload.{UploadError, Backend}
use backupsheep.Storage.Failures.{
  Failure, file_not_found, resumable_upload, failed, Call, returns, fails, contains, raise_failed,
}
use backupsheep.Storage.Chunks.{Bytes}

-- `files_upload`, and the three calls of an upload session, the last two with the cursor's offset; `append` is what
-- it raises, if it does.
-- What the first and the last of them return is the `id` of the file.
pub record Dropbox : Type 0 where
  pub upload : Bytes → Call (Option Text)
  pub start : Bytes → Call Text
  pub append : ℕ → Bytes → Option Failure
  pub finish : ℕ → Bytes → Call (Option Text)

pub data Piece : Type 0 where
  append finish : ℕ → Bytes → Piece

-- The calls of a session after its start, and the file id that it ends with, or what it raises.
pub record Session : Type 0 where
  pub pieces : List Piece
  pub ended : Call (Option Text)

abbrev pub dropbox_chunk : ℕ
dropbox_chunk = 140 * 1024 * 1024

unfoldable pub after_append : Option Failure → Piece → Session → Session
after_append (some e) p rest = record { pieces = p ∷ []; ended = fails e }
after_append none p rest = record { pieces = p ∷ rest.pieces; ended = rest.ended }

unfoldable pub after_finish : Call (Option Text) → Piece → (Option Text → Session) → Session
after_finish (fails e) p more = record { pieces = p ∷ []; ended = fails e }
after_finish (returns id) p more =
    let rest = more id in record { pieces = p ∷ rest.pieces; ended = rest.ended }

-- One round at `offset`, the cursor's, with what it reads; the flags are the tests of the `while` and
-- of the `if`. `more` is the loop with the offset and the file id that follow.
unfoldable pub session_round :
    Bool → Bool → Dropbox → ℕ → ℕ → Bytes → Option Text → (ℕ → Option Text → Session) → Session
unfolding after_append after_finish
session_round false last d offset next content id more = record { pieces = []; ended = returns id }
session_round true true d offset next content id more =
    after_finish (d.finish offset content) (Piece.finish offset content) (more offset)
session_round true false d offset next content id more =
    after_append (d.append offset content) (Piece.append offset content) (more next id)

-- The `while` from the place `tell` on, with the bytes from there on and the cursor's offset.
unfoldable pub session_from : Dropbox → ℕ → ℕ → ℕ → ℕ → Bytes → Option Text → Session
unfolding session_round
session_from d size zero tell offset rest id = record { pieces = []; ended = returns id }
session_from d size (suc fuel) tell offset rest id =
    let content = take dropbox_chunk rest in
    let next = tell + length content in
    session_round (ltb tell size) (leb (size - tell) dropbox_chunk) d offset next content id
      (λ new_offset new_id.
        session_from d size fuel next new_offset (drop dropbox_chunk rest) new_id)

-- What follows the start of a session, which has read the first chunk
unfoldable pub dropbox_session : Dropbox → Bytes → Session
unfolding session_from
dropbox_session d file =
    let first = length (take dropbox_chunk file) in
    session_from d (length file) (suc (length file)) first first (drop dropbox_chunk file) none

start_session : Dropbox → Bytes → Call Text → Call (Option Text)
unfolding dropbox_session
start_session d file (fails e) = fails e
start_session d file (returns session_id) = (dropbox_session d file).ended

-- The last clause of the outer `try`, by the text of the error
on_dropbox_text : Text → Backend
unfolding contains raise_failed
on_dropbox_text t =
    if contains (codes "insufficient_space") t
    then Backend.raises UploadError.dropbox_not_enough_storage
    else if contains (codes "expired_access_token") t
    then Backend.raises UploadError.dropbox_token_expired
    else raise_failed t

-- The clauses of the outer `try`, which an error raised in it reaches too.
unfoldable pub on_dropbox_failure : Failure → Backend
unfolding on_dropbox_text
on_dropbox_failure file_not_found = Backend.leaves PointStatus.upload_failed_file_not_found none
on_dropbox_failure (resumable_upload t) = on_dropbox_text t
on_dropbox_failure (failed t) = on_dropbox_text t

-- NodeDropboxFileIDMissingError, which the last clause of the `try` catches too; the text is the one
-- that it has by default.
no_file_id : Failure
no_file_id = failed (codes "Unable to upload backup file.")

-- `if not storage_file_id` and what follows
dropbox_end : Call (Option Text) → Backend
unfolding on_dropbox_failure no_file_id
dropbox_end (fails e) = on_dropbox_failure e
dropbox_end (returns none) = on_dropbox_failure no_file_id
dropbox_end (returns (some [])) = on_dropbox_failure no_file_id
dropbox_end (returns (some (c ∷ cs))) = Backend.leaves PointStatus.upload_complete (some (c ∷ cs))

send_file : Dropbox → Bytes → Call (Option Text)
unfolding start_session
send_file d file =
    if leb (length file) dropbox_chunk
    then d.upload file
    else start_session d file (d.start (take dropbox_chunk file))

-- `local` is the local zip, if it is there; `os.path.getsize` raises if it is not.
unfoldable pub storage_dropbox : Dropbox → Option Bytes → Backend
unfolding dropbox_end send_file
storage_dropbox d none = on_dropbox_failure file_not_found
storage_dropbox d (some file) = dropbox_end (send_file d file)
