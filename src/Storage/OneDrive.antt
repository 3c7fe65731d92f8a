-- ===== src/Storage/OneDrive.antt =====
-- `storage_onedrive` of apps/_tasks/integration/storage/onedrive.py. What the Graph API gives is an
-- argument; the target path of the file is one too.
pub mod Uploaded
use backupsheep.Prelude.{ℕ, ◌||◌, Bool, Option, none, some, ◌==◌, ltb, if◌then◌else◌, length}
use backupsheep.Prelude.Text.{codes}
use backupsheep.Model.Status.{PointStatus}
use backupsheep.Model.Rows.{Text}
use backupsheep.Upload.{Backend}
use backupsheep.Storage.Failures.{
  Failure, file_not_found, resumable_upload, failed, Call, returns, fails, raise_failed,
}
use backupsheep.Storage.Chunks.{Bytes, Put, Reply, Wire, Sent, send_chunks}

-- The status codes of the responses; the session has an `uploadUrl`, or it has none.
pub record Graph : Type 0 where
  pub put_content : Bytes → Call ℕ
  pub create_session : Call (Option Text)
  pub put : Text → ℕ → Put → Call ℕ

abbrev pub simple_limit : ℕ
simple_limit = 6553600

-- The message that NodeOneDriveUploadFailedError has by default
upload_failed : Failure
upload_failed = failed (codes "Unable to upload backup file.")

-- What the loop does after a response.
graph_reply : Text → Call ℕ → Option Text → Reply
unfolding upload_failed
graph_reply target (fails e) id = Reply.stop e
graph_reply target (returns code) id =
    if code == 202
    then Reply.go_on id
    else if code == 201
    then Reply.go_on (some target)
    else Reply.stop upload_failed

chunk_reply : Graph → Text → Option Text → ℕ → Put → Option Text → Reply
unfolding graph_reply
chunk_reply g target none i p id = Reply.stop (failed (codes "'uploadUrl'"))
chunk_reply g target (some url) i p id = graph_reply target (g.put url i p) id

unfoldable pub graph_wire : Graph → Text → Option Text → Wire
unfolding chunk_reply
graph_wire g target url = record {
  chunk_size = 6553600;
  content_length = λ total. 6553600;
  reply = chunk_reply g target url;
}

unfoldable pub graph_sent : Graph → Text → Option Text → Bytes → Sent
unfolding graph_wire send_chunks
graph_sent g target url file = send_chunks (graph_wire g target url) file none

-- The clauses of the outer `try`
unfoldable pub on_graph_failure : Failure → Backend
unfolding raise_failed
on_graph_failure file_not_found = Backend.leaves PointStatus.upload_failed_file_not_found none
on_graph_failure (failed t) = raise_failed t
on_graph_failure (resumable_upload t) = raise_failed t

-- The last lines of the `try`: `storage_file_id` as it is, `None` included.
graph_result : Option Failure → Option Text → Backend
unfolding on_graph_failure
graph_result none id = Backend.leaves PointStatus.upload_complete id
graph_result (some e) id = on_graph_failure e

unfoldable pub graph_end : Sent → Backend
unfolding graph_result
graph_end s = graph_result s.raised s.file_id

unfoldable pub simple_upload : Text → Call ℕ → Backend
unfolding on_graph_failure upload_failed
simple_upload target (fails e) = on_graph_failure e
simple_upload target (returns code) =
    if code == 201 || code == 200
    then Backend.leaves PointStatus.upload_complete (some target)
    else on_graph_failure upload_failed

unfoldable pub session_upload : Graph → Text → Bytes → Call (Option Text) → Backend
unfolding graph_sent graph_end
session_upload g target file (fails e) = on_graph_failure e
session_upload g target file (returns url) = graph_end (graph_sent g target url file)

-- `local` is the local zip, if it is there; `os.stat` raises if it is not.
unfoldable pub storage_onedrive : Graph → Text → Option Bytes → Backend
unfolding simple_upload session_upload
storage_onedrive g target none = on_graph_failure file_not_found
storage_onedrive g target (some file) =
    if ltb (length file) simple_limit
    then simple_upload target (g.put_content file)
    else session_upload g target file g.create_session
