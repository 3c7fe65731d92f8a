-- ===== src/Storage/Objects.antt =====
-- The backends of apps/_tasks/integration/storage/ that put the zip into a bucket under a key: they
-- differ in the client, in the name of the object and in the errors that they
-- tell apart. What the client and its credentials do is an argument.
use backupsheep.Prelude.{Bool, false, [], ◌∷◌, ◌++◌, Option, none, some, ◌==◌, if◌then◌else◌}
use backupsheep.Prelude.Text.{codes}
use backupsheep.Model.Status.{PointStatus}
use backupsheep.Model.Rows.{Text}
use backupsheep.Upload.{UploadError, Backend}
use backupsheep.Storage.Failures.{
  Failure, file_not_found, resumable_upload, failed, contains, raise_failed,
}

-- What the backends read of the backup
pub record Zip : Type 0 where
  pub uuid : Text
  pub name_slug : Text

-- A storage of the account: its prefix, what its client raises before the upload, and what it raises
-- in the upload under a key.
pub record Bucket : Type 0 where
  pub prefix : Option Text
  pub connect : Option Failure
  pub put : Text → Option Failure

-- `f"{stored_backup.backup.uuid}.zip"`
unfoldable pub flat_name : Zip → Text
flat_name z = z.uuid ++ codes ".zip"

-- `f"{backup.node.name_slug}/{stored_backup.backup.uuid}.zip"`
unfoldable pub nested_name : Zip → Text
nested_name z = z.name_slug ++ codes "/" ++ z.uuid ++ codes ".zip"

-- `prefix.endswith("/")`
unfoldable pub ends_with_slash : Text → Bool
ends_with_slash [] = false
ends_with_slash (c ∷ []) = c == b'/'
ends_with_slash (c ∷ d ∷ cs) = ends_with_slash (d ∷ cs)

unfoldable pub object_key : Option Text → Text → Text
unfolding ends_with_slash
object_key none file_name = file_name
object_key (some []) file_name = file_name
object_key (some (c ∷ cs)) file_name =
    (if ends_with_slash (c ∷ cs) then c ∷ cs else c ∷ cs ++ codes "/") ++ file_name

-- The `try` of a backend up to its `except` clauses: the error of the first call that raises
raised_by : Option Failure → Option Failure → Option Failure
raised_by (some e) upload = some e
raised_by none upload = upload

-- The end of a backend, with its last `except` clause
stored : (Text → Backend) → Text → Option Failure → Backend
stored on_text key none = Backend.leaves PointStatus.upload_complete (some key)
stored on_text key (some file_not_found) =
    Backend.leaves PointStatus.upload_failed_file_not_found none
stored on_text key (some (resumable_upload t)) = on_text t
stored on_text key (some (failed t)) = on_text t

unfoldable pub put_object : (Text → Backend) → (Zip → Text) → Bucket → Zip → Backend
unfolding object_key raised_by stored
put_object on_text name b z =
    let key = object_key b.prefix (name z) in stored on_text key (raised_by b.connect (b.put key))

-- The last clause of do_spaces.py
spaces_error : Text → Backend
unfolding contains raise_failed
spaces_error t =
    if contains (codes "BucketDeleted") t
    then Backend.raises UploadError.spaces_bucket_deleted
    else if contains (codes "NoSuchBucket") t
    then Backend.raises UploadError.spaces_no_such_bucket
    else raise_failed t

-- The last clause of filebase.py
filebase_error : Text → Backend
unfolding contains raise_failed
filebase_error t =
    if contains (codes "exceeded your storage quota") t
    then Backend.raises UploadError.filebase_quota_exceeded
    else raise_failed t

unfoldable pub storage_do_spaces : Bucket → Zip → Backend
unfolding put_object spaces_error
storage_do_spaces = put_object spaces_error flat_name

unfoldable pub storage_filebase : Bucket → Zip → Backend
unfolding put_object filebase_error
storage_filebase = put_object filebase_error flat_name

unfoldable pub storage_aws_s3 : Bucket → Zip → Backend
unfolding put_object
storage_aws_s3 = put_object raise_failed flat_name

unfoldable pub storage_wasabi : Bucket → Zip → Backend
unfolding put_object
storage_wasabi = put_object raise_failed flat_name

unfoldable pub storage_backblaze_b2 : Bucket → Zip → Backend
unfolding put_object
storage_backblaze_b2 = put_object raise_failed flat_name

unfoldable pub storage_linode : Bucket → Zip → Backend
unfolding put_object
storage_linode = put_object raise_failed flat_name

unfoldable pub storage_vultr : Bucket → Zip → Backend
unfolding put_object
storage_vultr = put_object raise_failed flat_name

unfoldable pub storage_upcloud : Bucket → Zip → Backend
unfolding put_object
storage_upcloud = put_object raise_failed flat_name

unfoldable pub storage_exoscale : Bucket → Zip → Backend
unfolding put_object
storage_exoscale = put_object raise_failed flat_name

unfoldable pub storage_oracle : Bucket → Zip → Backend
unfolding put_object
storage_oracle = put_object raise_failed flat_name

unfoldable pub storage_scaleway : Bucket → Zip → Backend
unfolding put_object
storage_scaleway = put_object raise_failed flat_name

unfoldable pub storage_cloudflare : Bucket → Zip → Backend
unfolding put_object
storage_cloudflare = put_object raise_failed nested_name

unfoldable pub storage_google_cloud : Bucket → Zip → Backend
unfolding put_object
storage_google_cloud = put_object raise_failed nested_name

unfoldable pub storage_leviia : Bucket → Zip → Backend
unfolding put_object
storage_leviia = put_object raise_failed nested_name

unfoldable pub storage_idrive : Bucket → Zip → Backend
unfolding put_object
storage_idrive = put_object raise_failed nested_name

unfoldable pub storage_ionos : Bucket → Zip → Backend
unfolding put_object
storage_ionos = put_object raise_failed nested_name

unfoldable pub storage_alibaba : Bucket → Zip → Backend
unfolding put_object
storage_alibaba = put_object raise_failed nested_name

unfoldable pub storage_tencent : Bucket → Zip → Backend
unfolding put_object
storage_tencent = put_object raise_failed nested_name

unfoldable pub storage_rackcorp : Bucket → Zip → Backend
unfolding put_object
storage_rackcorp = put_object raise_failed nested_name

unfoldable pub storage_ibm : Bucket → Zip → Backend
unfolding put_object
storage_ibm = put_object raise_failed nested_name
