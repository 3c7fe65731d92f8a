-- ===== src/Storage/Failures.antt =====
-- The errors that the storage backends of apps/_tasks/integration/storage/ meet, and what they raise to
-- `storage_upload`, which knows an error by its class and its text. Texts are taken as ASCII.
use backupsheep.Prelude.{◌+◌, Bool, true, false, ◌&&◌, ◌||◌, [], ◌∷◌, leb, ◌==◌, if◌then◌else◌, map}
use backupsheep.Prelude.Text.{codes}
use backupsheep.Model.Rows.{Text}
use backupsheep.Upload.{UploadError, Backend}

-- `resumable_upload` is the class of the Google client; the text is `e.__str__()`.
pub data Failure : Type 0 where
  file_not_found : Failure
  resumable_upload failed : Text → Failure

-- A call to a service: what it returns, or what it raises.
pub data Call {ℓ} (A : Type ℓ) : Type ℓ where
  returns : A → Call A
  fails : Failure → Call A

unfoldable pub begins : Text → Text → Bool
begins [] t = true
begins (c ∷ cs) [] = false
begins (c ∷ cs) (d ∷ ds) = c == d && begins cs ds

-- `part in text`
unfoldable pub contains : Text → Text → Bool
unfolding begins
contains part [] = begins part []
contains part (c ∷ cs) = begins part (c ∷ cs) || contains part cs

-- `text.lower()`
unfoldable pub lower : Text → Text
lower t = map (λ c. if leb b'A' c && leb c b'Z' then c + 32 else c) t

-- The test of `storage_upload` for an error that a retry cannot fix
unfoldable pub not_retryable : Text → Bool
unfolding lower contains
not_retryable t =
    contains (codes "user-provided path") (lower t) && contains (codes "does not exist") (lower t)

-- A class of error that `storage_upload` has no clause for
unfoldable pub raise_failed : Text → Backend
unfolding not_retryable
raise_failed t = Backend.raises (UploadError.other (not_retryable t))
