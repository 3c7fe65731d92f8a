-- ===== src/Examples/Systems.antt =====
-- The theorems on cancels, on runs in any order and on lftp scripts, at the nodes of the tests.
use backupsheep.Prelude.{ℕ, ◌≡◌, refl, true, [], ◌∷◌, ◌++◌, none, some, ltb, find?, All}
use backupsheep.Prelude.Text.{codes}
use backupsheep.Model.Status.{BackupStatus, PointStatus}
use backupsheep.Model.Rows.{Text, Backup, Db}
use backupsheep.Node.{get_cloud_backup, active_backup}
use backupsheep.Node.Holding.{IsSerializedDb}
use backupsheep.Task.Files
use backupsheep.Upload.{leaves, storage_upload}
use backupsheep.Retention.{StorageAnswer, files_soft_delete}
use backupsheep.Finalize.{finalize_backup}
use backupsheep.Cancel.{website_cancel}
use backupsheep.Cancel.Freed.{website_cancel_frees}
use backupsheep.System.{Step, Reach}
use backupsheep.System.Safety.{Reach-IsSerialized}
use backupsheep.Lftp.{Protocol, Transfer, one_line, lftp_quote, script_lines, build_lftp_script}
use backupsheep.Lftp.Quoted.{read_word, read_word-lftp_quote}
use backupsheep.Lftp.Lines.{lines, lines-build_lftp_script}
use backupsheep.Examples.{outside, running, website, website-IsSerialized, website-Holds, call_of}
use backupsheep.Examples.Tasks.{failing}
use backupsheep.Examples.Uploads.{call}

running_found : get_cloud_backup 11 website ≡ some running
unfolding get_cloud_backup find?
running_found = refl

website_cancel_frees_example :
    ((u : ℕ) → active_backup u (website_cancel (λ p. true) running website) ≡ none)
    × ((row : Backup) × (get_cloud_backup 11 (website_cancel (λ p. true) running website)
          ≡ some row)
        × (row.status ≡ BackupStatus.cancelled)
        × All (λ p. p.status ≡ PointStatus.cancelled) row.storage_points)
website_cancel_frees_example =
    website_cancel_frees (λ p. true) 7 running website website-Holds running_found

-- The backup 11 is uploaded, then finalized, then a new run of the task 8 fails, and the backup 11 is
-- cancelled late.
abbrev uploaded : Db
uploaded = (storage_upload ltb (leaves PointStatus.upload_complete (some (9 ∷ []))) call website).1

abbrev finalized : Db
finalized = (finalize_backup (files_soft_delete (λ p. StorageAnswer.accepted)) 11 uploaded).1

abbrev failed_again : Db
failed_again = (Files.backup_website outside failing (call_of 8) finalized).1

story : Reach outside website (website_cancel (λ p. true) running failed_again)
story =
    Reach.later
      (Reach.later
        (Reach.later (Reach.later Reach.start (Step.upload_run _ call))
          (Step.finalize_run (λ p. StorageAnswer.accepted) 11))
        (Step.website_run failing (call_of 8)))
      (Step.website_cancelled (λ p. true) running)

Reach-IsSerialized_example : IsSerializedDb (website_cancel (λ p. true) running failed_again)
Reach-IsSerialized_example = Reach-IsSerialized outside website _ website-IsSerialized story

abbrev password : Text
password = codes "a\"b\\c\nd"

read_word-lftp_quote_example :
    read_word (lftp_quote (some password) ++ codes " x") ≡ some (one_line password, codes " x")
read_word-lftp_quote_example = read_word-lftp_quote (some password) (codes " x")

abbrev transfer : Transfer
transfer = record {
  auth = record { protocol = Protocol.ftps; verify_ssl = true; ftps_use_explicit_ssl = true };
  host_url = codes "h";
  port = 21;
  username = codes "u";
  password = some password;
  ssh_key_path = none;
  parallel = 3;
  transfer = codes "m";
  mirror = true;
}

lines-build_lftp_script_example :
    lines (build_lftp_script (λ t. t) transfer) ≡ script_lines (λ t. t) transfer
lines-build_lftp_script_example = lines-build_lftp_script (λ t. t) transfer (refl, tt) (refl, tt)
