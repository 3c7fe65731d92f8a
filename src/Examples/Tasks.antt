-- ===== src/Examples/Tasks.antt =====
-- The theorems on the backup tasks, in the last retry of the task 7.
use backupsheep.Prelude.{◌≡◌, ◌≢◌, refl, true, false, ◌∷◌, [], none, some}
use backupsheep.Model.Status.{NodeType}
use backupsheep.Model.Rows.{Error}
use backupsheep.Node.{active_backup, has_storage_points}
use backupsheep.Task.Ends.{HasLanded}
use backupsheep.Task.Files.{
  Engine, raises, valid, backup_website, backup_database, backup_wordpress, backup_basecamp,
  website_create_snapshot,
}
use backupsheep.Task.Files
use backupsheep.Task.Files.Serialized.{files_backups-HasLanded}
use backupsheep.Task.Clouds
use backupsheep.Task.Clouds.{
  Provider, is_set, cloud_backup, backup_digitalocean, digitalocean_wanted,
}
use backupsheep.Task.Clouds.Serialized.{cloud_backup-HasLanded}
use backupsheep.Examples.{outside, running, website, server, website-IsSerialized, call_of}
use backupsheep.Examples.Nodes.{website_free}

-- The snapshot fails.
abbrev pub failing : Files.Answers
failing = record { connection = valid; snapshot = some Error.other; broker = true }

-- The broker is down when the snapshot is done.
abbrev unsent : Files.Answers
unsent = record { connection = valid; snapshot = none; broker = false }

abbrev refusing : Clouds.Answers
refusing = record { snapshot = Clouds.raises Error.other; broker = true }

abbrev answering : Clouds.Answers
answering = record { snapshot = Clouds.writes (some (2 ∷ [])) (some (2 ∷ [])); broker = true }

files_backups-HasLanded_example :
    HasLanded (backup_website outside failing (call_of 7) website)
    × ((engine : Engine) → HasLanded (backup_database engine outside failing (call_of 7) website))
    × HasLanded (backup_wordpress outside failing (call_of 7) website)
    × HasLanded (backup_basecamp outside failing (call_of 7) website)
files_backups-HasLanded_example =
    files_backups-HasLanded outside failing (call_of 7) website website-IsSerialized

cloud_backup-HasLanded_example :
    HasLanded (cloud_backup Provider.aws outside refusing (call_of 7) server)
cloud_backup-HasLanded_example =
    cloud_backup-HasLanded Provider.aws outside refusing (call_of 7) server website-IsSerialized

server_free : active_backup 7 server ≡ none
unfolding active_backup
server_free = website_free

no_points : has_storage_points NodeType.cloud ≡ false
unfolding has_storage_points
no_points = refl

running_unique : is_set running.unique_id ≡ true
unfolding is_set
running_unique = refl

running_action : digitalocean_wanted NodeType.cloud running ≡ false
unfolding digitalocean_wanted is_set
running_action = refl

aws_is_not_digitalocean : Provider.aws ≢ Provider.digitalocean
aws_is_not_digitalocean = λ e. cc
