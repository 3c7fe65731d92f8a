-- ===== src/Examples/Nodes.antt =====
-- The theorems on `backup_initiate`, at a website with a backup in flight.
use backupsheep.Prelude.{◌≡◌, refl, none, some, find?, arith}
use backupsheep.Model.Status.{in_active_statuses}
use backupsheep.Model.Rows.{of_task}
use backupsheep.Node.{Initiated, active_backup, backup_initiate}
use backupsheep.Node.Guard.{IsGuarded}
use backupsheep.Node.Initiate.{backup_initiate-IsGuarded, backup_initiate_held}
use backupsheep.Examples.{
  outside, running, website, website-IsSerialized, website-Holds, request_of,
}

pub website_free : active_backup 7 website ≡ none
unfolding active_backup find? in_active_statuses
website_free = refl

pub website_found : find? (of_task (some 7)) website.backups ≡ some running
unfolding find?
website_found = refl

backup_initiate-IsGuarded_example : IsGuarded 7 (backup_initiate outside (request_of 7) website)
backup_initiate-IsGuarded_example =
    backup_initiate-IsGuarded outside (request_of 7) website website-IsSerialized

backup_initiate_held_example :
    backup_initiate outside (request_of 8) website ≡ (Initiated.blocked, website)
backup_initiate_held_example =
    backup_initiate_held outside (request_of 8) 7 11 website website-Holds (omega arith)
