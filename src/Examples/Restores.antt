-- ===== src/Examples/Restores.antt =====
-- The theorems on restores, at a small disk and a small table.
use backupsheep.Prelude.{
  false, any, ◌<◌, ◌≡◌, ◌↔◌, refl, true, [], ◌∷◌, ◌++◌, none, some, arith, find?, All,
}
use backupsheep.Prelude.Text.{codes, text_eq}
use backupsheep.Model.Status.{RestoreStatus, StorageCode}
use backupsheep.Model.Rows.{Text, StoragePoint}
use backupsheep.Restore.Identifier.{is_letter, restore_identifier}
use backupsheep.Restore.Identifier.Formed.{IsNamed, restore_identifier-IsNamed}
use backupsheep.Restore.Paths.{path, starts_with, is_below, local_source_path, check_members}
use backupsheep.Restore.Paths.Confined.{IsInside, check_members-IsInside}
use backupsheep.Restore.Fetch.{World, fetched, unless_empty, copy_local, is_local, fetch_backup_zip}
use backupsheep.Restore.Fetch.Sized.{ComesFrom, fetch_backup_zip-ComesFrom}
use backupsheep.Providers.{HttpReply}
use backupsheep.Restore.Checks.{Check, check_restore}
use backupsheep.Restore.Checks.Outage.{poll_cloud_restore_unreached}
use backupsheep.Restore.Tasks.{
  Restore, Restores, RestoreEnd, Notice, get_restore, tell, is_restore_over, poll_cloud_restore,
  poll_restore_until,
}
use backupsheep.Restore.Tasks.Outcome.{HasEnded, poll_restore_until-ends}
use backupsheep.Examples.{point}

-- Paths are their own real paths, and every path is a file of three bytes.
abbrev disk : World
disk = record {
  realpath = λ t. t;
  is_file = λ t. true;
  storage_root = codes "/s";
  size = λ t. 3;
  download_url = none;
  download = λ url. none;
}

abbrev zip : Text
zip = codes "/s/a.zip"

abbrev local_point : StoragePoint
local_point = record point { storage_code = StorageCode.local; storage_file_id = some zip }

zip_path : local_source_path disk.realpath disk.is_file disk.storage_root (some zip) ≡ path zip
unfolding local_source_path text_eq is_below starts_with
zip_path = refl

check_members-IsInside_example :
    (check_members (λ name. codes "/d/" ++ name) (codes "/d") (codes "x" ∷ codes "y" ∷ []) ≡ none)
    ↔ All (λ name. IsInside (codes "/d") (codes "/d/" ++ name)) (codes "x" ∷ codes "y" ∷ [])
check_members-IsInside_example =
    check_members-IsInside (λ name. codes "/d/" ++ name) (codes "/d") (codes "x" ∷ codes "y" ∷ [])

zip_fetched : fetch_backup_zip disk local_point ≡ fetched 3
unfolding fetch_backup_zip copy_local unless_empty is_local local_source_path text_eq is_below
    starts_with
zip_fetched = refl

fetch_backup_zip-ComesFrom_example : (0 < 3) × ComesFrom disk (is_local StorageCode.local) 3
fetch_backup_zip-ComesFrom_example = fetch_backup_zip-ComesFrom disk local_point 3 zip_fetched

abbrev pending : Restore
pending = record {
  id = 1;
  status = RestoreStatus.pending;
  error = none;
  resource_id = none;
  celery_task_id = none;
}

abbrev restores : Restores
restores = record { rows = pending ∷ []; now = 100; notices = [] }

pending_found : get_restore 1 restores ≡ some pending
unfolding get_restore find?
pending_found = refl

poll_restore_until-ends_example :
    HasEnded 1 (poll_restore_until 722 120 86400 (λ t. 5) (λ t. none) 1 none restores)
poll_restore_until-ends_example =
    poll_restore_until-ends 120 86400 (λ t. 5) (λ t. none) 1 721 restores pending pending_found
      (omega arith)

-- The name of a restore with spaces, an underscore and a digit in front
identifier_given : restore_identifier (codes "1 my__db -") ≡ some (codes "my-db")
unfolding restore_identifier
identifier_given = refl

restore_identifier-IsNamed_example :
    IsNamed (any is_letter (codes "1 my__db -")) (restore_identifier (codes "1 my__db -"))
restore_identifier-IsNamed_example = restore_identifier-IsNamed (codes "1 my__db -")

abbrev out : Check
out = Check.hetzner (HttpReply.answered 503 none)

pending_open : is_restore_over pending.status ≡ false
unfolding is_restore_over
pending_open = refl

poll_cloud_restore_unreached_example :
    poll_cloud_restore 86400 (check_restore out) 1 (some 40) restores
    ≡ (RestoreEnd.polls (some 40), tell (Notice.poll_later 1) restores)
poll_cloud_restore_unreached_example =
    poll_cloud_restore_unreached 86400 out 1 (some 40) restores pending pending_found pending_open
      refl refl

-- A reply of a running server ends the restore.
running_complete :
    check_restore (Check.hetzner (HttpReply.answered 200 (some (some (codes "running")))))
    ≡ some RestoreStatus.complete
unfolding check_restore
running_complete = refl
