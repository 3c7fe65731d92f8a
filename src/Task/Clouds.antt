-- ===== src/Task/Clouds.antt =====
-- The backups that a provider makes: one task per provider in apps/_tasks/integration. The tasks
-- differ in the column that shows that a snapshot is already running.
pub mod Serialized
pub mod Once
use backupsheep.Prelude.{ℕ, Bool, true, false, not, ◌∷◌, Option, none, some, if◌then◌else◌}
use backupsheep.Model.Status.{NodeType}
use backupsheep.Model.Rows.{Text, Backup, Error, Message, Db}
use backupsheep.Node.{
  Outside, Request, Initiated, send, save_backup, get_cloud_backup, backup_initiate,
}
use backupsheep.Task.{
  Call, Body, TaskEnd, may_run, request, notify_and_reset, max_retries, on_error, on_timeout,
}

-- What the provider's `create_snapshot` does: it raises, or writes what the provider answered to
-- `action_id` and `unique_id`.
pub data Snapshot : Type 0 where
  raises : Error → Snapshot
  writes : Option Text → Option Text → Snapshot

-- What an attempt meets outside the database: the provider, and whether the broker takes the first
-- status check.
pub record Answers : Type 0 where
  pub snapshot : Snapshot
  pub broker : Bool

-- Python's truth of a nullable text
unfoldable pub is_set : Option Text → Bool
is_set (some (c ∷ cs)) = true
is_set _ = false

-- Whether `create_snapshot` is called, by the type of the node and the row of the backup.
abbrev Wanted : Type 0
Wanted = NodeType → Backup → Bool

-- digitalocean.py
unfoldable pub digitalocean_wanted : Wanted
unfolding is_set
digitalocean_wanted NodeType.cloud b = not (is_set b.action_id)
digitalocean_wanted NodeType.volume b = not (is_set b.unique_id)
digitalocean_wanted _ b = false

-- the other providers
unfoldable pub unique_wanted : Wanted
unfolding is_set
unique_wanted type b = not (is_set b.unique_id)

write_ids : Option Text → Option Text → Backup → Backup
write_ids action unique b = record b { action_id = action; unique_id = unique }

create_snapshot : Snapshot → ℕ → Db → Option Error × Db
unfolding write_ids
create_snapshot (raises e) i db = (some e, db)
create_snapshot (writes action unique) i db = (none, save_backup i (write_ids action unique) db)

wanted_snapshot : Wanted → Snapshot → ℕ → Db → Option Backup → Option Error × Db
unfolding create_snapshot
wanted_snapshot wanted s i db none = (none, db)
wanted_snapshot wanted s i db (some b) =
    if wanted db.node.type b then create_snapshot s i db else (none, db)

-- `poll_cloud_backup.apply_async`
start_poll : Bool → ℕ → Option Error × Db → Body × Db
start_poll broker i (some e, db) = (Body.raised e (some i), db)
start_poll true i (none, db) = (Body.finished, send (Message.poll_cloud_backup i) db)
start_poll false i (none, db) = (Body.raised Error.other (some i), db)

body : Wanted → Answers → Initiated × Db → Body × Db
unfolding wanted_snapshot start_poll
body wanted a (Initiated.blocked, db) = (Body.returned, db)
body wanted a (Initiated.raised e, db) = (Body.raised e none, db)
body wanted a (Initiated.started i, db) =
    start_poll a.broker i (wanted_snapshot wanted a.snapshot i db (get_cloud_backup i db))

-- The errors of the first `except` clause; its `self.retry()` stands in no `try`.
digitalocean_not_ready : Error → Bool
digitalocean_not_ready Error.node_not_ready = true
digitalocean_not_ready Error.connection_not_ready = true
digitalocean_not_ready Error.connection_validation_failed = true
digitalocean_not_ready _ = false

not_validated : Error → Bool
not_validated Error.connection_validation_failed = true
not_validated _ = false

on_not_ready : Outside → Request → Error → Db → TaskEnd × Db
on_not_ready o r e db = (
  if o.may_retry r.retries max_retries then TaskEnd.retrying else TaskEnd.crashed,
  notify_and_reset r e db,
)

handlers : (Error → Bool) → Outside → Request → Body × Db → TaskEnd × Db
unfolding on_not_ready
handlers not_ready o r (Body.returned, db) = (TaskEnd.done, db)
handlers not_ready o r (Body.finished, db) = (TaskEnd.done, db)
handlers not_ready o r (Body.raised Error.soft_time_limit_exceeded backup, db) =
    on_timeout r Error.soft_time_limit_exceeded db
handlers not_ready o r (Body.raised e backup, db) =
    if not_ready e then on_not_ready o r e db else on_error o r e db

cloud_task : (Error → Bool) → Wanted → Outside → Answers → Call → Db → TaskEnd × Db
unfolding body handlers
cloud_task not_ready wanted o a c db =
    if may_run c db
    then handlers not_ready o (request c) (body wanted a (backup_initiate o (request c) db))
    else (TaskEnd.done, db)

unfoldable pub backup_digitalocean : Outside → Answers → Call → Db → TaskEnd × Db
unfolding cloud_task digitalocean_wanted digitalocean_not_ready
backup_digitalocean = cloud_task digitalocean_not_ready digitalocean_wanted

unfoldable pub backup_aws : Outside → Answers → Call → Db → TaskEnd × Db
unfolding cloud_task unique_wanted not_validated
backup_aws = cloud_task not_validated unique_wanted

unfoldable pub backup_hetzner : Outside → Answers → Call → Db → TaskEnd × Db
unfolding cloud_task unique_wanted not_validated
backup_hetzner = cloud_task not_validated unique_wanted

unfoldable pub backup_vultr : Outside → Answers → Call → Db → TaskEnd × Db
unfolding cloud_task unique_wanted not_validated
backup_vultr = cloud_task not_validated unique_wanted

unfoldable pub backup_google_cloud : Outside → Answers → Call → Db → TaskEnd × Db
unfolding cloud_task unique_wanted not_validated
backup_google_cloud = cloud_task not_validated unique_wanted

unfoldable pub backup_aws_rds : Outside → Answers → Call → Db → TaskEnd × Db
unfolding cloud_task unique_wanted not_validated
backup_aws_rds = cloud_task not_validated unique_wanted

unfoldable pub backup_lightsail : Outside → Answers → Call → Db → TaskEnd × Db
unfolding cloud_task unique_wanted not_validated
backup_lightsail = cloud_task not_validated unique_wanted

unfoldable pub backup_oracle : Outside → Answers → Call → Db → TaskEnd × Db
unfolding cloud_task unique_wanted not_validated
backup_oracle = cloud_task not_validated unique_wanted

unfoldable pub backup_ovh_ca : Outside → Answers → Call → Db → TaskEnd × Db
unfolding cloud_task unique_wanted not_validated
backup_ovh_ca = cloud_task not_validated unique_wanted

unfoldable pub backup_ovh_eu : Outside → Answers → Call → Db → TaskEnd × Db
unfolding cloud_task unique_wanted not_validated
backup_ovh_eu = cloud_task not_validated unique_wanted

unfoldable pub backup_ovh_us : Outside → Answers → Call → Db → TaskEnd × Db
unfolding cloud_task unique_wanted not_validated
backup_ovh_us = cloud_task not_validated unique_wanted

unfoldable pub backup_upcloud : Outside → Answers → Call → Db → TaskEnd × Db
unfolding cloud_task unique_wanted not_validated
backup_upcloud = cloud_task not_validated unique_wanted

-- The integrations of cloud servers and volumes
pub data Provider : Type 0 where
  digitalocean aws hetzner vultr google_cloud aws_rds : Provider
  lightsail oracle ovh_ca ovh_eu ovh_us upcloud : Provider

-- The task of a provider, which `backup_task_name` of CoreNode names by the code of the integration
unfoldable pub cloud_backup : Provider → Outside → Answers → Call → Db → TaskEnd × Db
unfolding backup_digitalocean backup_aws backup_hetzner backup_vultr backup_google_cloud
    backup_aws_rds backup_lightsail backup_oracle backup_ovh_ca backup_ovh_eu backup_ovh_us
    backup_upcloud
cloud_backup Provider.digitalocean = backup_digitalocean
cloud_backup Provider.aws = backup_aws
cloud_backup Provider.hetzner = backup_hetzner
cloud_backup Provider.vultr = backup_vultr
cloud_backup Provider.google_cloud = backup_google_cloud
cloud_backup Provider.aws_rds = backup_aws_rds
cloud_backup Provider.lightsail = backup_lightsail
cloud_backup Provider.oracle = backup_oracle
cloud_backup Provider.ovh_ca = backup_ovh_ca
cloud_backup Provider.ovh_eu = backup_ovh_eu
cloud_backup Provider.ovh_us = backup_ovh_us
cloud_backup Provider.upcloud = backup_upcloud
