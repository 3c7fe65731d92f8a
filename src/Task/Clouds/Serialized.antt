-- ===== src/Task/Clouds/Serialized.antt =====
-- The provider tasks and the table of the node.
use backupsheep.Prelude.{
  ℕ, refl, Bool, true, false, Option, none, some, Bool-cases, inl, inr, if◌then◌else◌,
}
use backupsheep.Model.Rows.{Backup, Error, Db}
use backupsheep.Node.{Outside, Request, Initiated, get_cloud_backup}
use backupsheep.Node.Holding.{IsSerializedDb, IsFree, Holds, Holds-IsFree, save-Holds_same}
use backupsheep.Node.Guard.{IsGuarded}
use backupsheep.Node.Initiate.{backup_initiate-IsGuarded}
use backupsheep.Task.{Call, Body, may_run, request, max_retries, on_error}
use backupsheep.Task.Clouds
use backupsheep.Task.Clouds.{
  Answers, Wanted, Snapshot, raises, writes, write_ids, create_snapshot, wanted_snapshot,
  start_poll, on_not_ready, cloud_task, Provider, cloud_backup, backup_digitalocean, backup_aws,
  backup_hetzner, backup_vultr, backup_google_cloud, backup_aws_rds, backup_lightsail,
  backup_oracle, backup_ovh_ca, backup_ovh_eu, backup_ovh_us, backup_upcloud, digitalocean_wanted,
  unique_wanted, digitalocean_not_ready, not_validated,
}
use backupsheep.Task.Ends.{
  HasLanded, IsHandled, on_error-HasLanded, on_timeout-HasLanded, notify_and_reset-IsFree,
}

create_snapshot-Holds :
    (t i : ℕ) (s : Snapshot) (db : Db) → Holds t i db → Holds t i (create_snapshot s i db).1
unfolding create_snapshot
create_snapshot-Holds t i (raises e) db h = h
create_snapshot-Holds t i (writes action unique) db h =
    unfold write_ids in
    save-Holds_same t i (write_ids action unique) db (record { id = λ b. refl; task = λ b. refl })
      (λ b. refl) h

wanted_snapshot-Holds :
    (t i : ℕ) (w : Wanted) (s : Snapshot) (db : Db) (b : Option Backup)
    → Holds t i db
    → Holds t i (wanted_snapshot w s i db b).1
unfolding wanted_snapshot
wanted_snapshot-Holds t i w s db none h = h
wanted_snapshot-Holds t i w s db (some b) h = elim (Bool-cases (w db.node.type b)) [
  | inl want ↦ rw want (create_snapshot-Holds t i s db h)
  | inr skip ↦ rw skip h
]

start_poll-IsHandled :
    (t i : ℕ) (broker : Bool) (x : Option Error × Db)
    → Holds t i x.1
    → IsHandled t (start_poll broker i x)
unfolding start_poll
start_poll-IsHandled t i broker (some e, db) h = Holds-IsFree h
start_poll-IsHandled t i true (none, db) h = h.serialized
start_poll-IsHandled t i false (none, db) h = Holds-IsFree h

body-IsHandled :
    (t : ℕ) (w : Wanted) (a : Answers) (x : Initiated × Db)
    → IsGuarded t x
    → IsHandled t (Clouds.body w a x)
unfolding Clouds.body
body-IsHandled t w a (Initiated.blocked, db) g = g
body-IsHandled t w a (Initiated.raised e, db) g = g
body-IsHandled t w a (Initiated.started i, db) g =
    start_poll-IsHandled t i a.broker _
      (wanted_snapshot-Holds t i w a.snapshot db (get_cloud_backup i db) g)

on_not_ready-HasLanded :
    (o : Outside) (r : Request) (e : Error) (db : Db)
    → IsFree r.task_id db
    → HasLanded (on_not_ready o r e db)
unfolding on_not_ready
on_not_ready-HasLanded o r e db h = elim (Bool-cases (o.may_retry r.retries max_retries)) [
  | inl again ↦ rw again ((notify_and_reset-IsFree r e db h).serialized)
  | inr last ↦ rw last ((notify_and_reset-IsFree r e db h).serialized)
]

raised-HasLanded :
    (not_ready : Error → Bool) (o : Outside) (r : Request) (e : Error) (db : Db)
    → IsFree r.task_id db
    → HasLanded (if not_ready e then on_not_ready o r e db else on_error o r e db)
raised-HasLanded not_ready o r e db h = elim (Bool-cases (not_ready e)) [
  | inl early ↦ rw early (on_not_ready-HasLanded o r e db h)
  | inr other ↦ rw other (on_error-HasLanded o r e db h)
]

handlers-HasLanded :
    (not_ready : Error → Bool) (o : Outside) (r : Request) (x : Body × Db)
    → IsHandled r.task_id x
    → HasLanded (Clouds.handlers not_ready o r x)
unfolding Clouds.handlers
handlers-HasLanded not_ready o r (Body.returned, db) h = h
handlers-HasLanded not_ready o r (Body.finished, db) h = h
handlers-HasLanded not_ready o r (Body.raised Error.soft_time_limit_exceeded backup, db) h =
    on_timeout-HasLanded r Error.soft_time_limit_exceeded db h
handlers-HasLanded not_ready o r (Body.raised e backup, db) h =
    raised-HasLanded not_ready o r e db h

cloud_task-HasLanded :
    (not_ready : Error → Bool) (w : Wanted) (o : Outside) (a : Answers) (c : Call) (db : Db)
    → IsSerializedDb db
    → HasLanded (cloud_task not_ready w o a c db)
unfolding cloud_task
cloud_task-HasLanded not_ready w o a c db h = elim (Bool-cases (may_run c db)) [
  | inl run ↦ rw run (
      handlers-HasLanded not_ready o (request c) _
        (body-IsHandled (request c).task_id w a _ (backup_initiate-IsGuarded o (request c) db h)))
  | inr stop ↦ rw stop h
]

-- The task of every provider keeps at most one backup of the node in flight, whatever it meets, and
-- none once it has given up after the last retry or has run out of time.
pub cloud_backup-HasLanded :
    (p : Provider) (o : Outside) (a : Answers) (c : Call) (db : Db)
    → IsSerializedDb db
    → HasLanded (cloud_backup p o a c db)
unfolding cloud_backup backup_digitalocean backup_aws backup_hetzner backup_vultr
    backup_google_cloud backup_aws_rds backup_lightsail backup_oracle backup_ovh_ca backup_ovh_eu
    backup_ovh_us backup_upcloud
cloud_backup-HasLanded Provider.digitalocean =
    cloud_task-HasLanded digitalocean_not_ready digitalocean_wanted
cloud_backup-HasLanded _ = cloud_task-HasLanded not_validated unique_wanted
