-- ===== src/Task/Clouds/Once.antt =====
-- The retries of the provider tasks and the provider's `create_snapshot`.
use backupsheep.Prelude.{
  ℕ, ◌≡◌, ◌≢◌, refl, sym, ◌∙◌, ap, Bool, true, false, none, some, find?, find_unique, find-update,
  ==_iff, if◌then◌else◌,
}
use backupsheep.Model.Status.{NodeType}
use backupsheep.Model.Rows.{Backup, Error, Db, has_id, of_task}
use backupsheep.Node.{
  Outside, Request, Initiated, fill, save_backup, active_backup, get_cloud_backup, backup_initiate,
  has_storage_points,
}
use backupsheep.Node.Holding.{IsSerializedDb}
use backupsheep.Node.Initiate.{backup_initiate_retry_cloud}
use backupsheep.Task.{Call, TaskEnd, may_run, request}
use backupsheep.Task.Clouds
use backupsheep.Task.Clouds.{
  Answers, Wanted, is_set, wanted_snapshot, start_poll, cloud_task, backup_digitalocean, Provider,
  cloud_backup, backup_aws, backup_hetzner, backup_vultr, backup_google_cloud, backup_aws_rds,
  backup_lightsail, backup_oracle, backup_ovh_ca, backup_ovh_eu, backup_ovh_us, backup_upcloud,
  unique_wanted, digitalocean_wanted, not_validated, digitalocean_not_ready,
}

-- A backup that shows a running snapshot is not snapshot again.
body_skips :
    (w : Wanted) (a : Answers) (i : ℕ) (db : Db) (b : Backup)
    → get_cloud_backup i db ≡ some b
    → w db.node.type b ≡ false
    → Clouds.body w a (Initiated.started i, db) ≡ start_poll a.broker i (none, db)
unfolding Clouds.body
body_skips w a i db b found skip = rw (found, wanted_snapshot) (rw skip)

-- The row of a retried task, as the task finds it after `backup_initiate`.
retried_row :
    (r : Request) (db : Db) (b : Backup)
    → IsSerializedDb db
    → find? (of_task (some r.task_id)) db.backups ≡ some b
    → get_cloud_backup b.id (save_backup b.id (fill r) db) ≡ some (fill r b)
unfolding get_cloud_backup save_backup
retried_row r db b h found =
    find-update (has_id b.id) (fill r) db.backups b (unfold fill in λ y. refl) (
      find_unique (of_task (some r.task_id)) (has_id b.id) db.backups b found
        ((==_iff b.id b.id).1 refl) (h.ids b.id))

digitalocean_wanted-fill :
    (type : NodeType) (r : Request) (b : Backup)
    → digitalocean_wanted type (fill r b) ≡ digitalocean_wanted type b
unfolding digitalocean_wanted fill
digitalocean_wanted-fill NodeType.cloud r b = refl
digitalocean_wanted-fill NodeType.volume r b = refl
digitalocean_wanted-fill _ r b = refl

module _ (o : Outside) (a a' : Answers) (c : Call) (db : Db) (b : Backup) (h : IsSerializedDb db)
    (free : active_backup c.task_id db ≡ none)
    (found : find? (of_task (some c.task_id)) db.backups ≡ some b)
    (no_points : has_storage_points db.node.type ≡ false) (same : a.broker ≡ a'.broker) where
  cloud_task_once :
      (not_ready : Error → Bool) (w : Wanted)
      → w db.node.type (fill (request c) b) ≡ false
      → cloud_task not_ready w o a c db ≡ cloud_task not_ready w o a' c db
  unfolding cloud_task request save_backup
  cloud_task_once not_ready w skip =
      ap
        (λ x.
          if may_run c db then Clouds.handlers not_ready o (request c) x else (TaskEnd.done, db))
        (skipped a ∙ ap (λ k. start_poll k b.id (none, db')) same ∙ sym (skipped a'))
    where
      db' : Db
      db' = save_backup b.id (fill (request c)) db

      started : backup_initiate o (request c) db ≡ (Initiated.started b.id, db')
      started = backup_initiate_retry_cloud o (request c) db b free found no_points

      skipped :
          (x : Answers)
          → Clouds.body w x (backup_initiate o (request c) db)
            ≡ start_poll x.broker b.id (none, db')
      skipped x =
          ap (Clouds.body w x) started
          ∙ body_skips w x b.id db' (fill (request c) b) (retried_row (request c) db b h found) skip

  -- A retry of a provider's task (all but DigitalOcean's) whose backup already has the id of a
  -- snapshot ends in the same way whatever the provider would do, since it is not asked for another
  -- snapshot.
  cloud_backup_once :
      (p : Provider)
      → p ≢ Provider.digitalocean
      → is_set b.unique_id ≡ true
      → cloud_backup p o a c db ≡ cloud_backup p o a' c db
  unfolding cloud_backup backup_aws backup_hetzner backup_vultr backup_google_cloud backup_aws_rds
      backup_lightsail backup_oracle backup_ovh_ca backup_ovh_eu backup_ovh_us backup_upcloud
  cloud_backup_once Provider.digitalocean other running = absurd (other refl)
  cloud_backup_once _ other running =
      cloud_task_once not_validated unique_wanted (unfold unique_wanted fill in rw running)

  -- The same of `backup_digitalocean`, for the action of a droplet and for the id of a volume.
  pub backup_digitalocean_once :
      digitalocean_wanted db.node.type b ≡ false
      → backup_digitalocean o a c db ≡ backup_digitalocean o a' c db
  unfolding backup_digitalocean
  backup_digitalocean_once running =
      cloud_task_once digitalocean_not_ready digitalocean_wanted
        (digitalocean_wanted-fill db.node.type (request c) b ∙ running)
