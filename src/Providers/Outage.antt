-- ===== src/Providers/Outage.antt =====
-- A run of `poll_cloud_backup` while the provider of the snapshot is out of reach.
use backupsheep.Prelude.{
  ℕ, ◌-◌, ◌≡◌, List, refl, ap, ◌∙◌, Bool, Bool-cases, inl, inr, true, false, not, Option, none,
  some, ◌==◌, ltb, find?, sym,
}
use mathlib.Core.Bool.{false≢true}
use backupsheep.Model.Status.{BackupStatus, NodeType, in_terminal}
use backupsheep.Model.Rows.{Backup, Db, Message, has_id}
use backupsheep.Node.{send}
use backupsheep.Poll.{PollEnd, started, poll_cloud_backup}
use backupsheep.Poll.Waits.{poll_cloud_backup-in_progress}
use backupsheep.Providers.{
  VolumeKind, SnapshotRow, HttpReply, guarded, waiting, read_body, on_200, hetzner_poll_status,
  upcloud_poll_status, oracle_request, oracle_poll_status, OvhSnapshot, ovh_poll_status,
  ovh_ca_poll_status, ovh_eu_poll_status, ovh_us_poll_status,
}
use backupsheep.Providers.Compute.{
  vultr_poll_status, google_poll_status, aws_poll_status, lightsail_poll_status, rds_poll_status,
}
use backupsheep.Providers.DigitalOcean.{
  ActionState, DropletSnapshot, on_action, on_action_reply, digitalocean_poll_status,
}
use backupsheep.SoftDelete.Listing.{Page}
use backupsheep.Providers.Dispatch.{Provided, poll_status}

-- The request is not answered with 200 and a body that is read.
abbrev pub no_answer : {A : Type 0} → HttpReply A → Bool
no_answer HttpReply.raised = true
no_answer (HttpReply.answered code none) = true
no_answer (HttpReply.answered code (some a)) = not (code == 200)

abbrev pub raises : {A : Type 0} → Option A → Bool
raises none = true
raises (some a) = false

-- The first request for a snapshot of this type of node is not answered; for a volume of DigitalOcean
-- there is no request.
abbrev pub is_unreached : Provided → Bool
is_unreached (Provided.hetzner t a i) = no_answer a
is_unreached (Provided.upcloud t r) = no_answer r
is_unreached (Provided.oracle t k r) = no_answer r
is_unreached (Provided.ovh_ca t l) = raises l
is_unreached (Provided.ovh_eu t l) = raises l
is_unreached (Provided.ovh_us t l) = raises l
is_unreached (Provided.vultr NodeType.volume b s) = no_answer b
is_unreached (Provided.vultr _ b s) = no_answer s
is_unreached (Provided.google_cloud t r) = no_answer r
is_unreached (Provided.aws NodeType.volume i j l r) = raises l
is_unreached (Provided.aws _ i j l r) = raises i
is_unreached (Provided.lightsail t r) = raises r
is_unreached (Provided.aws_rds l) = raises l
is_unreached (Provided.digitalocean rounds NodeType.volume uuid a pages) = false
is_unreached (Provided.digitalocean rounds _ uuid a pages) = no_answer a

on_200-no_answer :
    {A : Type 0} (row : SnapshotRow) (k : A → Option (BackupStatus × SnapshotRow)) (r : HttpReply A)
    → no_answer r ≡ true
    → guarded row (on_200 r k (waiting row)) ≡ (BackupStatus.in_progress, row)
unfolding guarded on_200 read_body
on_200-no_answer row k HttpReply.raised h = refl
on_200-no_answer row k (HttpReply.answered code none) h = elim (Bool-cases (code == 200)) [
  | inl e ↦ rw e refl
  | inr e ↦ rw e refl
]
on_200-no_answer row k (HttpReply.answered code (some a)) h = elim (Bool-cases (code == 200)) [
  | inl e ↦ absurd (false≢true (sym (ap not e) ∙ h))
  | inr e ↦ rw e refl
]

read_body-raises :
    {A : Type 0} (row : SnapshotRow) (k : A → Option (BackupStatus × SnapshotRow)) (r : Option A)
    → raises r ≡ true
    → guarded row (read_body r k) ≡ (BackupStatus.in_progress, row)
unfolding guarded read_body
read_body-raises row k none h = refl
read_body-raises row k (some a) h = cc

ovh_unreached :
    (t : NodeType) (l : Option (List OvhSnapshot)) (row : SnapshotRow)
    → raises l ≡ true
    → ovh_poll_status t l row ≡ (BackupStatus.in_progress, row)
unfolding ovh_poll_status
ovh_unreached NodeType.cloud l row h = read_body-raises row _ l h
ovh_unreached NodeType.volume l row h = read_body-raises row _ l h
ovh_unreached _ l row h = refl

droplet_unreached :
    (rounds uuid : ℕ) (a : HttpReply ActionState) (pages : ℕ → HttpReply (Page DropletSnapshot))
    (row : SnapshotRow)
    → no_answer a ≡ true
    → on_action_reply rounds uuid a pages row ≡ some (BackupStatus.in_progress, row)
unfolding on_action_reply on_action
droplet_unreached rounds uuid HttpReply.raised pages row h = refl
droplet_unreached rounds uuid (HttpReply.answered code none) pages row h =
    elim (Bool-cases (code == 200)) [ inl e ↦ rw e refl | inr e ↦ rw e refl ]
droplet_unreached rounds uuid (HttpReply.answered code (some x)) pages row h =
    elim (Bool-cases (code == 200)) [
      | inl e ↦ absurd (false≢true (sym (ap not e) ∙ h))
      | inr e ↦ rw e refl
    ]

-- A provider that is out of reach is taken as a snapshot in progress, and the row is left alone.
poll_status_unreached :
    (p : Provided) (row : SnapshotRow)
    → is_unreached p ≡ true
    → poll_status p row ≡ some (BackupStatus.in_progress, row)
unfolding poll_status hetzner_poll_status upcloud_poll_status oracle_poll_status oracle_request
    ovh_ca_poll_status ovh_eu_poll_status ovh_us_poll_status vultr_poll_status google_poll_status
    aws_poll_status lightsail_poll_status rds_poll_status guarded read_body digitalocean_poll_status
poll_status_unreached (Provided.hetzner NodeType.cloud a i) row h =
    ap some (on_200-no_answer row _ a h)
poll_status_unreached (Provided.hetzner _ a i) row h = refl
poll_status_unreached (Provided.upcloud NodeType.volume r) row h =
    ap some (on_200-no_answer row _ r h)
poll_status_unreached (Provided.upcloud _ r) row h = refl
poll_status_unreached (Provided.oracle NodeType.volume VolumeKind.other r) row h = refl
poll_status_unreached (Provided.oracle NodeType.volume k r) row h =
    ap some (on_200-no_answer row _ r h)
poll_status_unreached (Provided.oracle _ k r) row h = refl
poll_status_unreached (Provided.ovh_ca t l) row h = ap some (ovh_unreached t l row h)
poll_status_unreached (Provided.ovh_eu t l) row h = ap some (ovh_unreached t l row h)
poll_status_unreached (Provided.ovh_us t l) row h = ap some (ovh_unreached t l row h)
poll_status_unreached (Provided.vultr NodeType.volume b s) row h =
    ap some (on_200-no_answer row _ b h)
poll_status_unreached (Provided.vultr _ b s) row h = ap some (on_200-no_answer row _ s h)
poll_status_unreached (Provided.google_cloud NodeType.cloud r) row h =
    ap some (on_200-no_answer row _ r h)
poll_status_unreached (Provided.google_cloud NodeType.volume r) row h =
    ap some (on_200-no_answer row _ r h)
poll_status_unreached (Provided.google_cloud _ r) row h = refl
poll_status_unreached (Provided.aws NodeType.cloud i j l r) row h =
    ap some (read_body-raises row _ i h)
poll_status_unreached (Provided.aws NodeType.volume i j none r) row h = refl
poll_status_unreached (Provided.aws NodeType.volume i j (some l) r) row h = cc
poll_status_unreached (Provided.aws _ i j l r) row h = refl
poll_status_unreached (Provided.lightsail NodeType.cloud r) row h =
    ap some (read_body-raises row _ r h)
poll_status_unreached (Provided.lightsail NodeType.volume r) row h =
    ap some (read_body-raises row _ r h)
poll_status_unreached (Provided.lightsail _ r) row h = refl
poll_status_unreached (Provided.aws_rds l) row h = ap some (read_body-raises row _ l h)
poll_status_unreached (Provided.digitalocean rounds NodeType.cloud uuid a pages) row h =
    droplet_unreached rounds uuid a pages row h
poll_status_unreached (Provided.digitalocean rounds NodeType.volume uuid a pages) row h = cc
poll_status_unreached (Provided.digitalocean rounds _ uuid a pages) row h = refl

-- While the provider of a snapshot is out of reach (of the snapshots of DigitalOcean, only droplets are
-- asked about), the check says that the snapshot is in progress and leaves the row alone; and while the
-- timeout has not passed, a run of `poll_cloud_backup` with that answer on a backup that is not over
-- changes no row and tells nobody of a failure: all it does is to queue itself again, with the time of
-- the first run.
pub poll_cloud_backup_unreached :
    (soft_delete : Backup → Db → Db) (timeout : ℕ) (p : Provided) (row : SnapshotRow) (i : ℕ)
    (started_at : Option ℕ) (db : Db) (b : Backup)
    → find? (has_id i) db.backups ≡ some b
    → in_terminal b.status ≡ false
    → is_unreached p ≡ true
    → ltb timeout (db.now - started started_at db) ≡ false
    → (answer : BackupStatus × SnapshotRow) × (poll_status p row ≡ some answer)
      × (answer.1 ≡ row)
      × (poll_cloud_backup soft_delete timeout (some answer.0) i started_at db
          ≡ (PollEnd.requeued (started started_at db), send (Message.poll_cloud_backup b.id) db))
poll_cloud_backup_unreached soft_delete timeout p row i started_at db b found unended out early = (
  (BackupStatus.in_progress, row),
  poll_status_unreached p row out,
  refl,
  poll_cloud_backup-in_progress soft_delete timeout i started_at db b found unended early,
)
