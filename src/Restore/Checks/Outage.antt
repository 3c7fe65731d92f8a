-- ===== src/Restore/Checks/Outage.antt =====
-- A run of `poll_cloud_restore` while the provider is out of reach.
use backupsheep.Prelude.{
  ℕ, ◌-◌, ◌≡◌, refl, sym, ap, ◌∙◌, true, false, not, Option, none, some, ◌==◌, ltb, Bool-cases, inl,
  inr,
}
use mathlib.Core.Bool.{false≢true}
use backupsheep.Model.Status.{NodeType, RestoreStatus}
use backupsheep.Model.Rows.{Text}
use backupsheep.Providers.{HttpReply, VolumeKind}
use backupsheep.Providers.Outage.{no_answer, raises}
use backupsheep.Restore.Tasks.{
  Restore, Restores, RestoreEnd, Notice, get_restore, tell, is_restore_over, restore_started,
  restore_polled, poll_cloud_restore,
}
use backupsheep.Restore.Tasks.Waits.{poll_cloud_restore-in_progress}
use backupsheep.Restore.Checks.{
  read_status, checked_200, digitalocean_check, hetzner_check, upcloud_check, ovh_check, aws_check,
  lightsail_check, Instances, rds_check, vultr_check, oracle_check, in_zone, google_check, Check,
  check_restore,
}

-- The request for the restored resource of such a node is not answered.
abbrev pub IsOut : Check → Type 0
IsOut (Check.digitalocean NodeType.cloud d v) = no_answer d ≡ true
IsOut (Check.digitalocean _ d v) = no_answer v ≡ true
IsOut (Check.hetzner s) = no_answer s ≡ true
IsOut (Check.upcloud s) = no_answer s ≡ true
IsOut (Check.ovh_ca t r) = raises r ≡ true
IsOut (Check.ovh_eu t r) = raises r ≡ true
IsOut (Check.ovh_us t r) = raises r ≡ true
IsOut (Check.aws NodeType.cloud r v) = raises r ≡ true
IsOut (Check.aws _ r v) = raises v ≡ true
IsOut (Check.lightsail NodeType.cloud i d) = raises i ≡ true
IsOut (Check.lightsail _ i d) = raises d ≡ true
IsOut (Check.aws_rds Instances.raised) = Unit
IsOut (Check.aws_rds _) = ⊥
IsOut (Check.vultr NodeType.cloud i b) = no_answer i ≡ true
IsOut (Check.vultr _ i b) = no_answer b ≡ true
IsOut (Check.oracle k v) = no_answer v ≡ true
IsOut (Check.google_cloud t p s z r) = (zone : Text) → no_answer (r zone) ≡ true

abbrev IsWaiting : Option RestoreStatus → Type 0
IsWaiting o = restore_polled o ≡ RestoreStatus.in_progress

checked_200-IsWaiting :
    {A : Type 0} (k : A → RestoreStatus) (r : HttpReply A)
    → no_answer r ≡ true
    → IsWaiting (checked_200 k r)
unfolding checked_200 read_status
checked_200-IsWaiting k HttpReply.raised h = refl
checked_200-IsWaiting k (HttpReply.answered code none) h = elim (Bool-cases (code == 200)) [
  | inl e ↦ rw e refl
  | inr e ↦ rw e refl
]
checked_200-IsWaiting k (HttpReply.answered code (some a)) h = elim (Bool-cases (code == 200)) [
  | inl e ↦ absurd (false≢true (sym (ap not e) ∙ h))
  | inr e ↦ rw e refl
]

read_status-IsWaiting :
    {A : Type 0} (k : A → RestoreStatus) (r : Option A)
    → raises r ≡ true
    → IsWaiting (read_status k r)
unfolding read_status
read_status-IsWaiting k none h = refl
read_status-IsWaiting k (some a) h = cc

ovh-IsWaiting :
    (t : NodeType) (r : Option (Option Text)) → raises r ≡ true → IsWaiting (ovh_check t r)
unfolding ovh_check
ovh-IsWaiting NodeType.cloud r h = read_status-IsWaiting _ r h
ovh-IsWaiting NodeType.volume r h = read_status-IsWaiting _ r h
ovh-IsWaiting _ r h = refl

in_zone-IsWaiting :
    (status : Option Text → RestoreStatus) (resource : Text → HttpReply (Option Text))
    (zone : Option Text)
    → ((z : Text) → no_answer (resource z) ≡ true)
    → IsWaiting (in_zone status resource zone)
unfolding in_zone
in_zone-IsWaiting status resource none h = refl
in_zone-IsWaiting status resource (some zone) h =
    checked_200-IsWaiting status (resource zone) (h zone)

check_restore-IsWaiting : (c : Check) → IsOut c → IsWaiting (check_restore c)
unfolding check_restore digitalocean_check hetzner_check upcloud_check aws_check lightsail_check
    rds_check vultr_check oracle_check google_check
check_restore-IsWaiting (Check.digitalocean NodeType.cloud d v) h = checked_200-IsWaiting _ d h
check_restore-IsWaiting (Check.digitalocean NodeType.volume d v) h = checked_200-IsWaiting _ v h
check_restore-IsWaiting (Check.digitalocean _ d v) h = refl
check_restore-IsWaiting (Check.hetzner s) h = checked_200-IsWaiting _ s h
check_restore-IsWaiting (Check.upcloud s) h = checked_200-IsWaiting _ s h
check_restore-IsWaiting (Check.ovh_ca t r) h = ovh-IsWaiting t r h
check_restore-IsWaiting (Check.ovh_eu t r) h = ovh-IsWaiting t r h
check_restore-IsWaiting (Check.ovh_us t r) h = ovh-IsWaiting t r h
check_restore-IsWaiting (Check.aws NodeType.cloud none v) h = refl
check_restore-IsWaiting (Check.aws NodeType.cloud (some r) v) h = cc
check_restore-IsWaiting (Check.aws NodeType.volume r none) h = refl
check_restore-IsWaiting (Check.aws NodeType.volume r (some v)) h = cc
check_restore-IsWaiting (Check.aws _ r v) h = refl
check_restore-IsWaiting (Check.lightsail NodeType.cloud i d) h = read_status-IsWaiting _ i h
check_restore-IsWaiting (Check.lightsail NodeType.volume i d) h = read_status-IsWaiting _ d h
check_restore-IsWaiting (Check.lightsail _ i d) h = refl
check_restore-IsWaiting (Check.aws_rds Instances.raised) h = refl
check_restore-IsWaiting (Check.aws_rds _) h = absurd h
check_restore-IsWaiting (Check.vultr NodeType.cloud i b) h = checked_200-IsWaiting _ i h
check_restore-IsWaiting (Check.vultr NodeType.volume i b) h = checked_200-IsWaiting _ b h
check_restore-IsWaiting (Check.vultr _ i b) h = refl
check_restore-IsWaiting (Check.oracle none v) h = refl
check_restore-IsWaiting (Check.oracle (some VolumeKind.other) v) h = refl
check_restore-IsWaiting (Check.oracle (some k) v) h = checked_200-IsWaiting _ v h
check_restore-IsWaiting (Check.google_cloud NodeType.cloud p s z r) h = in_zone-IsWaiting _ r _ h
check_restore-IsWaiting (Check.google_cloud NodeType.volume p s z r) h = in_zone-IsWaiting _ r _ h
check_restore-IsWaiting (Check.google_cloud _ p s z r) h = refl

-- While the provider of a restore that is not over is out of reach and the timeout has not passed, a run
-- of `poll_cloud_restore` changes no row and tells nobody of a failure: it only queues itself again,
-- with the time of the first run.
pub poll_cloud_restore_unreached :
    (timeout : ℕ) (c : Check) (i : ℕ) (started_at : Option ℕ) (db : Restores) (r : Restore)
    → get_restore i db ≡ some r
    → is_restore_over r.status ≡ false
    → IsOut c
    → ltb timeout (db.now - restore_started started_at db) ≡ false
    → poll_cloud_restore timeout (check_restore c) i started_at db
      ≡ (RestoreEnd.polls (some (restore_started started_at db)), tell (Notice.poll_later i) db)
poll_cloud_restore_unreached timeout c i started_at db r found unended out early =
    poll_cloud_restore-in_progress timeout i (check_restore c) started_at db r found unended
      (check_restore-IsWaiting c out) early
