-- ===== src/Restore/Checks.antt =====
-- The methods `check_restore` of the providers' nodes in apps/console/node/models.py, which ask once
-- whether a restored resource is ready. What a service replies is a parameter, with an exception of
-- `get_client` or of a request as a reply; `none` is an exception of the method. A clause that is not
-- there returns None, which the poller takes for a restore in progress.
pub mod Outage
use backupsheep.Prelude.{
  ℕ, Bool, true, false, List, [], ◌∷◌, Option, none, some, ◌==◌, any, if◌then◌else◌,
}
use backupsheep.Prelude.Text.{codes, text_eq}
use backupsheep.Model.Status.{NodeType, RestoreStatus}
use backupsheep.Model.Rows.{Text}
use backupsheep.Providers.{HttpReply, VolumeKind}

-- `status in (…)`, with the status that `get` gives
unfoldable pub is_one_of : List Text → Option Text → Bool
unfolding any text_eq
is_one_of words none = false
is_one_of words (some s) = any (text_eq s) words

-- `if status in ready: return COMPLETE elif status in broken: return FAILED`, else IN_PROGRESS
unfoldable pub by_status : List Text → List Text → Option Text → RestoreStatus
unfolding is_one_of
by_status ready broken s =
    if is_one_of ready s
    then RestoreStatus.complete
    else if is_one_of broken s
    then RestoreStatus.failed
    else RestoreStatus.in_progress

unfoldable pub read_status : {A : Type 0} → (A → RestoreStatus) → Option A → Option RestoreStatus
read_status k none = none
read_status k (some a) = some (k a)

-- `if result.status_code == 200`, else IN_PROGRESS
unfoldable pub checked_200 : {A : Type 0} → (A → RestoreStatus) → HttpReply A → Option RestoreStatus
unfolding read_status
checked_200 k HttpReply.raised = none
checked_200 k (HttpReply.answered code body) =
    if code == 200 then read_status k body else some RestoreStatus.in_progress

abbrev pub still_waiting : Option RestoreStatus
still_waiting = some RestoreStatus.in_progress

-- CoreDigitalOcean: the status of the droplet, or the id of the volume
unfoldable pub has_volume : Option Text → RestoreStatus
has_volume (some (c ∷ cs)) = RestoreStatus.complete
has_volume _ = RestoreStatus.in_progress

unfoldable pub digitalocean_check :
    NodeType → HttpReply (Option Text) → HttpReply (Option Text) → Option RestoreStatus
unfolding checked_200 by_status has_volume
digitalocean_check NodeType.cloud droplet volume =
    checked_200 (by_status (codes "active" ∷ []) []) droplet
digitalocean_check NodeType.volume droplet volume = checked_200 has_volume volume
digitalocean_check _ droplet volume = still_waiting

-- CoreHetzner
unfoldable pub hetzner_check : HttpReply (Option Text) → Option RestoreStatus
unfolding checked_200 by_status
hetzner_check server = checked_200 (by_status (codes "running" ∷ []) []) server

-- CoreUpCloud
unfoldable pub upcloud_check : HttpReply Text → Option RestoreStatus
unfolding checked_200 by_status
upcloud_check storage =
    checked_200 (λ s. by_status (codes "online" ∷ []) (codes "error" ∷ []) (some s)) storage

-- CoreOVHCA, CoreOVHEU and CoreOVHUS
unfoldable pub ovh_check : NodeType → Option (Option Text) → Option RestoreStatus
unfolding read_status by_status
ovh_check NodeType.cloud resource =
    read_status (by_status (codes "ACTIVE" ∷ []) (codes "ERROR" ∷ [])) resource
ovh_check NodeType.volume resource =
    read_status (by_status (codes "available" ∷ []) (codes "error" ∷ [])) resource
ovh_check _ resource = still_waiting

-- CoreAWS: the first of the reservations or volumes, where there is one; a reservation without an
-- instance raises.
unfoldable pub aws_reservations : List (Option (Option Text)) → Option RestoreStatus
unfolding read_status by_status
aws_reservations [] = still_waiting
aws_reservations (r ∷ rest) =
    read_status (by_status (codes "running" ∷ []) (codes "terminated" ∷ codes "shutting-down" ∷ []))
      r

unfoldable pub aws_volumes : List (Option Text) → Option RestoreStatus
unfolding by_status
aws_volumes [] = still_waiting
aws_volumes (v ∷ rest) = some (by_status (codes "available" ∷ []) (codes "error" ∷ []) v)

unfoldable pub aws_check :
    NodeType
    → Option (List (Option (Option Text)))
    → Option (List (Option Text))
    → Option RestoreStatus
unfolding aws_reservations aws_volumes
aws_check NodeType.cloud none volumes = none
aws_check NodeType.cloud (some reservations) volumes = aws_reservations reservations
aws_check NodeType.volume reservations none = none
aws_check NodeType.volume reservations (some volumes) = aws_volumes volumes
aws_check _ reservations volumes = still_waiting

-- CoreLightsail
unfoldable pub lightsail_check :
    NodeType → Option (Option Text) → Option (Option Text) → Option RestoreStatus
unfolding read_status by_status
lightsail_check NodeType.cloud instance_ disk =
    read_status (by_status (codes "running" ∷ []) []) instance_
lightsail_check NodeType.volume instance_ disk =
    read_status (by_status (codes "available" ∷ []) (codes "error" ∷ [])) disk
lightsail_check _ instance_ disk = still_waiting

-- CoreAWSRDS: the client raises, says DBInstanceNotFound, or gives the instances, of which the first is
-- taken.
pub data Instances : Type 0 where
  raised not_found : Instances
  described : List (Option Text) → Instances

unfoldable pub rds_check : Instances → Option RestoreStatus
unfolding by_status
rds_check Instances.raised = none
rds_check Instances.not_found = still_waiting
rds_check (Instances.described []) = none
rds_check (Instances.described (s ∷ rest)) = some (
    by_status (codes "available" ∷ [])
      (codes "failed"
        ∷ codes "incompatible-restore"
        ∷ codes "incompatible-network"
        ∷ codes "incompatible-parameters"
        ∷ [])
      s)

-- CoreVultr
unfoldable pub vultr_check : NodeType → HttpReply Text → HttpReply Text → Option RestoreStatus
unfolding checked_200 by_status
vultr_check NodeType.cloud instance_ block =
    checked_200 (λ s. by_status (codes "active" ∷ []) (codes "suspended" ∷ []) (some s)) instance_
vultr_check NodeType.volume instance_ block =
    checked_200 (λ s. by_status (codes "active" ∷ []) [] (some s)) block
vultr_check _ instance_ block = still_waiting

-- CoreOracle; `none` is an exception before the kind of the volume is known.
unfoldable pub oracle_check : Option VolumeKind → HttpReply Text → Option RestoreStatus
unfolding checked_200 by_status
oracle_check none volume = none
oracle_check (some VolumeKind.other) volume = still_waiting
oracle_check (some kind) volume =
    checked_200 (λ s. by_status (codes "AVAILABLE" ∷ []) (codes "FAULTY" ∷ []) (some s)) volume

-- CoreGoogleCloud: `zone.split("/")[-1]`
unfoldable pub last_segment : Text → Text → Text
last_segment got [] = got
last_segment got (c ∷ cs) = if c == b'/' then last_segment cs cs else last_segment got cs

-- The zone of the restore, of the source, which is asked for then, or of the node
unfoldable pub restore_zone : Option Text → HttpReply Text → Text → Option Text
unfolding last_segment
restore_zone (some (c ∷ cs)) source zone = some (c ∷ cs)
restore_zone _ HttpReply.raised zone = none
restore_zone _ (HttpReply.answered code none) zone = if code == 200 then none else some zone
restore_zone _ (HttpReply.answered code (some url)) zone =
    if code == 200 then some (last_segment url url) else some zone

unfoldable pub in_zone :
    (Option Text → RestoreStatus)
    → (Text → HttpReply (Option Text))
    → Option Text
    → Option RestoreStatus
unfolding checked_200
in_zone status resource none = none
in_zone status resource (some zone) = checked_200 status (resource zone)

unfoldable pub google_check :
    NodeType
    → Option Text
    → HttpReply Text
    → Text
    → (Text → HttpReply (Option Text))
    → Option RestoreStatus
unfolding in_zone restore_zone by_status
google_check NodeType.cloud param source zone resource =
    in_zone (by_status (codes "RUNNING" ∷ []) []) resource (restore_zone param source zone)
google_check NodeType.volume param source zone resource =
    in_zone (by_status (codes "READY" ∷ []) (codes "FAILED" ∷ [])) resource
      (restore_zone param source zone)
google_check _ param source zone resource = still_waiting

-- A provider, with what it replies
pub data Check : Type 0 where
  digitalocean : NodeType → HttpReply (Option Text) → HttpReply (Option Text) → Check
  hetzner : HttpReply (Option Text) → Check
  upcloud : HttpReply Text → Check
  ovh_ca ovh_eu ovh_us : NodeType → Option (Option Text) → Check
  aws : NodeType → Option (List (Option (Option Text))) → Option (List (Option Text)) → Check
  lightsail : NodeType → Option (Option Text) → Option (Option Text) → Check
  aws_rds : Instances → Check
  vultr : NodeType → HttpReply Text → HttpReply Text → Check
  oracle : Option VolumeKind → HttpReply Text → Check
  google_cloud :
      NodeType → Option Text → HttpReply Text → Text → (Text → HttpReply (Option Text)) → Check

-- `check_restore(restore)`
unfoldable pub check_restore : Check → Option RestoreStatus
unfolding digitalocean_check hetzner_check upcloud_check ovh_check aws_check lightsail_check
    rds_check vultr_check oracle_check google_check
check_restore (Check.digitalocean t d v) = digitalocean_check t d v
check_restore (Check.hetzner s) = hetzner_check s
check_restore (Check.upcloud s) = upcloud_check s
check_restore (Check.ovh_ca t r) = ovh_check t r
check_restore (Check.ovh_eu t r) = ovh_check t r
check_restore (Check.ovh_us t r) = ovh_check t r
check_restore (Check.aws t r v) = aws_check t r v
check_restore (Check.lightsail t i d) = lightsail_check t i d
check_restore (Check.aws_rds i) = rds_check i
check_restore (Check.vultr t i b) = vultr_check t i b
check_restore (Check.oracle k v) = oracle_check k v
check_restore (Check.google_cloud t p s z r) = google_check t p s z r
