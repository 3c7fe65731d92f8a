-- ===== src/Create.antt =====
-- The methods `create_snapshot` of the providers' nodes in apps/console/node/models.py, which ask for a
-- snapshot and record its id on the backup. What a service replies is a parameter, with an exception of
-- the request or of what reads the reply as one. The columns of the size and of the metadata are left
-- out.
pub mod Recorded
use backupsheep.Prelude.{
  ℕ, Bool, true, false, ◌||◌, List, [], ◌∷◌, Option, none, some, ◌==◌, if◌then◌else◌,
}
use backupsheep.Model.Status.{NodeType}
use backupsheep.Model.Rows.{Text, Backup, Error}
use backupsheep.Providers.{HttpReply, VolumeKind}
use backupsheep.Task.Clouds.{Snapshot, raises, writes}

-- `raise NodeBackupFailedError`, which is also what the methods make of an exception
abbrev pub not_created : Snapshot
not_created = raises Error.node_backup_failed

-- The method returns and leaves the backup as it is.
unfoldable pub unchanged : Backup → Snapshot
unchanged b = writes b.action_id b.unique_id

-- `backup.unique_id = …; backup.save()`
unfoldable pub with_unique_id : Backup → Text → Snapshot
with_unique_id b id = writes b.action_id (some id)

unfoldable pub read_created : {A : Type 0} → (A → Snapshot) → Option A → Snapshot
read_created k none = not_created
read_created k (some a) = k a

-- A request that is to be answered with one code
unfoldable pub created_if : {A : Type 0} → ℕ → (A → Snapshot) → HttpReply A → Snapshot
unfolding read_created
created_if expected k HttpReply.raised = not_created
created_if expected k (HttpReply.answered code body) =
    if code == expected then read_created k body else not_created

-- CoreDigitalOcean: the droplet, then its action, whose id may lack
pub data DropletStatus : Type 0 where
  active new other : DropletStatus

unfoldable pub act_on_droplet : HttpReply (Option Text) → Backup → DropletStatus → Snapshot
unfolding created_if
act_on_droplet action b DropletStatus.other = not_created
act_on_droplet action b status = created_if 201 (λ id. writes id b.unique_id) action

-- The codes of which the volume's clauses raise
unfoldable pub is_refusal : ℕ → Bool
is_refusal code = code == 502 || code == 429 || code == 401

unfoldable pub create_volume_snapshot : HttpReply Text → Backup → Snapshot
unfolding read_created with_unique_id is_refusal unchanged
create_volume_snapshot HttpReply.raised b = not_created
create_volume_snapshot (HttpReply.answered code body) b =
    if code == 201
    then read_created (with_unique_id b) body
    else if is_refusal code
    then not_created
    else unchanged b

unfoldable pub digitalocean_create :
    NodeType
    → HttpReply DropletStatus
    → HttpReply (Option Text)
    → HttpReply Text
    → Backup
    → Snapshot
unfolding created_if act_on_droplet create_volume_snapshot unchanged
digitalocean_create NodeType.cloud droplet action volume b =
    created_if 200 (act_on_droplet action b) droplet
digitalocean_create NodeType.volume droplet action volume b = create_volume_snapshot volume b
digitalocean_create _ droplet action volume b = unchanged b

-- CoreHetzner
pub record ImageAction : Type 0 where
  pub is_running : Bool
  pub action_id : Text
  pub image_id : Text

unfoldable pub image_created : ImageAction → Snapshot
image_created a = if a.is_running then writes (some a.action_id) (some a.image_id) else not_created

unfoldable pub hetzner_create : NodeType → HttpReply ImageAction → Backup → Snapshot
unfolding created_if image_created unchanged
hetzner_create NodeType.cloud image b = created_if 201 image_created image
hetzner_create _ image b = unchanged b

-- CoreUpCloud
unfoldable pub upcloud_create : NodeType → HttpReply Text → Backup → Snapshot
unfolding created_if with_unique_id unchanged
upcloud_create NodeType.volume storage b = created_if 201 (with_unique_id b) storage
upcloud_create _ storage b = unchanged b

-- CoreOVHCA, CoreOVHEU and CoreOVHUS: the name of the backup stands for the id until the snapshot is
-- there. `get_client` stands before the `try`.
unfoldable pub ovh_post : Bool → Backup → Snapshot
ovh_post true b = writes b.action_id b.uuid
ovh_post false b = not_created

unfoldable pub ovh_create : Bool → NodeType → Bool → Bool → Backup → Snapshot
unfolding ovh_post unchanged
ovh_create false t server volume b = raises Error.other
ovh_create true NodeType.cloud server volume b = ovh_post server b
ovh_create true NodeType.volume server volume b = ovh_post volume b
ovh_create true _ server volume b = unchanged b

-- CoreAWS; an id that is not there raises.
unfoldable pub aws_created : Option (Option Text) → Backup → Snapshot
unfolding with_unique_id
aws_created (some (some (c ∷ cs))) b = with_unique_id b (c ∷ cs)
aws_created _ b = not_created

unfoldable pub aws_create :
    NodeType → Option (Option Text) → Option (Option Text) → Backup → Snapshot
unfolding aws_created unchanged
aws_create NodeType.cloud image snapshot b = aws_created image b
aws_create NodeType.volume image snapshot b = aws_created snapshot b
aws_create _ image snapshot b = unchanged b

-- CoreLightsail: whether the first operation of a response, where it has one, has failed
unfoldable pub lightsail_created : Option (Option Bool) → Backup → Snapshot
unfolding unchanged
lightsail_created none b = not_created
lightsail_created (some (some false)) b = writes b.action_id b.uuid
lightsail_created (some _) b = unchanged b

unfoldable pub lightsail_create :
    NodeType → Option (Option Bool) → Option (Option Bool) → Backup → Snapshot
unfolding lightsail_created unchanged
lightsail_create NodeType.cloud instance_ disk b = lightsail_created instance_ b
lightsail_create NodeType.volume instance_ disk b = lightsail_created disk b
lightsail_create _ instance_ disk b = unchanged b

-- CoreAWSRDS, which has no `try`
unfoldable pub rds_create : Option Text → Backup → Snapshot
unfolding with_unique_id
rds_create none b = raises Error.other
rds_create (some id) b = with_unique_id b id

-- CoreVultr
unfoldable pub vultr_create : Bool → NodeType → HttpReply Text → HttpReply Text → Backup → Snapshot
unfolding created_if with_unique_id unchanged
vultr_create false t snapshot block b = raises Error.other
vultr_create true NodeType.cloud snapshot block b = created_if 201 (with_unique_id b) snapshot
vultr_create true NodeType.volume snapshot block b = created_if 201 (with_unique_id b) block
vultr_create true _ snapshot block b = unchanged b

-- CoreOracle; `none` is an exception before the kind of the volume is known.
unfoldable pub oracle_create : NodeType → Option VolumeKind → HttpReply Text → Backup → Snapshot
unfolding created_if with_unique_id unchanged
oracle_create NodeType.volume none request b = not_created
oracle_create NodeType.volume (some VolumeKind.other) request b = unchanged b
oracle_create NodeType.volume (some kind) request b = created_if 200 (with_unique_id b) request
oracle_create _ kind request b = unchanged b

-- CoreGoogleCloud: the instance or the disk by its name, then its image or its snapshot
unfoldable pub google_created : HttpReply Text → (Text → HttpReply Text) → Backup → Snapshot
unfolding created_if with_unique_id
google_created found post b =
    created_if 200 (λ name. created_if 200 (with_unique_id b) (post name)) found

unfoldable pub google_create :
    NodeType
    → HttpReply Text
    → (Text → HttpReply Text)
    → HttpReply Text
    → (Text → HttpReply Text)
    → Backup
    → Snapshot
unfolding google_created unchanged
google_create NodeType.cloud found image disk snapshot b = google_created found image b
google_create NodeType.volume found image disk snapshot b = google_created disk snapshot b
google_create _ found image disk snapshot b = unchanged b

-- A provider, with what it replies
pub data Creation : Type 0 where
  digitalocean :
      NodeType → HttpReply DropletStatus → HttpReply (Option Text) → HttpReply Text → Creation
  hetzner : NodeType → HttpReply ImageAction → Creation
  upcloud : NodeType → HttpReply Text → Creation
  ovh_ca ovh_eu ovh_us : Bool → NodeType → Bool → Bool → Creation
  aws : NodeType → Option (Option Text) → Option (Option Text) → Creation
  lightsail : NodeType → Option (Option Bool) → Option (Option Bool) → Creation
  aws_rds : Option Text → Creation
  vultr : Bool → NodeType → HttpReply Text → HttpReply Text → Creation
  oracle : NodeType → Option VolumeKind → HttpReply Text → Creation
  google_cloud :
      NodeType
      → HttpReply Text
      → (Text → HttpReply Text)
      → HttpReply Text
      → (Text → HttpReply Text)
      → Creation

-- `create_snapshot(backup)`
unfoldable pub created : Creation → Backup → Snapshot
unfolding digitalocean_create hetzner_create upcloud_create ovh_create aws_create lightsail_create
    rds_create vultr_create oracle_create google_create
created (Creation.digitalocean t d a v) b = digitalocean_create t d a v b
created (Creation.hetzner t i) b = hetzner_create t i b
created (Creation.upcloud t s) b = upcloud_create t s b
created (Creation.ovh_ca c t s v) b = ovh_create c t s v b
created (Creation.ovh_eu c t s v) b = ovh_create c t s v b
created (Creation.ovh_us c t s v) b = ovh_create c t s v b
created (Creation.aws t i s) b = aws_create t i s b
created (Creation.lightsail t i d) b = lightsail_create t i d b
created (Creation.aws_rds s) b = rds_create s b
created (Creation.vultr c t s d) b = vultr_create c t s d b
created (Creation.oracle t k r) b = oracle_create t k r b
created (Creation.google_cloud t f i d s) b = google_create t f i d s b
