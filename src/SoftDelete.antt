-- ===== src/SoftDelete.antt =====
-- The methods `soft_delete` of the providers' backups in apps/console/backup/models.py. What a request
-- is answered is a parameter: a status code, or `none` where it raises. The name of a backup, which
-- `uuid_str` gives for a row without a uuid, is left out: `backup_initiate` gives every row a uuid.
pub mod Files
pub mod Listing
pub mod Contract
use backupsheep.Prelude.{
  ℕ, Bool, true, false, not, ◌&&◌, ◌||◌, List, [], ◌∷◌, Option, none, some, ◌==◌, ltb, length,
  find?, if◌then◌else◌,
}
use backupsheep.Prelude.Text.{text_eq}
use backupsheep.Model.Status.{NodeType}
use backupsheep.Model.Rows.{Text, Backup, Message, Db}
use backupsheep.Node.{send, save_backup}
use backupsheep.Retention.{SnapshotAnswer, cloud_soft_delete}
use backupsheep.Storage.Failures.{contains}
use backupsheep.Task.Clouds.{is_set}
use backupsheep.Providers.{HttpReply, VolumeKind}
use backupsheep.SoftDelete.Listing.{Page, Linked, list_from, find_from}

-- A request that is to be answered with certain codes; another code raises.
unfoldable pub deleted_if : (ℕ → Bool) → Option ℕ → SnapshotAnswer
deleted_if is_good none = SnapshotAnswer.failed
deleted_if is_good (some code) =
    if is_good code then SnapshotAnswer.deleted else SnapshotAnswer.failed

-- A call of a client that returns or raises
unfoldable pub deleted_once : Bool → SnapshotAnswer
deleted_once true = SnapshotAnswer.deleted
deleted_once false = SnapshotAnswer.failed

abbrev pub is_204 : ℕ → Bool
is_204 code = code == 204

abbrev pub is_200 : ℕ → Bool
is_200 code = code == 200

abbrev pub is_204_or_200 : ℕ → Bool
is_204_or_200 code = code == 204 || code == 200

-- What the `try` block of a method has come to: an id that was found and saved, and the answer, or
-- `none` where the status is left as it is.
pub record Tried : Type 0 where
  pub found : Option Text
  pub answer : Option SnapshotAnswer

abbrev pub answered : SnapshotAnswer → Tried
answered a = record { found = none; answer = some a }

-- CoreDigitalOceanBackup
pub record VolumeSnapshot : Type 0 where
  pub id : Text
  pub name : Text

-- `self.uuid_str in snapshot["name"]`; `None in …` raises
unfoldable pub volume_selected : Text → List VolumeSnapshot → Option VolumeSnapshot
unfolding contains
volume_selected uuid snapshots = find? (λ s. contains uuid s.name) snapshots

unfoldable pub delete_selected : (Option Text → Option ℕ) → Option VolumeSnapshot → SnapshotAnswer
unfolding deleted_if
delete_selected delete none = SnapshotAnswer.failed
delete_selected delete (some s) = deleted_if is_204 (delete (some s.id))

unfoldable pub delete_listed :
    (Option Text → Option ℕ) → Option Text → Option (List VolumeSnapshot) → SnapshotAnswer
unfolding delete_selected volume_selected
delete_listed delete uuid none = SnapshotAnswer.failed
delete_listed delete none (some snapshots) = SnapshotAnswer.failed
delete_listed delete (some uuid) (some snapshots) =
    if ltb 0 (length snapshots)
    then delete_selected delete (volume_selected uuid snapshots)
    else SnapshotAnswer.failed

unfoldable pub volume_end :
    (Option Text → Option ℕ) → Option Text → Option (Option (List VolumeSnapshot)) → Option Tried
unfolding delete_listed
volume_end delete uuid none = none
volume_end delete uuid (some listed) = some (answered (delete_listed delete uuid listed))

unfoldable pub digitalocean_delete :
    ℕ
    → NodeType
    → (Option Text → Option ℕ)
    → (ℕ → HttpReply (Page VolumeSnapshot))
    → Backup
    → Option Tried
unfolding deleted_if volume_end list_from
digitalocean_delete rounds NodeType.cloud delete pages b =
    some (answered (deleted_if is_204_or_200 (delete b.unique_id)))
digitalocean_delete rounds NodeType.volume delete pages b =
    volume_end delete b.uuid (list_from rounds pages 1 [])
digitalocean_delete rounds _ delete pages b = some (answered SnapshotAnswer.deleted)

-- CoreHetznerBackup
pub record Image : Type 0 where
  pub id : Text
  pub description : Option Text

unfoldable pub is_described : Option Text → Image → Bool
unfolding text_eq
is_described uuid image = elim image.description [
  | none ↦ elim uuid [ none ↦ true | some t ↦ false ]
  | some d ↦ elim uuid [ none ↦ false | some t ↦ text_eq d t ]
]

unfoldable pub delete_image :
    (Option Text → Option ℕ) → Option Text → Option (Option (Option Image)) → Option Tried
unfolding deleted_if
delete_image delete id none = none
delete_image delete id (some none) = some (answered SnapshotAnswer.failed)
delete_image delete id (some (some none)) = some (answered (deleted_if is_204_or_200 (delete id)))
delete_image delete id (some (some (some image))) = some (record {
  found = some image.id;
  answer = some (deleted_if is_204_or_200 (delete (some image.id)));
})

unfoldable pub hetzner_delete :
    ℕ → NodeType → (Option Text → Option ℕ) → (ℕ → HttpReply (Linked Image)) → Backup → Option Tried
unfolding delete_image find_from is_described is_set
hetzner_delete rounds NodeType.cloud delete pages b =
    let searched = find_from (is_described b.uuid) rounds pages 1 in
    delete_image delete b.unique_id (if is_set b.unique_id then some (some none) else searched)
hetzner_delete rounds _ delete pages b = some (answered SnapshotAnswer.deleted)

-- CoreUpCloudBackup
unfoldable pub upcloud_delete : NodeType → Option ℕ → SnapshotAnswer
unfolding deleted_if
upcloud_delete NodeType.volume delete = deleted_if is_204 delete
upcloud_delete _ delete = SnapshotAnswer.deleted

-- CoreOracleBackup; its client is made within the `try`, and `metadata` may be None. Another kind of
-- volume, and another node, keep their status.
unfoldable pub oracle_kind : VolumeKind → Option ℕ → Option SnapshotAnswer
unfolding deleted_if
oracle_kind VolumeKind.other delete = none
oracle_kind kind delete = some (deleted_if is_204 delete)

unfoldable pub oracle_delete :
    NodeType → Bool → Option VolumeKind → Option ℕ → Option SnapshotAnswer
unfolding oracle_kind
oracle_delete NodeType.volume true (some kind) delete = oracle_kind kind delete
oracle_delete NodeType.volume client kind delete = some SnapshotAnswer.failed
oracle_delete _ client kind delete = none

-- CoreOVHCABackup, CoreOVHEUBackup and CoreOVHUSBackup: the call for a server's snapshot and that for
-- a volume's
unfoldable pub ovh_delete : NodeType → SnapshotAnswer → SnapshotAnswer → SnapshotAnswer
ovh_delete NodeType.cloud server volume = server
ovh_delete NodeType.volume server volume = volume
ovh_delete _ server volume = SnapshotAnswer.deleted

-- CoreVultrBackup
unfoldable pub vultr_delete : NodeType → Option ℕ → Option ℕ → SnapshotAnswer
unfolding deleted_if
vultr_delete NodeType.volume blocks snapshots = deleted_if is_204 blocks
vultr_delete _ blocks snapshots = deleted_if is_204 snapshots

-- CoreGoogleCloudBackup; the backup of another node keeps its status.
unfoldable pub google_delete : NodeType → Option ℕ → Option ℕ → Option SnapshotAnswer
unfolding deleted_if
google_delete NodeType.cloud image disk = some (deleted_if is_200 image)
google_delete NodeType.volume image disk = some (deleted_if is_200 disk)
google_delete _ image disk = none

-- CoreAWSBackup; an image has the snapshots of its devices, where they are EBS volumes. The minute that
-- the method waits for the image to go is left out. A call that
-- raises ends the loop.
unfoldable pub delete_each : (Option Text → Bool) → List (Option Text) → SnapshotAnswer
unfolding is_set
delete_each delete [] = SnapshotAnswer.deleted
delete_each delete (s ∷ rest) =
    let others = delete_each delete rest in
    if is_set s && not (delete s) then SnapshotAnswer.failed else others

unfoldable pub aws_images_delete :
    Option (List (List (Option Text))) → Bool → (Option Text → Bool) → SnapshotAnswer
unfolding delete_each
aws_images_delete (some (image ∷ rest)) true delete = delete_each delete image
aws_images_delete _ deregistered delete = SnapshotAnswer.failed

unfoldable pub aws_delete :
    NodeType
    → Option (List (List (Option Text)))
    → Bool
    → (Option Text → Bool)
    → Backup
    → SnapshotAnswer
unfolding aws_images_delete deleted_once
aws_delete NodeType.cloud images deregistered delete b =
    aws_images_delete images deregistered delete
aws_delete NodeType.volume images deregistered delete b = deleted_once (delete b.unique_id)
aws_delete _ images deregistered delete b = SnapshotAnswer.deleted

-- CoreLightsailBackup
unfoldable pub lightsail_delete : NodeType → Bool → Bool → SnapshotAnswer
unfolding deleted_once
lightsail_delete NodeType.cloud instance_ disk = deleted_once instance_
lightsail_delete NodeType.volume instance_ disk = deleted_once disk
lightsail_delete _ instance_ disk = SnapshotAnswer.deleted

-- A provider, with what it answers
pub data Requests : Type 0 where
  digitalocean :
      NodeType → (Option Text → Option ℕ) → (ℕ → HttpReply (Page VolumeSnapshot)) → Requests
  hetzner : NodeType → (Option Text → Option ℕ) → (ℕ → HttpReply (Linked Image)) → Requests
  upcloud : NodeType → Option ℕ → Requests
  oracle : NodeType → Bool → Option VolumeKind → Option ℕ → Requests
  ovh_ca ovh_eu ovh_us : NodeType → SnapshotAnswer → SnapshotAnswer → Requests
  vultr google_cloud : NodeType → Option ℕ → Option ℕ → Requests
  aws : NodeType → Option (List (List (Option Text))) → Bool → (Option Text → Bool) → Requests
  lightsail : NodeType → Bool → Bool → Requests
  aws_rds : Bool → Requests

-- The `try` block of each provider
unfoldable pub tried : ℕ → Requests → Backup → Option Tried
unfolding digitalocean_delete hetzner_delete upcloud_delete oracle_delete ovh_delete vultr_delete
    google_delete aws_delete lightsail_delete deleted_once
tried rounds (Requests.digitalocean t d pages) b = digitalocean_delete rounds t d pages b
tried rounds (Requests.hetzner t d pages) b = hetzner_delete rounds t d pages b
tried rounds (Requests.upcloud t d) b = some (answered (upcloud_delete t d))
tried rounds (Requests.oracle t c k d) b =
    some (record { found = none; answer = oracle_delete t c k d })
tried rounds (Requests.ovh_ca t s v) b = some (answered (ovh_delete t s v))
tried rounds (Requests.ovh_eu t s v) b = some (answered (ovh_delete t s v))
tried rounds (Requests.ovh_us t s v) b = some (answered (ovh_delete t s v))
tried rounds (Requests.vultr t s v) b = some (answered (vultr_delete t s v))
tried rounds (Requests.google_cloud t s v) b =
    some (record { found = none; answer = google_delete t s v })
tried rounds (Requests.aws t i r d) b = some (answered (aws_delete t i r d b))
tried rounds (Requests.lightsail t i d) b = some (answered (lightsail_delete t i d))
tried rounds (Requests.aws_rds d) b = some (answered (deleted_once d))

-- `get_client()` stands before the `try`, but for Oracle's.
unfoldable pub needs_client : Requests → Bool
needs_client (Requests.oracle t c k d) = false
needs_client _ = true

-- The end of a method: an exception of `get_client` is not caught; `unended` is out of rounds.
pub data SoftDeleteEnd : Type 0 where
  no_client unended : SoftDeleteEnd
  ended : Db → SoftDeleteEnd

unfoldable pub save_id_found : Option Text → Backup → Db → Db
unfolding save_backup
save_id_found none b db = db
save_id_found (some id) b db = save_backup b.id (λ x. record x { unique_id = some id }) db

unfoldable pub save_answer : Option SnapshotAnswer → Backup → Db → Db
unfolding cloud_soft_delete
save_answer none b db = send (Message.backup_log b.id) db
save_answer (some a) b db = cloud_soft_delete (λ i. a) b db

unfoldable pub soft_delete_end : Backup → Db → Option Tried → SoftDeleteEnd
unfolding save_id_found save_answer
soft_delete_end b db none = SoftDeleteEnd.unended
soft_delete_end b db (some t) =
    SoftDeleteEnd.ended (save_answer t.answer b (save_id_found t.found b db))

unfoldable pub soft_delete : ℕ → Bool → Requests → Backup → Db → SoftDeleteEnd
unfolding soft_delete_end tried needs_client
soft_delete rounds client q b db =
    if needs_client q && not client
    then SoftDeleteEnd.no_client
    else soft_delete_end b db (tried rounds q b)
