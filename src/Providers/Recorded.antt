-- ===== src/Providers/Recorded.antt =====
-- What a status check of a snapshot leaves.
use backupsheep.Prelude.{
  ℕ, ◌≡◌, refl, Bool-cases, inl, inr, Bool, true, false, Option, none, some, List, [], ◌∷◌, ◌==◌,
}
use backupsheep.Model.Status.{BackupStatus, NodeType}
use backupsheep.Providers.{
  VolumeKind, RowMetadata, SnapshotRow, HttpReply, HetznerState, HetznerImage, UpCloudState,
  UpCloudStorage, OracleState, OracleBackup, OvhSnapshot, guarded, save_complete, save_sized,
  read_body, on_200, hetzner_image, hetzner_action, hetzner_poll_status, upcloud_state,
  upcloud_poll_status, oracle_state, oracle_request, oracle_poll_status, ovh_found, ovh_snapshots,
  ovh_poll_status, ovh_ca_poll_status, ovh_eu_poll_status, ovh_us_poll_status,
}
use backupsheep.Providers.Compute.{
  VultrSnapshot, GoogleStatus, GoogleSnapshot, AwsState, AwsSnapshot, AwsImage, LightsailSnapshot,
  sum_sizes, first_item, vultr_snapshot, vultr_poll_status, google_ready, google_image, google_disk,
  google_poll_status, removed, aws_image, aws_images, aws_snapshot, aws_poll_status,
  lightsail_instance, lightsail_disk, lightsail_response, lightsail_poll_status, rds_snapshots,
  rds_poll_status,
}
use backupsheep.Providers.DigitalOcean.{digitalocean_poll_status}
use backupsheep.Providers.Dispatch.{Provided, poll_status}

-- What a check promises: it says complete once it has saved the row so, and otherwise leaves the row
-- alone and says that the snapshot failed or that it is still in progress.
abbrev pub IsAnswer : SnapshotRow → BackupStatus × SnapshotRow → Type 0
IsAnswer row (BackupStatus.complete, after) = after.status ≡ BackupStatus.complete
IsAnswer row (BackupStatus.failed, after) = after ≡ row
IsAnswer row (BackupStatus.in_progress, after) = after ≡ row
IsAnswer row (_, after) = ⊥

-- The same of a check that may raise
abbrev pub MayAnswer : SnapshotRow → Option (BackupStatus × SnapshotRow) → Type 0
MayAnswer row none = IsAnswer row (BackupStatus.in_progress, row)
MayAnswer row (some end) = IsAnswer row end

guarded-IsAnswer :
    (row : SnapshotRow) (x : Option (BackupStatus × SnapshotRow))
    → MayAnswer row x
    → IsAnswer row (guarded row x)
unfolding guarded
guarded-IsAnswer row none h = refl
guarded-IsAnswer row (some (s, after)) h = h

save_sized-MayAnswer :
    (row after : SnapshotRow) (size : Option ℕ) → MayAnswer row (save_sized after size)
unfolding save_sized save_complete
save_sized-MayAnswer row after none = refl
save_sized-MayAnswer row after (some n) = refl

read_body-MayAnswer :
    {A : Type 0} (row : SnapshotRow) (k : A → Option (BackupStatus × SnapshotRow))
    → ((a : A) → MayAnswer row (k a))
    → (body : Option A) → MayAnswer row (read_body body k)
unfolding read_body
read_body-MayAnswer row k h none = refl
read_body-MayAnswer row k h (some a) = h a

on_200-MayAnswer :
    {A : Type 0} (row : SnapshotRow) (k : A → Option (BackupStatus × SnapshotRow))
    (rest : Option (BackupStatus × SnapshotRow))
    → ((a : A) → MayAnswer row (k a))
    → MayAnswer row rest
    → (reply : HttpReply A) → MayAnswer row (on_200 reply k rest)
unfolding on_200
on_200-MayAnswer row k rest h r HttpReply.raised = refl
on_200-MayAnswer row k rest h r (HttpReply.answered code body) = elim (Bool-cases (code == 200)) [
  | inl e ↦ rw e (read_body-MayAnswer row k h body)
  | inr e ↦ rw e r
]

hetzner_action-MayAnswer :
    (i : HttpReply HetznerImage) (row : SnapshotRow) (s : HetznerState)
    → MayAnswer row (hetzner_action i row s)
unfolding hetzner_action hetzner_image
hetzner_action-MayAnswer i row HetznerState.success =
    on_200-MayAnswer row _ _
      (λ image.
        save_sized-MayAnswer row
          (record row { metadata = some (RowMetadata.document image.document) }) image.disk_size)
      refl i
hetzner_action-MayAnswer i row HetznerState.error = refl
hetzner_action-MayAnswer i row HetznerState.other = refl

hetzner-IsAnswer :
    (t : NodeType) (a : HttpReply HetznerState) (i : HttpReply HetznerImage) (row : SnapshotRow)
    → IsAnswer row (hetzner_poll_status t a i row)
unfolding hetzner_poll_status
hetzner-IsAnswer NodeType.cloud a i row =
    guarded-IsAnswer row _ (on_200-MayAnswer row _ _ (hetzner_action-MayAnswer i row) refl a)
hetzner-IsAnswer _ a i row = refl

upcloud_state-MayAnswer :
    (row : SnapshotRow) (s : UpCloudStorage) (x : UpCloudState)
    → MayAnswer row (upcloud_state row s x)
unfolding upcloud_state
upcloud_state-MayAnswer row s UpCloudState.online =
    save_sized-MayAnswer row (record row { metadata = some (RowMetadata.document s.document) })
      s.size
upcloud_state-MayAnswer row s UpCloudState.error = refl
upcloud_state-MayAnswer row s UpCloudState.other = refl

upcloud-IsAnswer :
    (t : NodeType) (r : HttpReply UpCloudStorage) (row : SnapshotRow)
    → IsAnswer row (upcloud_poll_status t r row)
unfolding upcloud_poll_status
upcloud-IsAnswer NodeType.volume r row =
    guarded-IsAnswer row _
      (on_200-MayAnswer row _ _ (λ s. upcloud_state-MayAnswer row s s.state) refl r)
upcloud-IsAnswer _ r row = refl

oracle_state-MayAnswer :
    (k : VolumeKind) (row : SnapshotRow) (b : OracleBackup) (x : OracleState)
    → MayAnswer row (oracle_state k row b x)
unfolding oracle_state save_complete
oracle_state-MayAnswer k row b OracleState.available = refl
oracle_state-MayAnswer k row b OracleState.other = refl
oracle_state-MayAnswer k row b _ = refl

oracle_request-MayAnswer :
    (k : VolumeKind) (r : HttpReply OracleBackup) (row : SnapshotRow)
    → MayAnswer row (oracle_request k r row)
unfolding oracle_request
oracle_request-MayAnswer VolumeKind.other r row = refl
oracle_request-MayAnswer k r row =
    on_200-MayAnswer row _ _ (λ b. oracle_state-MayAnswer k row b b.lifecycle_state) refl r

oracle-IsAnswer :
    (t : NodeType) (k : VolumeKind) (r : HttpReply OracleBackup) (row : SnapshotRow)
    → IsAnswer row (oracle_poll_status t k r row)
unfolding oracle_poll_status
oracle-IsAnswer NodeType.volume k r row = guarded-IsAnswer row _ (oracle_request-MayAnswer k r row)
oracle-IsAnswer _ k r row = refl

ovh_found-MayAnswer : (row : SnapshotRow) (s : Option OvhSnapshot) → MayAnswer row (ovh_found row s)
unfolding ovh_found
ovh_found-MayAnswer row none = refl
ovh_found-MayAnswer row (some s) =
    save_sized-MayAnswer row (record row { unique_id = some s.id }) s.size

ovh-IsAnswer :
    (t : NodeType) (l : Option (List OvhSnapshot)) (row : SnapshotRow)
    → IsAnswer row (ovh_poll_status t l row)
unfolding ovh_poll_status ovh_snapshots
ovh-IsAnswer NodeType.cloud l row =
    guarded-IsAnswer row _ (read_body-MayAnswer row _ (λ x. ovh_found-MayAnswer row _) l)
ovh-IsAnswer NodeType.volume l row =
    guarded-IsAnswer row _ (read_body-MayAnswer row _ (λ x. ovh_found-MayAnswer row _) l)
ovh-IsAnswer _ l row = refl

vultr_snapshot-MayAnswer :
    (row : SnapshotRow) (s : VultrSnapshot) → MayAnswer row (vultr_snapshot row s)
unfolding vultr_snapshot save_complete
vultr_snapshot-MayAnswer row s = elim (Bool-cases s.is_ready) [
  | inl e ↦ rw e refl
  | inr e ↦ rw e refl
]

vultr-IsAnswer :
    (t : NodeType) (b s : HttpReply VultrSnapshot) (row : SnapshotRow)
    → IsAnswer row (vultr_poll_status t b s row)
unfolding vultr_poll_status
vultr-IsAnswer NodeType.volume b s row =
    guarded-IsAnswer row _ (on_200-MayAnswer row _ _ (vultr_snapshot-MayAnswer row) refl b)
vultr-IsAnswer _ b s row =
    guarded-IsAnswer row _ (on_200-MayAnswer row _ _ (vultr_snapshot-MayAnswer row) refl s)

google_image-MayAnswer :
    (row : SnapshotRow) (s : GoogleSnapshot) (x : GoogleStatus)
    → MayAnswer row (google_image row s x)
unfolding google_image google_ready save_complete
google_image-MayAnswer row s GoogleStatus.ready = refl
google_image-MayAnswer row s GoogleStatus.invalid = refl
google_image-MayAnswer row s GoogleStatus.deleting = refl
google_image-MayAnswer row s _ = refl

google_disk-MayAnswer :
    (row : SnapshotRow) (s : GoogleSnapshot) (x : GoogleStatus)
    → MayAnswer row (google_disk row s x)
unfolding google_disk google_ready save_complete
google_disk-MayAnswer row s GoogleStatus.ready = refl
google_disk-MayAnswer row s GoogleStatus.failed = refl
google_disk-MayAnswer row s GoogleStatus.deleting = refl
google_disk-MayAnswer row s _ = refl

google-IsAnswer :
    (t : NodeType) (r : HttpReply GoogleSnapshot) (row : SnapshotRow)
    → IsAnswer row (google_poll_status t r row)
unfolding google_poll_status
google-IsAnswer NodeType.cloud r row =
    guarded-IsAnswer row _
      (on_200-MayAnswer row _ _ (λ s. google_image-MayAnswer row s s.status) refl r)
google-IsAnswer NodeType.volume r row =
    guarded-IsAnswer row _
      (on_200-MayAnswer row _ _ (λ s. google_disk-MayAnswer row s s.status) refl r)
google-IsAnswer _ r row = refl

removed-MayAnswer : (r : Bool) (row : SnapshotRow) → MayAnswer row (removed r row)
unfolding removed
removed-MayAnswer false row = refl
removed-MayAnswer true row = refl

aws_image-MayAnswer :
    (r : Bool) (row : SnapshotRow) (i : AwsImage) (x : AwsState)
    → MayAnswer row (aws_image r row i x)
unfolding aws_image
aws_image-MayAnswer r row i AwsState.available =
    save_sized-MayAnswer row row (some (sum_sizes i.devices))
aws_image-MayAnswer r row i AwsState.failed = removed-MayAnswer r row
aws_image-MayAnswer r row i AwsState.error = removed-MayAnswer r row
aws_image-MayAnswer r row i AwsState.invalid = removed-MayAnswer r row
aws_image-MayAnswer r row i _ = refl

aws_images-MayAnswer :
    (r : Bool) (again : Option (List AwsImage)) (row : SnapshotRow) (l : List AwsImage)
    → MayAnswer row (aws_images r again row l)
unfolding aws_images
aws_images-MayAnswer r again row [] = refl
aws_images-MayAnswer r again row (i ∷ l) =
    read_body-MayAnswer row _ (λ x. aws_image-MayAnswer r row x x.state)
      (read_body again first_item)

aws_snapshot-MayAnswer :
    (r : Bool) (row : SnapshotRow) (s : AwsSnapshot) (x : AwsState)
    → MayAnswer row (aws_snapshot r row s x)
unfolding aws_snapshot
aws_snapshot-MayAnswer r row s AwsState.completed =
    save_sized-MayAnswer row row (some s.volume_size)
aws_snapshot-MayAnswer r row s AwsState.error = removed-MayAnswer r row
aws_snapshot-MayAnswer r row s _ = refl

aws-IsAnswer :
    (t : NodeType) (i j : Option (List AwsImage)) (l : Option (List AwsSnapshot)) (r : Bool)
    (row : SnapshotRow)
    → IsAnswer row (aws_poll_status t i j l r row)
unfolding aws_poll_status
aws-IsAnswer NodeType.cloud i j l r row =
    guarded-IsAnswer row _ (read_body-MayAnswer row _ (aws_images-MayAnswer r j row) i)
aws-IsAnswer NodeType.volume i j l r row = guarded-IsAnswer row _ (
    read_body-MayAnswer row _ (λ s. aws_snapshot-MayAnswer r row s s.state)
      (read_body l first_item))
aws-IsAnswer _ i j l r row = refl

lightsail_response-MayAnswer :
    (check : SnapshotRow → LightsailSnapshot → AwsState → Option (BackupStatus × SnapshotRow))
    (row : SnapshotRow)
    → ((s : LightsailSnapshot) (x : AwsState) → MayAnswer row (check row s x))
    → (response : Option LightsailSnapshot) → MayAnswer row (lightsail_response check row response)
unfolding lightsail_response
lightsail_response-MayAnswer check row h none = refl
lightsail_response-MayAnswer check row h (some s) = h s s.state

lightsail_instance-MayAnswer :
    (row : SnapshotRow) (s : LightsailSnapshot) (x : AwsState)
    → MayAnswer row (lightsail_instance row s x)
unfolding lightsail_instance
lightsail_instance-MayAnswer row s AwsState.available = save_sized-MayAnswer row row s.size_in_gb
lightsail_instance-MayAnswer row s AwsState.error = refl
lightsail_instance-MayAnswer row s _ = refl

lightsail_disk-MayAnswer :
    (row : SnapshotRow) (s : LightsailSnapshot) (x : AwsState)
    → MayAnswer row (lightsail_disk row s x)
unfolding lightsail_disk
lightsail_disk-MayAnswer row s AwsState.completed = save_sized-MayAnswer row row s.size_in_gb
lightsail_disk-MayAnswer row s AwsState.error = refl
lightsail_disk-MayAnswer row s _ = refl

lightsail-IsAnswer :
    (t : NodeType) (r : Option (Option LightsailSnapshot)) (row : SnapshotRow)
    → IsAnswer row (lightsail_poll_status t r row)
unfolding lightsail_poll_status
lightsail-IsAnswer NodeType.cloud r row = guarded-IsAnswer row _ (
    read_body-MayAnswer row _
      (lightsail_response-MayAnswer lightsail_instance row (lightsail_instance-MayAnswer row)) r)
lightsail-IsAnswer NodeType.volume r row = guarded-IsAnswer row _ (
    read_body-MayAnswer row _
      (lightsail_response-MayAnswer lightsail_disk row (lightsail_disk-MayAnswer row)) r)
lightsail-IsAnswer _ r row = refl

rds_snapshots-MayAnswer :
    (row : SnapshotRow) (l : List AwsState) → MayAnswer row (rds_snapshots row l)
unfolding rds_snapshots save_complete
rds_snapshots-MayAnswer row (AwsState.available ∷ l) = refl
rds_snapshots-MayAnswer row (AwsState.failed ∷ l) = refl
rds_snapshots-MayAnswer row _ = refl

-- The snapshot of a droplet, whose check may say complete without having saved the row
abbrev pub is_droplet : Provided → Bool
is_droplet (Provided.digitalocean rounds NodeType.cloud uuid a pages) = true
is_droplet _ = false

-- But for a droplet of DigitalOcean, whatever the provider replies, and whatever raises, `poll_status`
-- returns and keeps its promise: it says complete only with the row saved as complete, and it says
-- nothing else than complete, failed and in progress, in which two last cases the row is as it was.
pub poll_status-IsAnswer :
    (p : Provided) (row : SnapshotRow)
    → is_droplet p ≡ false
    → (answer : BackupStatus × SnapshotRow) × (poll_status p row ≡ some answer)
      × IsAnswer row answer
unfolding poll_status ovh_ca_poll_status ovh_eu_poll_status ovh_us_poll_status rds_poll_status
    digitalocean_poll_status
poll_status-IsAnswer (Provided.hetzner t a i) row h = (_, refl, hetzner-IsAnswer t a i row)
poll_status-IsAnswer (Provided.upcloud t r) row h = (_, refl, upcloud-IsAnswer t r row)
poll_status-IsAnswer (Provided.oracle t k r) row h = (_, refl, oracle-IsAnswer t k r row)
poll_status-IsAnswer (Provided.ovh_ca t l) row h = (_, refl, ovh-IsAnswer t l row)
poll_status-IsAnswer (Provided.ovh_eu t l) row h = (_, refl, ovh-IsAnswer t l row)
poll_status-IsAnswer (Provided.ovh_us t l) row h = (_, refl, ovh-IsAnswer t l row)
poll_status-IsAnswer (Provided.vultr t b s) row h = (_, refl, vultr-IsAnswer t b s row)
poll_status-IsAnswer (Provided.google_cloud t r) row h = (_, refl, google-IsAnswer t r row)
poll_status-IsAnswer (Provided.aws t i j l r) row h = (_, refl, aws-IsAnswer t i j l r row)
poll_status-IsAnswer (Provided.lightsail t r) row h = (_, refl, lightsail-IsAnswer t r row)
poll_status-IsAnswer (Provided.aws_rds l) row h =
    (_, refl, guarded-IsAnswer row _ (read_body-MayAnswer row _ (rds_snapshots-MayAnswer row) l))
poll_status-IsAnswer (Provided.digitalocean rounds NodeType.cloud uuid a pages) row h = cc
poll_status-IsAnswer (Provided.digitalocean rounds NodeType.volume uuid a pages) row h =
    (_, refl, refl)
poll_status-IsAnswer (Provided.digitalocean rounds _ uuid a pages) row h = (_, refl, refl)
