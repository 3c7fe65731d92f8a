-- ===== src/Providers/Dispatch.antt =====
-- `backup.poll_status()`, the status check of whichever provider has the snapshot. `none` is a check of
-- DigitalOcean's that has not ended in so many pages as `rounds` allows.
use backupsheep.Prelude.{ℕ, Bool, Option, some, List}
use backupsheep.Model.Status.{BackupStatus, NodeType}
use backupsheep.Providers.{
  VolumeKind, SnapshotRow, HttpReply, HetznerState, HetznerImage, UpCloudStorage, OracleBackup,
  OvhSnapshot, hetzner_poll_status, upcloud_poll_status, oracle_poll_status, ovh_ca_poll_status,
  ovh_eu_poll_status, ovh_us_poll_status,
}
use backupsheep.Providers.Compute.{
  VultrSnapshot, GoogleSnapshot, AwsImage, AwsState, AwsSnapshot, LightsailSnapshot,
  vultr_poll_status, google_poll_status, aws_poll_status, lightsail_poll_status, rds_poll_status,
}
use backupsheep.Providers.DigitalOcean.{ActionState, DropletSnapshot, digitalocean_poll_status}
use backupsheep.SoftDelete.Listing.{Page}

-- A provider with what it replies
pub data Provided : Type 0 where
  hetzner : NodeType → HttpReply HetznerState → HttpReply HetznerImage → Provided
  upcloud : NodeType → HttpReply UpCloudStorage → Provided
  oracle : NodeType → VolumeKind → HttpReply OracleBackup → Provided
  ovh_ca ovh_eu ovh_us : NodeType → Option (List OvhSnapshot) → Provided
  vultr : NodeType → HttpReply VultrSnapshot → HttpReply VultrSnapshot → Provided
  google_cloud : NodeType → HttpReply GoogleSnapshot → Provided
  aws :
      NodeType
      → Option (List AwsImage)
      → Option (List AwsImage)
      → Option (List AwsSnapshot)
      → Bool
      → Provided
  lightsail : NodeType → Option (Option LightsailSnapshot) → Provided
  aws_rds : Option (List AwsState) → Provided
  digitalocean :
      ℕ → NodeType → ℕ → HttpReply ActionState → (ℕ → HttpReply (Page DropletSnapshot)) → Provided

unfoldable pub poll_status : Provided → SnapshotRow → Option (BackupStatus × SnapshotRow)
unfolding hetzner_poll_status upcloud_poll_status oracle_poll_status ovh_ca_poll_status
    ovh_eu_poll_status ovh_us_poll_status vultr_poll_status google_poll_status aws_poll_status
    lightsail_poll_status rds_poll_status digitalocean_poll_status
poll_status (Provided.hetzner t a i) row = some (hetzner_poll_status t a i row)
poll_status (Provided.upcloud t s) row = some (upcloud_poll_status t s row)
poll_status (Provided.oracle t k r) row = some (oracle_poll_status t k r row)
poll_status (Provided.ovh_ca t s) row = some (ovh_ca_poll_status t s row)
poll_status (Provided.ovh_eu t s) row = some (ovh_eu_poll_status t s row)
poll_status (Provided.ovh_us t s) row = some (ovh_us_poll_status t s row)
poll_status (Provided.vultr t b s) row = some (vultr_poll_status t b s row)
poll_status (Provided.google_cloud t r) row = some (google_poll_status t r row)
poll_status (Provided.aws t i j s r) row = some (aws_poll_status t i j s r row)
poll_status (Provided.lightsail t r) row = some (lightsail_poll_status t r row)
poll_status (Provided.aws_rds s) row = some (rds_poll_status s row)
poll_status (Provided.digitalocean rounds t uuid action pages) row =
    digitalocean_poll_status rounds t uuid action pages row
