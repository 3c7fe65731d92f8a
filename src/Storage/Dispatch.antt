-- ===== src/Storage/Dispatch.antt =====
-- The dispatch of `storage_upload` (apps/_tasks/integration/storage/tasks.py) to the backends.
pub mod Missing
use backupsheep.Prelude.{Option, none}
use backupsheep.Model.Status.{PointStatus, StorageCode}
use backupsheep.Model.Rows.{Text}
use backupsheep.Upload.{Backend}
use backupsheep.Storage.Chunks.{Bytes}
use backupsheep.Storage.GoogleDrive.{Drive, storage_google_drive}
use backupsheep.Storage.OneDrive.{Graph, storage_onedrive}
use backupsheep.Storage.Dropbox.{Dropbox, storage_dropbox}
use backupsheep.Storage.Azure.{Azure, storage_azure}
use backupsheep.Storage.Local.{Disk, PCloud, storage_local, storage_pcloud}
use backupsheep.Storage.Objects.{
  Zip, Bucket, storage_aws_s3, storage_wasabi, storage_do_spaces, storage_filebase,
  storage_backblaze_b2, storage_linode, storage_vultr, storage_upcloud, storage_exoscale,
  storage_oracle, storage_scaleway, storage_cloudflare, storage_google_cloud, storage_leviia,
  storage_idrive, storage_ionos, storage_alibaba, storage_tencent, storage_rackcorp, storage_ibm,
}

-- What the backends work with: the zip's names, the local zip if it is there, and the services.
pub record Services : Type 0 where
  pub zip : Zip
  pub local : Option Bytes
  pub bucket : Bucket
  pub drive : Drive
  pub graph : Graph
  pub graph_target : Text
  pub dropbox : Dropbox
  pub azure : Azure
  pub pcloud : PCloud
  pub disk : Disk

unfoldable pub storage_backend : StorageCode → Services → Backend
unfolding storage_dropbox storage_google_drive storage_aws_s3 storage_wasabi storage_do_spaces
    storage_filebase storage_backblaze_b2 storage_linode storage_vultr storage_upcloud
    storage_exoscale storage_oracle storage_scaleway storage_pcloud storage_onedrive
    storage_cloudflare storage_google_cloud storage_azure storage_leviia storage_idrive
    storage_ionos storage_alibaba storage_tencent storage_rackcorp storage_ibm storage_local
storage_backend StorageCode.dropbox s = storage_dropbox s.dropbox s.local
storage_backend StorageCode.google_drive s = storage_google_drive s.drive s.zip.name_slug s.local
storage_backend StorageCode.aws_s3 s = storage_aws_s3 s.bucket s.zip
storage_backend StorageCode.wasabi s = storage_wasabi s.bucket s.zip
storage_backend StorageCode.do_spaces s = storage_do_spaces s.bucket s.zip
storage_backend StorageCode.filebase s = storage_filebase s.bucket s.zip
storage_backend StorageCode.backblaze_b2 s = storage_backblaze_b2 s.bucket s.zip
storage_backend StorageCode.linode s = storage_linode s.bucket s.zip
storage_backend StorageCode.vultr s = storage_vultr s.bucket s.zip
storage_backend StorageCode.upcloud s = storage_upcloud s.bucket s.zip
storage_backend StorageCode.exoscale s = storage_exoscale s.bucket s.zip
storage_backend StorageCode.oracle s = storage_oracle s.bucket s.zip
storage_backend StorageCode.scaleway s = storage_scaleway s.bucket s.zip
storage_backend StorageCode.pcloud s = storage_pcloud s.pcloud
storage_backend StorageCode.onedrive s = storage_onedrive s.graph s.graph_target s.local
storage_backend StorageCode.cloudflare s = storage_cloudflare s.bucket s.zip
storage_backend StorageCode.google_cloud s = storage_google_cloud s.bucket s.zip
storage_backend StorageCode.azure s = storage_azure s.azure s.zip s.local
storage_backend StorageCode.leviia s = storage_leviia s.bucket s.zip
storage_backend StorageCode.idrive s = storage_idrive s.bucket s.zip
storage_backend StorageCode.ionos s = storage_ionos s.bucket s.zip
storage_backend StorageCode.alibaba s = storage_alibaba s.bucket s.zip
storage_backend StorageCode.tencent s = storage_tencent s.bucket s.zip
storage_backend StorageCode.rackcorp s = storage_rackcorp s.bucket s.zip
storage_backend StorageCode.ibm s = storage_ibm s.bucket s.zip
storage_backend StorageCode.local s = storage_local s.disk s.local
storage_backend StorageCode.unsupported s = Backend.leaves PointStatus.upload_failed none
