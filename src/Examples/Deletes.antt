-- ===== src/Examples/Deletes.antt =====
-- The theorems on soft deletes and on DigitalOcean's snapshots, at a few answers.
use backupsheep.Prelude.{
  none, ℕ, ◌≡◌, refl, true, false, [], ◌∷◌, some, arith, find?, any, ◌==◌, All, filter,
}
use backupsheep.Prelude.Text.{codes}
use backupsheep.Model.Status.{BackupStatus, NodeType, NodeStatus, StorageCode, PointStatus}
use backupsheep.Model.Rows.{Backup, Db, StoragePoint}
use backupsheep.Retention.{soft_delete_all, soft_delete_point}
use backupsheep.Retention.Deletes.{was_asked}
use backupsheep.Deletion.{
  NodeEnd, is_delete_completed, node_is_delete_requested, node_delete_requested,
}
use backupsheep.Deletion.Asked.{attempt_of, node_delete_requested-asked}
use backupsheep.Providers.{HttpReply}
use backupsheep.Providers.DigitalOcean.{
  ActionState, DropletSnapshot, all_snapshots, digitalocean_poll_status,
}
use backupsheep.Providers.DigitalOcean.Listed.{digitalocean_poll_status_unlisted}
use backupsheep.SoftDelete.{VolumeSnapshot, volume_selected, Requests, soft_delete}
use backupsheep.SoftDelete.Listing.{Page}
use backupsheep.SoftDelete.Contract.{Run, CanDelete, deleting}
use backupsheep.SoftDelete.Files.{FileServices, point_deletion, answers}
use backupsheep.SoftDelete.Files.Confined.{IsConfined, point_deletion-IsConfined}
use backupsheep.Create.{digitalocean_create, Creation}
use backupsheep.Task.Clouds.{writes}
use backupsheep.Examples.{point, old, running, server}
use backupsheep.Examples.Snapshots.{begun}

abbrev listed_page : HttpReply (Page VolumeSnapshot)
listed_page = HttpReply.answered 200 (
    some (record { items = record { id = codes "7"; name = codes "bs-a-n1-b11" } ∷ []; total = 1 }))

-- A volume of DigitalOcean with one page of snapshots, each deletion of which is answered with 204
abbrev volume_run : Backup → Run
volume_run b = record {
  rounds = 2;
  client = true;
  requests = Requests.digitalocean NodeType.volume (λ id. some 204) (λ page. listed_page);
}

volume_run-CanDelete : (b : Backup) → CanDelete (volume_run b)
volume_run-CanDelete b = record {
  has_client = refl;
  listed = (1, omega arith, λ i. (omega arith, omega arith));
  handled = refl;
}

-- The server is to be deleted.
abbrev leaving : Db
leaving = record server { node = record server.node { status = NodeStatus.delete_requested } }

-- What the deletion leaves, with no schedule
abbrev left : Db
left = record (soft_delete_all (deleting volume_run) (old ∷ running ∷ []) leaving) {
  schedules = [];
}

leaving_deleted : node_delete_requested (attempt_of volume_run) true leaving ≡ NodeEnd.deleted left
unfolding node_delete_requested soft_delete soft_delete_all filter node_is_delete_requested
    is_delete_completed
leaving_deleted = refl

node_delete_requested-asked_example :
    (node_is_delete_requested NodeStatus.delete_requested ≡ true)
    × All (λ b. was_asked b.status ≡ true) left.backups
    × (left.schedules ≡ [])
node_delete_requested-asked_example =
    node_delete_requested-asked volume_run volume_run-CanDelete true leaving left leaving_deleted

-- The name of the backup 1 is part of that of the backup 12: where the snapshot of the backup 12 is
-- listed first, it is the one that the soft delete of the backup 1 deletes.
abbrev younger : VolumeSnapshot
younger = record { id = codes "8"; name = codes "bs-a-n1-b12" }

abbrev elder : VolumeSnapshot
elder = record { id = codes "7"; name = codes "bs-a-n1-b1" }

wrong_volume_selected : volume_selected (codes "bs-a-n1-b1") (younger ∷ elder ∷ []) ≡ some younger
unfolding volume_selected find?
wrong_volume_selected = refl

-- A disk whose storage root is /s, on which every path is its own resolved path.
abbrev services : FileServices
services = record {
  delete_object = λ code file. true;
  path_lower = λ file. some file;
  files_delete = λ path. true;
  drive_delete = λ file. some 204;
  pcloud_post = true;
  graph_delete = λ file. true;
  bucket_exists = some true;
  blob_exists = λ file. some true;
  blob_delete = λ file. true;
  no_delete = false;
  storage_root = codes "/s";
  realpath = λ path. path;
  path_exists = λ path. true;
  remove = λ path. true;
}

abbrev local_point : StoragePoint
local_point = record point {
  storage_code = StorageCode.local;
  storage_file_id = some (codes "/s/a.zip");
}

local_removed : (point_deletion services local_point).removed ≡ codes "/s/a.zip" ∷ []
unfolding point_deletion
local_removed = refl

point_deletion-IsConfined_example : IsConfined services (point_deletion services local_point)
point_deletion-IsConfined_example = point_deletion-IsConfined services local_point

abbrev drive_point : StoragePoint
drive_point = record point {
  storage_code = StorageCode.google_drive;
  status = PointStatus.upload_complete;
  storage_file_id = some (codes "f");
}

-- A point on Google Drive whose file is gone is not marked.
drive_unmarked : soft_delete_point (answers services) drive_point ≡ drive_point
unfolding soft_delete_point point_deletion
drive_unmarked = refl

abbrev named : Backup
named = record running { uuid = some (codes "bs-a") }

abbrev droplet_pages : ℕ → HttpReply (Page DropletSnapshot)
droplet_pages page = HttpReply.answered 200 (
    some (record { items = record { id = 5; name = 6; size_gigabytes = some 20 } ∷ []; total = 1 }))

droplets_listed :
    all_snapshots 1 droplet_pages (droplet_pages 1)
    ≡ some (some (record { id = 5; name = 6; size_gigabytes = some 20 } ∷ []))
unfolding all_snapshots
droplets_listed = refl

name_absent :
    any
      (λ (s : DropletSnapshot). s.name == 9)
      (record { id = 5; name = 6; size_gigabytes = some 20 } ∷ [])
    ≡ false
unfolding any
name_absent = refl

digitalocean_poll_status_unlisted_example :
    digitalocean_poll_status 1 NodeType.cloud 9
      (HttpReply.answered 200 (some ActionState.completed))
      droplet_pages
      begun
    ≡ some (BackupStatus.complete, begun)
digitalocean_poll_status_unlisted_example =
    digitalocean_poll_status_unlisted 1 9 droplet_pages begun
      (record { id = 5; name = 6; size_gigabytes = some 20 } ∷ []) droplets_listed name_absent

abbrev volume_creation : Creation
volume_creation = Creation.upcloud NodeType.volume (HttpReply.answered 201 (some (codes "v")))

-- A request for a snapshot of a volume that is answered with 404 raises nothing and records no id, and the
-- status check says complete.
volume_unsnapshotted :
    (digitalocean_create NodeType.volume HttpReply.raised HttpReply.raised
        (HttpReply.answered 404 none)
        named
      ≡ writes named.action_id named.unique_id)
    × (digitalocean_poll_status 1 NodeType.volume 9 HttpReply.raised droplet_pages begun
        ≡ some (BackupStatus.complete, record begun { status = BackupStatus.complete }))
unfolding digitalocean_create digitalocean_poll_status
volume_unsnapshotted = (refl, refl)
