-- ===== src/Examples/Snapshots.antt =====
-- The theorems on status checks of snapshots, at a Hetzner server and at a server of the tests.
use backupsheep.Prelude.{◌≡◌, refl, false, none, some, find?}
use backupsheep.Model.Status.{BackupStatus, NodeType, in_terminal}
use backupsheep.Model.Rows.{Message, has_id}
use backupsheep.Node.{send}
use backupsheep.Retention.{SnapshotAnswer, cloud_soft_delete}
use backupsheep.Poll.{PollEnd, poll_cloud_backup}
use backupsheep.Providers.{Size, RowMetadata, SnapshotRow, HttpReply, HetznerState}
use backupsheep.Providers.Dispatch.{Provided, poll_status}
use backupsheep.Providers.Recorded.{IsAnswer, poll_status-IsAnswer}
use backupsheep.Providers.Outage.{poll_cloud_backup_unreached}
use backupsheep.Examples.{running, server}

abbrev pub begun : SnapshotRow
begun = record {
  unique_id = some 4;
  size_gigabytes = none;
  status = BackupStatus.in_progress;
  metadata = none;
}

abbrev imaged : Provided
imaged =
    Provided.hetzner NodeType.cloud (HttpReply.answered 200 (some HetznerState.success))
      (HttpReply.answered 200 (some (record { disk_size = some 20; document = 9 })))

abbrev out_of_reach : Provided
out_of_reach = Provided.hetzner NodeType.cloud (HttpReply.answered 503 none) HttpReply.raised

-- The image is recorded with its size.
imaged_recorded :
    poll_status imaged begun
    ≡ some (
      BackupStatus.complete,
      record begun {
        size_gigabytes = some (Size.gigabytes 20);
        status = BackupStatus.complete;
        metadata = some (RowMetadata.document 9);
      },
    )
unfolding poll_status
imaged_recorded = refl

poll_status-IsAnswer_example :
    (answer : BackupStatus × SnapshotRow) × (poll_status imaged begun ≡ some answer)
    × IsAnswer begun answer
poll_status-IsAnswer_example = poll_status-IsAnswer imaged begun refl

running_found : find? (has_id 11) server.backups ≡ some running
unfolding find?
running_found = refl

running_unended : in_terminal running.status ≡ false
unfolding in_terminal
running_unended = refl

poll_cloud_backup_unreached_example :
    (answer : BackupStatus × SnapshotRow) × (poll_status out_of_reach begun ≡ some answer)
    × (answer.1 ≡ begun)
    × (poll_cloud_backup
          (cloud_soft_delete (λ b. SnapshotAnswer.deleted))
          86400
          (some answer.0)
          11
          (some 40)
          server
        ≡ (PollEnd.requeued 40, send (Message.poll_cloud_backup 11) server))
poll_cloud_backup_unreached_example =
    poll_cloud_backup_unreached (cloud_soft_delete (λ b. SnapshotAnswer.deleted)) 86400 out_of_reach
      begun 11 (some 40) server running running_found running_unended refl refl
