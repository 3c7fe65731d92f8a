-- ===== src/Providers/DigitalOcean.antt =====
-- CoreDigitalOceanBackup.poll_status of apps/console/backup/models.py, which reads the pages of all
-- snapshots to find the one that has the name of the backup. The pages are read on fuel: `none` is a
-- check that has not ended in so many pages.
pub mod Listed
use backupsheep.Prelude.{ℕ, zero, suc, Bool, List, [], ◌∷◌, Option, none, some, ◌==◌, if◌then◌else◌}
use backupsheep.Model.Status.{BackupStatus, NodeType}
use backupsheep.Providers.{Size, SnapshotRow, HttpReply, gave_up, waiting, guarded}
use backupsheep.SoftDelete.Listing.{Page, more_from}

pub data ActionState : Type 0 where
  completed errored other : ActionState

-- `size_gigabytes` may lack.
pub record DropletSnapshot : Type 0 where
  pub id : ℕ
  pub name : ℕ
  pub size_gigabytes : Option ℕ

-- The row that is saved for a snapshot, or `none` where its size lacks
unfoldable pub sized_row : SnapshotRow → DropletSnapshot → Option SnapshotRow
sized_row row s = elim s.size_gigabytes [
  | none ↦ none
  | some n ↦ some (record row {
    unique_id = some s.id;
    size_gigabytes = some (Size.gigabytes n);
    status = BackupStatus.complete;
  })
]

unfoldable pub record_one :
    (SnapshotRow → BackupStatus × SnapshotRow)
    → SnapshotRow
    → Option SnapshotRow
    → BackupStatus × SnapshotRow
record_one next row none = (BackupStatus.in_progress, row)
record_one next row (some saved) = next saved

-- `for snapshot in snapshots`: each that has the name is saved; an exception leaves what was saved
-- before it.
unfoldable pub record_named : ℕ → List DropletSnapshot → SnapshotRow → BackupStatus × SnapshotRow
unfolding record_one sized_row
record_named uuid [] row = (BackupStatus.complete, row)
record_named uuid (s ∷ rest) row =
    if s.name == uuid
    then record_one (record_named uuid rest) row (sized_row row s)
    else record_named uuid rest row

unfoldable pub record_listed :
    ℕ → SnapshotRow → Option (Option (List DropletSnapshot)) → Option (BackupStatus × SnapshotRow)
unfolding record_named
record_listed uuid row none = none
record_listed uuid row (some none) = some (BackupStatus.in_progress, row)
record_listed uuid row (some (some snapshots)) = some (record_named uuid snapshots row)

unfoldable pub first_page :
    ℕ
    → (ℕ → HttpReply (Page DropletSnapshot))
    → Option (Page DropletSnapshot)
    → Option (Option (List DropletSnapshot))
unfolding more_from
first_page rounds pages none = some none
first_page rounds pages (some p) = more_from rounds pages p.total 1 p.items

-- The first page, and those that follow it; a page that is refused raises.
unfoldable pub all_snapshots :
    ℕ
    → (ℕ → HttpReply (Page DropletSnapshot))
    → HttpReply (Page DropletSnapshot)
    → Option (Option (List DropletSnapshot))
unfolding first_page
all_snapshots rounds pages HttpReply.raised = some none
all_snapshots rounds pages (HttpReply.answered code body) =
    if code == 200 then first_page rounds pages body else some none

unfoldable pub on_action :
    ℕ
    → ℕ
    → (ℕ → HttpReply (Page DropletSnapshot))
    → SnapshotRow
    → Option ActionState
    → Option (BackupStatus × SnapshotRow)
unfolding record_listed all_snapshots
on_action rounds uuid pages row none = waiting row
on_action rounds uuid pages row (some ActionState.completed) =
    record_listed uuid row (all_snapshots rounds pages (pages 1))
on_action rounds uuid pages row (some ActionState.errored) = gave_up row
on_action rounds uuid pages row (some ActionState.other) = waiting row

unfoldable pub on_action_reply :
    ℕ
    → ℕ
    → HttpReply ActionState
    → (ℕ → HttpReply (Page DropletSnapshot))
    → SnapshotRow
    → Option (BackupStatus × SnapshotRow)
unfolding on_action
on_action_reply rounds uuid HttpReply.raised pages row = waiting row
on_action_reply rounds uuid (HttpReply.answered code body) pages row =
    if code == 200 then on_action rounds uuid pages row body else waiting row

-- `uuid` is `uuid_str`.
unfoldable pub digitalocean_poll_status :
    ℕ
    → NodeType
    → ℕ
    → HttpReply ActionState
    → (ℕ → HttpReply (Page DropletSnapshot))
    → SnapshotRow
    → Option (BackupStatus × SnapshotRow)
unfolding on_action_reply
digitalocean_poll_status rounds NodeType.cloud uuid action pages row =
    on_action_reply rounds uuid action pages row
digitalocean_poll_status rounds NodeType.volume uuid action pages row =
    some (BackupStatus.complete, record row { status = BackupStatus.complete })
digitalocean_poll_status rounds _ uuid action pages row = waiting row
