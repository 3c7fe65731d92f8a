-- ===== src/Lib.antt =====
-- BackupSheep: the backups of a node, from the task that starts one to the retention of old ones.
--
-- BackupSheep is a Django application whose work is done by Celery tasks. A schedule or a member
-- starts a backup task for a node (a website, a database, a SaaS account, or a server or volume of a
-- cloud provider). The task asks the node to begin a backup (`CoreNode.backup_initiate`), which lets
-- at most one backup of a node be in flight. The backup of files is made on the worker's disk and sent
-- to the storages by one `storage_upload` per storage; when all have ended, `finalize_backup` sets the
-- final status. The backup of a server is a snapshot that the provider makes, and `poll_cloud_backup`
-- waits for it. Either end deletes the backups that the schedule does not keep.
--
-- The state is one node with its connection, its account, its schedules, its storages and its table
-- of backups (Model.Rows.Db); the tasks of different nodes touch different tables. A row is a record,
-- a query is a Boolean test, `save()` is an update of the rows with an id, and what a task sends to
-- others, to members or to the log is appended to `outbox`. Each run of a task is a function from the
-- state to how the run ends and to the new state, so that an interleaving is a sequence of such steps;
-- `backup_initiate` locks its node's row, which makes it one step. Celery's choice to retry, the
-- validations, the snapshot engines, the provider's and the storages' answers are arguments.
--
--   Prelude    Boolean tests, lists as tables, counts of rows
--   Model      the status columns and the rows (apps/console/utils/models.py, node/models.py,
--              backup/models.py, storage/models.py, connection/models.py, account/models.py)
--   Node       the backup methods of CoreNode, apps/console/node/models.py
--   Task       the backup tasks: what they share, Task.Files those that upload from disk, Task.Clouds
--              those of the providers (apps/_tasks/integration/*.py, and `create_snapshot` of
--              apps/console/node/models.py)
--   Upload     `storage_upload`, apps/_tasks/integration/storage/tasks.py
--   Finalize   `finalize_backup`, the same file
--   Retention  the retention loop of both ends, and the soft deletes of apps/console/backup/models.py
--   Poll       `poll_cloud_backup`, apps/_tasks/helper/tasks.py
--   Create     `create_snapshot` of the providers' nodes, apps/console/node/models.py
--   Providers  `poll_status` of the providers' backups, apps/console/backup/models.py
--   SoftDelete `soft_delete` of the providers' backups (SoftDelete.Listing has the loops over pages) and
--              the deletion of the file of a storage point (SoftDelete.Files), the same file
--   Cancel     the `cancel` methods of apps/console/backup/models.py
--   Deletion   `node_delete_requested` and `clean_delete_failed_backups`, apps/_tasks/helper/tasks.py,
--              on the backups of one node
--   System     the tasks, uploads, polls, soft deletes, cancels and clean-ups of one node as a step
--              relation, and what any sequence of them reaches
--   Storage    the backends that `storage_upload` calls, apps/_tasks/integration/storage/*.py: the loop
--              that sends a file in chunks (Storage.Chunks, with GoogleDrive and OneDrive), Dropbox,
--              Azure, the object storages (Storage.Objects), the local disk and pCloud
--              (Storage.Local), and the dispatch (Storage.Dispatch)
--   Lftp       `_lftp_quote` and `_build_lftp_script`, apps/_tasks/integration/backup/website.py
--   Sanitize   the input guards, apps/_tasks/integration/backup/_sanitize.py
--   Dump       `snapshot_postgresql`, apps/_tasks/integration/backup/postgresql.py: its commands and its
--              password file (Dump), and its run on the answers of the server (Dump.Postgres)
--   Restore    `restore_common.py` (Restore.Paths, Restore.Fetch) and the tasks of `restore.py`
--              (Restore.Tasks), apps/_tasks/integration, `check_restore` of the providers' nodes
--              (Restore.Checks) and the identifier of a restored RDS instance (Restore.Identifier),
--              apps/console/node/models.py
--   Invites    invites to an account (apps/console/invite/models.py, apps/api/v1/invite/views.py,
--              apps/console/invite/views.py), with the sequences of actions as a step relation
--   Scheduling the periodic tasks of CoreSchedule, apps/console/node/models.py, and
--              `run_scheduled_backup` of apps/_tasks/helper/tasks.py
--   Recipients `get_notification_recipients`, apps/console/account/models.py
--   Examples   tests, and each theorem with hypotheses at concrete rows
--
-- Bounds: the runs of `poll_cloud_backup` and `poll_cloud_restore` are counted by fuel; `n + 1` runs are enough where `n`
-- intervals exceed the timeout, which is 722 runs for the defaults of 120 seconds and 24 hours. Ids,
-- times and task ids are natural numbers; nothing in these tasks depends on their width.
--
-- The loops that read a file have the size of the file as fuel, and one round more: each round but the
-- last reads at least one byte. A file is the list of its bytes, an SDK or HTTP call is an argument that
-- returns or raises, and an error is known by its class and text.
--
-- Not modelled: the commands and network calls of the other snapshot engines, the SDKs of the storages,
-- the providers' APIs, the texts of mails and logs, the views and forms, the restore engines,
-- the creation of invites, and the deletion of accounts,
-- connections and storages.
pub mod Prelude
pub mod Model
pub mod Node
pub mod Storage
pub mod Task
pub mod Lftp
pub mod Sanitize
pub mod Dump
pub mod Upload
pub mod Retention
pub mod Finalize
pub mod Poll
pub mod Cancel
pub mod Deletion
pub mod System
pub mod Restore
pub mod Create
pub mod Providers
pub mod SoftDelete
pub mod Recipients
pub mod Scheduling
pub mod Invites
pub mod Examples
