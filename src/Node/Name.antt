-- ===== src/Node/Name.antt =====
-- The name that `backup_initiate` of apps/console/node/models.py gives a new backup.
use backupsheep.Prelude.{ℕ, ◌++◌, map, Option, none, some, ◌==◌, if◌then◌else◌, take}
use backupsheep.Prelude.Text.{codes, show}
use backupsheep.Model.Status.{BackupType}
use backupsheep.Model.Rows.{Text}

-- `get_type_display()`
unfoldable pub type_display : BackupType → Text
type_display BackupType.on_demand = codes "On-Demand"
type_display BackupType.scheduled = codes "Scheduled"

schedule_slug : BackupType → Option Text → Text
schedule_slug type none = type_display type
schedule_slug type (some name) = type_display type ++ (codes "-" ++ name)

-- `.replace("_", "-")`
underscores_to_dashes : Text → Text
underscores_to_dashes = map (λ c. if c == b'_' then b'-' else c)

unfoldable pub backup_uuid : (Text → Text) → Text → ℕ → ℕ → BackupType → Option Text → Text
unfolding type_display schedule_slug underscores_to_dashes
backup_uuid slugify node_name node_id backup_id type schedule =
    let n_and_s = node_name ++ (codes " - " ++ schedule_slug type schedule) in
    underscores_to_dashes (
      slugify (
        codes "bs-"
        ++ (take 24 n_and_s ++ (codes "-n" ++ (show node_id ++ (codes "-b" ++ show backup_id))))))
