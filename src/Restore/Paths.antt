-- ===== src/Restore/Paths.antt =====
-- The confinement of paths: `_local_source_path` and `_check_members` of
-- apps/_tasks/integration/restore_common.py. `os.path.realpath`, `os.path.join` and
-- `os.path.isfile` are arguments.
pub mod Confined
use backupsheep.Prelude.{
  Bool, true, false, not, ◌&&◌, ◌||◌, List, [], ◌∷◌, ◌++◌, Option, none, some, ◌==◌, if◌then◌else◌,
}
use backupsheep.Prelude.Text.{text_eq}
use backupsheep.Model.Rows.{Text}

-- `t.startswith(p)`
unfoldable pub starts_with : Text → Text → Bool
starts_with [] t = true
starts_with (c ∷ cs) [] = false
starts_with (c ∷ cs) (d ∷ ds) = c == d && starts_with cs ds

-- `target.startswith(root + os.sep)`
unfoldable pub is_below : Text → Text → Bool
unfolding starts_with
is_below root target = starts_with (root ++ b'/' ∷ []) target

-- RestoreError, by the place that raises it; `unsafe_path` has the member.
pub data RestoreError : Type 0 where
  escapes_root not_found archived no_url download_failed empty_zip : RestoreError
  unsafe_path : Text → RestoreError

pub data Source : Type 0 where
  refused : RestoreError → Source
  path : Text → Source

unfoldable pub local_source_path : (Text → Text) → (Text → Bool) → Text → Option Text → Source
unfolding text_eq is_below
local_source_path realpath is_file storage_root file_id =
    let root = realpath storage_root in
    let target = realpath (elim file_id [ none ↦ [] | some t ↦ t ]) in
    if text_eq target root || not (is_below root target)
    then refused RestoreError.escapes_root
    else if is_file target
    then path target
    else refused RestoreError.not_found

-- The first member whose path leaves `dest_root`; `resolve` is
-- `os.path.realpath(os.path.join(dest_root, name))`.
unfoldable pub check_members : (Text → Text) → Text → List Text → Option RestoreError
unfolding text_eq is_below
check_members resolve dest_root [] = none
check_members resolve dest_root (name ∷ names) =
    if not (text_eq (resolve name) dest_root) && not (is_below dest_root (resolve name))
    then some (RestoreError.unsafe_path name)
    else check_members resolve dest_root names
