-- ===== src/Storage/Azure.antt =====
-- `storage_azure` of apps/_tasks/integration/storage/azure.py. What the client does, and the ids that
-- `uuid4` gives, are arguments.
pub mod Assembled
use backupsheep.Prelude.{
  ℕ, zero, suc, ◌*◌, List, [], ◌∷◌, Option, none, some, length, take, drop, map,
}
use backupsheep.Model.Status.{PointStatus}
use backupsheep.Model.Rows.{Text}
use backupsheep.Upload.{Backend}
use backupsheep.Storage.Failures.{Failure, file_not_found, resumable_upload, failed, raise_failed}
use backupsheep.Storage.Chunks.{Bytes}
use backupsheep.Storage.Objects.{Zip, nested_name, object_key}

abbrev pub Block : Type 0
Block = Text × Bytes

-- `uuid4` is the id of the `i`-th block; the calls are what they raise.
pub record Azure : Type 0 where
  pub prefix : Option Text
  pub connect : Option Failure
  pub uuid4 : ℕ → Text
  pub stage_block : Text → Bytes → Option Failure
  pub commit_block_list : Text → List Text → Option Failure

-- The blocks staged, in their order, and what a call raised.
pub record Staged : Type 0 where
  pub blocks : List Block
  pub raised : Option Failure

abbrev pub azure_chunk : ℕ
azure_chunk = 1024 * 1024 * 4

unfoldable pub after_stage : Option Failure → Block → Staged → Staged
after_stage (some e) b rest = record { blocks = []; raised = some e }
after_stage none b rest = record { blocks = b ∷ rest.blocks; raised = rest.raised }

-- The `while True` from its `i`-th round on, with what is left of the file to read
unfoldable pub stage_from : Azure → ℕ → ℕ → Bytes → Staged
unfolding after_stage
stage_from a zero i rest = record { blocks = []; raised = none }
stage_from a (suc fuel) i [] = record { blocks = []; raised = none }
stage_from a (suc fuel) i (b ∷ bs) =
    let content = take azure_chunk (b ∷ bs) in
    after_stage (a.stage_block (a.uuid4 i) content) (a.uuid4 i, content)
      (stage_from a fuel (suc i) (drop azure_chunk (b ∷ bs)))

unfoldable pub staged : Azure → Bytes → Staged
unfolding stage_from
staged a file = stage_from a (suc (length file)) 0 file

abbrev pub block_list : List Block → List Text
block_list blocks = map (λ b. b.0) blocks

-- The `except` clauses, or the end of the `try`
azure_end : Text → Option Failure → Backend
unfolding raise_failed
azure_end key none = Backend.leaves PointStatus.upload_complete (some key)
azure_end key (some file_not_found) = Backend.leaves PointStatus.upload_failed_file_not_found none
azure_end key (some (resumable_upload t)) = raise_failed t
azure_end key (some (failed t)) = raise_failed t

commit : Azure → Text → List Block → Option Failure → Option Failure
commit a key blocks (some e) = some e
commit a key blocks none = a.commit_block_list key (block_list blocks)

send_blocks : Azure → Text → Option Bytes → Option Failure → Option Failure
unfolding commit staged
send_blocks a key local (some e) = some e
send_blocks a key none none = some file_not_found
send_blocks a key (some file) none = commit a key (staged a file).blocks (staged a file).raised

-- `local` is the local zip, if it is there.
unfoldable pub storage_azure : Azure → Zip → Option Bytes → Backend
unfolding azure_end send_blocks object_key nested_name
storage_azure a z local =
    let key = object_key a.prefix (nested_name z) in
    azure_end key (send_blocks a key local a.connect)
