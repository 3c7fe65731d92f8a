-- ===== src/Examples/Backends.antt =====
-- The theorems on the storage backends, at small zips.
use backupsheep.Prelude.{
  ℕ, zero, suc, ◌≤◌, ◌≡◌, ◌≢◌, refl, [], ◌∷◌, none, some, ap, filter, length, arith, All,
}
use backupsheep.Prelude.Text.{codes}
use backupsheep.Model.Status.{PointStatus, StorageCode}
use backupsheep.Model.Rows.{Text}
use backupsheep.Upload.{Backend}
use backupsheep.Storage.Failures.{file_not_found, returns}
use backupsheep.Storage.Chunks.{Bytes}
use backupsheep.Storage.GoogleDrive.{Drive, find_or_create, find_node_folder}
use backupsheep.Storage.OneDrive.{Graph, simple_upload, storage_onedrive}
use backupsheep.Storage.OneDrive.Uploaded.{Delivered, storage_onedrive-Delivered}
use backupsheep.Storage.Dropbox.{Dropbox, storage_dropbox}
use backupsheep.Storage.Dropbox.Uploaded as Dropboxes
use backupsheep.Storage.Objects.{Zip, nested_name, object_key}
use backupsheep.Storage.Azure.{
  Azure, azure_chunk, after_stage, stage_from, staged, block_list, storage_azure,
}
use backupsheep.Storage.Azure.Assembled.{assemble, storage_azure-assemble}
use backupsheep.Storage.Dispatch.{Services}
use backupsheep.Storage.Dispatch.Missing.{IsMissing}

abbrev small : Bytes
small = 1 ∷ 2 ∷ 3 ∷ []

abbrev drive : Drive
drive = record {
  search_bs = returns (some []);
  create_bs = returns (codes "b");
  search_node = λ parent. returns (some []);
  create_node = λ parent. returns (codes "n");
  open_session = returns (codes "u");
  put = λ i p. returns (record { status_code = 200; id = some (codes "f") });
}

-- Every chunk is answered 202.
abbrev graph : Graph
graph = record {
  put_content = λ data_sent. returns 201;
  create_session = returns (some (codes "u"));
  put = λ url i p. returns 202;
}

graph_complete :
    storage_onedrive graph (codes "t") (some small)
    ≡ Backend.leaves PointStatus.upload_complete (some (codes "t"))
unfolding storage_onedrive simple_upload
graph_complete = refl

storage_onedrive-Delivered_example :
    (file : Bytes) × (some small ≡ some file) × Delivered graph (codes "t") file (some (codes "t"))
storage_onedrive-Delivered_example =
    storage_onedrive-Delivered graph (codes "t") (some small) (some (codes "t")) graph_complete

zeros : ℕ → Bytes
zeros zero = []
zeros (suc n) = 0 ∷ zeros n

length-zeros : (n : ℕ) → length (zeros n) ≡ n
unfolding zeros
length-zeros zero = refl
length-zeros (suc n) = omega (arith, length-zeros n)

abbrev dropbox : Dropbox
dropbox = record {
  upload = λ data_sent. returns (some (codes "id"));
  start = λ data_sent. returns (codes "s");
  append = λ offset data_sent. none;
  finish = λ offset data_sent. returns (some (codes "id"));
}

dropbox_complete :
    storage_dropbox dropbox (some small)
    ≡ Backend.leaves PointStatus.upload_complete (some (codes "id"))
unfolding storage_dropbox
dropbox_complete = refl

storage_dropbox-Delivered_example :
    (file : Bytes) × (t : Text) × (some small ≡ some file)
    × (some (codes "id") ≡ some t)
    × Dropboxes.Delivered dropbox file t
storage_dropbox-Delivered_example =
    Dropboxes.storage_dropbox-Delivered dropbox (some small) (some (codes "id")) dropbox_complete

-- The id of the `i`-th block is the text of `i` bars.
bars : ℕ → Text
bars zero = []
bars (suc n) = b'|' ∷ bars n

length-bars : (n : ℕ) → length (bars n) ≡ n
unfolding bars
length-bars zero = refl
length-bars (suc n) = omega (arith, length-bars n)

bars_injective : (i j : ℕ) → bars i ≡ bars j → i ≡ j
bars_injective i j h = omega (arith, length-bars i, length-bars j, ap (λ (t : Text). length t) h)

abbrev azure : Azure
azure = record {
  prefix = none;
  connect = none;
  uuid4 = bars;
  stage_block = λ id data_sent. none;
  commit_block_list = λ key ids. none;
}

abbrev zip_names : Zip
zip_names = record { uuid = codes "u"; name_slug = codes "site" }

azure_complete :
    storage_azure azure zip_names (some small)
    ≡ Backend.leaves PointStatus.upload_complete (some (codes "site/u.zip"))
unfolding storage_azure staged stage_from after_stage object_key nested_name
azure_complete = refl

storage_azure-assemble_example :
    (file : Bytes) × (some small ≡ some file)
    × (some (codes "site/u.zip") ≡ some (object_key none (nested_name zip_names)))
    × (azure.commit_block_list (codes "site/u.zip") (block_list (staged azure file).blocks) ≡ none)
    × (assemble (staged azure file).blocks (block_list (staged azure file).blocks) ≡ some file)
    × All (λ b. length b.1 ≤ azure_chunk) (staged azure file).blocks
storage_azure-assemble_example =
    storage_azure-assemble azure zip_names (some small) (some (codes "site/u.zip")) bars_injective
      azure_complete

-- The local zip is gone.
abbrev services : Services
services = record {
  zip = zip_names;
  local = none;
  bucket = record { prefix = none; connect = none; put = λ key. some file_not_found };
  drive = drive;
  graph = graph;
  graph_target = codes "t";
  dropbox = dropbox;
  azure = azure;
  pcloud = record { create_folder = none; upload = returns none };
  disk = record { make_directory = none; target_file = codes "/b"; copy = λ file. returns 0 };
}

services-IsMissing : IsMissing services
unfolding find_or_create find_node_folder filter
services-IsMissing = record {
  gone = refl;
  connects = refl;
  raises = λ key. refl;
  folder = b'n';
  folder_rest = [];
  found = refl;
  session = codes "u";
  opens = refl;
  connects_azure = refl;
  makes = refl;
}

s3_other : StorageCode.aws_s3 ≢ StorageCode.pcloud
s3_other h = cc
