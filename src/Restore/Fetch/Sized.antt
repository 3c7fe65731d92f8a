-- ===== src/Restore/Fetch/Sized.antt =====
-- What a fetched zip is known to be.
use backupsheep.Prelude.{
  ℕ, zero, suc, ◌<◌, ◌≡◌, refl, ◌∙◌, ap, Bool, true, false, [], ◌∷◌, Option, none, some, arith,
  Bool-cases, inl, inr,
}
use mathlib.Core.Path.{subst}
use backupsheep.Model.Rows.{Text, StoragePoint}
use backupsheep.Restore.Paths.{Source, refused, path, local_source_path}
use backupsheep.Restore.Paths.Confined.{IsBelow, local_source_path-IsBelow}
use backupsheep.Restore.Fetch.{
  World, fetched, unless_empty, copy_local, downloaded, is_glacier_sentinel, fetch_url, is_local,
  fetch_backup_zip,
}

-- Where the zip is from: a file below the storage root, or a download from a URL that is no sentinel
-- of an archive.
pub data ComesFrom (w : World) : Bool → ℕ → Type 0 where
  local_file :
      (t : Text)
      → IsBelow (w.realpath w.storage_root) t
      → w.is_file t ≡ true
      → ComesFrom w true (w.size t)
  remote :
      (url : Text) (n : ℕ)
      → w.download_url ≡ some url
      → is_glacier_sentinel url ≡ false
      → w.download url ≡ some n
      → ComesFrom w false n

fetched-size : (m n : ℕ) → unless_empty m ≡ fetched n → (0 < n) × (m ≡ n)
unfolding unless_empty
fetched-size zero n h = cc
fetched-size (suc m) n h = ground (arith, h)

local-ComesFrom :
    (w : World) (file_id : Option Text) (n : ℕ) (s : Source)
    → local_source_path w.realpath w.is_file w.storage_root file_id ≡ s
    → copy_local w s ≡ fetched n
    → (0 < n) × ComesFrom w true n
unfolding copy_local
local-ComesFrom w file_id n (refused e) from h = cc
local-ComesFrom w file_id n (path t) from h =
    let (below, file) =
      local_source_path-IsBelow w.realpath w.is_file w.storage_root file_id t from in
    let (some_bytes, same) = fetched-size (w.size t) n h in
    (some_bytes, subst (ComesFrom w true) same (local_file t below file))

download-ComesFrom :
    (w : World) (url : Text) (n : ℕ)
    → w.download_url ≡ some url
    → is_glacier_sentinel url ≡ false
    → (d : Option ℕ) → w.download url ≡ d
    → downloaded d ≡ fetched n
    → (0 < n) × ComesFrom w false n
unfolding downloaded
download-ComesFrom w url n at warm none got h = cc
download-ComesFrom w url n at warm (some m) got h =
    let (some_bytes, same) = fetched-size m n h in
    (some_bytes, remote url n at warm (got ∙ ap some same))

remote-ComesFrom :
    (w : World) (n : ℕ) (url : Option Text)
    → w.download_url ≡ url
    → fetch_url w url ≡ fetched n
    → (0 < n) × ComesFrom w false n
unfolding fetch_url
remote-ComesFrom w n none at h = cc
remote-ComesFrom w n (some []) at h = cc
remote-ComesFrom w n (some (c ∷ cs)) at h = elim (Bool-cases (is_glacier_sentinel (c ∷ cs))) [
  | inl cold ↦ let k = simp cold at h in cc
  | inr warm ↦ download-ComesFrom w (c ∷ cs) n at warm (w.download (c ∷ cs)) refl (simp warm at h)
]

-- A fetch that succeeds gives a zip that is not empty; from local storage it is a file below the
-- storage root, and from any other storage it is what the download gave for the storage's URL, which
-- does not say that the backup is archived.
pub fetch_backup_zip-ComesFrom :
    (w : World) (p : StoragePoint) (n : ℕ)
    → fetch_backup_zip w p ≡ fetched n
    → (0 < n) × ComesFrom w (is_local p.storage_code) n
unfolding fetch_backup_zip
fetch_backup_zip-ComesFrom w p n h = elim (Bool-cases (is_local p.storage_code)) [
  | inl e ↦ rw e (local-ComesFrom w p.storage_file_id n _ refl (simp e at h))
  | inr e ↦ rw e (remote-ComesFrom w n w.download_url refl (simp e at h))
]
