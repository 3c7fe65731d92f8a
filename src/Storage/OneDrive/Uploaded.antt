-- ===== src/Storage/OneDrive/Uploaded.antt =====
-- The storage points that `storage_onedrive` leaves complete.
use backupsheep.Prelude.{
  ℕ, zero, suc, ◌<◌, ◌≤◌, ◌≡◌, refl, sym, ◌⊎◌, inl, inr, ◌||◌, true, false, [], ◌∷◌, Option, none,
  some, length, ◌==◌, drop, arith, Bool-cases, ltb, ltb→lt,
}
use backupsheep.Model.Status.{PointStatus}
use backupsheep.Model.Rows.{Text}
use backupsheep.Upload.{Backend}
use backupsheep.Storage.Failures.{
  Failure, file_not_found, resumable_upload, failed, Call, returns, fails, raise_failed,
}
use backupsheep.Storage.Chunks.{Bytes, Put, Reply, Wire, resume, send_from, send_chunks}
use backupsheep.Storage.Chunks.Tiled.{Tiles, send_chunks-Tiles}
use backupsheep.Storage.OneDrive.{
  Graph, simple_limit, upload_failed, graph_reply, chunk_reply, graph_wire, graph_sent,
  on_graph_failure, graph_end, graph_result, simple_upload, session_upload, storage_onedrive,
}

abbrev IsComplete : Backend → Option Text → Type 0
IsComplete b id = b ≡ Backend.leaves PointStatus.upload_complete id

complete_id :
    (a b : Option Text) → IsComplete (Backend.leaves PointStatus.upload_complete a) b → a ≡ b
complete_id a b h = cc

graph-failed : (e : Failure) (id : Option Text) → IsComplete (on_graph_failure e) id → ⊥
unfolding on_graph_failure raise_failed
graph-failed file_not_found id h = cc
graph-failed (resumable_upload t) id h = cc
graph-failed (failed t) id h = cc

-- How the zip `file` got to OneDrive: in one request that answered 200 or 201, or in the session that
-- the API opened, whose requests carry the whole file.
pub data Delivered (g : Graph) (target : Text) (file : Bytes) (id : Option Text) : Type 0 where
  at_once :
      (code : ℕ)
      → length file < 6553600
      → g.put_content file ≡ returns code
      → (code ≡ 201) ⊎ (code ≡ 200)
      → id ≡ some target
      → Delivered g target file id
  in_chunks :
      (url : Option Text)
      → 6553600 ≤ length file
      → g.create_session ≡ returns url
      → Tiles 6553600 (length file) 0 file (graph_sent g target url file).puts
      → (graph_sent g target url file).file_id ≡ id
      → Delivered g target file id

created : (code : ℕ) → (code == 201 || code == 200) ≡ true → (code ≡ 201) ⊎ (code ≡ 200)
created code h = ground (arith, h)

simple-Delivered :
    (g : Graph) (target : Text) (file : Bytes) (id : Option Text) (c : Call ℕ)
    → length file < 6553600
    → g.put_content file ≡ c
    → IsComplete (simple_upload target c) id
    → Delivered g target file id
unfolding simple_upload
simple-Delivered g target file id (fails e) short at h = absurd (graph-failed e id h)
simple-Delivered g target file id (returns code) short at h =
    elim (Bool-cases (code == 201 || code == 200)) [
      | inl e ↦
          Delivered.at_once code short at (created code e)
            (sym (complete_id (some target) id (simp e at h)))
      | inr e ↦ let k = simp e at h in absurd (graph-failed upload_failed id k)
    ]

session-ended :
    (r : Option Failure) (file id : Option Text)
    → IsComplete (graph_result r file) id
    → (r ≡ none) × (file ≡ id)
unfolding graph_result
session-ended none file id h = (refl, complete_id file id h)
session-ended (some e) file id h = absurd (graph-failed e id h)

session-Delivered :
    (g : Graph) (target : Text) (file : Bytes) (id : Option Text) (c : Call (Option Text))
    → 6553600 ≤ length file
    → g.create_session ≡ c
    → IsComplete (session_upload g target file c) id
    → Delivered g target file id
unfolding session_upload graph_end graph_sent graph_wire
session-Delivered g target file id (fails e) long at h = absurd (graph-failed e id h)
session-Delivered g target file id (returns url) long at h =
    let (fine, saved) =
      session-ended (graph_sent g target url file).raised (graph_sent g target url file).file_id id
        h in
    Delivered.in_chunks url long at
      (send_chunks-Tiles (graph_wire g target url) file none (omega arith) fine) saved

-- A storage point that `storage_onedrive` leaves complete has a local zip, and OneDrive was given all of
-- it: below 6553600 bytes in one request that answered 200 or 201, and the file id is the target path;
-- from there on in a session whose requests carry the file in order and without a gap, each with the
-- range of its data and at most 6553600 bytes of it, and the file id is what the session ended with.
pub storage_onedrive-Delivered :
    (g : Graph) (target : Text) (local : Option Bytes) (id : Option Text)
    → storage_onedrive g target local ≡ Backend.leaves PointStatus.upload_complete id
    → (file : Bytes) × (local ≡ some file) × Delivered g target file id
unfolding storage_onedrive
storage_onedrive-Delivered g target none id h = absurd (graph-failed file_not_found id h)
storage_onedrive-Delivered g target (some file) id h =
    elim (Bool-cases (ltb (length file) simple_limit)) [
      | inl e ↦ (file, refl, simple-Delivered g target file id _ (ltb→lt _ _ e) refl (simp e at h))
      | inr e ↦
          (file, refl, session-Delivered g target file id _ (ground (arith, e)) refl (simp e at h))
    ]

-- A service that takes every chunk and never says that the file was created
silent_ends :
    (w : Wire) (total fuel i : ℕ) (rest : Bytes)
    → ((i : ℕ) (p : Put) → w.reply i p none ≡ Reply.go_on none)
    → ((send_from w total fuel i rest none).raised ≡ none)
      × ((send_from w total fuel i rest none).file_id ≡ none)
unfolding send_from resume
silent_ends w total zero i rest quiet = (refl, refl)
silent_ends w total (suc fuel) i [] quiet = (refl, refl)
silent_ends w total (suc fuel) i (b ∷ bs) quiet =
    simp quiet (silent_ends w total fuel (suc i) (drop w.chunk_size (b ∷ bs)) quiet)

result-of_silent :
    (r : Option Failure) (id : Option Text)
    → (r ≡ none) × (id ≡ none)
    → graph_result r id ≡ Backend.leaves PointStatus.upload_complete none
unfolding graph_result
result-of_silent r id (e, f) = simp (e, f) refl

-- A session in which every chunk is answered 202, so that OneDrive never says that the file was
-- created, leaves the storage point complete and without a file id.
pub storage_onedrive_unconfirmed :
    (g : Graph) (target url : Text) (file : Bytes)
    → 6553600 ≤ length file
    → g.create_session ≡ returns (some url)
    → ((i : ℕ) (p : Put) → g.put url i p ≡ returns 202)
    → storage_onedrive g target (some file) ≡ Backend.leaves PointStatus.upload_complete none
unfolding storage_onedrive session_upload graph_sent graph_end send_chunks graph_wire chunk_reply
    graph_reply
storage_onedrive_unconfirmed g target url file long opened quiet =
    let is_long : ltb (length file) simple_limit ≡ false = ground (arith, long) in
    simp (is_long, opened)
      (result-of_silent _ _ (
        silent_ends (graph_wire g target (some url)) (length file) (suc (length file)) 0 file
          (λ i p. simp (quiet i p) refl)))
