-- ===== src/Storage/Dropbox/Uploaded.antt =====
-- The storage points that `storage_dropbox` leaves complete.
use backupsheep.Prelude.{
  ℕ, zero, suc, ◌+◌, ◌-◌, ◌≤◌, ◌<◌, ◌≡◌, ◌≢◌, refl, sym, ap, ◌∙◌, inl, inr, true, false, List, [],
  ◌∷◌, ◌++◌, Option, none, some, ltb, leb, leb→le, leb_false→lt, lt→ltb, le→ltb_false, length, take,
  drop, arith, Bool-cases,
}
use mathlib.Core.Path.{subst}
use backupsheep.Model.Status.{PointStatus}
use backupsheep.Model.Rows.{Text}
use backupsheep.Upload.{UploadError, Backend}
use backupsheep.Storage.Failures.{
  Failure, file_not_found, resumable_upload, failed, Call, returns, fails, raise_failed,
}
use backupsheep.Storage.Chunks.{Bytes}
use backupsheep.Storage.Chunks.Reads.{
  take-drop, length-take_full, length-take_short, length-read, take_all,
}
use backupsheep.Storage.Dropbox.{
  Dropbox, Piece, append, finish, Session, dropbox_chunk, after_append, after_finish, session_round,
  session_from, dropbox_session, start_session, on_dropbox_text, on_dropbox_failure, dropbox_end,
  no_file_id, send_file, storage_dropbox,
}

-- The calls of a session carry `bytes`, which stand at `at`: full chunks are appended, each at the
-- place where it stands and without an error, and one call, the last, finishes with what is left and
-- returns the file id.
pub data Carries (d : Dropbox) (id : Option Text) : ℕ → Bytes → List Piece → Type 0 where
  finished :
      {at : ℕ} {bytes : Bytes}
      → 0 < length bytes
      → length bytes ≤ dropbox_chunk
      → d.finish at bytes ≡ returns id
      → Carries d id at bytes (finish at bytes ∷ [])
  appended :
      {at : ℕ} {bytes rest : Bytes} {ps : List Piece} (content : Bytes)
      → length content ≡ dropbox_chunk
      → bytes ≡ content ++ rest
      → d.append at content ≡ none
      → Carries d id (at + length content) rest ps
      → Carries d id at bytes (append at content ∷ ps)

session_from-end :
    (d : Dropbox) (size fuel tell offset : ℕ) (rest : Bytes) (id : Option Text)
    → size ≤ tell
    → session_from d size fuel tell offset rest id ≡ record { pieces = []; ended = returns id }
unfolding session_from
session_from-end d size zero tell offset rest id h = refl
session_from-end d size (suc fuel) tell offset rest id h =
    let e : ltb tell size ≡ false = le→ltb_false tell size h in simp e refl

after_finish-Carries :
    (d : Dropbox) (at : ℕ) (bytes content : Bytes) (c : Call (Option Text))
    (go : Option Text → Session) (id : Option Text)
    → content ≡ bytes
    → 0 < length bytes
    → length bytes ≤ dropbox_chunk
    → ((new : Option Text) → go new ≡ record { pieces = []; ended = returns new })
    → d.finish at content ≡ c
    → (after_finish c (finish at content) go).ended ≡ returns id
    → Carries d id at bytes (after_finish c (finish at content) go).pieces
unfolding after_finish
after_finish-Carries d at bytes content (fails e) go id all n m over call ok = cc
after_finish-Carries d at bytes content (returns new) go id all n m over call ok =
    let ended : returns new ≡ returns id = sym (ap (λ s. s.ended) (over new)) ∙ ok in
    rw (ap (λ s. s.pieces) (over new), all)
      (finished n m (ap (d.finish at) (sym all) ∙ call ∙ ended))

after_append-Carries :
    (d : Dropbox) (at : ℕ) (bytes content rest : Bytes) (c : Option Failure) (s : Session)
    (id : Option Text)
    → length content ≡ dropbox_chunk
    → bytes ≡ content ++ rest
    → (s.ended ≡ returns id → Carries d id (at + length content) rest s.pieces)
    → d.append at content ≡ c
    → (after_append c (append at content) s).ended ≡ returns id
    → Carries d id at bytes (after_append c (append at content) s).pieces
unfolding after_append
after_append-Carries d at bytes content rest (some e) s id full cut carries call ok = cc
after_append-Carries d at bytes content rest none s id full cut carries call ok =
    appended content full cut call (carries ok)

session_from-Carries :
    (d : Dropbox) (size fuel tell : ℕ) (rest : Bytes) (id end : Option Text)
    → length rest < fuel
    → tell + length rest ≡ size
    → 0 < length rest
    → (session_from d size fuel tell tell rest id).ended ≡ returns end
    → Carries d end tell rest (session_from d size fuel tell tell rest id).pieces
unfolding session_from session_round
session_from-Carries d size zero tell rest id end enough at left ok = absurd (omega (arith, enough))
session_from-Carries d size (suc fuel) tell rest id end enough at left ok =
    let e : ltb tell size ≡ true = lt→ltb tell size (omega (arith, at, left)) in
    let read = length-read dropbox_chunk rest in
    elim (Bool-cases (leb (size - tell) dropbox_chunk)) [
      | inl f ↦
          let small = leb→le (size - tell) dropbox_chunk f in
          simp (e, f)
            (after_finish-Carries d tell rest (take dropbox_chunk rest) _ _ end
              (take_all dropbox_chunk rest (omega (arith, small, at))) left
              (omega (arith, small, at))
              (λ new. session_from-end d size fuel _ tell (drop dropbox_chunk rest) new (
                omega (arith, length-take_short dropbox_chunk rest (omega (arith, small, at)), at)))
              refl (simp (e, f) at ok))
      | inr f ↦
          let full = length-take_full dropbox_chunk rest (omega (arith, leb_false→lt _ _ f, at)) in
          simp (e, f)
            (after_append-Carries d tell rest (take dropbox_chunk rest) (drop dropbox_chunk rest) _
              _ end full (take-drop dropbox_chunk rest)
              (λ fine.
                session_from-Carries d size fuel _ (drop dropbox_chunk rest) id end
                  (omega (arith, read, full, enough)) (omega (arith, read, at))
                  (omega (arith, read, full, leb_false→lt _ _ f, at)) fine)
              refl (simp (e, f) at ok))
    ]

-- How the zip `file` got to Dropbox: in one request, or in a session whose start carries the first
-- chunk and whose other calls carry the rest.
pub data Delivered (d : Dropbox) (file : Bytes) (id : Text) : Type 0 where
  at_once : length file ≤ dropbox_chunk → d.upload file ≡ returns (some id) → Delivered d file id
  in_session :
      (session_id : Text)
      → dropbox_chunk < length file
      → d.start (take dropbox_chunk file) ≡ returns session_id
      → Carries d (some id) dropbox_chunk (drop dropbox_chunk file) (dropbox_session d file).pieces
      → Delivered d file id

text-failed :
    (t : Text) (id : Option Text)
    → on_dropbox_text t ≡ Backend.leaves PointStatus.upload_complete id
    → ⊥
unfolding on_dropbox_text raise_failed
text-failed t id h = ground arith

dropbox-failed :
    (e : Failure) (id : Option Text)
    → on_dropbox_failure e ≡ Backend.leaves PointStatus.upload_complete id
    → ⊥
unfolding on_dropbox_failure
dropbox-failed file_not_found id h = cc
dropbox-failed (resumable_upload t) id h = text-failed t id h
dropbox-failed (failed t) id h = text-failed t id h

dropbox_end-id :
    (c : Call (Option Text)) (id : Option Text)
    → dropbox_end c ≡ Backend.leaves PointStatus.upload_complete id
    → (t : Text) × (id ≡ some t) × (c ≡ returns (some t))
unfolding dropbox_end
dropbox_end-id (fails e) id h = absurd (dropbox-failed e id h)
dropbox_end-id (returns none) id h = absurd (dropbox-failed no_file_id id h)
dropbox_end-id (returns (some [])) id h = absurd (dropbox-failed no_file_id id h)
dropbox_end-id (returns (some (c ∷ cs))) id h = (c ∷ cs, cc, refl)

dropbox_session-Carries :
    (d : Dropbox) (file : Bytes) (id : Text)
    → dropbox_chunk < length file
    → (dropbox_session d file).ended ≡ returns (some id)
    → Carries d (some id) dropbox_chunk (drop dropbox_chunk file) (dropbox_session d file).pieces
unfolding dropbox_session
dropbox_session-Carries d file id big ok =
    let read = length-read dropbox_chunk file in
    let full = length-take_full dropbox_chunk file (omega (arith, big)) in
    subst (λ n. Carries d (some id) n (drop dropbox_chunk file) (dropbox_session d file).pieces)
      full
      (session_from-Carries d (length file) (suc (length file)) (length (take dropbox_chunk file))
        (drop dropbox_chunk file) none (some id) (omega (arith, read)) read
        (omega (arith, read, full, big)) ok)

session-Delivered :
    (d : Dropbox) (file : Bytes) (id : Text) (c : Call Text)
    → dropbox_chunk < length file
    → d.start (take dropbox_chunk file) ≡ c
    → start_session d file c ≡ returns (some id)
    → Delivered d file id
unfolding start_session
session-Delivered d file id (fails e) big at ok = cc
session-Delivered d file id (returns session_id) big at ok =
    Delivered.in_session session_id big at (dropbox_session-Carries d file id big ok)

send_file-Delivered :
    (d : Dropbox) (file : Bytes) (id : Text)
    → send_file d file ≡ returns (some id)
    → Delivered d file id
unfolding send_file
send_file-Delivered d file id ok = elim (Bool-cases (leb (length file) dropbox_chunk)) [
  | inl e ↦ Delivered.at_once (leb→le _ _ e) (simp e at ok)
  | inr e ↦ session-Delivered d file id _ (leb_false→lt _ _ e) refl (simp e at ok)
]

-- A storage point that `storage_dropbox` leaves complete has the file id that Dropbox returned, from the
-- upload or from the call that finished the session, and Dropbox was given the whole local zip: up to
-- 140 MiB in one request; above in a session that starts with the first chunk, appends full chunks at
-- the places where they stand in the file, each without an error, and finishes with what is left, not
-- empty and at most a chunk.
pub storage_dropbox-Delivered :
    (d : Dropbox) (local : Option Bytes) (id : Option Text)
    → storage_dropbox d local ≡ Backend.leaves PointStatus.upload_complete id
    → (file : Bytes) × (t : Text) × (local ≡ some file) × (id ≡ some t) × Delivered d file t
unfolding storage_dropbox
storage_dropbox-Delivered d none id h = absurd (dropbox-failed file_not_found id h)
storage_dropbox-Delivered d (some file) id h =
    let (t, same, sent) = dropbox_end-id (send_file d file) id h in
    (file, t, refl, same, send_file-Delivered d file t sent)

text_unmissing : (t : Text) → on_dropbox_text t ≢ Backend.raises UploadError.dropbox_file_id_missing
unfolding on_dropbox_text raise_failed
text_unmissing t h = ground arith

failure_unmissing :
    (e : Failure) → on_dropbox_failure e ≢ Backend.raises UploadError.dropbox_file_id_missing
unfolding on_dropbox_failure
failure_unmissing file_not_found h = cc
failure_unmissing (resumable_upload t) h = text_unmissing t h
failure_unmissing (failed t) h = text_unmissing t h

end_unmissing :
    (c : Call (Option Text)) → dropbox_end c ≢ Backend.raises UploadError.dropbox_file_id_missing
unfolding dropbox_end
end_unmissing (fails e) h = failure_unmissing e h
end_unmissing (returns none) h = failure_unmissing no_file_id h
end_unmissing (returns (some [])) h = failure_unmissing no_file_id h
end_unmissing (returns (some (c ∷ cs))) h = cc

-- `storage_dropbox` raises no NodeDropboxFileIDMissingError, whatever Dropbox answers.
pub storage_dropbox_unmissing :
    (d : Dropbox) (local : Option Bytes)
    → storage_dropbox d local ≢ Backend.raises UploadError.dropbox_file_id_missing
unfolding storage_dropbox
storage_dropbox_unmissing d none h = failure_unmissing file_not_found h
storage_dropbox_unmissing d (some file) h = end_unmissing (send_file d file) h
