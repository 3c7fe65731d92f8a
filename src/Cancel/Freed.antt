-- ===== src/Cancel/Freed.antt =====
-- What a cancelled backup leaves of its row and of the node.
use backupsheep.Prelude.{
  ℕ, ◌≡◌, refl, ap, ◌∙◌, Bool, true, false, List, [], ◌∷◌, none, some, count, update, find-update,
  count-update_out, All, Bool-cases, inl, inr,
}
use backupsheep.Model.Status.{BackupStatus, PointStatus, in_active_statuses}
use backupsheep.Model.Rows.{StoragePoint, Backup, Db, has_id, is_in_flight, set_status}
use backupsheep.Node.{save_backup, get_cloud_backup, active_backup, activate}
use backupsheep.Node.Holding.{Holds}
use backupsheep.Node.Resets.{backup_complete_reset-none}
use backupsheep.Node.Free.{active_backup-none, Holds-alone}
use backupsheep.Cancel.{
  cloud_cancel, cancel_points, revoke_point, revoke_points, cancelled_row, website_cancel,
}

cancel_points-IsCancelled :
    (saves : ℕ → Bool) (ps : List StoragePoint)
    → All (λ p. p.status ≡ PointStatus.cancelled) (cancel_points saves ps)
unfolding cancel_points
cancel_points-IsCancelled saves [] = tt
cancel_points-IsCancelled saves (p ∷ ps) = elim (Bool-cases (saves p.id)) [
  | inl e ↦ rw e (refl, cancel_points-IsCancelled saves ps)
  | inr e ↦ rw e (cancel_points-IsCancelled saves ps)
]

revoke_point-backups :
    (saved : Bool) (p : StoragePoint) (db : Db) → (revoke_point saved p db).backups ≡ db.backups
unfolding revoke_point
revoke_point-backups true p db = refl
revoke_point-backups false p db = refl

revoke_points-backups :
    (saves : ℕ → Bool) (ps : List StoragePoint) (db : Db)
    → (revoke_points saves ps db).backups ≡ db.backups
unfolding revoke_points
revoke_points-backups saves [] db = refl
revoke_points-backups saves (p ∷ ps) db =
    revoke_points-backups saves ps _ ∙ revoke_point-backups (saves p.id) p db

website_cancel-backups :
    (saves : ℕ → Bool) (b : Backup) (db : Db)
    → (website_cancel saves b db).backups ≡ update (has_id b.id) (cancelled_row saves) db.backups
unfolding website_cancel save_backup activate
website_cancel-backups saves b db = rw (backup_complete_reset-none _) (
    ap (update (has_id b.id) (cancelled_row saves))
      (revoke_points-backups saves b.storage_points _))

cloud_cancel-backups :
    (b : Backup) (db : Db)
    → (cloud_cancel b db).backups
      ≡ update (has_id b.id) (set_status BackupStatus.cancelled) db.backups
unfolding cloud_cancel save_backup activate
cloud_cancel-backups b db = rw (backup_complete_reset-none _) refl

-- A write of the held row that takes it out of the flight leaves nothing in flight.
frees :
    (t i u : ℕ) (f : Backup → Backup) (db after : Db)
    → Holds t i db
    → ((x : Backup) → is_in_flight (f x) ≡ false)
    → after.backups ≡ update (has_id i) f db.backups
    → active_backup u after ≡ none
frees t i u f db after h done same = active_backup-none u after (
    ap (count is_in_flight) same
    ∙ count-update_out is_in_flight (has_id i) f db.backups done
    ∙ Holds-alone t i db h)

-- A website backup that a task holds and that is cancelled blocks no task of the node any more; its
-- row is CANCELLED, and so are the storage points that it still has.
pub website_cancel_frees :
    (saves : ℕ → Bool) (t : ℕ) (b : Backup) (db : Db)
    → Holds t b.id db
    → get_cloud_backup b.id db ≡ some b
    → ((u : ℕ) → active_backup u (website_cancel saves b db) ≡ none)
      × ((row : Backup) × (get_cloud_backup b.id (website_cancel saves b db) ≡ some row)
          × (row.status ≡ BackupStatus.cancelled)
          × All (λ p. p.status ≡ PointStatus.cancelled) row.storage_points)
unfolding cancelled_row in_active_statuses get_cloud_backup
website_cancel_frees saves t b db h found = (
  (λ u.
      frees t b.id u (cancelled_row saves) db _ h (λ x. refl) (website_cancel-backups saves b db)),
  (
    cancelled_row saves b,
    rw (website_cancel-backups saves b db)
        (find-update (has_id b.id) (cancelled_row saves) db.backups b (λ x. refl) found),
    refl,
    cancel_points-IsCancelled saves b.storage_points,
  ),
)

-- A provider's backup that a task holds and that is cancelled blocks no task of the node any more.
pub cloud_cancel_frees :
    (t : ℕ) (b : Backup) (db : Db)
    → Holds t b.id db
    → (u : ℕ) → active_backup u (cloud_cancel b db) ≡ none
unfolding in_active_statuses
cloud_cancel_frees t b db h u =
    frees t b.id u (set_status BackupStatus.cancelled) db _ h (λ x. refl)
      (cloud_cancel-backups b db)
