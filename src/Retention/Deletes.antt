-- ===== src/Retention/Deletes.antt =====
-- What the soft deletes of several backups leave of the table.
use backupsheep.Prelude.{
  count_and_left, ℕ, ◌≤◌, ◌≡◌, refl, ◌∙◌, ap, Bool, true, false, not, ◌&&◌, List, [], ◌∷◌, arith,
  count, any, count-update_out, update, ◌==◌,
}
use backupsheep.Model.Status.{BackupStatus}
use backupsheep.Model.Rows.{Backup, Db, has_id, is_in_flight}
use backupsheep.Retention.{is_completed_of, soft_delete_all}

-- The row has the id of one of the rows.
abbrev pub is_among : List Backup → Backup → Bool
is_among bs x = any (λ b. b.id == x.id) bs

-- Whether the deletion of the backup was asked for: it is done or has failed.
unfoldable pub was_asked : BackupStatus → Bool
was_asked BackupStatus.delete_completed = true
was_asked BackupStatus.delete_failed = true
was_asked BackupStatus.delete_failed_not_found = true
was_asked _ = false

-- A soft delete writes the row of its backup alone, which is not complete and not in flight after it
-- and says whether the deletion is done or has failed.
pub record IsSoftDelete (soft_delete : Backup → Db → Db) : Type 0 where
  pub writes : Backup → Backup → Backup
  pub row :
      (b : Backup) (db : Db)
      → (soft_delete b db).backups ≡ update (has_id b.id) (writes b) db.backups
  pub not_completed : (s : ℕ) (b x : Backup) → is_completed_of s (writes b x) ≡ false
  pub not_in_flight : (b x : Backup) → is_in_flight (writes b x) ≡ false
  pub asked : (b x : Backup) → was_asked (writes b x).status ≡ true
  pub id : (b x : Backup) → (writes b x).id ≡ x.id

-- Deleting more backups leaves no more of those that a deleted backup is not one of.
pub count_le-soft_delete_all :
    (soft_delete : Backup → Db → Db) (d : IsSoftDelete soft_delete) (p : Backup → Bool)
    (bs : List Backup) (db : Db)
    → ((b x : Backup) → p (d.writes b x) ≡ false)
    → count p (soft_delete_all soft_delete bs db).backups ≤ count p db.backups
unfolding soft_delete_all
count_le-soft_delete_all soft_delete d p [] db out = omega arith
count_le-soft_delete_all soft_delete d p (b ∷ bs) db out = omega (
  arith,
  count_le-soft_delete_all soft_delete d p bs (soft_delete b db) out,
  ap (count p) (d.row b db),
  count-update_out p (has_id b.id) (d.writes b) db.backups (out b),
  count_and_left p (λ x. not (has_id b.id x)) db.backups,
)

pub count-eq :
    (p q : Backup → Bool) (xs : List Backup) → ((x : Backup) → p x ≡ q x) → count p xs ≡ count q xs
unfolding count
count-eq p q [] h = refl
count-eq p q (x ∷ xs) h = ground (arith, h x, count-eq p q xs h)

-- The rows of `p` that are left, where no deleted row is one, are those that were not deleted.
pub count-soft_delete_all_of :
    (soft_delete : Backup → Db → Db) (d : IsSoftDelete soft_delete) (p : Backup → Bool)
    (bs : List Backup) (db : Db)
    → ((b x : Backup) → p (d.writes b x) ≡ false)
    → count p (soft_delete_all soft_delete bs db).backups
      ≡ count (λ x. p x && not (is_among bs x)) db.backups
unfolding soft_delete_all any
count-soft_delete_all_of soft_delete d p [] db out = count-eq p _ db.backups (λ x. ground arith)
count-soft_delete_all_of soft_delete d p (b ∷ bs) db out =
    count-soft_delete_all_of soft_delete d p bs (soft_delete b db) out
    ∙ ap (count left) (d.row b db)
    ∙ count-update_out left (has_id b.id) (d.writes b) db.backups (λ x. ground (arith, out b x))
    ∙ count-eq _ _ db.backups (λ x. ground arith)
  where
    left : Backup → Bool
    left x = p x && not (is_among bs x)

-- The completed backups that are left are those that were not deleted.
pub count-soft_delete_all :
    (soft_delete : Backup → Db → Db) (d : IsSoftDelete soft_delete) (s : ℕ) (bs : List Backup)
    (db : Db)
    → count (is_completed_of s) (soft_delete_all soft_delete bs db).backups
      ≡ count (λ x. is_completed_of s x && not (is_among bs x)) db.backups
count-soft_delete_all soft_delete d s bs db =
    count-soft_delete_all_of soft_delete d (is_completed_of s) bs db (d.not_completed s)
