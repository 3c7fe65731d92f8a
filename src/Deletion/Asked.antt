-- ===== src/Deletion/Asked.antt =====
-- What the deletion of a node and the clean-up leave of its backups.
use backupsheep.Prelude.{
  ◌≤◌, ◌<◌, ◌≡◌, refl, sym, ap, ◌∙◌, some, Bool, true, false, not, ◌&&◌, List, [], ◌∷◌, arith,
  count, count_mono, count_and_right, filter, All, Bool-cases, inl, inr, if◌then◌else◌,
}
use mathlib.Core.Path.{subst}
use backupsheep.Model.Status.{BackupStatus}
use backupsheep.Model.Rows.{Backup, Db, has_id, of_task, is_in_flight}
use backupsheep.Node.Holding.{IsSerializedDb}
use backupsheep.Retention.{order_by_created, soft_delete_all}
use backupsheep.SoftDelete.{SoftDeleteEnd, soft_delete}
use backupsheep.SoftDelete.Contract.{Run, CanDelete, deleting, soft_delete-IsSoftDelete}
use backupsheep.Retention.Sorting.{count-order}
use backupsheep.Retention.Deletes.{was_asked, is_among, IsSoftDelete, count-soft_delete_all_of}
use backupsheep.Retention.Expiry.{count-filter, not_among_itself}
use backupsheep.Deletion.{
  Attempt, returned, raised, after_attempt, attempt_each, drop_schedules, node_end,
  is_delete_completed, node_is_delete_requested, not_deleted, empty_node, deleted,
  node_delete_requested, clean_delete_failed_backups,
}

unasked : Backup → Bool
unasked b = not (was_asked b.status)

unasked-not_deleted :
    (s : BackupStatus) → not (was_asked s) ≡ true → not (is_delete_completed s) ≡ true
unfolding was_asked is_delete_completed
unasked-not_deleted BackupStatus.delete_completed h = h
unasked-not_deleted _ h = refl

all_among :
    (xs : List Backup)
    → count (λ x. unasked x && not (is_among (order_by_created (filter not_deleted xs)) x)) xs ≡ 0
unfolding unasked
all_among xs =
    let ys = order_by_created (filter not_deleted xs) in
    let missed : Backup → Bool = λ x. not (is_among ys x) in
    omega (
      arith,
      count_mono (λ x. unasked x && missed x) (λ x. not_deleted x && missed x) xs
          (λ x h. ground (arith, h, unasked-not_deleted x.status)),
      count-filter not_deleted missed xs,
      count-order missed (filter not_deleted xs),
      not_among_itself ys,
    )

asked_each :
    (soft_delete : Backup → Db → Db) (d : IsSoftDelete soft_delete) (db : Db)
    → count unasked
        (soft_delete_all soft_delete (order_by_created (filter not_deleted db.backups)) db).backups
      ≡ 0
unfolding unasked
asked_each soft_delete d db =
    count-soft_delete_all_of soft_delete d unasked
      (order_by_created (filter not_deleted db.backups)) db (λ b x. rw (d.asked b x) refl)
    ∙ all_among db.backups

-- Soft deletes that all return leave what a loop over them leaves.
attempt_each-returned :
    (attempt : Backup → Db → Attempt) (soft_delete : Backup → Db → Db)
    → ((b : Backup) (db : Db) → attempt b db ≡ returned (soft_delete b db))
    → (bs : List Backup) (db : Db)
    → attempt_each attempt bs db ≡ returned (soft_delete_all soft_delete bs db)
unfolding attempt_each after_attempt soft_delete_all
attempt_each-returned attempt soft_delete h [] db = refl
attempt_each-returned attempt soft_delete h (b ∷ bs) db =
    rw (h b db) (attempt_each-returned attempt soft_delete h bs (soft_delete b db))

count_zero-All :
    (p : Backup → Bool) (xs : List Backup)
    → count (λ x. not (p x)) xs ≡ 0
    → All (λ x. p x ≡ true) xs
unfolding count
count_zero-All p [] h = tt
count_zero-All p (x ∷ xs) h = elim (Bool-cases (p x)) [
  | inl e ↦ (e, count_zero-All p xs (ground (arith, e, h)))
  | inr e ↦ absurd (ground (arith, e, h))
]

-- `backup.soft_delete()` of a provider, which raises where it gets no client; out of rounds, it does not
-- return.
abbrev pub end_of : Db → SoftDeleteEnd → Attempt
end_of db (SoftDeleteEnd.ended after) = returned after
end_of db SoftDeleteEnd.no_client = raised db
end_of db SoftDeleteEnd.unended = raised db

abbrev pub attempt_of : (Backup → Run) → Backup → Db → Attempt
attempt_of runs b db =
    end_of db (soft_delete (runs b).rounds (runs b).client (runs b).requests b db)

module _ (runs : Backup → Run) (can : (b : Backup) → CanDelete (runs b)) where
  attempt-returned : (b : Backup) (db : Db) → attempt_of runs b db ≡ returned (deleting runs b db)
  attempt-returned b db = ap (end_of db) ((soft_delete-IsSoftDelete runs can).0 b db)

  dropped :
      (unscheduled : Bool) (db after : Db)
      → node_end (drop_schedules unscheduled db) ≡ deleted after
      → (after.backups ≡ db.backups) × (after.schedules ≡ [])
  unfolding node_end drop_schedules
  dropped true db after h =
      let same : record db { schedules = [] } ≡ after = cc in
      (ap (λ (x : Db). x.backups) (sym same), ap (λ (x : Db). x.schedules) (sym same))
  dropped false db after h = cc

  emptied :
      (unscheduled : Bool) (db after : Db)
      → node_end (empty_node (attempt_of runs) unscheduled db) ≡ deleted after
      → All (λ b. was_asked b.status ≡ true) after.backups × (after.schedules ≡ [])
  unfolding empty_node after_attempt
  emptied unscheduled db after h =
      let bs = order_by_created (filter not_deleted db.backups) in
      let left = soft_delete_all (deleting runs) bs db in
      let (same, none_left) = dropped unscheduled left after (
        sym (
          ap (λ a. node_end (after_attempt a (drop_schedules unscheduled)))
            (attempt_each-returned (attempt_of runs) (deleting runs) attempt-returned bs db))
        ∙ h) in
      (
        subst (All (λ b. was_asked b.status ≡ true)) (sym same) (
            unfold unasked in
            (count_zero-All (λ b. was_asked b.status) left.backups
              (asked_each (deleting runs) (soft_delete-IsSoftDelete runs can).1 db))),
        none_left,
      )

  -- A node of a provider is deleted only if that was requested, and, where each soft delete gets its
  -- client, its listing ends and the provider's method has a clause for the node (Oracle's has none for
  -- some), not before the deletion of each of its backups was asked for: every row that goes with it is
  -- DELETE_COMPLETED, DELETE_FAILED or DELETE_FAILED_NOT_FOUND then; its schedules are gone.
  pub node_delete_requested-asked :
      (unscheduled : Bool) (db after : Db)
      → node_delete_requested (attempt_of runs) unscheduled db ≡ deleted after
      → (node_is_delete_requested db.node.status ≡ true)
        × All (λ b. was_asked b.status ≡ true) after.backups
        × (after.schedules ≡ [])
  unfolding node_delete_requested
  node_delete_requested-asked unscheduled db after h =
      elim (Bool-cases (node_is_delete_requested db.node.status)) [
        | inl e ↦
            let (asked, none_left) = emptied unscheduled db after (simp e at h) in
            (e, asked, none_left)
        | inr e ↦ let k = simp e at h in cc
      ]

All-kept :
    (P : Backup → Type 0) (b : Bool) (x : Backup) (xs : List Backup)
    → P x
    → All P xs
    → All P (if b then x ∷ xs else xs)
All-kept P true x xs h hs = (h, hs)
All-kept P false x xs h hs = hs

All-filter :
    (P : Backup → Type 0) (q : Backup → Bool) (xs : List Backup) → All P xs → All P (filter q xs)
unfolding filter
All-filter P q [] h = tt
All-filter P q (x ∷ xs) (h, hs) = All-kept P (q x) x (filter q xs) h (All-filter P q xs hs)

count_le-filter : (p q : Backup → Bool) (xs : List Backup) → count p (filter q xs) ≤ count p xs
count_le-filter p q xs = omega (arith, count-filter q p xs, count_and_right q p xs)

-- The clean-up keeps the table of the node serialized.
pub clean_delete_failed_backups-IsSerialized :
    (db : Db) → IsSerializedDb db → IsSerializedDb (clean_delete_failed_backups db)
unfolding clean_delete_failed_backups
clean_delete_failed_backups-IsSerialized db h = record {
  one_in_flight = omega (arith, h.one_in_flight, count_le-filter is_in_flight _ db.backups);
  ids = λ i. omega (arith, h.ids i, count_le-filter (has_id i) _ db.backups);
  tasks = λ t. omega (arith, h.tasks t, count_le-filter (of_task (some t)) _ db.backups);
  fresh = All-filter (λ b. b.id < db.next_backup_id) _ db.backups h.fresh;
}
