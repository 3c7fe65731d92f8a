-- ===== src/Node/Free.antt =====
-- When the duplicate-backup guard lets every task pass, and what it knows of a backup that a task
-- holds.
use backupsheep.Prelude.{
  ℕ, ◌≡◌, ap, Bool, true, not, ◌&&◌, ◌==?◌, Option, none, some, arith, count, find?, count_and_left,
  count-found, count_comm, ==_iff, Bool-cases, Option-cases, inl, inr, count-of-find_none,
  count-found_other, find_some,
}
use backupsheep.Model.Rows.{Backup, Db, has_id, of_task, is_in_flight}
use backupsheep.Node.{active_backup}
use backupsheep.Node.Holding.{Holds}
use backupsheep.Node.Rows.{alone_in_flight}

-- With nothing in flight no task is blocked.
pub active_backup-none :
    (u : ℕ) (db : Db) → count is_in_flight db.backups ≡ 0 → active_backup u db ≡ none
unfolding active_backup
active_backup-none u db h = elim (Option-cases (find? blocks db.backups)) [
  | inl e ↦ e
  | inr (b, e) ↦
      let is_blocking = find_some blocks db.backups b e in
      let flies : is_in_flight b ≡ true = ground (arith, is_blocking) in
      absurd (omega (arith, h, count-found_other blocks is_in_flight db.backups b e flies))
]
  where
    blocks : Backup → Bool
    blocks b = is_in_flight b && not (of_task (some u) b)

==?-≡ : (o : Option ℕ) (t : ℕ) → (o ==? some t) ≡ true → o ≡ some t
==?-≡ none t h = cc
==?-≡ (some s) t h = ap some ((==_iff s t).0 h)

-- The backup that a task holds: its row, found by its id, and its task.
pub Holds-row :
    (t i : ℕ) (db : Db)
    → Holds t i db
    → (b : Backup) × ((find? (has_id i) db.backups ≡ some b) × (b.celery_task_id ≡ some t))
Holds-row t i db h = elim (Option-cases (find? (has_id i) db.backups)) [
  | inl e ↦ absurd (
      omega (
        arith,
        h.held,
        count-of-find_none (has_id i) db.backups e,
        count_comm is_in_flight (has_id i) db.backups,
        count_and_left (has_id i) is_in_flight db.backups,
      ))
  | inr (b, e) ↦ elim (Bool-cases (of_task (some t) b)) [
    | inl own ↦ (b, (e, ==?-≡ b.celery_task_id t own))
    | inr other ↦ absurd (
        omega (
          arith,
          h.own,
          count-found (has_id i) (λ x. not (of_task (some t) x)) db.backups b e (rw other),
        ))
  ]
]

-- Nothing else is in flight while a task holds a backup.
pub Holds-alone :
    (t i : ℕ) (db : Db)
    → Holds t i db
    → count (λ b. is_in_flight b && not (has_id i b)) db.backups ≡ 0
Holds-alone t i db h = alone_in_flight (has_id i) h.serialized h.held
