-- ===== src/Node/Guard.antt =====
-- The duplicate-backup guard of `backup_initiate`: what it admits, what it refuses, and what it
-- leaves of the table.
use backupsheep.Prelude.{
  Bool, ℕ, ◌+◌, ◌<◌, ◌≡◌, refl, Bool, true, false, not, ◌&&◌, [], ◌∷◌, ◌++◌, Option, none, some,
  arith, count, count-append, count_and_left, count-of-find_none, find?, All-append, All-mono,
}
use backupsheep.Model.Status.{in_active_statuses}
use backupsheep.Model.Rows.{Text, Backup, Db, has_id, of_task, is_in_flight}
use backupsheep.Node.{
  Outside, Request, Initiated, fill, fill_new, fill_row, schedule_name, create_if_missing,
  new_backup, insert_backup, unless_active, active_backup, begin_backup,
}
use backupsheep.Node.Rows.{IsSerialized, KeepsKeys, fresh-count}
use backupsheep.Node.Holding.{
  IsSerializedDb, own_row_alone, none_in_flight, Holds, IsFree, start-Holds, own_row,
}

-- With no other task in flight, whatever is in flight belongs to the task.
others-none :
    (t : ℕ) (db : Db)
    → active_backup t db ≡ none
    → count (λ b. is_in_flight b && not (of_task (some t) b)) db.backups ≡ 0
unfolding active_backup
others-none t db h = count-of-find_none _ db.backups h

-- A row with the next id, that is not in flight and whose task has no row yet, may be added.
add-IsSerialized :
    (t : ℕ) (db : Db) (b : Backup)
    → IsSerializedDb db
    → b.id ≡ db.next_backup_id
    → b.celery_task_id ≡ some t
    → is_in_flight b ≡ false
    → find? (of_task (some t)) db.backups ≡ none
    → IsSerialized (db.backups ++ b ∷ []) (db.next_backup_id + 1)
unfolding count
add-IsSerialized t db b h id task still missing = record {
  one_in_flight =
      rw (count-append is_in_flight db.backups (b ∷ [])) (ground (arith, h.one_in_flight));
  ids = λ i.
      rw (count-append (has_id i) db.backups (b ∷ []))
        (ground (arith, h.ids i, fresh-count db.backups db.next_backup_id h.fresh));
  tasks = λ s.
      rw (count-append (of_task (some s)) db.backups (b ∷ []))
        (ground (arith, h.tasks s, count-of-find_none (of_task (some t)) db.backups missing));
  fresh =
      All-append (λ r. r.id < db.next_backup_id + 1) db.backups (b ∷ [])
        (All-mono {κ = λ r. r.id < db.next_backup_id} db.backups (λ r l. omega arith) h.fresh)
        (omega arith, tt);
}

-- What `backup_initiate` leaves: a serialized table, and the started backup held by the task.
abbrev pub IsGuarded : ℕ → Initiated × Db → Type 0
IsGuarded t (Initiated.started i, db) = Holds t i db
IsGuarded t (Initiated.blocked, db) = IsSerializedDb db
IsGuarded t (Initiated.raised e, db) = IsFree t db

fill-KeepsKeys : (r : Request) → KeepsKeys (fill r)
unfolding fill
fill-KeepsKeys r = record { id = λ b. refl; task = λ b. refl }

fill_row-IsGuarded :
    (o : Outside) (r : Request) (before db : Db) (b : Backup) (created : Bool)
    → IsFree r.task_id before
    → IsSerializedDb db
    → 0 < count (has_id b.id) db.backups
    → count (λ x. is_in_flight x && not (has_id b.id x)) db.backups ≡ 0
    → count (λ x. has_id b.id x && not (of_task (some r.task_id) x)) db.backups ≡ 0
    → IsGuarded r.task_id (fill_row o r before (db, b, created))
unfolding fill_row in_active_statuses
fill_row-IsGuarded o r before db b true free h present alone own =
    by_name (schedule_name r.schedule_id db.schedules)
  where
    by_name : (name : Option (Option Text)) → IsGuarded r.task_id (fill_new o r before db b name)
    by_name none = free
    by_name (some name) =
        start-Holds r.task_id b.id _ db (record { id = λ x. refl; task = λ x. refl }) (λ x. refl) h
          present alone own
fill_row-IsGuarded o r before db b false free h present alone own =
    start-Holds r.task_id b.id (fill r) db (fill-KeepsKeys r) (λ x. refl) h present alone own

get_or_create-IsGuarded :
    (o : Outside) (r : Request) (db : Db) (found : Option Backup)
    → IsFree r.task_id db
    → find? (of_task (some r.task_id)) db.backups ≡ found
    → IsGuarded r.task_id (fill_row o r db (create_if_missing r.task_id db found))
unfolding create_if_missing count in_active_statuses
get_or_create-IsGuarded o r db (some b) free e =
    fill_row-IsGuarded o r db db b false free h (own_row r.task_id db b h e).0
      (own_row_alone r.task_id db b h free.others e) (own_row r.task_id db b h e).1
  where
    h : IsSerializedDb db
    h = free.serialized
get_or_create-IsGuarded o r db none free e =
    fill_row-IsGuarded o r db (insert_backup new db) new true free
      (add-IsSerialized r.task_id db new free.serialized refl refl refl e) present alone own
  where
    new : Backup
    new = new_backup r.task_id db

    present : 0 < count (has_id new.id) (db.backups ++ new ∷ [])
    present = rw (count-append (has_id new.id) db.backups (new ∷ [])) (ground arith)

    alone : count (λ b. is_in_flight b && not (has_id new.id b)) (db.backups ++ new ∷ []) ≡ 0
    alone = rw (count-append (λ b. is_in_flight b && not (has_id new.id b)) db.backups (new ∷ [])) (
        ground (
          arith,
          none_in_flight r.task_id db free.others e,
          count_and_left is_in_flight (λ b. not (has_id new.id b)) db.backups,
        ))

    own :
        count (λ b. has_id new.id b && not (of_task (some r.task_id) b)) (db.backups ++ new ∷ [])
        ≡ 0
    own =
        rw
          (count-append (λ b. has_id new.id b && not (of_task (some r.task_id) b)) db.backups
            (new ∷ []))
          (ground (
            arith,
            fresh-count db.backups db.next_backup_id free.serialized.fresh,
            count_and_left (has_id new.id) (λ b. not (of_task (some r.task_id) b)) db.backups,
          ))

pub begin_backup-IsGuarded :
    (o : Outside) (r : Request) (db : Db)
    → IsSerializedDb db
    → IsGuarded r.task_id (begin_backup o r db)
unfolding begin_backup
begin_backup-IsGuarded o r db h = by_active (active_backup r.task_id db) refl
  where
    by_active :
        (a : Option Backup)
        → active_backup r.task_id db ≡ a
        → IsGuarded r.task_id (unless_active o r db a)
    by_active (some other) e = h
    by_active none e =
        get_or_create-IsGuarded o r db _
          (record { serialized = h; others = others-none r.task_id db e }) refl
