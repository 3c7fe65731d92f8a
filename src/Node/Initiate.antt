-- ===== src/Node/Initiate.antt =====
-- What `backup_initiate` promises to its callers.
use backupsheep.Prelude.{
  ◌≢◌, Option-cases, count_and_left, count_split, count_mono, ℕ, ◌≡◌, refl, Bool, true, false, not,
  ◌&&◌, List, [], ◌∷◌, Option, none, some, arith, map, map-update, ◌∙◌, count-of-find_none, find?,
  Bool-cases, inl, inr,
}
use backupsheep.Model.Rows.{Text, Backup, Db, Storage, has_id, of_task, is_in_flight}
use backupsheep.Node.{
  Outside, Request, Initiated, save_backup, active_backup, get_or_create, begin_backup,
  unless_active, fill, create_if_missing, attach_storage, attach_storages, backup_initiate,
  after_begin, add_storage_point, has_storage_points, requested_storages,
}
use backupsheep.Node.Rows.{KeepsKeys}
use backupsheep.Node.Holding.{IsSerializedDb, Holds, Holds-IsFree, save-Holds_same}
use backupsheep.Node.Guard.{IsGuarded, begin_backup-IsGuarded}

-- A change of the storage points is a change of nothing else.
record KeepsRow (f : Backup → Backup) : Type 0 where
  keys : KeepsKeys f
  status : (b : Backup) → (f b).status ≡ b.status

add_storage_point-KeepsRow : (p : ℕ) (s : Storage) → KeepsRow (add_storage_point p s)
unfolding add_storage_point
add_storage_point-KeepsRow p s = record {
  keys = record { id = λ b. ground arith; task = λ b. ground arith };
  status = λ b. ground arith;
}

attach_storage-Holds :
    (t : ℕ) (valid : Bool) (i : ℕ) (s : Storage) (db : Db)
    → Holds t i db
    → Holds t i (attach_storage valid i s db)
unfolding attach_storage
attach_storage-Holds t true i s db h =
    let k = add_storage_point-KeepsRow db.next_point_id s in
    let h' = save-Holds_same t i (add_storage_point db.next_point_id s) db k.keys k.status h in
    record { serialized = h'.serialized; held = h'.held; own = h'.own }
attach_storage-Holds t false i s db h = record {
  serialized = h.serialized;
  held = h.held;
  own = h.own;
}

attach_storages-Holds :
    (o : Outside) (t i : ℕ) (storages : List Storage) (db : Db)
    → Holds t i db
    → Holds t i (attach_storages o i storages db)
unfolding attach_storages
attach_storages-Holds o t i [] db h = h
attach_storages-Holds o t i (s ∷ rest) db h =
    attach_storages-Holds o t i rest _ (attach_storage-Holds t (o.storage_validates s.id) i s db h)

-- Whatever the task, its retries and the storages, a table with at most one backup in flight has at
-- most one after `backup_initiate`; where a backup is started, it is the one, and it is the task's.
pub backup_initiate-IsGuarded :
    (o : Outside) (r : Request) (db : Db)
    → IsSerializedDb db
    → IsGuarded r.task_id (backup_initiate o r db)
unfolding backup_initiate
backup_initiate-IsGuarded o r db h = after (begin_backup o r db) (begin_backup-IsGuarded o r db h)
  where
    after :
        (x : Initiated × Db)
        → IsGuarded r.task_id x
        → IsGuarded r.task_id (after_begin o r.storage_ids x)
    after (Initiated.started i, d) g = elim (Bool-cases (has_storage_points d.node.type)) [
      | inl e ↦ rw e (attach_storages-Holds o r.task_id i (requested_storages r.storage_ids d) d g)
      | inr e ↦ rw e g
    ]
    after (Initiated.blocked, d) g = g
    after (Initiated.raised x, d) g = g

backup_initiate_blocked :
    (o : Outside) (r : Request) (db : Db) (other : Backup)
    → active_backup r.task_id db ≡ some other
    → backup_initiate o r db ≡ (Initiated.blocked, db)
unfolding backup_initiate begin_backup
backup_initiate_blocked o r db other e = rw (e, unless_active, after_begin)

-- The backup that a task holds is seen by the guard of every other task.
other_active :
    (t u i : ℕ) (db : Db) → Holds t i db → u ≢ t → (b : Backup) × (active_backup u db ≡ some b)
unfolding active_backup
other_active t u i db h ne = elim (Option-cases (active_backup u db)) [
  | inr (b, e) ↦ (b, e)
  | inl e ↦ absurd (
      omega (
        arith,
        h.held,
        (Holds-IsFree h).others,
        count_and_left is_in_flight (has_id i) db.backups,
        count_split is_in_flight (of_task (some t)) db.backups,
        count-of-find_none (λ b. is_in_flight b && not (of_task (some u) b)) db.backups e,
        count_mono (λ b. is_in_flight b && of_task (some t) b)
            (λ b. is_in_flight b && not (of_task (some u) b)) db.backups (λ b k. ground arith),
      ))
]

-- While a task holds a backup, `backup_initiate` of any other task does nothing: no row, no storage
-- point and no message is written.
pub backup_initiate_held :
    (o : Outside) (r : Request) (t i : ℕ) (db : Db)
    → Holds t i db
    → r.task_id ≢ t
    → backup_initiate o r db ≡ (Initiated.blocked, db)
backup_initiate_held o r t i db h ne =
    let (b, e) = other_active t r.task_id i db h ne in backup_initiate_blocked o r db b e

uuids : Db → List (Option Text)
uuids db = map (λ b. b.uuid) db.backups

save-uuids :
    (i : ℕ) (f : Backup → Backup) (db : Db)
    → ((b : Backup) → (f b).uuid ≡ b.uuid)
    → uuids (save_backup i f db) ≡ uuids db
unfolding uuids save_backup
save-uuids i f db h = map-update (λ b. b.uuid) (has_id i) f db.backups h

attach_storage-uuids :
    (valid : Bool) (i : ℕ) (s : Storage) (db : Db) → uuids (attach_storage valid i s db) ≡ uuids db
unfolding attach_storage uuids save_backup
attach_storage-uuids true i s db =
    map-update (λ b. b.uuid) (has_id i) (add_storage_point db.next_point_id s) db.backups
      (unfold add_storage_point in λ b. ground arith)
attach_storage-uuids false i s db = refl

attach_storages-uuids :
    (o : Outside) (i : ℕ) (storages : List Storage) (db : Db)
    → uuids (attach_storages o i storages db) ≡ uuids db
unfolding attach_storages
attach_storages-uuids o i [] db = refl
attach_storages-uuids o i (s ∷ rest) db =
    attach_storages-uuids o i rest _ ∙ attach_storage-uuids (o.storage_validates s.id) i s db

after_begin-uuids :
    (o : Outside) (ids : List ℕ) (i : ℕ) (db : Db)
    → uuids (after_begin o ids (Initiated.started i, db)).1 ≡ uuids db
unfolding after_begin
after_begin-uuids o ids i db =
    ground (arith, attach_storages-uuids o i (requested_storages ids db) db)

begin_backup_retry :
    (o : Outside) (r : Request) (db : Db) (b : Backup)
    → active_backup r.task_id db ≡ none
    → find? (of_task (some r.task_id)) db.backups ≡ some b
    → begin_backup o r db ≡ (Initiated.started b.id, save_backup b.id (fill r) db)
unfolding begin_backup get_or_create
begin_backup_retry o r db b free found = rw (free, unless_active, found, create_if_missing)

-- Of a node without storage points the retry writes its own row and no more.
pub backup_initiate_retry_cloud :
    (o : Outside) (r : Request) (db : Db) (b : Backup)
    → active_backup r.task_id db ≡ none
    → find? (of_task (some r.task_id)) db.backups ≡ some b
    → has_storage_points db.node.type ≡ false
    → backup_initiate o r db ≡ (Initiated.started b.id, save_backup b.id (fill r) db)
unfolding backup_initiate save_backup
backup_initiate_retry_cloud o r db b free found none_needed =
    rw (begin_backup_retry o r db b free found, after_begin) (unfold save_backup in rw none_needed)

-- A retry of a task, while no other task has a backup in flight, goes on with the backup that the
-- task already has: no row is added, and no row changes its name.
pub backup_initiate_retry :
    (o : Outside) (r : Request) (db : Db) (b : Backup)
    → active_backup r.task_id db ≡ none
    → find? (of_task (some r.task_id)) db.backups ≡ some b
    → ((backup_initiate o r db).0 ≡ Initiated.started b.id)
      × (map (λ x. x.uuid) (backup_initiate o r db).1.backups ≡ map (λ x. x.uuid) db.backups)
unfolding backup_initiate
backup_initiate_retry o r db b free found = rw started (
  refl,
  unfold uuids fill in
      (after_begin-uuids o r.storage_ids b.id _ ∙ save-uuids b.id (fill r) db (λ x. refl)),
)
  where
    started : begin_backup o r db ≡ (Initiated.started b.id, save_backup b.id (fill r) db)
    started = begin_backup_retry o r db b free found
