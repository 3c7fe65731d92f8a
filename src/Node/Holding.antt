-- ===== src/Node/Holding.antt =====
-- A task and the backup that it holds: what keeps the hold, and what it says of the other rows.
use backupsheep.Prelude.{
  ap, count_comm, count-update_same, ◌∙◌, count_le-update, ℕ, ◌<◌, ◌≡◌, refl, true, not, ◌&&◌, none,
  some, arith, count, count_and_right, count_cover, count-of-find_none, count-found, count_split,
  ==_iff, find?,
}
use backupsheep.Model.Status.{BackupStatus, BackupStatus, in_active_statuses}
use backupsheep.Model.Rows.{Backup, Db, has_id, of_task, is_in_flight, set_status}
use backupsheep.Node.{save_backup}
use backupsheep.Node.Rows.{
  IsSerialized, KeepsKeys, update-IsSerialized_same, update-IsSerialized_into, alone_in_flight,
  set_status-KeepsKeys, update-IsSerialized_same,
}

abbrev pub IsSerializedDb : Db → Type 0
IsSerializedDb db = IsSerialized db.backups db.next_backup_id

-- The row that the task already has is the only one that may be in flight.
pub own_row_alone :
    (t : ℕ) (db : Db) (b : Backup)
    → IsSerializedDb db
    → count (λ r. is_in_flight r && not (of_task (some t) r)) db.backups ≡ 0
    → find? (of_task (some t)) db.backups ≡ some b
    → count (λ r. is_in_flight r && not (has_id b.id r)) db.backups ≡ 0
own_row_alone t db b h others found = omega (
  arith,
  h.tasks t,
  others,
  count_cover is_in_flight (of_task (some t)) (has_id b.id) db.backups,
  count_split (of_task (some t)) (has_id b.id) db.backups,
  count-found (of_task (some t)) (has_id b.id) db.backups b found ((==_iff b.id b.id).1 refl),
)

-- With no row of the task and no other task in flight, nothing is in flight.
pub none_in_flight :
    (t : ℕ) (db : Db)
    → count (λ r. is_in_flight r && not (of_task (some t) r)) db.backups ≡ 0
    → find? (of_task (some t)) db.backups ≡ none
    → count is_in_flight db.backups ≡ 0
none_in_flight t db others missing = omega (
  arith,
  others,
  count-of-find_none (of_task (some t)) db.backups missing,
  count_split is_in_flight (of_task (some t)) db.backups,
  count_and_right is_in_flight (of_task (some t)) db.backups,
)

-- The task `t` holds the backup `i`: it is in flight, and no other row has its id or is in flight.
pub record Holds (t i : ℕ) (db : Db) : Type 0 where
  pub serialized : IsSerializedDb db
  pub held : 0 < count (λ b. is_in_flight b && has_id i b) db.backups
  pub own : count (λ b. has_id i b && not (of_task (some t) b)) db.backups ≡ 0

-- Whatever is in flight belongs to the task.
pub record IsFree (t : ℕ) (db : Db) : Type 0 where
  pub serialized : IsSerializedDb db
  pub others : count (λ b. is_in_flight b && not (of_task (some t) b)) db.backups ≡ 0

pub Holds-IsFree : {t i : ℕ} {db : Db} → Holds t i db → IsFree t db
Holds-IsFree {t} {i} {db} h = record {
  serialized = h.serialized;
  others = omega (
    arith,
    h.own,
    alone_in_flight (has_id i) h.serialized h.held,
    count_cover is_in_flight (has_id i) (of_task (some t)) db.backups,
  );
}

-- A present row of the task enters the flight where no other row is in it.
pub start-Holds :
    (t i : ℕ) (f : Backup → Backup) (db : Db)
    → KeepsKeys f
    → ((b : Backup) → is_in_flight (f b) ≡ true)
    → IsSerializedDb db
    → 0 < count (has_id i) db.backups
    → count (λ b. is_in_flight b && not (has_id i b)) db.backups ≡ 0
    → count (λ b. has_id i b && not (of_task (some t) b)) db.backups ≡ 0
    → Holds t i (save_backup i f db)
unfolding save_backup
start-Holds t i f db keys into h present alone own = record {
  serialized = update-IsSerialized_into f keys (has_id i) h into (h.ids i) alone;
  held = omega (
    arith,
    present,
    count_le-update (has_id i) (λ b. is_in_flight b && has_id i b) f db.backups
        (λ b e. ground (arith, into b, keys.id b)),
  );
  own =
      count-update_same (λ b. has_id i b && not (of_task (some t) b)) (has_id i) f db.backups
        (λ b. rw (keys.id b, keys.task b))
      ∙ own;
}

-- The row that `find?` gives for the task is there, and is the task's.
pub own_row :
    (t : ℕ) (db : Db) (b : Backup)
    → IsSerializedDb db
    → find? (of_task (some t)) db.backups ≡ some b
    → (0 < count (has_id b.id) db.backups)
      × (count (λ x. has_id b.id x && not (of_task (some t) x)) db.backups ≡ 0)
own_row t db b h found = omega (
  arith,
  h.ids b.id,
  count_and_right (of_task (some t)) (has_id b.id) db.backups,
  count_split (has_id b.id) (of_task (some t)) db.backups,
  count_comm (of_task (some t)) (has_id b.id) db.backups,
  count-found (of_task (some t)) (has_id b.id) db.backups b found ((==_iff b.id b.id).1 refl),
)

-- A row of the task that enters the flight, where no other task has one in it.
pub enter-Holds :
    (t : ℕ) (f : Backup → Backup) (db : Db) (b : Backup)
    → KeepsKeys f
    → ((x : Backup) → is_in_flight (f x) ≡ true)
    → IsFree t db
    → find? (of_task (some t)) db.backups ≡ some b
    → Holds t b.id (save_backup b.id f db)
enter-Holds t f db b keys into free found =
    start-Holds t b.id f db keys into free.serialized (own_row t db b free.serialized found).0
      (own_row_alone t db b free.serialized free.others found)
      (own_row t db b free.serialized found).1

-- The holder's backup goes from one status in flight to another.
pub save-Holds_status :
    (t i : ℕ) (s : BackupStatus) (db : Db)
    → in_active_statuses s ≡ true
    → Holds t i db
    → Holds t i (save_backup i (set_status s) db)
save-Holds_status t i s db flying h =
    start-Holds t i (set_status s) db (set_status-KeepsKeys s) (λ b. flying) h.serialized
      (omega (arith, h.held, count_and_right is_in_flight (has_id i) db.backups))
      (alone_in_flight (has_id i) h.serialized h.held) h.own

-- A change of columns that are neither keys nor status.
pub save-Holds_same :
    (t i : ℕ) (f : Backup → Backup) (db : Db)
    → KeepsKeys f
    → ((b : Backup) → (f b).status ≡ b.status)
    → Holds t i db
    → Holds t i (save_backup i f db)
unfolding save_backup
save-Holds_same t i f db keys same h = record {
  serialized =
      update-IsSerialized_same f keys (has_id i) h.serialized (λ b. ap in_active_statuses (same b));
  held =
      rw
        (count-update_same (λ b. is_in_flight b && has_id i b) (has_id i) f db.backups
          (λ b. rw (same b, keys.id b)))
        h.held;
  own =
      count-update_same (λ b. has_id i b && not (of_task (some t) b)) (has_id i) f db.backups
        (λ b. rw (keys.id b, keys.task b))
      ∙ h.own;
}
