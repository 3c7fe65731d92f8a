-- ===== src/Node/Rows.antt =====
-- What the operations of CoreNode keep of the table of backups: ids and task ids are distinct, and
-- at most one backup is in flight.
use backupsheep.Prelude.{
  ℕ, ◌≤◌, ◌<◌, ◌≡◌, refl, Bool, true, false, not, ◌&&◌, List, some, arith, count, update, All,
  count_and_left, count-All_none, count_split, count-update_into, count-update_out,
  count-update_same, All-update,
}
use backupsheep.Model.Status.{BackupStatus}
use backupsheep.Model.Rows.{Backup, has_id, of_task, is_in_flight, set_status}

-- The table of one node as the duplicate-backup guard wants it.
pub record IsSerialized (backups : List Backup) (next_id : ℕ) : Type 0 where
  pub one_in_flight : count is_in_flight backups ≤ 1
  pub ids : (i : ℕ) → count (has_id i) backups ≤ 1
  pub tasks : (t : ℕ) → count (of_task (some t)) backups ≤ 1
  pub fresh : All (λ b. b.id < next_id) backups

-- A change that keeps the columns by which a row is found.
pub record KeepsKeys (f : Backup → Backup) : Type 0 where
  pub id : (b : Backup) → (f b).id ≡ b.id
  pub task : (b : Backup) → (f b).celery_task_id ≡ b.celery_task_id

pub set_status-KeepsKeys : (s : BackupStatus) → KeepsKeys (set_status s)
set_status-KeepsKeys s = record { id = λ b. refl; task = λ b. refl }

module _ {backups : List Backup} {n : ℕ} (f : Backup → Backup) (keys : KeepsKeys f)
    (p : Backup → Bool) (h : IsSerialized backups n) where
  update-ids : (i : ℕ) → count (has_id i) (update p f backups) ≤ 1
  update-ids i =
      omega (arith, h.ids i, count-update_same (has_id i) p f backups (λ b. rw (keys.id b)))

  update-tasks : (t : ℕ) → count (of_task (some t)) (update p f backups) ≤ 1
  update-tasks t =
      omega
        (arith, h.tasks t, count-update_same (of_task (some t)) p f backups (λ b. rw (keys.task b)))

  update-fresh : All (λ b. b.id < n) (update p f backups)
  update-fresh = All-update p f backups (λ b q. rw (keys.id b) q) h.fresh

  -- A row that leaves the flight.
  pub update-IsSerialized_done :
      ((b : Backup) → is_in_flight (f b) ≡ false) → IsSerialized (update p f backups) n
  update-IsSerialized_done done = record {
    one_in_flight = omega (
      arith,
      h.one_in_flight,
      count-update_out is_in_flight p f backups done,
      count_and_left is_in_flight (λ b. not (p b)) backups,
    );
    ids = update-ids;
    tasks = update-tasks;
    fresh = update-fresh;
  }

  -- A change that does not touch the status.
  pub update-IsSerialized_same :
      ((b : Backup) → is_in_flight (f b) ≡ is_in_flight b) → IsSerialized (update p f backups) n
  update-IsSerialized_same same = record {
    one_in_flight = omega (arith, h.one_in_flight, count-update_same is_in_flight p f backups same);
    ids = update-ids;
    tasks = update-tasks;
    fresh = update-fresh;
  }

  -- Rows that enter the flight, where no other row is in it.
  pub update-IsSerialized_into :
      ((b : Backup) → is_in_flight (f b) ≡ true)
      → count p backups ≤ 1
      → count (λ b. is_in_flight b && not (p b)) backups ≡ 0
      → IsSerialized (update p f backups) n
  update-IsSerialized_into into few alone = record {
    one_in_flight = omega (arith, few, alone, count-update_into is_in_flight p f backups into);
    ids = update-ids;
    tasks = update-tasks;
    fresh = update-fresh;
  }

-- A row in flight is the only one.
pub alone_in_flight :
    {backups : List Backup} {n : ℕ} (p : Backup → Bool)
    → IsSerialized backups n
    → 0 < count (λ b. is_in_flight b && p b) backups
    → count (λ b. is_in_flight b && not (p b)) backups ≡ 0
alone_in_flight {backups} p h some_one =
    omega (arith, h.one_in_flight, some_one, count_split is_in_flight p backups)

pub fresh-count :
    (backups : List Backup) (n : ℕ) → All (λ b. b.id < n) backups → count (has_id n) backups ≡ 0
fresh-count backups n fresh =
    count-All_none {κ = λ b. b.id < n} (has_id n) backups (λ b l. ground arith) fresh
