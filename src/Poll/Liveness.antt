-- ===== src/Poll/Liveness.antt =====
-- The polling of a snapshot and the guard of the node.
use backupsheep.Prelude.{ℕ, suc, ◌*◌, ◌<◌, ◌≡◌, Option, none, some, arith}
use backupsheep.Model.Status.{BackupStatus}
use backupsheep.Model.Rows.{Backup, Db}
use backupsheep.Node.{active_backup}
use backupsheep.Node.Holding.{Holds}
use backupsheep.Node.Free.{active_backup-none, Holds-row, Holds-alone}
use backupsheep.Retention.Deletes.{IsSoftDelete}
use backupsheep.Poll.{poll_until}
use backupsheep.Poll.Landing.{IsPollable, HasEnded, others_in_flight, poll_until-ends}

-- A backup that a task holds can be polled.
Holds-IsPollable : (t i : ℕ) (db : Db) → Holds t i db → IsPollable i db.backups
Holds-IsPollable t i db h =
    let (b, (found, task)) = Holds-row t i db h in
    record {
      backup = b;
      task = t;
      found = found;
      its_task = task;
      one_id = h.serialized.ids i;
      one_task = h.serialized.tasks t;
    }

-- The runs have ended, and the guard lets every task pass.
abbrev pub HasFreed : Option Db → Type 0
HasFreed none = ⊥
HasFreed (some after) = (u : ℕ) → active_backup u after ≡ none

freed : (limit : ℕ) (x : Option Db) → HasEnded limit x → limit ≡ 0 → HasFreed x
freed limit none h z = h
freed limit (some after) h z = λ u. active_backup-none u after (omega (arith, h, z))

-- A snapshot that a task has begun does not block its node for ever: after at most `n + 1` status
-- checks, where `n` waits of `interval` seconds exceed the timeout, the guard lets every task pass,
-- whatever the provider answers, however late the queue is, and whatever retention deletes.
pub poll_until-frees :
    (interval timeout : ℕ) (soft_delete : Backup → Db → Db) (d : IsSoftDelete soft_delete)
    (delay : ℕ → ℕ) (answer : ℕ → Option BackupStatus) (n t i : ℕ) (db : Db)
    → Holds t i db
    → timeout < n * interval
    → HasFreed (poll_until (suc n) soft_delete interval timeout delay answer i none db)
poll_until-frees interval timeout soft_delete d delay answer n t i db h late =
    freed (others_in_flight i db) _
      (poll_until-ends interval timeout soft_delete d delay answer i n db
        (Holds-IsPollable t i db h) late)
      (Holds-alone t i db h)
