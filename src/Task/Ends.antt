-- ===== src/Task/Ends.antt =====
-- The handlers of a task and the table of the node.
use backupsheep.Prelude.{ℕ, ◌≡◌, refl, some, count, Bool-cases, inl, inr}
use backupsheep.Model.Status.{in_active_statuses}
use backupsheep.Model.Rows.{Error, Message, Db, is_in_flight}
use backupsheep.Node.{
  Outside, Request, send, backup_timeout_reset, backup_max_retries_reached, activate,
}
use backupsheep.Node.Holding.{IsSerializedDb, IsFree}
use backupsheep.Node.Resets.{
  set_task_status-IsSerialized, set_task_status-landed, backup_retrying_reset-IsFree,
}
use backupsheep.Task.{Body, TaskEnd, max_retries, notify_and_reset, on_error, on_timeout}

-- The end of a task of which the table stays serialized, and which has left nothing in flight where
-- it gives up or has run out of time.
abbrev pub HasLanded : TaskEnd × Db → Type 0
HasLanded (TaskEnd.gave_up, db) = IsSerializedDb db × (count is_in_flight db.backups ≡ 0)
HasLanded (TaskEnd.timed_out, db) = IsSerializedDb db × (count is_in_flight db.backups ≡ 0)
HasLanded (_, db) = IsSerializedDb db

-- What the `try` block leaves to the handlers.
abbrev pub IsHandled : ℕ → Body × Db → Type 0
IsHandled t (Body.raised e backup, db) = IsFree t db
IsHandled t (Body.returned, db) = IsSerializedDb db
IsHandled t (Body.finished, db) = IsSerializedDb db

-- A message leaves the table alone.
pub send-IsFree : (t : ℕ) (m : Message) (db : Db) → IsFree t db → IsFree t (send m db)
send-IsFree t m db h = record { serialized = h.serialized; others = h.others }

pub notify_and_reset-IsFree :
    (r : Request) (e : Error) (db : Db)
    → IsFree r.task_id db
    → IsFree r.task_id (notify_and_reset r e db)
unfolding notify_and_reset
notify_and_reset-IsFree r e db h =
    backup_retrying_reset-IsFree r.task_id _ (send-IsFree r.task_id _ db h)

pub on_error-HasLanded :
    (o : Outside) (r : Request) (e : Error) (db : Db)
    → IsFree r.task_id db
    → HasLanded (on_error o r e db)
unfolding on_error backup_max_retries_reached in_active_statuses
on_error-HasLanded o r e db h = elim (Bool-cases (o.may_retry r.retries max_retries)) [
  | inl again ↦ rw again (reset.serialized)
  | inr last ↦ rw last (
    set_task_status-IsSerialized (some r.task_id) _ _ refl reset.serialized,
    set_task_status-landed r.task_id _ _ refl reset,
  )
]
  where
    reset : IsFree r.task_id (notify_and_reset r e db)
    reset = notify_and_reset-IsFree r e db h

pub on_timeout-HasLanded :
    (r : Request) (e : Error) (db : Db) → IsFree r.task_id db → HasLanded (on_timeout r e db)
unfolding on_timeout backup_timeout_reset in_active_statuses activate
on_timeout-HasLanded r e db h = (
  set_task_status-IsSerialized (some r.task_id) _ _ refl h.serialized,
  set_task_status-landed r.task_id _ _ refl
      (record { serialized = h.serialized; others = h.others }),
)
