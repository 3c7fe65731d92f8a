-- ===== src/Scheduling.antt =====
-- Schedules: `schedule_create`, `schedule_update` and `schedule_delete` of CoreSchedule,
-- apps/console/node/models.py, which keep the periodic task of django-celery-beat that drives a
-- schedule, and `run_scheduled_backup` of apps/_tasks/helper/tasks.py, which it fires.
pub mod Driven
use backupsheep.Prelude.{
  ℕ, suc, ◌+◌, Bool, true, false, not, ◌&&◌, List, [], ◌∷◌, ◌++◌, Option, none, some, ◌==◌, ◌==?◌,
  filter, find?, update, if◌then◌else◌,
}
use backupsheep.Prelude.Text.{codes}
use backupsheep.Model.Status.{ScheduleStatus, schedule_is_active}
use backupsheep.Model.Rows.{Text}

-- CoreSchedule.Type, and any other text of the column
pub data ScheduleType : Type 0 where
  cron rate onetime other : ScheduleType

-- CoreSchedule: what the scheduler reads of it
pub record Timer : Type 0 where
  pub id : ℕ
  pub status : ScheduleStatus
  pub type : ScheduleType
  pub minute : Option Text
  pub hour : Option Text
  pub day_of_week : Option Text
  pub day_of_month : Option Text
  pub month_of_year : Option Text
  pub timezone : Option Text
  pub rate_value : Option ℕ
  pub rate_unit : Option Text
  pub at_datetime : Option ℕ
  pub celery_periodic_task : Option ℕ
  pub storage_ids : List ℕ

pub record Crontab : Type 0 where
  pub minute : Text
  pub hour : Text
  pub day_of_week : Text
  pub day_of_month : Text
  pub month_of_year : Text
  pub timezone : Text

-- The row of CrontabSchedule, IntervalSchedule or ClockedSchedule that is asked for
pub data Timing : Type 0 where
  crontab : Crontab → Timing
  interval : Option ℕ → Option Text → Timing
  clocked : Option ℕ → Timing

-- PeriodicTask of `run_scheduled_backup`, whose argument is the id of the schedule
pub record PeriodicTask : Type 0 where
  pub id : ℕ
  pub timing : Timing
  pub enabled : Bool
  pub one_off : Bool
  pub schedule_id : ℕ

pub record Beat : Type 0 where
  pub timers : List Timer
  pub tasks : List PeriodicTask
  pub next_task_id : ℕ

-- `value or default`
unfoldable pub or_default : Text → Option Text → Text
or_default d none = d
or_default d (some []) = d
or_default d (some (c ∷ cs)) = c ∷ cs

unfoldable pub periodic_schedule : Timer → Option Timing
unfolding or_default
periodic_schedule t = elim t.type [
  | ScheduleType.cron ↦ some (
      crontab (record {
        minute = or_default (codes "*") t.minute;
        hour = or_default (codes "*") t.hour;
        day_of_week = or_default (codes "*") t.day_of_week;
        day_of_month = or_default (codes "*") t.day_of_month;
        month_of_year = or_default (codes "*") t.month_of_year;
        timezone = or_default (codes "UTC") t.timezone;
      }))
  | ScheduleType.rate ↦ some (interval t.rate_value t.rate_unit)
  | ScheduleType.onetime ↦ some (clocked t.at_datetime)
  | ScheduleType.other ↦ none
]

unfoldable pub is_onetime : ScheduleType → Bool
is_onetime ScheduleType.onetime = true
is_onetime _ = false

abbrev pub timer_id : ℕ → Timer → Bool
timer_id i t = t.id == i

abbrev pub task_id : ℕ → PeriodicTask → Bool
task_id i p = p.id == i

-- The columns of the periodic task that the schedule determines
unfoldable pub drive : Timer → Timing → PeriodicTask → PeriodicTask
unfolding is_onetime
drive t timing p = record p {
  timing = timing;
  enabled = schedule_is_active t.status;
  one_off = is_onetime t.type;
  schedule_id = t.id;
}

-- `PeriodicTask.objects.create(…)`, and the schedule's reference to it
unfoldable pub create_task : Timer → Timing → Beat → Beat
unfolding is_onetime
create_task t timing beat = record {
  timers =
      update (timer_id t.id) (λ s. record s { celery_periodic_task = some beat.next_task_id })
        beat.timers;
  tasks =
      beat.tasks
      ++ (record {
        id = beat.next_task_id;
        timing = timing;
        enabled = schedule_is_active t.status;
        one_off = is_onetime t.type;
        schedule_id = t.id;
      })
        ∷ [];
  next_task_id = beat.next_task_id + 1;
}

-- `if not field: return`; `get_or_create` of the row raises unless `stores` says that it does not, and
-- `none` is its exception.
unfoldable pub with_timing :
    (Timing → Bool) → Option Timing → (Timing → Beat → Beat) → Beat → Option Beat
with_timing stores none k beat = some beat
with_timing stores (some timing) k beat = if stores timing then some (k timing beat) else none

unfoldable pub schedule_create : (Timing → Bool) → Timer → Beat → Option Beat
unfolding with_timing create_task periodic_schedule
schedule_create stores t beat = with_timing stores (periodic_schedule t) (create_task t) beat

unfoldable pub update_task : Timer → ℕ → Timing → Beat → Beat
unfolding drive
update_task t p timing beat = record beat { tasks = update (task_id p) (drive t timing) beat.tasks }

unfoldable pub schedule_update : (Timing → Bool) → Timer → Beat → Option Beat
unfolding schedule_create with_timing update_task periodic_schedule
schedule_update stores t beat = elim t.celery_periodic_task [
  | none ↦ schedule_create stores t beat
  | some p ↦ with_timing stores (periodic_schedule t) (update_task t p) beat
]

-- The deleted row is referred to no more: the foreign key is SET_NULL.
forget : ℕ → Timer → Timer
forget p t = record t {
  celery_periodic_task = if t.celery_periodic_task ==? some p then none else t.celery_periodic_task;
}

unfoldable pub schedule_delete : Timer → Beat → Beat
unfolding forget
schedule_delete t beat = elim t.celery_periodic_task [
  | none ↦ beat
  | some p ↦ record beat {
    timers = update (λ s. true) (forget p) beat.timers;
    tasks = filter (λ x. not (task_id p x)) beat.tasks;
  }
]

-- What `run_scheduled_backup` does: a row of CoreScheduleRun, and the backup task for the schedule.
pub record Fired : Type 0 where
  pub run_of : ℕ
  pub schedule_id : ℕ
  pub storage_ids : List ℕ

fired : Option Timer → Option Fired
fired none = none
fired (some t) = some (record { run_of = t.id; schedule_id = t.id; storage_ids = t.storage_ids })

-- Nothing for a schedule that does not exist or is not ACTIVE
unfoldable pub run_scheduled_backup : ℕ → Beat → Option Fired
unfolding fired
run_scheduled_backup i beat =
    fired (find? (λ t. timer_id i t && schedule_is_active t.status) beat.timers)
