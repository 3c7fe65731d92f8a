-- ===== src/Examples/Schedules.antt =====
-- The theorems on schedules, at a paused schedule.
use backupsheep.Prelude.{
  Bool, ◌≤◌, ◌≡◌, refl, true, false, [], ◌∷◌, none, some, find?, count, arith,
}
use backupsheep.Prelude.Text.{codes}
use backupsheep.Model.Status.{ScheduleStatus}
use backupsheep.Scheduling.{
  ScheduleType, Timer, Timing, crontab, interval, clocked, PeriodicTask, Beat, timer_id,
  schedule_update,
}
use backupsheep.Scheduling.Driven.{IsAtTimes, IsDriven, IsConsistent, schedule_update-IsDriven}

-- A schedule for every six hours, paused, whose periodic task is still that of an active one.
abbrev paused : Timer
paused = record {
  id = 2;
  status = ScheduleStatus.paused;
  type = ScheduleType.rate;
  minute = none;
  hour = none;
  day_of_week = none;
  day_of_month = none;
  month_of_year = none;
  timezone = none;
  rate_value = some 6;
  rate_unit = some (codes "hours");
  at_datetime = none;
  celery_periodic_task = some 4;
  storage_ids = 3 ∷ [];
}

abbrev stale : PeriodicTask
stale = record {
  id = 4;
  timing = interval (some 5) (some (codes "hours"));
  enabled = true;
  one_off = false;
  schedule_id = 2;
}

abbrev beat : Beat
beat = record { timers = paused ∷ []; tasks = stale ∷ []; next_task_id = 5 }

-- The columns of the rows are NOT NULL.
abbrev is_not_null : Timing → Bool
is_not_null (crontab c) = true
is_not_null (interval (some n) (some u)) = true
is_not_null (interval _ _) = false
is_not_null (clocked (some d)) = true
is_not_null (clocked none) = false

paused_fits : (timing : Timing) → IsAtTimes paused timing → is_not_null timing ≡ true
paused_fits (crontab c) h = refl
paused_fits (interval (some n) (some u)) h = refl
paused_fits (interval none u) (e, f, g) = cc
paused_fits (interval (some n) none) (e, f, g) = cc
paused_fits (clocked d) (e, f) = cc

-- A schedule for every six units of no time: the exception leaves it without a periodic task.
without_unit : schedule_update is_not_null (record paused { rate_unit = none }) beat ≡ none
unfolding schedule_update
without_unit = refl

paused-IsConsistent : IsConsistent paused beat
unfolding find?
paused-IsConsistent = record {
  free = refl;
  refers = λ p e. let same : 4 ≡ p = ground (arith, e) in (stale, ground (arith, same));
}

schedule_update-IsDriven_example :
    (after : Beat) × (schedule_update is_not_null paused beat ≡ some after)
    × IsDriven paused 4 after
schedule_update-IsDriven_example =
    schedule_update-IsDriven is_not_null paused beat refl paused_fits paused-IsConsistent

paused_found : find? (timer_id 2) beat.timers ≡ some paused
unfolding find?
paused_found = refl

paused_once : count (timer_id 2) beat.timers ≤ 1
unfolding count
paused_once = omega arith
