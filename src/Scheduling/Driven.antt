-- ===== src/Scheduling/Driven.antt =====
-- The periodic task of a schedule, for schedule_update, schedule_delete and run_scheduled_backup.
use backupsheep.Prelude.{
  ℕ, ◌≤◌, ◌≡◌, refl, Bool, true, false, not, ◌&&◌, List, [], ◌∷◌, ◌++◌, Option, none, some, ◌==?◌,
  filter, find?, update, count, if◌then◌else◌, find-update, arith, Bool-cases, inl, inr, ==_iff,
}
use mathlib.Core.Path.{subst}
use backupsheep.Prelude.Text.{codes}
use backupsheep.Model.Rows.{Text}
use backupsheep.Model.Status.{schedule_is_active}
use backupsheep.Scheduling.{
  ScheduleType, Timer, Timing, crontab, interval, clocked, or_default, with_timing, PeriodicTask,
  Beat, periodic_schedule, is_onetime, timer_id, task_id, drive, create_task, schedule_create,
  update_task, schedule_update, forget, schedule_delete, fired, run_scheduled_backup,
}

-- The text of a column, or what stands for an empty one
abbrev pub filled : Text → Option Text → Text
filled d none = d
filled d (some []) = d
filled d (some (c ∷ cs)) = c ∷ cs

-- The row has the times that the columns of the schedule name.
abbrev pub IsAtTimes : Timer → Timing → Type 0
IsAtTimes t (crontab c) =
    (t.type ≡ ScheduleType.cron)
    × (c.minute ≡ filled (codes "*") t.minute)
    × (c.hour ≡ filled (codes "*") t.hour)
    × (c.day_of_week ≡ filled (codes "*") t.day_of_week)
    × (c.day_of_month ≡ filled (codes "*") t.day_of_month)
    × (c.month_of_year ≡ filled (codes "*") t.month_of_year)
    × (c.timezone ≡ filled (codes "UTC") t.timezone)
IsAtTimes t (interval every period) =
    (t.type ≡ ScheduleType.rate) × (every ≡ t.rate_value) × (period ≡ t.rate_unit)
IsAtTimes t (clocked at) = (t.type ≡ ScheduleType.onetime) × (at ≡ t.at_datetime)

-- The periodic task of this id is there, and does what the schedule says.
pub record IsDriven (t : Timer) (p : ℕ) (beat : Beat) : Type 0 where
  pub task : PeriodicTask
  pub found : find? (task_id p) beat.tasks ≡ some task
  pub at_times : IsAtTimes t task.timing
  pub enabled : task.enabled ≡ schedule_is_active t.status
  pub once : task.one_off ≡ is_onetime t.type
  pub fires : task.schedule_id ≡ t.id

-- The id of the task that the schedule has, or is given
abbrev pub task_of : Timer → Beat → ℕ
task_of t beat = elim t.celery_periodic_task [ none ↦ beat.next_task_id | some p ↦ p ]

find-append_last :
    (p : PeriodicTask → Bool) (xs : List PeriodicTask) (x : PeriodicTask)
    → find? p xs ≡ none
    → p x ≡ true
    → find? p (xs ++ x ∷ []) ≡ some x
unfolding find?
find-append_last p [] x missing hit = rw hit
find-append_last p (y ∷ ys) x missing hit = elim (Bool-cases (p y)) [
  | inl e ↦ let k = simp e at missing in cc
  | inr e ↦ rw e (find-append_last p ys x (simp e at missing) hit)
]

-- The task that a schedule refers to is there, and the next id is free.
pub record IsConsistent (t : Timer) (beat : Beat) : Type 0 where
  pub free : find? (task_id beat.next_task_id) beat.tasks ≡ none
  pub refers :
      (p : ℕ)
      → t.celery_periodic_task ≡ some p
      → (x : PeriodicTask) × (find? (task_id p) beat.tasks ≡ some x)

abbrev pub is_known : ScheduleType → Bool
is_known ScheduleType.other = false
is_known _ = true

or_default-filled : (d : Text) (o : Option Text) → or_default d o ≡ filled d o
unfolding or_default
or_default-filled d none = refl
or_default-filled d (some []) = refl
or_default-filled d (some (c ∷ cs)) = refl

periodic_schedule-IsAtTimes :
    (t : Timer)
    → is_known t.type ≡ true
    → (timing : Timing) × (periodic_schedule t ≡ some timing) × IsAtTimes t timing
unfolding periodic_schedule
periodic_schedule-IsAtTimes t known = go t.type refl known
  where
    go :
        (k : ScheduleType)
        → t.type ≡ k
        → is_known k ≡ true
        → (timing : Timing) × (periodic_schedule t ≡ some timing) × IsAtTimes t timing
    go ScheduleType.cron e h = (
      crontab (record {
        minute = or_default (codes "*") t.minute;
        hour = or_default (codes "*") t.hour;
        day_of_week = or_default (codes "*") t.day_of_week;
        day_of_month = or_default (codes "*") t.day_of_month;
        month_of_year = or_default (codes "*") t.month_of_year;
        timezone = or_default (codes "UTC") t.timezone;
      }),
      rw e refl,
      (
        e,
        or_default-filled _ t.minute,
        or_default-filled _ t.hour,
        or_default-filled _ t.day_of_week,
        or_default-filled _ t.day_of_month,
        or_default-filled _ t.month_of_year,
        or_default-filled _ t.timezone,
      ),
    )
    go ScheduleType.rate e h = (interval t.rate_value t.rate_unit, rw e refl, (e, refl, refl))
    go ScheduleType.onetime e h = (clocked t.at_datetime, rw e refl, (e, refl))
    go ScheduleType.other e h = cc

-- Saving a schedule whose type is known, and whose times `get_or_create` takes, returns and keeps its
-- periodic task in step: the task is there, made now if need be, has the times that the columns of the
-- schedule name (a star or UTC for an empty one), is enabled exactly when the schedule is ACTIVE, is
-- one-off exactly when it is one-time, and fires this schedule.
pub schedule_update-IsDriven :
    (stores : Timing → Bool) (t : Timer) (beat : Beat)
    → is_known t.type ≡ true
    → ((timing : Timing) → IsAtTimes t timing → stores timing ≡ true)
    → IsConsistent t beat
    → (after : Beat) × (schedule_update stores t beat ≡ some after)
      × IsDriven t (task_of t beat) after
unfolding schedule_update schedule_create create_task update_task drive with_timing
schedule_update-IsDriven stores t beat known fits c =
    let (timing, same, times) = periodic_schedule-IsAtTimes t known in
    go timing same times (fits timing times) t.celery_periodic_task refl
  where
    go :
        (timing : Timing)
        → periodic_schedule t ≡ some timing
        → IsAtTimes t timing
        → stores timing ≡ true
        → (o : Option ℕ) → t.celery_periodic_task ≡ o
        → (after : Beat) × (elim o [
          | none ↦ schedule_create stores t beat
          | some p ↦ with_timing stores (periodic_schedule t) (update_task t p) beat
        ]
            ≡ some after)
          × IsDriven t (elim o [ none ↦ beat.next_task_id | some p ↦ p ]) after
    go timing same times fit none e = (
      create_task t timing beat,
      rw (same, fit) refl,
      record {
        task = _;
        found =
            find-append_last (task_id beat.next_task_id) beat.tasks _ c.free
              ((==_iff beat.next_task_id beat.next_task_id).1 refl);
        at_times = times;
        enabled = refl;
        once = refl;
        fires = refl;
      },
    )
    go timing same times fit (some p) e =
        let (x, found) = c.refers p e in
        (
          update_task t p timing beat,
          rw (same, fit) refl,
          record {
            task = drive t timing x;
            found = find-update (task_id p) (drive t timing) beat.tasks x (λ y. refl) found;
            at_times = times;
            enabled = refl;
            once = refl;
            fires = refl;
          },
        )

find-filter_out :
    (p : PeriodicTask → Bool) (xs : List PeriodicTask) → find? p (filter (λ x. not (p x)) xs) ≡ none
unfolding find? filter
find-filter_out p [] = refl
find-filter_out p (x ∷ xs) = ground (arith, find-filter_out p xs)

count-forget :
    (p : ℕ) (ts : List Timer)
    → count (λ s. s.celery_periodic_task ==? some p) (update (λ s. true) (forget p) ts) ≡ 0
unfolding count update forget
count-forget p [] = refl
count-forget p (t ∷ ts) = ground (arith, count-forget p ts)

-- After `schedule_delete` the periodic task of the schedule is gone, and no schedule refers to it.
pub schedule_delete-gone :
    (t : Timer) (p : ℕ) (beat : Beat)
    → t.celery_periodic_task ≡ some p
    → (find? (task_id p) (schedule_delete t beat).tasks ≡ none)
      × (count (λ s. s.celery_periodic_task ==? some p) (schedule_delete t beat).timers ≡ 0)
unfolding schedule_delete
schedule_delete-gone t p beat e =
    rw e (find-filter_out (task_id p) beat.tasks, count-forget p beat.timers)

find-none :
    (p q : Timer → Bool) (xs : List Timer) → count p xs ≡ 0 → find? (λ y. p y && q y) xs ≡ none
unfolding find? count
find-none p q [] h = refl
find-none p q (y ∷ ys) h = ground (arith, h, find-none p q ys)

find-one :
    (p q : Timer → Bool) (xs : List Timer) (x : Timer)
    → find? p xs ≡ some x
    → count p xs ≤ 1
    → find? (λ y. p y && q y) xs ≡ (if q x then some x else none)
unfolding find? count
find-one p q [] x found few = cc
find-one p q (y ∷ ys) x found few = elim (Bool-cases (p y)) [
  | inr e ↦ rw e (find-one p q ys x (simp e at found) (ground (arith, e, few)))
  | inl e ↦
      let same : y ≡ x = ground (arith, simp e at found) in
      let rest : find? (λ z. p z && q z) ys ≡ none = find-none p q ys (ground (arith, e, few)) in
      subst
        (λ z.
          (if p y && q y then some y else find? (λ z. p z && q z) ys)
          ≡ (if q z then some z else none))
        same (rw e (rw rest refl))
]

-- A fired periodic task starts the backup of its schedule with the schedule's storages when the
-- schedule is ACTIVE, and does nothing otherwise.
pub run_scheduled_backup-active :
    (i : ℕ) (beat : Beat) (t : Timer)
    → find? (timer_id i) beat.timers ≡ some t
    → count (timer_id i) beat.timers ≤ 1
    → run_scheduled_backup i beat ≡ (
        if schedule_is_active t.status
        then some (record { run_of = t.id; schedule_id = t.id; storage_ids = t.storage_ids })
        else none)
unfolding run_scheduled_backup fired
run_scheduled_backup-active i beat t found few =
    rw (find-one (timer_id i) (λ s. schedule_is_active s.status) beat.timers t found few)
      (elim (Bool-cases (schedule_is_active t.status)) [ inl e ↦ rw e refl | inr e ↦ rw e refl ])
