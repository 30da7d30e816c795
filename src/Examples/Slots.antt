-- ===== src/Examples/Slots.antt =====
-- Ticks of features/schedules.py.
use jarvis.Prelude.{ℕ, ◌+◌, ◌≤◌, true, false, Option, none, some, [], ◌∷◌, Text}
use jarvis.Schedules.{Schedule, ScheduleStore}
use jarvis.Schedules.Once.{calls, ticks, ticks-once}
use jarvis.Examples.Data.{r1, c1}

abbrev hourly : Schedule
hourly = record {
  id = r1;
  cron = some c1;
  at = none;
  tz = [];
  enabled = true;
  skips_missed = false;
  next_fire = some 60;
  last_fired_for = none;
}

abbrev next_hour : Text → Text → ℕ → Option ℕ
next_hour cron tz after = some (after + 60)

abbrev always_fires : Schedule → ℕ → Option (Text × Text)
always_fires s slot = some (r1, c1)

abbrev one_schedule : ScheduleStore
one_schedule = record { schedules = hourly ∷ []; fires = [] }

ticks-once_example :
    calls r1 60
      (ticks next_hour always_fires ((61, 90, 61) ∷ (61, 90, 61) ∷ []) (one_schedule, [])).1
    ≤ 1
ticks-once_example =
    ticks-once next_hour always_fires ((61, 90, 61) ∷ (61, 90, 61) ∷ []) one_schedule r1 60
