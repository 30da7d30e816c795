-- ===== src/Schedules.antt =====
-- packages/core/jarvis_core/features/schedules.py: the slots of scheduled prompts and the ticks that
-- fire them. The columns that a tick neither reads nor writes are left out; `next_slot` is croniter
-- on an expression in a time zone, and `fire` the call of the engine, none where it raises.
pub mod Once
use jarvis.Prelude.{
  ℕ, ◌+◌, ◌-◌, ◌*◌, max, Bool, true, false, not, ◌&&◌, ◌||◌, Option, none, some, List, [], ◌∷◌,
  ◌++◌, Text, text_eq, ltb, leb, ◌==◌, if◌then◌else◌, any, keep, sort_by, or_else, is_some,
}

pub record Schedule : Type 0 where
  pub id : Text
  pub cron : Option Text
  pub at : Option ℕ
  pub tz : Text
  pub enabled : Bool
  pub skips_missed : Bool
  pub next_fire : Option ℕ
  pub last_fired_for : Option ℕ

-- A row of `schedule_fires`: the run and its conversation once it has fired.
pub record ScheduleFire : Type 0 where
  pub schedule_id : Text
  pub scheduled_for : ℕ
  pub run : Option (Text × Text)

pub record ScheduleStore : Type 0 where
  pub schedules : List Schedule
  pub fires : List ScheduleFire

unfoldable pub is_slot : Text → ℕ → ScheduleFire → Bool
is_slot schedule_id slot f = text_eq f.schedule_id schedule_id && f.scheduled_for == slot

unfoldable pub is_claimed : Text → ℕ → List ScheduleFire → Bool
unfolding is_slot
is_claimed schedule_id slot fires = any (is_slot schedule_id slot) fires

unfoldable pub claim_slot : Text → ℕ → ScheduleStore → Bool × ScheduleStore
unfolding is_claimed
claim_slot schedule_id slot st = if is_claimed schedule_id slot st.fires then (false, st) else (
  true,
  record st {
    fires = st.fires ++ record { schedule_id = schedule_id; scheduled_for = slot; run = none } ∷ [];
  },
)

unfoldable pub set_run : Text → ℕ → Text × Text → List ScheduleFire → List ScheduleFire
unfolding is_slot
set_run schedule_id slot run [] = []
set_run schedule_id slot run (f ∷ fs) =
    (if is_slot schedule_id slot f then record f { run = some run } else f)
    ∷ set_run schedule_id slot run fs

unfoldable pub record_fire : Text → ℕ → Text × Text → ScheduleStore → ScheduleStore
unfolding set_run
record_fire schedule_id slot run st = record st { fires = set_run schedule_id slot run st.fires }

unfoldable pub update_schedule : Text → (Schedule → Schedule) → List Schedule → List Schedule
update_schedule id f [] = []
update_schedule id f (s ∷ ss) = (if text_eq s.id id then f s else s) ∷ update_schedule id f ss

unfoldable pub is_due : ℕ → Schedule → Bool
is_due now s = s.enabled && elim s.next_fire [ none ↦ false | some at ↦ leb at now ]

unfoldable pub due_first : Schedule → Schedule → Bool
due_first a b = leb (or_else a.next_fire 0) (or_else b.next_fire 0)

unfoldable pub due : ℕ → ScheduleStore → List Schedule
unfolding is_due due_first
due now st = sort_by due_first (keep (is_due now) st.schedules)

module _ (next_slot : Text → Text → ℕ → Option ℕ) (fire : Schedule → ℕ → Option (Text × Text)) where
  -- A one-shot is disabled; another schedule gets its next slot after the clock and the slot fired.
  unfoldable pub advance : Schedule → Option ℕ → ℕ → ScheduleStore → ScheduleStore
  unfolding update_schedule
  advance s fired_for clock st =
      let after = max clock (or_else fired_for 0) in
      record st {
        schedules =
            update_schedule s.id
              (λ row.
                if is_some s.at
                then record row {
                  enabled = false;
                  next_fire = none;
                  last_fired_for = if is_some fired_for then fired_for else row.last_fired_for;
                }
                else record row {
                  next_fire = elim s.cron [ none ↦ none | some cron ↦ next_slot cron s.tz after ];
                  last_fired_for = if is_some fired_for then fired_for else row.last_fired_for;
                })
              st.schedules;
      }

  -- The store, and the slots for which the engine was called.
  abbrev pub Ticked : Type 0
  Ticked = ScheduleStore × List (Text × ℕ)

  unfoldable pub fire_slot : Schedule → ℕ → ℕ → Ticked → Ticked
  unfolding record_fire advance
  fire_slot s slot clock (st, called) =
      let st' : ScheduleStore = elim (fire s slot) [
        | none ↦ st
        | some run ↦ record_fire s.id slot run st
      ] in
      (advance s (some slot) clock st', called ++ (s.id, slot) ∷ [])

  -- A due schedule's slot, in one round of the loop of `tick`. `late` is `2 * tick_s + 60`.
  unfoldable pub tick_slot : ℕ → ℕ → ℕ → Schedule → ℕ → ScheduleStore → List (Text × ℕ) → Ticked
  unfolding claim_slot fire_slot advance
  tick_slot now late clock s slot st called =
      if ltb late (now - slot) && s.skips_missed
      then (advance s none clock st, called)
      else (if (claim_slot s.id slot st).0
          then fire_slot s slot clock ((claim_slot s.id slot st).1, called)
          else (advance s (some slot) clock (claim_slot s.id slot st).1, called))

  unfoldable pub tick_one : ℕ → ℕ → ℕ → Schedule → Ticked → Ticked
  unfolding tick_slot
  tick_one now late clock s (st, called) = elim s.next_fire [
    | none ↦ (st, called)
    | some slot ↦ tick_slot now late clock s slot st called
  ]

  unfoldable pub tick_all : ℕ → ℕ → ℕ → List Schedule → Ticked → Ticked
  unfolding tick_one
  tick_all now late clock [] t = t
  tick_all now late clock (s ∷ ss) t = tick_all now late clock ss (tick_one now late clock s t)

  unfoldable pub tick : ℕ → ℕ → ℕ → Ticked → Ticked
  unfolding tick_all due
  tick now late clock t = tick_all now late clock (due now t.0) t
