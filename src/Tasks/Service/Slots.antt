-- ===== src/Tasks/Service/Slots.antt =====
-- No more tasks work at once than the settings allow (`should_hold` of features/tasks.py).
use jarvis.Prelude.{
  ℕ, ◌≤◌, ◌≡◌, refl, Bool, true, false, not, List, [], ◌∷◌, ◌++◌, Text, text_eq, text_eq_refl,
  arith, any, keep, length, length-append, Bool-cases, inl, inr,
}
use jarvis.Prelude.Dicts.{Dict}
use jarvis.Engine.{Engine}
use jarvis.Tasks.Service.{Service, should_hold, is_active, call_open, without}

length-keep : (p : Text → Bool) (ts : List Text) → length (keep p ts) ≤ length ts
unfolding keep
length-keep p [] = omega arith
length-keep p (t ∷ ts) = ground (arith, length-keep p ts)

pub any-last : (t : Text) (ts : List Text) → any (text_eq t) (ts ++ t ∷ []) ≡ true
unfolding any
any-last t [] = rw (text_eq_refl t) refl
any-last t (u ∷ ts) = rw (any-last t ts) (ground arith)

-- What can happen to the slots: a run asks before its next step, parks on an approval, or something else
-- changes what the engine is doing and which calls are open.
pub data SlotStep : Type 0 where
  asks parks : Text → SlotStep
  moves : Engine → Dict ℕ → SlotStep

unfoldable pub slot_step : Service → SlotStep → Service
unfolding should_hold without
slot_step svc (SlotStep.asks run_id) = (should_hold run_id svc).1
slot_step svc (SlotStep.parks run_id) = record svc { slots = without run_id svc.slots }
slot_step svc (SlotStep.moves eng calls) = record svc { engine = eng; calls = calls }

unfoldable pub slot_steps : Service → List SlotStep → Service
unfolding slot_step
slot_steps svc [] = svc
slot_steps svc (s ∷ ss) = slot_steps (slot_step svc s) ss

abbrev pub Fits : Service → Type 0
Fits svc = length svc.slots ≤ svc.settings.max_running

slot_step-Fits : (svc : Service) (s : SlotStep) → Fits svc → Fits (slot_step svc s)
unfolding slot_step should_hold without
slot_step-Fits svc (SlotStep.asks run_id) f = ground (
  arith,
  f,
  length-keep (is_active svc.engine) svc.slots,
  length-append (keep (is_active svc.engine) svc.slots) (run_id ∷ []),
)
slot_step-Fits svc (SlotStep.parks run_id) f =
    omega (arith, f, length-keep (λ u. not (text_eq run_id u)) svc.slots)
slot_step-Fits svc (SlotStep.moves eng calls) f = f

slot_steps-Fits : (svc : Service) (ss : List SlotStep) → Fits svc → Fits (slot_steps svc ss)
unfolding slot_steps
slot_steps-Fits svc [] f = f
slot_steps-Fits svc (s ∷ ss) f = slot_steps-Fits (slot_step svc s) ss (slot_step-Fits svc s f)

held_after :
    (run_id : Text) (svc : Service)
    → (should_hold run_id svc).0 ≡ false
    → (call_open svc ≡ false) × (any (text_eq run_id) (should_hold run_id svc).1.slots ≡ true)
unfolding should_hold
held_after run_id svc h = elim (Bool-cases (call_open svc)) [
  | inl e ↦ ground (arith, h, e)
  | inr e ↦ (e, ground (arith, h, e, any-last run_id (keep (is_active svc.engine) svc.slots)))
]

-- Starting with no task at work, whichever runs ask, park and end in whatever order, a run is let take
-- its next step only while no call is open and only when it holds one of the working slots, and never
-- are more than `max_running` of them taken.
pub should_hold-Fits :
    (svc : Service) (ss : List SlotStep) (run_id : Text)
    → svc.slots ≡ []
    → (should_hold run_id (slot_steps svc ss)).0 ≡ false
    → let asked = (should_hold run_id (slot_steps svc ss)).1 in
      (length asked.slots ≤ asked.settings.max_running)
      × (any (text_eq run_id) asked.slots ≡ true)
      × (call_open (slot_steps svc ss) ≡ false)
unfolding slot_step
should_hold-Fits svc ss run_id e h =
    let before = slot_steps svc ss in
    let f : Fits before = slot_steps-Fits svc ss (rw e (omega arith)) in
    let held = held_after run_id before h in
    (slot_step-Fits before (SlotStep.asks run_id) f, held.1, held.0)
