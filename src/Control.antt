-- ===== src/Control.antt =====
-- packages/core/jarvis_core/engine/control.py: what the engine and the loop share about one run. The
-- emitter is the run object that it holds, and a future is `none` until it is resolved.
use jarvis.Prelude.{
  ◌≡◌, Bool, true, false, Option, none, some, List, [], ◌∷◌, Text, text_eq_iff, arith,
}
use jarvis.Prelude.Dicts.{Dict, get, put, get-put}
use jarvis.Proto.Runs.{Run}

pub record RunControl : Type 0 where
  pub run : Run
  pub cancel : Bool
  pub confirmations : Dict (Option (Bool × Option Text))
  pub resumed : Bool
  pub steers : List Text
  pub steered_by_other : Bool

unfoldable pub new_control : Run → Bool → RunControl
new_control run resumed = record {
  run = run;
  cancel = false;
  confirmations = [];
  resumed = resumed;
  steers = [];
  steered_by_other = false;
}

unfoldable pub resolve_confirmation : Text → Bool → Option Text → RunControl → Bool × RunControl
resolve_confirmation call_id approved note ctl = elim (get call_id ctl.confirmations) [
  | none ↦ (false, ctl)
  | some (some answer) ↦ (false, ctl)
  | some none ↦
      (true, record ctl { confirmations = put call_id (some (approved, note)) ctl.confirmations })
]

unfoldable pub take_steers : RunControl → List Text × RunControl
take_steers ctl = (ctl.steers, record ctl { steers = [] })

-- An answer to a question: the call it is about, yes or no, and words.
pub record Answer : Type 0 where
  pub call_id : Text
  pub approved : Bool
  pub note : Option Text

unfoldable pub resolve_all : List Answer → RunControl → RunControl
unfolding resolve_confirmation
resolve_all [] ctl = ctl
resolve_all (a ∷ answers) ctl =
    resolve_all answers (resolve_confirmation a.call_id a.approved a.note ctl).1

refused :
    (call_id : Text) (approved : Bool) (words : Option Text) (answer : Bool × Option Text)
    (ctl : RunControl)
    → get call_id ctl.confirmations ≡ some (some answer)
    → resolve_confirmation call_id approved words ctl ≡ (false, ctl)
unfolding resolve_confirmation
refused call_id approved words answer ctl h = ground (arith, h)

resolve_confirmation-keeps :
    (call_id : Text) (a : Answer) (answer : Bool × Option Text) (ctl : RunControl)
    → get call_id ctl.confirmations ≡ some (some answer)
    → get call_id (resolve_confirmation a.call_id a.approved a.note ctl).1.confirmations
      ≡ some (some answer)
unfolding resolve_confirmation
resolve_confirmation-keeps call_id a answer ctl h = ground (
  arith,
  h,
  get-put a.call_id call_id (some (a.approved, a.note)) ctl.confirmations,
  text_eq_iff a.call_id call_id,
)

resolve_all-keeps :
    (call_id : Text) (answers : List Answer) (answer : Bool × Option Text) (ctl : RunControl)
    → get call_id ctl.confirmations ≡ some (some answer)
    → get call_id (resolve_all answers ctl).confirmations ≡ some (some answer)
unfolding resolve_all
resolve_all-keeps call_id [] answer ctl h = h
resolve_all-keeps call_id (a ∷ answers) answer ctl h =
    resolve_all-keeps call_id answers answer
      (resolve_confirmation a.call_id a.approved a.note ctl).1
      (resolve_confirmation-keeps call_id a answer ctl h)

-- On one run's control a question is answered once: an answer that is accepted is recorded, it stays
-- recorded whatever answers follow to this and to other questions, and after any of them another answer
-- to this question is refused and changes nothing. The answer to a run that has parked does not come
-- here.
pub answered_once :
    (call_id : Text) (approved again : Bool) (note note' : Option Text) (answers : List Answer)
    (ctl ctl' : RunControl)
    → resolve_confirmation call_id approved note ctl ≡ (true, ctl')
    → (get call_id (resolve_all answers ctl').confirmations ≡ some (some (approved, note)))
      × (resolve_confirmation call_id again note' (resolve_all answers ctl')
          ≡ (false, resolve_all answers ctl'))
unfolding resolve_confirmation
answered_once call_id approved again note note' answers ctl ctl' h =
    let recorded : get call_id ctl'.confirmations ≡ some (some (approved, note)) = ground (
      arith,
      h,
      get-put call_id call_id (some (approved, note)) ctl.confirmations,
      text_eq_iff call_id call_id,
    ) in
    let kept = resolve_all-keeps call_id answers (approved, note) ctl' recorded in
    (kept, refused call_id again note' (approved, note) (resolve_all answers ctl') kept)
