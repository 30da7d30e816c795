-- ===== src/Gate.antt =====
-- packages/core/jarvis_core/models/base.py: `EndpointGate`, which bounds the model calls in flight on
-- one endpoint. An `acquire` is an arrival and then, when its condition holds, an admission, or a
-- waiter that gives up; a `release` is made by a call that was admitted.
pub mod Laws
use jarvis.Prelude.{
  ℕ, suc, zero, ◌+◌, ◌-◌, Bool, true, false, not, ◌&&◌, ◌||◌, Option, none, some, List, [], ◌∷◌,
  ltb, if◌then◌else◌,
}

pub data Urgency : Type 0 where
  voice typed background : Urgency

-- `_waiting`, one count for each urgency.
pub record Waiting : Type 0 where
  pub voice : ℕ
  pub typed : ℕ
  pub background : ℕ

pub record EndpointGate : Type 0 where
  pub limit : ℕ
  pub busy : ℕ
  pub waiting : Waiting

unfoldable pub new_gate : ℕ → EndpointGate
new_gate limit = record {
  limit = limit;
  busy = 0;
  waiting = record { voice = 0; typed = 0; background = 0 };
}

unfoldable pub waiting_at : Urgency → Waiting → ℕ
waiting_at Urgency.voice w = w.voice
waiting_at Urgency.typed w = w.typed
waiting_at Urgency.background w = w.background

unfoldable pub set_waiting : Urgency → ℕ → Waiting → Waiting
set_waiting Urgency.voice n w = record w { voice = n }
set_waiting Urgency.typed n w = record w { typed = n }
set_waiting Urgency.background n w = record w { background = n }

-- `any(self._waiting[:urgency])`
unfoldable pub more_urgent_waits : Urgency → Waiting → Bool
more_urgent_waits Urgency.voice w = false
more_urgent_waits Urgency.typed w = ltb 0 w.voice
more_urgent_waits Urgency.background w = ltb 0 w.voice || ltb 0 w.typed

unfoldable pub room : Urgency → ℕ → ℕ
room Urgency.voice limit = limit + 1
room Urgency.typed limit = limit
room Urgency.background limit = limit

unfoldable pub may_go : Urgency → EndpointGate → Bool
unfolding room more_urgent_waits
may_go u g = ltb g.busy (room u g.limit) && not (more_urgent_waits u g.waiting)

-- What happens to a gate.
pub data Act : Type 0 where
  arrive admit give_up : Urgency → Act
  release : Act

unfoldable pub left : Urgency → EndpointGate → EndpointGate
unfolding waiting_at set_waiting
left u g = record g { waiting = set_waiting u (waiting_at u g.waiting - 1) g.waiting }

-- `none` where the act is not possible: nobody waits at that urgency, the condition does not hold,
-- or no call is in flight.
unfoldable pub act : Act → EndpointGate → Option EndpointGate
unfolding may_go left waiting_at set_waiting
act (arrive u) g =
    some (record g { waiting = set_waiting u (suc (waiting_at u g.waiting)) g.waiting })
act (admit u) g =
    if ltb 0 (waiting_at u g.waiting) && may_go u g
    then some (record (left u g) { busy = suc g.busy })
    else none
act (give_up u) g = if ltb 0 (waiting_at u g.waiting) then some (left u g) else none
act release g = if ltb 0 g.busy then some (record g { busy = g.busy - 1 }) else none

unfoldable pub acts : List Act → EndpointGate → Option EndpointGate
unfolding act
acts [] g = some g
acts (a ∷ as') g = elim (act a g) [ none ↦ none | some g' ↦ acts as' g' ]
