-- ===== src/Gate/Laws.antt =====
-- How many calls the gate lets through, and in which order (`EndpointGate` of models/base.py).
use jarvis.Prelude.{
  ℕ, suc, ◌+◌, ◌≤◌, ◌<◌, ◌≡◌, refl, sym, ◌∙◌, Bool, true, false, not, some, List, [], ◌∷◌, arith,
  ltb, all, inl, inr, Bool-cases, Option-cases,
}
use jarvis.Gate.{
  Urgency, EndpointGate, new_gate, waiting_at, set_waiting, more_urgent_waits, room, may_go, Act,
  left, act, acts,
}

abbrev pub is_voice_admission : Act → Bool
is_voice_admission (Act.admit Urgency.voice) = true
is_voice_admission _ = false

abbrev pub is_admission : Act → Bool
is_admission (Act.admit u) = true
is_admission _ = false

abbrev pub is_release : Act → Bool
is_release Act.release = true
is_release _ = false

-- what one act does to the count and the bound
step_bounds :
    (a : Act) (g g' : EndpointGate)
    → act a g ≡ some g'
    → g.busy ≤ suc g.limit
    → (g'.limit ≡ g.limit) × (g'.busy ≤ suc g.limit)
unfolding act may_go left room
step_bounds (Act.arrive u) g g' h b = ground arith
step_bounds (Act.admit Urgency.voice) g g' h b = ground arith
step_bounds (Act.admit Urgency.typed) g g' h b = ground arith
step_bounds (Act.admit Urgency.background) g g' h b = ground arith
step_bounds (Act.give_up u) g g' h b = ground arith
step_bounds Act.release g g' h b = ground arith

step_quiet :
    (a : Act) (g g' : EndpointGate)
    → act a g ≡ some g'
    → is_voice_admission a ≡ false
    → g.busy ≤ g.limit
    → g'.busy ≤ g.limit
unfolding act may_go left room
step_quiet (Act.arrive u) g g' h q b = ground arith
step_quiet (Act.admit Urgency.voice) g g' h q b = cc
step_quiet (Act.admit Urgency.typed) g g' h q b = ground arith
step_quiet (Act.admit Urgency.background) g g' h q b = ground arith
step_quiet (Act.give_up u) g g' h q b = ground arith
step_quiet Act.release g g' h q b = ground arith

acts_cons :
    (a : Act) (as' : List Act) (g g' : EndpointGate)
    → acts (a ∷ as') g ≡ some g'
    → (m : EndpointGate) × (act a g ≡ some m) × (acts as' m ≡ some g')
unfolding acts
acts_cons a as' g g' h = elim (Option-cases (act a g)) [
  | inl e ↦ ground (arith, h, e)
  | inr (m, e) ↦ (m, e, sym (rw (e, acts) refl) ∙ h)
]

bounded_from :
    (as' : List Act) (g g' : EndpointGate)
    → acts as' g ≡ some g'
    → g.busy ≤ suc g.limit
    → g'.busy ≤ suc g.limit
unfolding acts
bounded_from [] g g' h b = ground arith
bounded_from (a ∷ as') g g' h b =
    let (m, e, r) = acts_cons a as' g g' h in
    let s = step_bounds a g m e b in ground (arith, s, bounded_from as' m g' r)

quiet_from :
    (as' : List Act) (g g' : EndpointGate)
    → acts as' g ≡ some g'
    → all (λ a. not (is_voice_admission a)) as' ≡ true
    → g.busy ≤ g.limit
    → g'.busy ≤ g.limit
unfolding acts all
quiet_from [] g g' h q b = ground arith
quiet_from (a ∷ as') g g' h q b =
    let (m, e, r) = acts_cons a as' g g' h in
    let s = step_bounds a g m e (ground arith) in
    let t = step_quiet a g m e (ground (arith, q)) b in
    ground (arith, s, t, q, quiet_from as' m g' r)

-- Whatever arrives, is admitted, gives up and leaves on a new gate of some limit, at most one call
-- more than the limit is in flight.
pub acts-busy :
    (limit : ℕ) (as' : List Act) (g : EndpointGate)
    → acts as' (new_gate limit) ≡ some g
    → g.busy ≤ suc limit
unfolding new_gate
acts-busy limit as' g h = bounded_from as' (new_gate limit) g h (ground arith)

-- As long as no call on the voice line is admitted, no more calls than the limit are in flight.
pub acts-busy_without_voice :
    (limit : ℕ) (as' : List Act) (g : EndpointGate)
    → acts as' (new_gate limit) ≡ some g
    → all (λ a. not (is_voice_admission a)) as' ≡ true
    → g.busy ≤ limit
unfolding new_gate
acts-busy_without_voice limit as' g h q = quiet_from as' (new_gate limit) g h q (ground arith)

-- An admission at one urgency.
pub record Admitted (u : Urgency) (g g' : EndpointGate) : Type 0 where
  pub waited : 0 < waiting_at u g.waiting
  pub first : more_urgent_waits u g.waiting ≡ false
  pub had_room : g.busy < room u g.limit
  pub counted : g'.busy ≡ suc g.busy
  pub left_queue : suc (waiting_at u g'.waiting) ≡ waiting_at u g.waiting

-- An admission was waited for, found room and nobody more urgent waiting, and counts one call more in
-- flight and one waiter less.
pub admit-Admitted :
    (u : Urgency) (g g' : EndpointGate) → act (Act.admit u) g ≡ some g' → Admitted u g g'
unfolding act may_go left waiting_at set_waiting
admit-Admitted Urgency.voice g g' h = record {
  waited = ground arith;
  first = ground arith;
  had_room = ground arith;
  counted = ground arith;
  left_queue = ground arith;
}
admit-Admitted Urgency.typed g g' h = record {
  waited = ground arith;
  first = ground arith;
  had_room = ground arith;
  counted = ground arith;
  left_queue = ground arith;
}
admit-Admitted Urgency.background g g' h = record {
  waited = ground arith;
  first = ground arith;
  had_room = ground arith;
  counted = ground arith;
  left_queue = ground arith;
}

-- an admission whose condition holds
admitted :
    (u : Urgency) (g : EndpointGate)
    → 0 < waiting_at u g.waiting
    → may_go u g ≡ true
    → (g' : EndpointGate) × (act (Act.admit u) g ≡ some g')
unfolding act
admitted u g w m = (record (left u g) { busy = suc g.busy }, ground (arith, w, m))

-- When fewer calls than the limit are in flight and somebody waits, some waiter can be admitted.
pub admit-progress :
    (g : EndpointGate)
    → g.busy < g.limit
    → 0 < g.waiting.voice + g.waiting.typed + g.waiting.background
    → (u : Urgency) × (g' : EndpointGate) × (act (Act.admit u) g ≡ some g')
unfolding may_go room more_urgent_waits waiting_at
admit-progress g b w = elim (Bool-cases (ltb 0 g.waiting.voice)) [
  | inl v ↦
      let (g', e) = admitted Urgency.voice g (ground arith) (ground arith) in (Urgency.voice, g', e)
  | inr v ↦ elim (Bool-cases (ltb 0 g.waiting.typed)) [
    | inl t ↦
        let (g', e) = admitted Urgency.typed g (ground arith) (ground arith) in
        (Urgency.typed, g', e)
    | inr t ↦
        let (g', e) = admitted Urgency.background g (ground arith) (ground arith) in
        (Urgency.background, g', e)
  ]
]

-- A waiting call on the voice line can be admitted even when as many calls as the limit are in flight.
pub admit-voice :
    (g : EndpointGate)
    → g.busy ≤ g.limit
    → 0 < g.waiting.voice
    → (g' : EndpointGate) × (act (Act.admit Urgency.voice) g ≡ some g') × (g'.busy ≡ suc g.busy)
unfolding may_go room more_urgent_waits waiting_at left act
admit-voice g b v =
    let (g', e) = admitted Urgency.voice g (ground arith) (ground arith) in (g', e, ground arith)
