-- ===== src/Schedules/Once.antt =====
-- A slot fires once (`Scheduler.tick` of features/schedules.py).
use jarvis.Prelude.{
  ℕ, ◌-◌, ◌≤◌, ◌≡◌, refl, sym, subst, true, false, ◌&&◌, ◌||◌, Option, none, some, List, [], ◌∷◌,
  ◌++◌, Text, text_eq, text_eq_iff, arith, ltb, ◌==◌, if◌then◌else◌, if_holds, any, count_of,
  count_of-append, Option-cases, inl, inr,
}
use jarvis.Schedules.{
  Schedule, ScheduleFire, ScheduleStore, is_slot, is_claimed, claim_slot, set_run, record_fire,
  advance, Ticked, fire_slot, tick_slot, tick_one, tick_all, tick, due,
}

abbrev pub calls : Text → ℕ → List (Text × ℕ) → ℕ
calls id slot called = count_of (λ k. text_eq k.0 id && k.1 == slot) called

-- Only a slot that is claimed was called for, and once.
abbrev Paid : ScheduleStore → List (Text × ℕ) → Type 0
Paid st called =
    (id : Text) (slot : ℕ) → calls id slot called ≤ (if is_claimed id slot st.fires then 1 else 0)

claimed-append :
    (id : Text) (slot : ℕ) (fires : List ScheduleFire) (f : ScheduleFire)
    → is_claimed id slot (fires ++ f ∷ []) ≡ (is_claimed id slot fires || is_slot id slot f)
unfolding is_claimed any
claimed-append id slot [] f = ground arith
claimed-append id slot (x ∷ fires) f = ground (arith, claimed-append id slot fires f)

claimed-set_run :
    (id j : Text) (slot n : ℕ) (run : Text × Text) (fires : List ScheduleFire)
    → is_claimed j n (set_run id slot run fires) ≡ is_claimed j n fires
unfolding is_claimed set_run any is_slot
claimed-set_run id j slot n run [] = refl
claimed-set_run id j slot n run (f ∷ fires) = ground (arith, claimed-set_run id j slot n run fires)

module _ (next_slot : Text → Text → ℕ → Option ℕ) (fire : Schedule → ℕ → Option (Text × Text)) where
  fires-fire_slot :
      (s : Schedule) (slot clock : ℕ) (st : ScheduleStore) (called : List (Text × ℕ)) (j : Text)
      (n : ℕ)
      → is_claimed j n (fire_slot next_slot fire s slot clock (st, called)).0.fires
        ≡ is_claimed j n st.fires
  unfolding fire_slot record_fire advance
  fires-fire_slot s slot clock st called j n = elim (Option-cases (fire s slot)) [
    | inl e ↦ rw (e) refl
    | inr (run, e) ↦ rw (e) (claimed-set_run s.id j slot n run st.fires)
  ]

  Paid-more :
      (s : Schedule) (slot : ℕ) (st : ScheduleStore) (called : List (Text × ℕ))
      → Paid st called
      → is_claimed s.id slot st.fires ≡ false
      → Paid (claim_slot s.id slot st).1 (called ++ (s.id, slot) ∷ [])
  unfolding claim_slot is_slot count_of
  Paid-more s slot st called p free id n = ground (
    arith,
    free,
    p id n,
    count_of-append (λ k. text_eq k.0 id && k.1 == n) called ((s.id, slot) ∷ []),
    claimed-append id n st.fires (record { schedule_id = s.id; scheduled_for = slot; run = none }),
    text_eq_iff s.id id,
    p s.id slot,
  )

  Paid-same :
      (st st' : ScheduleStore) (called : List (Text × ℕ))
      → ((j : Text) (n : ℕ) → is_claimed j n st'.fires ≡ is_claimed j n st.fires)
      → Paid st called
      → Paid st' called
  Paid-same st st' called e p id n = ground (arith, p id n, e id n)

  abbrev IsPaid : Ticked next_slot fire → Type 0
  IsPaid t = Paid t.0 t.1

  fired-Paid :
      (s : Schedule) (slot clock : ℕ) (st : ScheduleStore) (called : List (Text × ℕ))
      → Paid st (called ++ (s.id, slot) ∷ [])
      → IsPaid (fire_slot next_slot fire s slot clock (st, called))
  unfolding fire_slot
  fired-Paid s slot clock st called p =
      Paid-same st (fire_slot next_slot fire s slot clock (st, called)).0
        (called ++ (s.id, slot) ∷ []) (fires-fire_slot s slot clock st called) p

  claim_same :
      (id : Text) (slot : ℕ) (st : ScheduleStore)
      → (claim_slot id slot st).0 ≡ false
      → (claim_slot id slot st).1 ≡ st
  unfolding claim_slot
  claim_same id slot st h = ground (arith, h)

  claim_free :
      (id : Text) (slot : ℕ) (st : ScheduleStore)
      → (claim_slot id slot st).0 ≡ true
      → is_claimed id slot st.fires ≡ false
  unfolding claim_slot
  claim_free id slot st h = ground (arith, h)

  advanced-Paid :
      (s : Schedule) (fired_for : Option ℕ) (clock : ℕ) (st : ScheduleStore)
      (called : List (Text × ℕ))
      → Paid st called
      → Paid (advance next_slot fire s fired_for clock st) called
  unfolding advance
  advanced-Paid s fired_for clock st called p = p

  tick_slot-Paid :
      (now late clock : ℕ) (s : Schedule) (slot : ℕ) (st : ScheduleStore) (called : List (Text × ℕ))
      → Paid st called
      → IsPaid (tick_slot next_slot fire now late clock s slot st called)
  unfolding tick_slot
  tick_slot-Paid now late clock s slot st called p =
      if_holds (λ (t : Ticked next_slot fire). Paid t.0 t.1)
        (ltb late (now - slot) && s.skips_missed) (advance next_slot fire s none clock st, called) _
        (λ h. advanced-Paid s none clock st called p)
        (λ h.
          if_holds (λ (t : Ticked next_slot fire). Paid t.0 t.1) (claim_slot s.id slot st).0
            (fire_slot next_slot fire s slot clock ((claim_slot s.id slot st).1, called))
            (advance next_slot fire s (some slot) clock (claim_slot s.id slot st).1, called)
            (λ free.
              fired-Paid s slot clock (claim_slot s.id slot st).1 called
                (Paid-more s slot st called p (claim_free s.id slot st free)))
            (λ taken.
              advanced-Paid s (some slot) clock (claim_slot s.id slot st).1 called
                (subst (λ x. Paid x called) (sym (claim_same s.id slot st taken)) p)))

  tick_one-Paid :
      (now late clock : ℕ) (s : Schedule) (st : ScheduleStore) (called : List (Text × ℕ))
      → Paid st called
      → IsPaid (tick_one next_slot fire now late clock s (st, called))
  unfolding tick_one
  tick_one-Paid now late clock s st called p = elim (Option-cases s.next_fire) [
    | inl e ↦ rw (e, tick_one) p
    | inr (slot, e) ↦ rw (e, tick_one) (tick_slot-Paid now late clock s slot st called p)
  ]

  tick_all-Paid :
      (now late clock : ℕ) (ss : List Schedule) (t : Ticked next_slot fire)
      → IsPaid t
      → IsPaid (tick_all next_slot fire now late clock ss t)
  unfolding tick_all
  tick_all-Paid now late clock [] t p = p
  tick_all-Paid now late clock (s ∷ ss) t p =
      tick_all-Paid now late clock ss (tick_one next_slot fire now late clock s t)
        (tick_one-Paid now late clock s t.0 t.1 p)

  -- Ticks at any times, one after the other.
  unfoldable pub ticks : List (ℕ × ℕ × ℕ) → Ticked next_slot fire → Ticked next_slot fire
  unfolding tick
  ticks [] t = t
  ticks ((now, late, clock) ∷ ns) t = ticks ns (tick next_slot fire now late clock t)

  ticks-Paid : (ns : List (ℕ × ℕ × ℕ)) (t : Ticked next_slot fire) → IsPaid t → IsPaid (ticks ns t)
  unfolding ticks tick
  ticks-Paid [] t p = p
  ticks-Paid ((now, late, clock) ∷ ns) t p =
      ticks-Paid ns (tick next_slot fire now late clock t)
        (tick_all-Paid now late clock (due now t.0) t p)

  -- However often the scheduler ticks and at whatever times, the engine is called at most once for one
  -- slot of one schedule, whether the call succeeds or raises.
  pub ticks-once :
      (ns : List (ℕ × ℕ × ℕ)) (st : ScheduleStore) (id : Text) (slot : ℕ)
      → calls id slot (ticks ns (st, [])).1 ≤ 1
  unfolding count_of
  ticks-once ns st id slot =
      let p = ticks-Paid ns (st, []) (λ j n. ground arith) in ground (arith, p id slot)
