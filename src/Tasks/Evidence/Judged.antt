-- ===== src/Tasks/Evidence/Judged.antt =====
-- When a task counts as done (`judge` and `state_of` of features/tasks.py).
use jarvis.Prelude.{
  ◌≡◌, refl, sym, ap, ◌↔◌, Bool, true, false, ◌&&◌, none, some, List, [], ◌∷◌, map, Text, arith,
  any, all, is_nil, inl, inr, Option-cases,
}
use jarvis.Prelude.Dicts
use jarvis.Prelude.Dicts.{Dict}
use jarvis.Proto.Tasks.{TaskState, TaskBrief, DodItem, DodResult}
use jarvis.Tasks.Evidence.{
  Evidence, CallEvent, ResultEvent, is_bookkeeping, is_error, is_draft, why_not, why_not_outward,
  shows, is_met, judge_item, judge_items, judge, state_of, ref_id, reasons, why_text,
}

state_of-done :
    (results : List DodResult)
    → (state_of results ≡ TaskState.done)
      ↔ ((is_nil results ≡ false) × (all (λ (r : DodResult). r.verified) results ≡ true))
unfolding state_of
state_of-done results = ground arith

module _ (arguments_of : Text → Dict Bool) where
  -- The claim of an item says that it is met and names something that shows it.
  unfoldable pub is_proved : Evidence → DodItem → DodResult → Bool
  unfolding ref_id
  is_proved ev item said =
      is_met said.met && any (shows arguments_of ev item.outward) (map ref_id said.refs)

  -- Each item has a claim at its position that is proved.
  unfoldable pub all_proved : Evidence → List DodItem → List DodResult → Bool
  unfolding is_proved
  all_proved ev [] claimed = true
  all_proved ev (item ∷ dod) [] = false
  all_proved ev (item ∷ dod) (said ∷ claimed) = is_proved ev item said && all_proved ev dod claimed

  verified-proved :
      (ev : Evidence) (item : DodItem) (said : DodResult)
      → (judge_item arguments_of ev item (some said)).verified ≡ is_proved ev item said
  unfolding judge_item is_proved
  verified-proved ev item said = ground arith

  all-proved :
      (ev : Evidence) (dod : List DodItem) (claimed : List DodResult)
      → all (λ (r : DodResult). r.verified) (judge_items arguments_of ev dod claimed)
        ≡ all_proved ev dod claimed
  unfolding all judge_items all_proved
  all-proved ev [] claimed = ground arith
  all-proved ev (item ∷ dod) [] = unfold judge_item in refl
  all-proved ev (item ∷ dod) (said ∷ claimed) =
      rw (verified-proved ev item said, all-proved ev dod claimed) refl

  is_nil-judge_items :
      (ev : Evidence) (dod : List DodItem) (claimed : List DodResult)
      → is_nil (judge_items arguments_of ev dod claimed) ≡ is_nil dod
  unfolding judge_items
  is_nil-judge_items ev [] claimed = refl
  is_nil-judge_items ev (item ∷ dod) [] = refl
  is_nil-judge_items ev (item ∷ dod) (said ∷ claimed) = refl

  -- A task is done exactly when its brief has a Definition of Done and each of its items is claimed,
  -- at its own position, with something that the log of the task shows.
  pub judge-done :
      (brief : TaskBrief) (claimed : List DodResult) (ev : Evidence)
      → (state_of (judge arguments_of brief claimed ev) ≡ TaskState.done)
        ↔ ((is_nil brief.dod ≡ false) × (all_proved ev brief.dod claimed ≡ true))
  unfolding judge state_of
  judge-done brief claimed ev =
      rw (sym (is_nil-judge_items ev brief.dod claimed), sym (all-proved ev brief.dod claimed))
        (state_of-done (judge_items arguments_of ev brief.dod claimed))

  -- What shows an outward item is a call of the task itself that was made, did not fail, was not only
  -- reading, did not end as a draft, and is not the task's own bookkeeping.
  pub shows-outward :
      (ev : Evidence) (ref : Text)
      → shows arguments_of ev true ref ≡ true
      → (c : CallEvent) × (r : ResultEvent) × (Dicts.get ref ev.calls ≡ some c)
        × (Dicts.get ref ev.results ≡ some r)
        × (c.read_only ≡ false)
        × (is_draft arguments_of c.arguments ≡ false)
        × (is_error r.result ≡ false)
        × (is_bookkeeping r.name ≡ false)
  unfolding why_not why_not_outward
  shows-outward ev ref h = elim (Option-cases (Dicts.get ref ev.results)) [
    | inl e ↦ ground (arith, h, e)
    | inr (r, e) ↦ elim (Option-cases (Dicts.get ref ev.calls)) [
      | inl d ↦ ground (arith, h, e, d)
      | inr (c, d) ↦ (
        c,
        r,
        d,
        e,
        ground (arith, h, e, d),
        ground (arith, h, e, d),
        ground (arith, h, e, d),
        ground (arith, h, e, d),
      )
    ]
  ]

  any-approved :
      (ev : Evidence) (approved : List Text) (outward : Bool) (refs : List Text)
      → any (shows arguments_of (record ev { approved = approved }) outward) refs
        ≡ any (shows arguments_of ev outward) refs
  unfolding any why_not
  any-approved ev approved outward [] = refl
  any-approved ev approved outward (ref ∷ refs) = rw (any-approved ev approved outward refs) refl

  reasons-approved :
      (ev : Evidence) (approved : List Text) (outward : Bool) (refs : List Text)
      → reasons arguments_of (record ev { approved = approved }) outward refs
        ≡ reasons arguments_of ev outward refs
  unfolding reasons why_not
  reasons-approved ev approved outward [] = refl
  reasons-approved ev approved outward (ref ∷ refs) =
      ap
        (λ (rest : List Text). elim (why_not arguments_of ev ref outward) [
          | none ↦ rest
          | some why ↦ why_text ref why ∷ rest
        ])
        (reasons-approved ev approved outward refs)

  judge_items-approved :
      (ev : Evidence) (approved : List Text) (dod : List DodItem) (claimed : List DodResult)
      → judge_items arguments_of (record ev { approved = approved }) dod claimed
        ≡ judge_items arguments_of ev dod claimed
  unfolding judge_items judge_item why_not
  judge_items-approved ev approved [] claimed = refl
  judge_items-approved ev approved (item ∷ dod) [] =
      rw (judge_items-approved ev approved dod []) refl
  judge_items-approved ev approved (item ∷ dod) (said ∷ claimed) =
      rw
        (
          judge_items-approved ev approved dod claimed,
          any-approved ev approved item.outward (map ref_id said.refs),
          reasons-approved ev approved item.outward (map ref_id said.refs),
        )
        refl

  -- The approvals in the log play no part in the judgement: an outward item counts as verified with the
  -- same evidence whether or not any call of the task was approved.
  pub judge-approved :
      (brief : TaskBrief) (claimed : List DodResult) (ev : Evidence) (approved : List Text)
      → judge arguments_of brief claimed (record ev { approved = approved })
        ≡ judge arguments_of brief claimed ev
  unfolding judge
  judge-approved brief claimed ev approved = judge_items-approved ev approved brief.dod claimed
