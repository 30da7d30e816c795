-- ===== src/Engine/Kept.antt =====
-- Calls of run_engine.py that change the queued runs, and keep the books.
use jarvis.Prelude.{
  ℕ, ◌≡◌, refl, sym, ap, ◌∙◌, subst, Bool, true, false, not, Option, none, some, List, [], ◌∷◌,
  Text, text_eq, text_eq_iff, arith, any, keep, IsSorted-keep, Bool-cases, Option-cases, inl, inr,
}
use jarvis.Prelude.Dicts.{get, put, remove, get-put, get-remove, get-put_cases, get-remove_cases}
use jarvis.Proto.Runs.{Run, terminal, is_waiting}
use jarvis.Proto.Events.{Body, tool_confirm_resolved}
use jarvis.Store.{get_run, save_run}
use jarvis.Emit.{emit}
use jarvis.Engine.{Engine, Entry, Queued, entry_le}
use jarvis.Engine.Books.{Books, covered, enqueue-Books}
use jarvis.Engine.Control.{cancel, set_call_me, confirm, confirm_parked, answer_live, ring, tell}
use jarvis.Engine.Same.{Books-Same, end_cancelled-Same, answer_live-Same, cancel-Same}

-- a cancelled run out of the books
abbrev dropped : Text → Engine → Engine
dropped id eng = record eng {
  queued = remove id eng.queued;
  heap = keep (λ h. not (text_eq h.run_id id)) eng.heap;
}

covered-others :
    (id j : Text) (heap : List Entry)
    → text_eq id j ≡ false
    → covered j (keep (λ h. not (text_eq h.run_id id)) heap) ≡ covered j heap
unfolding any keep
covered-others id j [] h = refl
covered-others id j (e ∷ heap) h =
    ground (arith, h, covered-others id j heap, text_eq_iff e.run_id id, text_eq_iff e.run_id j)

pub dropped-Books : (id : Text) (eng : Engine) → Books eng → Books (dropped id eng)
dropped-Books id eng b = record {
  keyed = λ j q h. b.keyed j q (get-remove_cases id j q eng.queued h).1;
  live = λ j q h. b.live j q (get-remove_cases id j q eng.queued h).1;
  entered = λ j h.
      ground (arith, h, get-remove id j eng.queued, covered-others id j eng.heap, b.entered j);
  sorted = IsSorted-keep entry_le _ eng.heap b.sorted;
}

pub confirm_parked-Books :
    (r : Option Run) (body : Body) (b : Bool) (eng eng' : Engine)
    → Books eng
    → confirm_parked r body eng ≡ some (b, eng')
    → Books eng'
unfolding confirm_parked
confirm_parked-Books none body b eng eng' k h = subst Books (ground (arith, h)) k
confirm_parked-Books (some run) body b eng eng' k h = elim (Bool-cases (is_waiting run.status)) [
  | inr w ↦ subst Books (ground (arith, h, w)) k
  | inl w ↦ elim (Option-cases (emit run body eng.store eng.bus)) [
    | inl e ↦ ground (arith, h, w, e)
    | inr ((run', st, bus), e) ↦
        let mid : Engine = record eng { store = save_run run' st; bus = bus } in
        subst Books (ground (arith, h, w, e))
          (enqueue-Books run' true mid (Books-Same eng mid k refl refl))
  ]
]

pub confirm-Books :
    (id call_id : Text) (approved b : Bool) (said : Option Text) (eng eng' : Engine)
    → Books eng
    → confirm id call_id approved said eng ≡ some (b, eng')
    → Books eng'
unfolding confirm
confirm-Books id call_id approved b said eng eng' k h =
    let l = answer_live id call_id approved said (get id eng.active) eng in
    elim (Bool-cases l.0) [
      | inl e ↦
          let s = answer_live-Same id call_id approved said (get id eng.active) eng in
          Books-Same eng eng' k (ground (arith, h, e, s)) (ground (arith, h, e, s))
      | inr e ↦
          confirm_parked-Books (get_run id eng.store) (tool_confirm_resolved call_id approved said)
            b eng eng' k (ground (arith, h, e))
    ]

pub ringing-Books :
    (id : Text) (on : Bool) (q : Queued) (eng : Engine)
    → Books eng
    → get id eng.queued ≡ some q
    → Books (
        tell
          (ring on q.run)
          (record eng { queued = put id (record q { run = ring on q.run }) eng.queued }))
unfolding tell
ringing-Books id on q eng k e = record {
  keyed = λ j q' h. elim (get-put_cases id j (record q { run = ring on q.run }) q' eng.queued h) [
    | inl (i, same) ↦ ap (λ (x : Queued). x.run.id) (sym same) ∙ k.keyed id q e ∙ i
    | inr old ↦ k.keyed j q' old
  ];
  live = λ j q' h. elim (get-put_cases id j (record q { run = ring on q.run }) q' eng.queued h) [
    | inl (i, same) ↦ subst (λ (x : Queued). terminal x.run.status ≡ false) same (k.live id q e)
    | inr old ↦ k.live j q' old
  ];
  entered = λ j h. ground (
    arith,
    h,
    e,
    k.entered j,
    text_eq_iff id j,
    get-put id j (record q { run = ring on q.run }) eng.queued,
  );
  sorted = k.sorted;
}

pub set_call_me-Books :
    (id : Text) (on : Bool) (eng : Engine) → Books eng → Books (set_call_me id on eng).1
unfolding set_call_me tell
set_call_me-Books id on eng k = elim (Option-cases (get id eng.active)) [
  | inr (ctl, a) ↦ Books-Same eng _ k (ground (arith, a)) (ground (arith, a))
  | inl a ↦ elim (Option-cases (get id eng.queued)) [
    | inl q ↦ Books-Same eng _ k (ground (arith, a, q)) (ground (arith, a, q))
    | inr (q, e) ↦
        rw (a, e, set_call_me) (rw (k.live id q e, set_call_me) (ringing-Books id on q eng k e))
  ]
]

pub cancel-Books :
    (id : Text) (now : ℕ) (b : Bool) (eng eng' : Engine)
    → Books eng
    → cancel id now eng ≡ some (b, eng')
    → Books eng'
unfolding cancel
cancel-Books id now b eng eng' k h = elim (Option-cases (get id eng.queued)) [
  | inl e ↦ let s = cancel-Same id now b eng eng' e h in Books-Same eng eng' k s.0 s.1
  | inr (q, e) ↦
      let s = end_cancelled-Same q.run now b (dropped id eng) eng' (ground (arith, h, e)) in
      Books-Same (dropped id eng) eng' (dropped-Books id eng k) s.0 s.1
]
