-- ===== src/Store/Claims.antt =====
-- The idempotency table of db/store.py: a mutating tool call claims its key before it acts.
use jarvis.Prelude.{
  ◌≡◌, Bool, true, false, Option, none, some, List, [], ◌∷◌, Text, text_eq, text_eq_iff, arith,
  if◌then◌else◌, is_some,
}
use jarvis.Prelude.Dicts.{get, put, get-put}
use jarvis.Store.{Store}

-- True if the key was free and is claimed now. The row starts with no result.
unfoldable pub claim_idempotency : Text → Store → Bool × Store
claim_idempotency key st =
    if is_some (get key st.claims)
    then (false, st)
    else (true, record st { claims = put key none st.claims })

unfoldable pub record_idempotent_result : Text → Text → Store → Store
record_idempotent_result key result st =
    if is_some (get key st.claims)
    then record st { claims = put key (some result) st.claims }
    else st

unfoldable pub idempotent_result : Text → Store → Option Text
idempotent_result key st = elim (get key st.claims) [ none ↦ none | some r ↦ r ]

-- What can happen to the table between two uses of a key.
pub data ClaimStep : Type 0 where
  claim : Text → ClaimStep
  finish : Text → Text → ClaimStep

unfoldable pub claim_step : Store → ClaimStep → Store
unfolding claim_idempotency record_idempotent_result
claim_step st (claim key) = (claim_idempotency key st).1
claim_step st (finish key result) = record_idempotent_result key result st

unfoldable pub claim_steps : Store → List ClaimStep → Store
unfolding claim_step
claim_steps st [] = st
claim_steps st (s ∷ steps) = claim_steps (claim_step st s) steps

step_keeps :
    (key : Text) (st : Store) (s : ClaimStep)
    → is_some (get key st.claims) ≡ true
    → is_some (get key (claim_step st s).claims) ≡ true
unfolding claim_step
step_keeps key st (claim j) h = ground (arith, get-put j key none st.claims)
step_keeps key st (finish j r) h = ground (arith, get-put j key (some r) st.claims)

steps_keep :
    (key : Text) (st : Store) (steps : List ClaimStep)
    → is_some (get key st.claims) ≡ true
    → is_some (get key (claim_steps st steps).claims) ≡ true
unfolding claim_steps
steps_keep key st [] h = h
steps_keep key st (s ∷ steps) h = steps_keep key (claim_step st s) steps (step_keeps key st s h)

claimed : (key : Text) (st : Store) → is_some (get key (claim_idempotency key st).1.claims) ≡ true
unfolding claim_idempotency
claimed key st = ground (arith, get-put key key none st.claims, text_eq_iff key key)

refused :
    (key : Text) (st : Store)
    → is_some (get key st.claims) ≡ true
    → claim_idempotency key st ≡ (false, st)
unfolding claim_idempotency
refused key st h = rw h

-- A key is granted at most once: after anyone has claimed it, whatever other claims and results
-- follow, every later claim of it is refused and changes nothing.
pub claimed_once :
    (key : Text) (st : Store) (steps : List ClaimStep)
    → let later = claim_steps (claim_idempotency key st).1 steps in
      claim_idempotency key later ≡ (false, later)
claimed_once key st steps =
    let h = steps_keep key (claim_idempotency key st).1 steps (claimed key st) in
    refused key (claim_steps (claim_idempotency key st).1 steps) h

-- The result recorded under a claimed key is the one that is read back, and the result of every
-- other key is what it was.
pub result_roundtrip :
    (key j : Text) (result : Text) (st : Store)
    → let done = record_idempotent_result key result (claim_idempotency key st).1 in
      idempotent_result j done ≡ (if text_eq key j then some result else idempotent_result j st)
unfolding record_idempotent_result idempotent_result claim_idempotency
result_roundtrip key j result st = ground (
  arith,
  get-put key j (some result) st.claims,
  get-put key j none st.claims,
  get-put key key none st.claims,
  get-put key j (some result) (put key none st.claims),
  text_eq_iff key j,
  text_eq_iff key key,
)
