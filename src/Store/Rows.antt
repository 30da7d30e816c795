-- ===== src/Store/Rows.antt =====
-- The rows of `runs` under the updates of db/store.py.
use jarvis.Prelude.{
  ◌≡◌, refl, none, some, List, [], ◌∷◌, Text, text_eq, text_eq_iff, arith, if◌then◌else◌, any, find,
}
use jarvis.Proto.Runs.{Run}
use jarvis.Store.{Store, has_id, get_run, save_run, saved, update_rows}

-- An update of one run's row keeps who is there, as long as it keeps the ids.
pub any-update_rows :
    (j id : Text) (f : Run → Run)
    → ((r : Run) → (f r).id ≡ r.id)
    → (rs : List Run) → any (has_id j) (update_rows id f rs) ≡ any (has_id j) rs
unfolding any update_rows
any-update_rows j id f h [] = refl
any-update_rows j id f h (r ∷ rs) = ground (arith, h r, any-update_rows j id f h rs)

-- The row read back is the updated one, and the others are untouched.
pub find-update_rows :
    (j id : Text) (f : Run → Run)
    → ((r : Run) → (f r).id ≡ r.id)
    → (rs : List Run)
    → find (has_id j) (update_rows id f rs) ≡ (
        if text_eq id j
        then elim (find (has_id j) rs) [ none ↦ none | some r ↦ some (f r) ]
        else find (has_id j) rs)
unfolding find update_rows
find-update_rows j id f h [] = ground arith
find-update_rows j id f h (r ∷ rs) = ground (
  arith,
  h r,
  find-update_rows j id f h rs,
  text_eq_iff id j,
  text_eq_iff r.id j,
  text_eq_iff r.id id,
)

-- What is saved is what is read back, in the columns that are saved; other runs are untouched.
pub get_run-save_run :
    (j : Text) (run : Run) (st : Store)
    → get_run j (save_run run st) ≡ (
        if text_eq run.id j
        then elim (get_run j st) [ none ↦ none | some row ↦ some (saved run row) ]
        else get_run j st)
unfolding get_run save_run
get_run-save_run j run st =
    find-update_rows j run.id (saved run) (λ r. unfold saved in refl) st.runs
