-- ===== src/Engine/Boot/Rows.antt =====
-- The rows that a restart reads (`runs_with_status` of db/store.py), by the ids of their runs.
use jarvis.Prelude.{
  ◌≡◌, refl, ap, ◌∙◌, Bool, true, false, ◌||◌, some, List, [], ◌∷◌, Text, text_eq, text_eq_iff,
  arith, any, find, keep, All, sort_by, insert_by, All-sort_by, All-insert_by, All-keep, inl, inr,
  Bool-cases,
}
use jarvis.Proto.Runs.{Run}
use jarvis.Store.{has_id, by_priority}

-- No two runs of a list have one id.
abbrev pub Distinct : List Run → Type 0
Distinct [] = Unit
Distinct (r ∷ rs) = All (λ s. text_eq s.id r.id ≡ false) rs × Distinct rs

pub Distinct-insert :
    (r : Run) (rs : List Run)
    → All (λ s. text_eq s.id r.id ≡ false) rs
    → Distinct rs
    → Distinct (insert_by by_priority r rs)
unfolding insert_by
Distinct-insert r [] h d = (tt, tt)
Distinct-insert r (s ∷ rs) h d = elim (Bool-cases (by_priority r s)) [
  | inl e ↦ rw e (h, d)
  | inr e ↦ rw e (
    All-insert_by (λ t. text_eq t.id s.id ≡ false) by_priority r rs
        (ground (arith, h.0, text_eq_iff s.id r.id, text_eq_iff r.id s.id)) d.0,
    Distinct-insert r rs h.1 d.1,
  )
]

pub Distinct-sort : (rs : List Run) → Distinct rs → Distinct (sort_by by_priority rs)
unfolding sort_by
Distinct-sort [] d = tt
Distinct-sort (r ∷ rs) d =
    Distinct-insert r (sort_by by_priority rs) (All-sort_by _ by_priority rs d.0)
      (Distinct-sort rs d.1)

pub Distinct-keep : (p : Run → Bool) (rs : List Run) → Distinct rs → Distinct (keep p rs)
unfolding keep
Distinct-keep p [] d = tt
Distinct-keep p (r ∷ rs) d = elim (Bool-cases (p r)) [
  | inl e ↦ rw e (All-keep _ p rs d.0, Distinct-keep p rs d.1)
  | inr e ↦ rw e (Distinct-keep p rs d.1)
]

any-insert :
    (id : Text) (r : Run) (rs : List Run)
    → any (has_id id) (insert_by by_priority r rs) ≡ (text_eq r.id id || any (has_id id) rs)
unfolding insert_by any
any-insert id r [] = refl
any-insert id r (s ∷ rs) = ground (arith, any-insert id r rs)

pub any-sort :
    (id : Text) (rs : List Run) → any (has_id id) (sort_by by_priority rs) ≡ any (has_id id) rs
unfolding sort_by any
any-sort id [] = refl
any-sort id (r ∷ rs) =
    any-insert id r (sort_by by_priority rs) ∙ ap (λ b. text_eq r.id id || b) (any-sort id rs)

-- a run that is found and passes is among those that pass
pub any-keep :
    (id : Text) (p : Run → Bool) (rs : List Run) (r : Run)
    → find (has_id id) rs ≡ some r
    → p r ≡ true
    → any (has_id id) (keep p rs) ≡ true
unfolding find keep any
any-keep id p [] r h k = cc
any-keep id p (x ∷ rs) r h k = ground (arith, h, k, any-keep id p rs r)

pub found :
    (id : Text) (rs : List Run)
    → any (has_id id) rs ≡ true
    → (r : Run) × (find (has_id id) rs ≡ some r) × (r.id ≡ id)
unfolding any find
found id [] h = cc
found id (r ∷ rs) h = elim (Bool-cases (text_eq r.id id)) [
  | inl e ↦ (r, rw e, (text_eq_iff r.id id).0 e)
  | inr e ↦ let (s, f, i) = found id rs (ground (arith, h, e)) in (s, rw e f, i)
]
