-- ===== src/Attachments/Disk.antt =====
-- Every file on the disk is that of an attachment that is not private (attachments.py).
pub mod Steps
use jarvis.Prelude.{
  ℕ, ◌≡◌, ◌∙◌, refl, sym, ap, subst, Bool, true, false, not, ◌&&◌, ◌||◌, Option, none, some, List,
  [], ◌∷◌, ◌++◌, Text, text_eq, text_eq_iff, text_eq_refl, arith, if◌then◌else◌, is_some, any, find,
  is_nil, strip, All, All-map, inl, inr, Bool-cases, Option-cases,
}
use jarvis.Prelude.Dicts.{Dict, get, put, remove}
use jarvis.Store.{Store}
use jarvis.Attachments.{
  Attachment, AttachmentStore, Held, conversation_is_private, keep_file, insert_row, add_text,
  keep_text, new_text, trim, take_off_disk, bind_one, bind_all, bind, scrub_private, left_on_disk,
  update_rows, erased, bound, id_is, unlink,
}
use jarvis.Attachments.Private.{
  Clean, is_clean, is_bare, Step, Reached, Step-Clean, scrub-Clean, find-holds, reached-Clean,
}

abbrev pub has_path : Text → Attachment → Bool
has_path path a = elim a.path [ none ↦ false | some p ↦ text_eq p path ]

abbrev pub Owned : List Attachment → Text → Type 0
Owned rows path = any (has_path path) rows ≡ true

-- Every file on the disk is that of a row.
abbrev pub AllOwned : List Attachment → Dict Text → Type 0
AllOwned rows disk = All (λ e. Owned rows e.0) disk

-- The ids are a primary key.
abbrev pub UniqueIds : List Attachment → Type 0
UniqueIds [] = Unit
UniqueIds (a ∷ rows) = (any (id_is a.id) rows ≡ false) × UniqueIds rows

pub any-append :
    (p : Attachment → Bool) (xs ys : List Attachment) → any p (xs ++ ys) ≡ (any p xs || any p ys)
unfolding any
any-append p [] ys = refl
any-append p (x ∷ xs) ys = ground (arith, any-append p xs ys)

pub All-put :
    (P : Text → Type 0) (k v : Text) (d : Dict Text)
    → P k
    → All (λ e. P e.0) d
    → All (λ e. P e.0) (put k v d)
unfolding put
All-put P k v [] p h = (p, tt)
All-put P k v ((j, w) ∷ d) p h = elim (Bool-cases (text_eq j k)) [
  | inl e ↦ rw e (h.0, h.1)
  | inr e ↦ rw e (h.0, All-put P k v d p h.1)
]

All-remove :
    (P Q : Text → Type 0) (k : Text)
    → ((j : Text) → text_eq j k ≡ false → P j → Q j)
    → (d : Dict Text) → All (λ e. P e.0) d
    → All (λ e. Q e.0) (remove k d)
unfolding remove
All-remove P Q k f [] h = tt
All-remove P Q k f ((j, w) ∷ d) h = elim (Bool-cases (text_eq j k)) [
  | inl e ↦ rw e (All-remove P Q k f d h.1)
  | inr e ↦ rw e (f j e h.0, All-remove P Q k f d h.1)
]

-- What is owned when the file of one row is gone is owned by others.
pub All-unlink :
    (P Q : Text → Type 0) (a : Attachment)
    → ((j : Text) → has_path j a ≡ false → P j → Q j)
    → (d : Dict Text) → All (λ e. P e.0) d
    → All (λ e. Q e.0) (unlink a.path d)
unfolding unlink
All-unlink P Q a f d h = elim (Option-cases a.path) [
  | inl e ↦ rw e (All-map (λ x. P x.0) (λ x. Q x.0) (λ x p. f x.0 (rw e refl) p) d h)
  | inr (path, e) ↦ rw e (
      All-remove P Q path
        (λ j n p. f j (rw e (ground (arith, n, text_eq_iff j path, text_eq_iff path j))) p) d h)
]

pub insert-UniqueIds :
    (a : Attachment) (rows : List Attachment)
    → any (id_is a.id) rows ≡ false
    → UniqueIds rows
    → UniqueIds (rows ++ a ∷ [])
unfolding any
insert-UniqueIds a [] free u = (refl, tt)
insert-UniqueIds a (x ∷ rows) free u = (
  rw (any-append (id_is x.id) rows (a ∷ []))
      (ground (arith, u.0, free, text_eq_iff a.id x.id, text_eq_iff x.id a.id)),
  insert-UniqueIds a rows (ground (arith, free)) u.1,
)

pub any-update_rows :
    (p : Attachment → Bool) (id : Text) (f : Attachment → Attachment)
    → ((a : Attachment) → p (f a) ≡ p a)
    → (rows : List Attachment) → any p (update_rows id f rows) ≡ any p rows
unfolding any update_rows
any-update_rows p id f same [] = refl
any-update_rows p id f same (a ∷ rows) = elim (Bool-cases (text_eq a.id id)) [
  | inl e ↦ rw (e, same a, any-update_rows p id f same rows) refl
  | inr e ↦ rw (e, any-update_rows p id f same rows) refl
]

pub update-UniqueIds :
    (id : Text) (f : Attachment → Attachment)
    → ((a : Attachment) → (f a).id ≡ a.id)
    → (rows : List Attachment) → UniqueIds rows
    → UniqueIds (update_rows id f rows)
unfolding update_rows
update-UniqueIds id f same [] u = tt
update-UniqueIds id f same (a ∷ rows) u =
    let kept : any (id_is a.id) (update_rows id f rows) ≡ false =
      any-update_rows (id_is a.id) id f (λ x. ap (λ i. text_eq i a.id) (same x)) rows ∙ u.0 in
    elim (Bool-cases (text_eq a.id id)) [
      | inl e ↦ rw (e, same a) (kept, update-UniqueIds id f same rows u.1)
      | inr e ↦ rw e (kept, update-UniqueIds id f same rows u.1)
    ]

update_rows-absent :
    (id : Text) (f : Attachment → Attachment) (rows : List Attachment)
    → any (id_is id) rows ≡ false
    → update_rows id f rows ≡ rows
unfolding any update_rows
update_rows-absent id f [] h = refl
update_rows-absent id f (a ∷ rows) h =
    let e : text_eq a.id id ≡ false = ground (arith, h) in
    rw (e, update_rows-absent id f rows (ground (arith, h))) refl

-- A file that is not that of the row taken off the disk keeps its row.
pub erased-Owned :
    (id path : Text) (row : Attachment) (rows : List Attachment)
    → UniqueIds rows
    → find (id_is id) rows ≡ some row
    → has_path path row ≡ false
    → Owned rows path
    → Owned (update_rows id erased rows) path
unfolding any find update_rows
erased-Owned id path row [] u f n o = cc
erased-Owned id path row (a ∷ rows) u f n o = elim (Bool-cases (text_eq a.id id)) [
  | inl e ↦
      let same : a ≡ row = ground (arith, f, e) in
      let other : has_path path a ≡ false = subst (λ x. has_path path x ≡ false) (sym same) n in
      let absent : any (id_is id) rows ≡ false =
        subst (λ i. any (id_is i) rows ≡ false) ((text_eq_iff a.id id).0 e) u.0 in
      let rest : Owned rows path = ground (arith, o, other) in
      rw (e, update_rows-absent id erased rows absent) rest
  | inr e ↦
      let f' : find (id_is id) rows ≡ some row = ground (arith, f, e) in
      elim (Bool-cases (has_path path a)) [
        | inl here ↦ rw (e, here) refl
        | inr away ↦ rw (e, away) (erased-Owned id path row rows u.1 f' n (ground (arith, o, away)))
      ]
]

-- The ids are unique, and every file is owned.
pub record Kept (s : AttachmentStore) : Type 0 where
  pub ids : UniqueIds s.rows
  pub files : AllOwned s.rows s.disk
