-- ===== src/Proto/Settings/Recipients.antt =====
-- Whom settings.py lets an e-mail be sent to directly (`EmailPolicy`), and whose invitations are
-- answered (`is_vip` and `is_allowed`). `str.lower` is a parameter.
use jarvis.Prelude.{
  ℕ, suc, ◌≡◌, refl, ◌↔◌, sym, ◌∙◌, inl, inr, Bool, true, false, not, ◌&&◌, ◌||◌, none, some, List,
  [], ◌∷◌, ◌++◌, map, Text, text_eq, ◌==◌, arith, if◌then◌else◌, any, keep, All, is_nil, strip,
  lstrip_of, starts, ends, rfind, contains, take, drop, or_else, Bool-cases,
}

pub record EmailPolicy : Type 0 where
  pub approved_direct_send : List Text
  pub allow_any_recipient : Bool

-- `field.replace(";", ",").split(",")`
unfoldable pub split_at : (ℕ → Bool) → Text → Text × List Text
split_at p [] = ([], [])
split_at p (c ∷ cs) =
    let (part, parts) = split_at p cs in if p c then ([], part ∷ parts) else (c ∷ part, parts)

abbrev pub is_separator : ℕ → Bool
is_separator c = c == 59 || c == 44

unfoldable pub parts_of : Text → List Text
unfolding split_at
parts_of field = let (part, parts) = split_at is_separator field in part ∷ parts

unfoldable pub split_recipients : List Text → List Text
unfolding parts_of strip
split_recipients [] = []
split_recipients (field ∷ fields) =
    keep (λ addr. not (is_nil addr)) (map strip (parts_of field)) ++ split_recipients fields

abbrev pub at_sign : Text
at_sign = 64 ∷ []

-- `text[i:j]`
abbrev pub slice : ℕ → ℕ → Text → Text
slice i j t = drop i (take j t)

-- The address out of `Name <addr@host>`, when it is there.
unfoldable pub address_in : Text → Text
unfolding contains rfind strip
address_in addr =
    if contains (60 ∷ []) addr && contains (62 ∷ []) addr
    then strip
        (slice (suc (or_else (rfind (60 ∷ []) addr) 0)) (or_else (rfind (62 ∷ []) addr) 0) addr)
    else addr

-- `address.rsplit("@", 1)[-1]`, and nothing where there is no `@`.
unfoldable pub after_last_at : Text → Text
unfolding rfind
after_last_at addr = elim (rfind at_sign addr) [ none ↦ [] | some i ↦ drop (suc i) addr ]

keep-none :
    (p : Text → Bool) (ts : List Text) → keep (λ r. not (p r)) ts ≡ [] → All (λ r. p r ≡ true) ts
unfolding keep
keep-none p [] h = tt
keep-none p (t ∷ ts) h = elim (Bool-cases (p t)) [
  | inl e ↦ let h' : keep (λ r. not (p r)) ts ≡ [] = ground (arith, h, e) in (e, keep-none p ts h')
  | inr e ↦ ground (arith, h, e)
]

All-none :
    (p : Text → Bool) (ts : List Text) → All (λ r. p r ≡ true) ts → keep (λ r. not (p r)) ts ≡ []
unfolding keep
All-none p [] h = refl
All-none p (t ∷ ts) h = rw (h.0, All-none p ts h.1) refl

module _ (lower : Text → Text) where
  unfoldable pub entry_allows : Text → Text → Bool
  unfolding strip starts ends
  entry_allows addr entry =
      let e = lower (strip entry) in
      not (is_nil e) && ((starts at_sign e && ends e addr) || text_eq e addr)

  unfoldable pub is_approved : EmailPolicy → Text → Bool
  unfolding address_in entry_allows
  is_approved policy recipient =
      let addr = address_in (lower (strip recipient)) in
      if is_nil addr then false else any (entry_allows addr) policy.approved_direct_send

  unfoldable pub unapproved : EmailPolicy → List Text → List Text
  unfolding split_recipients is_approved
  unapproved policy fields =
      if policy.allow_any_recipient
      then []
      else keep (λ r. not (is_approved policy r)) (split_recipients fields)

  -- `InviteSettings`: the domain of an address, and the entries of `vip` as they are compared.
  unfoldable pub domain : Text → Text
  unfolding after_last_at
  domain address = after_last_at (lower (strip address))

  unfoldable pub entries : List Text → List Text
  unfolding strip lstrip_of
  entries vip =
      map (λ v. lstrip_of (λ c. c == 64) (lower (strip v))) (keep (λ v. not (is_nil (strip v))) vip)

  unfoldable pub is_vip : List Text → Text → Bool
  unfolding domain entries
  is_vip vip address =
      let a = lower (strip address) in
      let d = domain a in
      let vips = entries vip in
      not (is_nil a) && (any (text_eq a) vips || (not (is_nil d) && any (text_eq d) vips))

  unfoldable pub is_allowed : List Text → List Text → Text → Bool
  unfolding is_vip
  is_allowed vip allowed_domains address =
      let d = domain address in
      is_vip vip address || (not (is_nil d) && any (text_eq d) (entries allowed_domains))

  -- Under a policy that does not let everyone be written to, an e-mail goes out directly exactly when
  -- every recipient of every field is one that is approved.
  pub unapproved-none :
      (policy : EmailPolicy) (fields : List Text)
      → policy.allow_any_recipient ≡ false
      → (unapproved policy fields ≡ [])
        ↔ All (λ r. is_approved policy r ≡ true) (split_recipients fields)
  unfolding unapproved
  unapproved-none policy fields h =
      let opened : unapproved policy fields
          ≡ keep (λ r. not (is_approved policy r)) (split_recipients fields) =
        rw (h, unapproved) refl in
      (
        λ e. keep-none (is_approved policy) (split_recipients fields) (sym opened ∙ e),
        λ a. opened ∙ All-none (is_approved policy) (split_recipients fields) a,
      )
