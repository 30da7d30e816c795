-- ===== src/Proto/Settings/Asking.antt =====
-- When a call stops to ask: what the patterns of settings.py match, and how its rules rank.
use jarvis.Prelude.{
  ℕ, ◌+◌, ◌-◌, ◌≡◌, refl, sym, ap, subst, Bool, true, false, not, ◌&&◌, ◌||◌, [], ◌∷◌, ◌++◌, Text,
  text, text_eq, text_eq_iff, arith, starts, ends, length, take, inl, inr, Bool-cases,
  length-append,
}
use mathlib.Core.List.{reverse, reverse-append, append_assoc}
use jarvis.Proto.Settings.{
  tool_matches, matches_any, Confirmations, needs_confirmation, TasksSettings, needs_approval,
  frees, is_off,
}

starts-append : (a b : Text) → starts a (a ++ b) ≡ true
unfolding starts
starts-append [] b = refl
starts-append (x ∷ a) b = ground (arith, starts-append a b)

take-append : (a b : Text) → take (length a) (a ++ b) ≡ a
take-append [] b = refl
take-append (x ∷ a) b = rw (take-append a b)

text_eq-longer : (a b : Text) (n : ℕ) → length a ≡ length b + 1 + n → text_eq a b ≡ false
text_eq-longer a b n h = elim (Bool-cases (text_eq a b)) [
  | inr e ↦ e
  | inl e ↦ let p : length a ≡ length b = ap length ((text_eq_iff a b).0 e) in ground (arith, h, p)
]

ends-append : (a suffix : Text) → ends suffix (a ++ suffix) ≡ true
unfolding ends
ends-append a suffix = rw (reverse-append a suffix) (starts-append (reverse suffix) (reverse a))

-- What `pattern[:-1]` is.
take-pattern :
    (ns : Text) → take (length (ns ++ 46 ∷ 42 ∷ []) - 1) (ns ++ 46 ∷ 42 ∷ []) ≡ ns ++ 46 ∷ []
take-pattern ns =
    rw (sym (append_assoc ns (46 ∷ []) (42 ∷ [])), length-append (ns ++ 46 ∷ []) (42 ∷ []))
      (subst (λ n. take n ((ns ++ 46 ∷ []) ++ 42 ∷ []) ≡ ns ++ 46 ∷ []) (omega arith)
        (take-append (ns ++ 46 ∷ []) (42 ∷ [])))

-- A pattern `namespace.*` matches the names that begin with the namespace and its dot, and no other,
-- whatever the namespace is.
pub tool_matches-starts :
    (name namespace : Text)
    → tool_matches name (namespace ++ 46 ∷ 42 ∷ []) ≡ starts (namespace ++ 46 ∷ []) name
unfolding tool_matches text
tool_matches-starts name ns =
    let dotted : ends (text ".*") (ns ++ 46 ∷ 42 ∷ []) ≡ true = ends-append ns (46 ∷ 42 ∷ []) in
    let longer : text_eq (ns ++ 46 ∷ 42 ∷ []) (text "*") ≡ false =
      text_eq-longer (ns ++ 46 ∷ 42 ∷ []) (42 ∷ []) (length ns)
        (omega (arith, length-append ns (46 ∷ 42 ∷ []))) in
    elim (Bool-cases (text_eq (ns ++ 46 ∷ 42 ∷ []) name)) [
      | inl e ↦
          let p : name ≡ ns ++ 46 ∷ 42 ∷ [] = sym ((text_eq_iff (ns ++ 46 ∷ 42 ∷ []) name).0 e) in
          rw (tool_matches, e)
            (sym (
              rw (p, sym (append_assoc ns (46 ∷ []) (42 ∷ [])))
                (starts-append (ns ++ 46 ∷ []) (42 ∷ []))))
      | inr e ↦ rw (tool_matches, e, longer, dotted, take-pattern ns) refl
    ]

-- A call stops to ask exactly when someone is there to answer, and either a pattern says that it
-- always does, or asking is on, no pattern says that it never does, and its tool is destructive.
pub needs_confirmation_iff :
    (c : Confirmations) (name : Text) (risky unattended : Bool)
    → needs_confirmation c name risky unattended ≡ (
        not unattended
        && (matches_any name c.always_ask
            || (not (is_off c.mode) && not (matches_any name c.always_allow) && risky)))
unfolding needs_confirmation
needs_confirmation_iff c name risky unattended = ground arith

-- A tool that he has not freed for tasks asks in a task whenever it is destructive, or would ask in a
-- chat that he attends.
pub needs_approval-floor :
    (s : TasksSettings) (c : Confirmations) (name : Text) (risky : Bool)
    → frees s name ≡ false
    → (risky || needs_confirmation c name risky false) ≡ true
    → needs_approval s name risky c ≡ true
unfolding needs_approval frees
needs_approval-floor s c name risky f h = rw f h
