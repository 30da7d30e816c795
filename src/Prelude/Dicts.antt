-- ===== src/Prelude/Dicts.antt =====
-- Python's `dict` with string keys: an association list in the order of insertion.
use mathlib.Core.Path.{◌≡◌, refl}
use mathlib.Core.Option.{Option, none, some}
use mathlib.Core.Logic.{◌⊎◌}
use mathlib.Core.Bool.{false}
use mathlib.Core.List.{List, [], ◌∷◌}
use native.Mathlib.Omega.{arith}
use jarvis.Prelude.Tests.{if◌then◌else◌}
use jarvis.Prelude.Texts.{Text, text_eq, text_eq_iff}

abbrev pub Dict {ℓ} : Type ℓ → Type ℓ
Dict V = List (Text × V)

module _ {ℓ} {V : Type ℓ} where
  -- `d.get(k)`
  unfoldable pub get : Text → Dict V → Option V
  get k [] = none
  get k ((j, v) ∷ d) = if text_eq j k then some v else get k d

  -- `d[k] = v`: a key that is there keeps its place, a new one goes last.
  unfoldable pub put : Text → V → Dict V → Dict V
  put k v [] = (k, v) ∷ []
  put k v ((j, w) ∷ d) = let rest = put k v d in if text_eq j k then (j, v) ∷ d else (j, w) ∷ rest

  -- `d.pop(k, None)`, without the value.
  unfoldable pub remove : Text → Dict V → Dict V
  remove k [] = []
  remove k ((j, w) ∷ d) = let rest = remove k d in if text_eq j k then rest else (j, w) ∷ rest

  pub get-put :
      (k j : Text) (v : V) (d : Dict V)
      → get j (put k v d) ≡ (if text_eq k j then some v else get j d)
  unfolding get put
  get-put k j v [] = refl
  get-put k j v ((i, w) ∷ d) =
      ground (arith, text_eq_iff k j, text_eq_iff i k, text_eq_iff i j, get-put k j v d)

  pub get-remove :
      (k j : Text) (d : Dict V) → get j (remove k d) ≡ (if text_eq k j then none else get j d)
  unfolding get remove
  get-remove k j [] = ground arith
  get-remove k j ((i, w) ∷ d) =
      ground (arith, text_eq_iff k j, text_eq_iff i k, text_eq_iff i j, get-remove k j d)

module _ {ℓ} {V : Type ℓ} where
  -- What is read after a write is what was written, under its key, or what was there.
  pub get-put_cases :
      (k j : Text) (v w : V) (d : Dict V)
      → get j (put k v d) ≡ some w
      → ((k ≡ j) × (v ≡ w)) ⊎ (get j d ≡ some w)
  get-put_cases k j v w d h = ground (arith, get-put k j v d, text_eq_iff k j)

  -- What is read after a removal was there, under another key.
  pub get-remove_cases :
      (k j : Text) (w : V) (d : Dict V)
      → get j (remove k d) ≡ some w
      → (text_eq k j ≡ false) × (get j d ≡ some w)
  get-remove_cases k j w d h = ground (arith, get-remove k j d)

  -- Taking an entry out and putting it back changes nothing that is read.
  pub get-put-remove :
      (k j : Text) (v : V) (d : Dict V) → get k d ≡ some v → get j (put k v (remove k d)) ≡ get j d
  get-put-remove k j v d h =
      ground (arith, get-put k j v (remove k d), get-remove k j d, text_eq_iff k j)
