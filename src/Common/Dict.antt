-- ===== src/Common/Dict.antt =====
-- `HashMap<String, V>` and `DashMap<String, V>` as association lists. The order of the entries stands
-- for the order of iteration, which the types leave open.
use mathlib.Core.Path.{◌≡◌, refl}
use mathlib.Core.Bool.{Bool}
use mathlib.Core.List.{List, [], ◌∷◌}
use mathlib.Core.Option.{Option, none, some}
use native.Mathlib.Omega.{arith}
use netsentry_sensor.Common.Tests.{if◌then◌else◌}
use netsentry_sensor.Common.Lists.{keep}
use netsentry_sensor.Common.Text.{Text, text_eq, text_eq_iff}

abbrev pub Dict {ℓ} : Type ℓ → Type ℓ
Dict V = List (Text × V)

module _ {ℓ} {V : Type ℓ} where
  unfoldable pub lookup : Text → Dict V → Option V
  lookup k [] = none
  lookup k ((j, v) ∷ m) = if text_eq j k then some v else lookup k m

  unfoldable pub insert : Text → V → Dict V → Dict V
  insert k v [] = (k, v) ∷ []
  insert k v ((j, w) ∷ m) = if text_eq j k then (k, v) ∷ m else (j, w) ∷ insert k v m

  unfoldable pub remove : Text → Dict V → Dict V
  remove k [] = []
  remove k ((j, w) ∷ m) = let rest = remove k m in if text_eq j k then rest else (j, w) ∷ rest

  -- `m.retain(|_, v| p(v))`
  unfoldable pub retain : (V → Bool) → Dict V → Dict V
  unfolding keep
  retain p m = keep (λ e. p e.1) m

  -- no key stands twice
  abbrev pub IsMap : Dict V → Type ℓ
  IsMap [] = Unit
  IsMap ((k, _) ∷ m) = (lookup k m ≡ none) × IsMap m

  pub lookup-insert :
      (k j : Text) (v : V) (m : Dict V)
      → lookup j (insert k v m) ≡ (if text_eq k j then some v else lookup j m)
  unfolding lookup insert
  lookup-insert k j v [] = refl
  lookup-insert k j v ((i, w) ∷ m) =
      ground (arith, text_eq_iff k j, text_eq_iff i k, text_eq_iff i j, lookup-insert k j v m)

  pub lookup-remove :
      (k j : Text) (m : Dict V) → lookup j (remove k m) ≡ (if text_eq k j then none else lookup j m)
  unfolding lookup remove
  lookup-remove k j [] = ground arith
  lookup-remove k j ((i, w) ∷ m) =
      ground (arith, text_eq_iff k j, text_eq_iff i k, text_eq_iff i j, lookup-remove k j m)

  abbrev pub keep_value : (V → Bool) → Option V → Option V
  keep_value p none = none
  keep_value p (some v) = if p v then some v else none

  pub lookup-retain :
      (p : V → Bool) (k : Text) (m : Dict V)
      → IsMap m
      → lookup k (retain p m) ≡ keep_value p (lookup k m)
  unfolding lookup retain
  lookup-retain p k [] h = refl
  lookup-retain p k ((i, w) ∷ m) (fresh, h) = ground (arith, text_eq_iff i k, lookup-retain p k m h)

  pub insert-IsMap : (k : Text) (v : V) (m : Dict V) → IsMap m → IsMap (insert k v m)
  unfolding insert lookup
  insert-IsMap k v [] h = (refl, tt)
  insert-IsMap k v ((j, w) ∷ m) (fresh, h) =
      ground (arith, insert-IsMap k v m h, lookup-insert k j v m, text_eq_iff j k, text_eq_iff k j)

  pub remove-IsMap : (k : Text) (m : Dict V) → IsMap m → IsMap (remove k m)
  unfolding remove
  remove-IsMap k [] h = tt
  remove-IsMap k ((j, w) ∷ m) (fresh, h) = ground (arith, remove-IsMap k m h, lookup-remove k j m)

  pub retain-IsMap : (p : V → Bool) (m : Dict V) → IsMap m → IsMap (retain p m)
  unfolding retain
  retain-IsMap p [] h = tt
  retain-IsMap p ((j, w) ∷ m) (fresh, h) = ground (arith, retain-IsMap p m h, lookup-retain p j m h)
