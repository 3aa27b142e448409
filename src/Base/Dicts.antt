-- ===== src/Base/Dicts.antt =====
-- Python's dictionaries, with the insertion order of their keys.
use mathlib.Core.Path.{◌≡◌, refl}
use mathlib.Core.List.{List, [], ◌∷◌}
use mathlib.Core.Option.{Option, none, some}
use native.Mathlib.Omega.{arith}
use power_blockade.Base.Tests.{Eq, ◌==◌, if◌then◌else◌}

module _ {ℓ κ} {K : Type ℓ} {V : Type κ} ⦃e : Eq K⦄ where
  -- `d.get(key)`
  unfoldable pub lookup : K → List (K × V) → Option V
  lookup key [] = none
  lookup key ((k, v) ∷ d) = if k == key then some v else lookup key d

  -- `d[key] = v`
  unfoldable pub insert : K → V → List (K × V) → List (K × V)
  insert key v [] = (key, v) ∷ []
  insert key v ((k, w) ∷ d) =
      let rest = insert key v d in if k == key then (k, v) ∷ d else (k, w) ∷ rest

  pub lookup-insert :
      (key other : K) (v : V) (d : List (K × V))
      → lookup other (insert key v d) ≡ (if key == other then some v else lookup other d)
  unfolding insert lookup
  lookup-insert key other v [] = refl
  lookup-insert key other v ((k, w) ∷ d) =
      ground (
        arith,
        lookup-insert key other v d,
        e.beq_iff k key,
        e.beq_iff k other,
        e.beq_iff key other,
      )

  -- `d[key] = f(d.get(key))`
  pub lookup-update :
      (f : Option V → V) (key other : K) (d : List (K × V))
      → lookup other (insert key (f (lookup key d)) d)
        ≡ (if key == other then some (f (lookup other d)) else lookup other d)
  lookup-update f key other d =
      ground (arith, lookup-insert key other (f (lookup key d)) d, e.beq_iff key other)
