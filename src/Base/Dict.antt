-- ===== src/Base/Dict.antt =====
-- Python's `dict` with `str` keys, as an association list in insertion order.
use Prim.Native.String.{String}
use mathlib.Core.Path.{◌≡◌, refl}
use mathlib.Core.Option.{Option, none, some}
use mathlib.Core.List.{List, [], ◌∷◌}
use native.Mathlib.Omega.{arith}
use text.Mathlib.Text.{◌==◌ as str_eq}
use text.Mathlib.TextEquality.{eq_iff}
use sql_gateway_poc.Base.Tests.{if◌then◌else◌}

abbrev pub Dict {ℓ} : Type ℓ → Type ℓ
Dict V = List (String × V)

module _ {ℓ} {V : Type ℓ} where
  -- d.get(key)
  unfoldable pub lookup : String → Dict V → Option V
  lookup key [] = none
  lookup key ((k, v) ∷ d) = if str_eq k key then some v else lookup key d

  -- d[key] = value
  unfoldable pub insert : String → V → Dict V → Dict V
  insert key value [] = (key, value) ∷ []
  insert key value ((k, v) ∷ d) =
      if str_eq k key then (k, value) ∷ d else (k, v) ∷ insert key value d

  -- d.pop(key, None)
  unfoldable pub remove : String → Dict V → Dict V
  remove key [] = []
  remove key ((k, v) ∷ d) = let rest = remove key d in if str_eq k key then rest else (k, v) ∷ rest

  pub lookup-insert :
      (key j : String) (value : V) (d : Dict V)
      → lookup j (insert key value d) ≡ (if str_eq key j then some value else lookup j d)
  unfolding lookup insert
  lookup-insert key j value [] = refl
  lookup-insert key j value ((k, v) ∷ d) =
      ground (arith, eq_iff key j, eq_iff k key, eq_iff k j, lookup-insert key j value d)

  pub lookup-remove :
      (key j : String) (d : Dict V)
      → lookup j (remove key d) ≡ (if str_eq key j then none else lookup j d)
  unfolding lookup remove
  lookup-remove key j [] = ground arith
  lookup-remove key j ((k, v) ∷ d) =
      ground (arith, eq_iff key j, eq_iff k key, eq_iff k j, lookup-remove key j d)
