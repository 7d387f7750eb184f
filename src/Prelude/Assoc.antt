-- ===== src/Prelude/Assoc.antt =====
-- An object used as a map: its entries in the order their keys were first set.
use mathlib.Core.Path.{◌≡◌, refl}
use mathlib.Core.Bool.{Bool}
use mathlib.Core.List.{List, [], ◌∷◌}
use mathlib.Core.Option.{Option, none, some}
use native.Mathlib.Omega.{arith}
use openwrt_configurator.Prelude.Tests.{if◌then◌else◌, is_some}
use openwrt_configurator.Prelude.Texts.{Text, text_eq, text_eq_iff}

abbrev pub Object {ℓ} : Type ℓ → Type ℓ
Object V = List (Text × V)

module _ {ℓ} {V : Type ℓ} where
  -- `o[k]`.
  unfoldable pub lookup : Text → Object V → Option V
  unfolding text_eq
  lookup k [] = none
  lookup k ((j, v) ∷ o) = if text_eq j k then some v else lookup k o

  -- `k in o`.
  unfoldable pub has_key : Text → Object V → Bool
  unfolding lookup
  has_key k o = is_some (lookup k o)

  -- `o[k] = v`: a key that is there keeps its place.
  unfoldable pub put : Text → V → Object V → Object V
  unfolding text_eq
  put k v [] = (k, v) ∷ []
  put k v ((j, w) ∷ o) = if text_eq j k then (j, v) ∷ o else (j, w) ∷ put k v o

  -- `Object.keys(o)`.
  unfoldable pub keys : Object V → List Text
  keys [] = []
  keys ((k, v) ∷ o) = k ∷ keys o

  -- `{ ...o, ...over }`.
  unfoldable pub spread : Object V → Object V → Object V
  unfolding put
  spread o [] = o
  spread o ((k, v) ∷ over) = spread (put k v o) over

  pub lookup-put :
      (k j : Text) (v : V) (o : Object V)
      → lookup j (put k v o) ≡ (if text_eq k j then some v else lookup j o)
  unfolding lookup put
  lookup-put k j v [] = refl
  lookup-put k j v ((i, w) ∷ o) =
      ground (arith, text_eq_iff k j, text_eq_iff i k, text_eq_iff i j, lookup-put k j v o)
