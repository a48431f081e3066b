-- ===== src/Base/Maps.antt =====
-- Go maps keyed by names. A map that is only read and written by key is a function with the
-- value of a missing key; a map that is iterated is a list of entries with distinct keys, and
-- iteration goes through the list in an order that no theorem depends on.
use Prim.Native.String.{String}
use mathlib.Core.Option.{Option, none, some}
use mathlib.Core.List.{List, [], ◌∷◌}
use plecture.Base.Tests.{if◌then◌else◌}
use plecture.Base.Texts.{◌==◌}

module _ {ℓ} {V : Type ℓ} where
  abbrev pub update : (String → V) → String → V → String → V
  update f k v j = if j == k then v else f j

  abbrev pub lookup : String → List (String × V) → Option V
  lookup name [] = none
  lookup name ((key, value) ∷ rest) = if key == name then some value else lookup name rest

  abbrev pub keys : List (String × V) → List String
  keys [] = []
  keys ((k, v) ∷ m) = k ∷ keys m
