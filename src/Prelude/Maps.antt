-- ===== src/Prelude/Maps.antt =====
-- `BTreeMap` with byte strings for keys: an association list, of which only lookups are observed.
use mathlib.Core.Path.{◌≡◌, refl}
use mathlib.Core.Bool.{Bool, true, false}
use mathlib.Core.List.{List, [], ◌∷◌}
use mathlib.Core.Option.{Option, none, some}
use native.Mathlib.Omega.{arith}
use lp_0005_private_token_ba.Prelude.Tests.{if◌then◌else◌}
use lp_0005_private_token_ba.Prelude.Words.{Bytes, bytes_eq, bytes_eq_iff}

abbrev pub ByteMap : Type 0 → Type 0
ByteMap V = List (Bytes × V)

module _ {V : Type 0} where
  unfoldable pub lookup : ByteMap V → Bytes → Option V
  lookup [] k = none
  lookup ((j, v) ∷ m) k = if bytes_eq j k then some v else lookup m k

  unfoldable pub contains_key : ByteMap V → Bytes → Bool
  contains_key m k = elim (lookup m k) [ none ↦ false | some v ↦ true ]

  unfoldable pub put : ByteMap V → Bytes → V → ByteMap V
  put [] k v = (k, v) ∷ []
  put ((j, w) ∷ m) k v = if bytes_eq j k then (k, v) ∷ m else (j, w) ∷ put m k v

  pub lookup-put :
      (m : ByteMap V) (k j : Bytes) (v : V)
      → lookup (put m k v) j ≡ (if bytes_eq k j then some v else lookup m j)
  unfolding lookup put
  lookup-put [] k j v = refl
  lookup-put ((i, w) ∷ m) k j v =
      ground (arith, bytes_eq_iff k j, bytes_eq_iff i k, bytes_eq_iff i j, lookup-put m k j v)
