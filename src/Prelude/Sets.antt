-- ===== src/Prelude/Sets.antt =====
-- `BTreeSet` of byte strings: only membership is observed, so the order of keys is not modelled.
use mathlib.Core.Path.{◌≡◌}
use mathlib.Core.Bool.{Bool, true, false, ◌||◌}
use mathlib.Core.List.{List, [], ◌∷◌}
use native.Mathlib.Omega.{arith}
use lp_0005_private_token_ba.Prelude.Tests.{if◌then◌else◌}
use lp_0005_private_token_ba.Prelude.Words.{Bytes, bytes_eq, bytes_eq_iff}

abbrev pub ByteSet : Type 0
ByteSet = List Bytes

unfoldable pub contains : ByteSet → Bytes → Bool
contains [] b = false
contains (x ∷ xs) b = bytes_eq x b || contains xs b

-- `insert` returns the new set and whether the key was new.
unfoldable pub insert : ByteSet → Bytes → ByteSet × Bool
insert s b = if contains s b then (s, false) else (b ∷ s, true)

pub contains-insert :
    (s : ByteSet) (b c : Bytes) → contains (insert s b).0 c ≡ bytes_eq b c || contains s c
unfolding insert contains
contains-insert s b c = ground (arith, bytes_eq_iff b c)

-- No key stands twice.
abbrev pub Distinct : ByteSet → Type 0
Distinct [] = Unit {0}
Distinct (x ∷ xs) = (contains xs x ≡ false) × Distinct xs
