-- ===== src/Prelude/Words.antt =====
-- Byte strings: their equality test, the little-endian bytes of a machine word, and the bytes of
-- an ASCII text.
use Prim.Native.Nat.{ℕ, zero, suc, ◌/◌, ◌%◌, ◌^◌, ◌<◌}
use Prim.Native.Char.{code}
use Prim.Native.String.{String}
use mathlib.Core.Path.{◌≡◌, refl, ap}
use mathlib.Core.Logic.{◌↔◌, ◌⊎◌, inl, inr, ◌≢◌}
use mathlib.Core.Bool.{Bool, true, false, ◌&&◌}
use mathlib.Core.List.{List, [], ◌∷◌}
use native.Mathlib.Omega.{arith}
use lp_0005_private_token_ba.Prelude.Tests.{◌==◌, Bool-cases}
use lp_0005_private_token_ba.Prelude.Lists.{length, All}

abbrev pub Bytes : Type 0
Bytes = List ℕ

abbrev pub IsByte : ℕ → Type 0
IsByte b = b < 256

abbrev pub IsU128 : ℕ → Type 0
IsU128 n = n < 2 ^ 128

unfoldable pub bytes_eq : Bytes → Bytes → Bool
bytes_eq [] [] = true
bytes_eq [] (y ∷ ys) = false
bytes_eq (x ∷ xs) [] = false
bytes_eq (x ∷ xs) (y ∷ ys) = x == y && bytes_eq xs ys

pub bytes_eq_iff : (xs ys : Bytes) → (bytes_eq xs ys ≡ true) ↔ (xs ≡ ys)
unfolding bytes_eq
bytes_eq_iff [] [] = ground arith
bytes_eq_iff [] (y ∷ ys) = ground arith
bytes_eq_iff (x ∷ xs) [] = ground arith
bytes_eq_iff (x ∷ xs) (y ∷ ys) = ground (arith, bytes_eq_iff xs ys)

pub bytes_eq_refl : (xs : Bytes) → bytes_eq xs xs ≡ true
bytes_eq_refl xs = (bytes_eq_iff xs xs).1 refl

pub bytes_eq_cases : (xs ys : Bytes) → (xs ≡ ys) ⊎ (xs ≢ ys)
bytes_eq_cases xs ys = elim (Bool-cases (bytes_eq xs ys)) [
  | inl e ↦ inl ((bytes_eq_iff xs ys).0 e)
  | inr e ↦ inr (λ p. cc (e, (bytes_eq_iff xs ys).1 p))
]

pub bytes_eq_ne : (xs ys : Bytes) → bytes_eq xs ys ≡ false → xs ≢ ys
bytes_eq_ne xs ys h e = cc (h, (bytes_eq_iff xs ys).1 e)

pub ne_bytes_eq : (xs ys : Bytes) → xs ≢ ys → bytes_eq xs ys ≡ false
ne_bytes_eq xs ys ne = elim (Bool-cases (bytes_eq xs ys)) [
  | inl same ↦ absurd (ne ((bytes_eq_iff xs ys).0 same))
  | inr differ ↦ differ
]

-- `to_le_bytes` of a word of `n` bytes.
unfoldable pub le_bytes : ℕ → ℕ → Bytes
le_bytes zero x = []
le_bytes (suc n) x = (x % 256) ∷ le_bytes n (x / 256)

pub length-le_bytes : (n x : ℕ) → length (le_bytes n x) ≡ n
unfolding le_bytes
length-le_bytes zero x = refl
length-le_bytes (suc n) x = ap suc (length-le_bytes n (x / 256))

pub le_bytes-IsByte : (n x : ℕ) → All IsByte (le_bytes n x)
unfolding le_bytes
le_bytes-IsByte zero x = tt
le_bytes-IsByte (suc n) x = (omega arith, le_bytes-IsByte n (x / 256))

-- A word that fits is determined by its bytes.
pub le_bytes-injective :
    (n x y : ℕ) → x < 256 ^ n → y < 256 ^ n → le_bytes n x ≡ le_bytes n y → x ≡ y
unfolding le_bytes
le_bytes-injective zero x y hx hy e = omega arith
le_bytes-injective (suc n) x y hx hy e =
    ground (arith, le_bytes-injective n (x / 256) (y / 256) (omega arith) (omega arith))

-- The code points of a text, which are its bytes where it is ASCII.
abbrev pub codes : String → Bytes
codes String.[] = []
codes (String.◌∷◌ c s) = code c ∷ codes s
