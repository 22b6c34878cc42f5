-- ===== src/Core/Layout.antt =====
-- Lengths of the parts that the hashes of attestation-core take, and what their bytes determine.
use lp_0005_private_token_ba.Prelude.{
  ℕ, ◌*◌, ◌^◌, ◌<◌, ◌≡◌, refl, List, [], ◌∷◌, IsU128, le_bytes, length-le_bytes, le_bytes-injective,
  length, length-append, append-injective, All, arith,
}
use lp_0005_private_token_ba.Core.{word_bytes}

pub length-word_bytes : (words : List ℕ) → length (word_bytes words) ≡ 4 * length words
unfolding word_bytes
length-word_bytes [] = refl
length-word_bytes (w ∷ words) = omega (
  arith,
  length-append {0} (le_bytes 4 w) (word_bytes words),
  length-le_bytes 4 w,
  length-word_bytes words,
)

pub word_bytes-injective :
    (us vs : List ℕ)
    → All (λ w. w < 2 ^ 32) us
    → All (λ w. w < 2 ^ 32) vs
    → word_bytes us ≡ word_bytes vs
    → us ≡ vs
unfolding word_bytes
word_bytes-injective [] [] hu hv e = refl
word_bytes-injective [] (v ∷ vs) hu hv e = unfold le_bytes in cc
word_bytes-injective (u ∷ us) [] hu hv e = unfold le_bytes in cc
word_bytes-injective (u ∷ us) (v ∷ vs) (hu, hus) (hv, hvs) e =
    let (eh, et) =
      append-injective (le_bytes 4 u) (word_bytes us) (le_bytes 4 v) (word_bytes vs)
        (omega (arith, length-le_bytes 4 u, length-le_bytes 4 v)) e in
    cc (le_bytes-injective 4 u v hu hv eh, word_bytes-injective us vs hus hvs et)

-- Two u128 values with the same bytes are the same.
pub u128_bytes-injective : (x y : ℕ) → IsU128 x → IsU128 y → le_bytes 16 x ≡ le_bytes 16 y → x ≡ y
u128_bytes-injective x y hx hy e = le_bytes-injective 16 x y hx hy e

pub u128_lengths : (x y : ℕ) → length (le_bytes 16 x) ≡ length (le_bytes 16 y)
u128_lengths x y = omega (arith, length-le_bytes 16 x, length-le_bytes 16 y)
