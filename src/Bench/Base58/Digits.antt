-- ===== src/Bench/Base58/Digits.antt =====
-- The digits that bs58_encode of crates/cu-bench/src/main.rs keeps: their value and their range.
use native.Mathlib.Nat.{pow-suc}
use lp_0005_private_token_ba.Prelude.{
  ℕ, zero, suc, ◌+◌, ◌*◌, ◌/◌, ◌%◌, ◌^◌, ◌≤◌, ◌<◌, ◌≡◌, refl, ap, ◌∙◌, List, [], ◌∷◌, ◌++◌, Bytes,
  All, IsByte, some, ◌==◌, length, arith, Bool-cases, inl, inr,
}
use lp_0005_private_token_ba.Bench.Base58.{absorb, push_carry, add_byte, encode_digits}

-- The number that digits stand for, the least significant first.
unfoldable pub value : List ℕ → ℕ
value [] = 0
value (d ∷ ds) = d + 58 * value ds

-- Digits in range, with no zero at the most significant end.
abbrev pub IsNumeral : List ℕ → Type 0
IsNumeral [] = Unit {0}
IsNumeral (d ∷ ds) = (d < 58) × (0 < value (d ∷ ds)) × IsNumeral ds

-- The number that bytes stand for, the most significant first.
unfoldable pub be_value : ℕ → Bytes → ℕ
be_value acc [] = acc
be_value acc (b ∷ bytes) = be_value (256 * acc + b) bytes

-- Enough fuel for the carry: its digits.
value-push_carry :
    (fuel carry : ℕ)
    → carry < fuel
    → (ds : List ℕ) × (push_carry fuel carry ≡ some ds) × (value ds ≡ carry) × IsNumeral ds
unfolding push_carry value
value-push_carry zero carry h = absurd (omega arith)
value-push_carry (suc fuel) carry h = elim (Bool-cases (carry == 0)) [
  | inl done ↦ ([], rw done refl, ground arith, tt)
  | inr more ↦
      let below : carry / 58 < fuel = ground arith in
      let (ds, pushed, same, numeral) = value-push_carry fuel (carry / 58) below in
      let whole : carry % 58 % 256 + 58 * value ds ≡ carry = omega (arith, same) in
      let positive : 0 < carry = ground arith in
      (
        (carry % 58 % 256) ∷ ds,
        rw (more, pushed) refl,
        whole,
        (omega arith, omega (arith, whole), numeral),
      )
]

-- The digits after the `for`, with those of the carry behind them.
absorb-value :
    (carry : ℕ) (ds p : List ℕ)
    → value p ≡ (absorb carry ds).1
    → value ((absorb carry ds).0 ++ p) ≡ carry + 256 * value ds
unfolding absorb value
absorb-value carry [] p e = omega (arith, e)
absorb-value carry (d ∷ ds) p e = omega (arith, absorb-value ((carry + d * 256) / 58) ds p e)

absorb-IsNumeral :
    (carry : ℕ) (ds p : List ℕ)
    → IsNumeral ds
    → IsNumeral p
    → value p ≡ (absorb carry ds).1
    → IsNumeral ((absorb carry ds).0 ++ p)
unfolding absorb value
absorb-IsNumeral carry [] p hs hp e = hp
absorb-IsNumeral carry (d ∷ ds) p (small, positive, hs) hp e = (
  omega arith,
  omega (arith, absorb-value ((carry + d * 256) / 58) ds p e),
  absorb-IsNumeral ((carry + d * 256) / 58) ds p hs hp e,
)

pub add_byte-value :
    (byte : ℕ) (ds : List ℕ)
    → IsNumeral ds
    → (out : List ℕ) × (add_byte byte ds ≡ some out)
      × (value out ≡ 256 * value ds + byte)
      × IsNumeral out
unfolding add_byte
add_byte-value byte ds numeral =
    let carry = (absorb byte ds).1 in
    let (p, pushed, same, top) = value-push_carry (suc carry) carry (omega arith) in
    (
      (absorb byte ds).0 ++ p,
      rw pushed refl,
      omega (arith, absorb-value byte ds p same),
      absorb-IsNumeral byte ds p numeral top same,
    )

pub encode_digits-value :
    (ds : List ℕ) (input : Bytes)
    → IsNumeral ds
    → (out : List ℕ) × (encode_digits ds input ≡ some out)
      × (value out ≡ be_value (value ds) input)
      × IsNumeral out
unfolding encode_digits be_value
encode_digits-value ds [] numeral = (ds, refl, refl, numeral)
encode_digits-value ds (byte ∷ input) numeral =
    let (next, added, same, numeral') = add_byte-value byte ds numeral in
    let (out, encoded, whole, top) = encode_digits-value next input numeral' in
    (out, rw added encoded, whole ∙ ap (λ v. be_value v input) same, top)

-- A number below a power of 58 has at most as many digits.
pub length-IsNumeral : (k : ℕ) (ds : List ℕ) → IsNumeral ds → value ds < 58 ^ k → length ds ≤ k
unfolding value
length-IsNumeral k [] h small = omega arith
length-IsNumeral zero (d ∷ ds) (range, positive, h) small = absurd (omega arith)
length-IsNumeral (suc k) (d ∷ ds) (range, positive, h) small =
    let small' : value ds < 58 ^ k = omega (arith, pow-suc 58 k) in
    omega (arith, length-IsNumeral k ds h small')

pub be_value_lt :
    (acc n : ℕ) (bytes : Bytes)
    → All IsByte bytes
    → acc < 256 ^ n
    → (m : ℕ) → m ≡ n + length bytes
    → be_value acc bytes < 256 ^ m
unfolding be_value
be_value_lt acc n [] h small m e = let same : m ≡ n = omega (arith, e) in rw same small
be_value_lt acc n (b ∷ bytes) (range, h) small m e =
    be_value_lt (256 * acc + b) (suc n) bytes h (omega (arith, pow-suc 256 n)) m (omega (arith, e))

-- Bytes of one length are determined by their value.
pub be_value-injective :
    (acc acc' : ℕ) (xs ys : Bytes)
    → All IsByte xs
    → All IsByte ys
    → length xs ≡ length ys
    → be_value acc xs ≡ be_value acc' ys
    → (acc ≡ acc') × (xs ≡ ys)
unfolding be_value
be_value-injective acc acc' [] [] hx hy l e = (e, refl)
be_value-injective acc acc' [] (y ∷ ys) hx hy l e = absurd (omega arith)
be_value-injective acc acc' (x ∷ xs) [] hx hy l e = absurd (omega arith)
be_value-injective acc acc' (x ∷ xs) (y ∷ ys) (rx, hx) (ry, hy) l e =
    let (front, same) =
      be_value-injective (256 * acc + x) (256 * acc' + y) xs ys hx hy (omega (arith, l)) e in
    let head : x ≡ y = omega (arith, front) in (omega (arith, front), cc (head, same))
