-- ===== src/Text/Decimal.antt =====
-- Decimal texts, read back.
use native.Mathlib.Nat.{pow-suc}
use lp_0005_private_token_ba.Prelude.{
  ℕ, zero, suc, ◌+◌, ◌-◌, ◌*◌, ◌/◌, ◌%◌, ◌^◌, ◌<◌, ◌≡◌, refl, ap, ◌∙◌, List, [], ◌∷◌, ◌++◌, map,
  Bytes, All, IsByte, IsU128, false, ltb, ◌==◌, if◌then◌else◌, arith, Bool-cases, inl, inr,
}
use lp_0005_private_token_ba.Text.{decimal_onto, decimal, join}

-- The numbers of a text of decimal numbers with commas between them, the first one read so far as `acc`.
unfoldable pub read_numbers : ℕ → Bytes → List ℕ
read_numbers acc [] = acc ∷ []
read_numbers acc (c ∷ text) =
    let first = acc ∷ read_numbers 0 text in
    let longer = read_numbers (10 * acc + (c - b'0')) text in if c == b',' then first else longer

read_numbers-decimal_onto :
    (n x : ℕ) (text : Bytes)
    → x < 10 ^ n
    → read_numbers 0 (decimal_onto n x text) ≡ read_numbers x text
unfolding decimal_onto
read_numbers-decimal_onto zero x text h = let none_left : x ≡ 0 = omega arith in rw none_left refl
read_numbers-decimal_onto (suc n) x text h =
    let digit = b'0' + x % 10 in
    let shown : (acc : ℕ)
        → 10 * acc + x % 10 ≡ x
        → read_numbers acc (digit ∷ text) ≡ read_numbers x text =
      λ acc e.
        let no_comma : (digit == b',') ≡ false = ground arith in
        let whole : 10 * acc + (digit - b'0') ≡ x = omega (arith, e) in
        unfold read_numbers in rw (no_comma, whole) refl in
    elim (Bool-cases (ltb x 10)) [
      | inl small ↦ rw small (shown 0 (ground arith))
      | inr large ↦ rw large (
          read_numbers-decimal_onto n (x / 10) (digit ∷ text) (omega (arith, pow-suc 10 n))
          ∙ shown (x / 10) (omega arith))
    ]

-- A `u128` has at most 39 digits.
pub read_numbers-decimal : (x : ℕ) → IsU128 x → read_numbers 0 (decimal x) ≡ x ∷ []
unfolding decimal read_numbers
read_numbers-decimal x h = read_numbers-decimal_onto 39 x [] (omega (arith, h))

decimal_onto-append :
    (n x : ℕ) (front text : Bytes)
    → decimal_onto n x front ++ text ≡ decimal_onto n x (front ++ text)
unfolding decimal_onto
decimal_onto-append zero x front text = refl
decimal_onto-append (suc n) x front text = elim (Bool-cases (ltb x 10)) [
  | inl small ↦ rw small refl
  | inr large ↦ rw large (decimal_onto-append n (x / 10) ((b'0' + x % 10) ∷ front) text)
]

pub read_numbers-join :
    (b : ℕ) (bytes : Bytes)
    → IsByte b
    → All IsByte bytes
    → read_numbers 0 (join (map decimal (b ∷ bytes))) ≡ b ∷ bytes
unfolding decimal read_numbers
read_numbers-join b [] h _ = read_numbers-decimal b (omega (arith, h))
read_numbers-join b (c ∷ bytes) h (hc, hs) =
    let later = join (map decimal (c ∷ bytes)) in
    rw (decimal_onto-append 39 b [] (b',' ∷ later)) (
      read_numbers-decimal_onto 39 b (b',' ∷ later) (omega (arith, h))
      ∙ ap (λ t. b ∷ t) (read_numbers-join c bytes hc hs))
