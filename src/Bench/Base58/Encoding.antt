-- ===== src/Bench/Base58/Encoding.antt =====
-- The texts of bs58_encode of crates/cu-bench/src/main.rs, read back by the base-58 alphabet.
use mathlib.Core.Path.{subst}
use mathlib.Core.List.{reverse, reverse-cons, map-append}
use lp_0005_private_token_ba.Prelude.{
  ℕ, zero, suc, ◌+◌, ◌*◌, ◌-◌, ◌^◌, ◌≤◌, ◌<◌, ◌≡◌, refl, sym, ◌∙◌, List, [], ◌∷◌, ◌++◌, map,
  append_assoc, append-nil, Bytes, All, IsByte, some, Bool, true, ◌==◌, leb, all_below,
  all_below_lem, ==_iff, leb→le, if◌then◌else◌, length, length-snoc, length-replicate, replicate,
  arith, Bool-cases, inl, inr,
}
use lp_0005_private_token_ba.Bench.Base58.{
  alphabet, symbol, count_leading, print_digits, bs58_encode,
}
use lp_0005_private_token_ba.Bench.Base58.Digits.{
  value, IsNumeral, be_value, encode_digits-value, length-IsNumeral, be_value_lt,
  be_value-injective,
}

-- The position of a character in the alphabet, the first one.
abbrev pub position : Bytes → ℕ → ℕ
position [] c = 0
position (t ∷ table) c = let later = suc (position table c) in if t == c then 0 else later

-- The number that a text stands for: the digits of its characters, the most significant first.
unfoldable pub text_value : ℕ → Bytes → ℕ
text_value acc [] = acc
text_value acc (c ∷ text) = text_value (58 * acc + position alphabet c) text

text_value-snoc :
    (acc : ℕ) (text : Bytes) (c : ℕ)
    → text_value acc (text ++ (c ∷ [])) ≡ 58 * text_value acc text + position alphabet c
unfolding text_value
text_value-snoc acc [] c = refl
text_value-snoc acc (t ∷ text) c = text_value-snoc (58 * acc + position alphabet t) text c

text_value-ones : (n : ℕ) → text_value 0 (replicate n b'1') ≡ 0
unfolding text_value
text_value-ones zero = refl
text_value-ones (suc n) = text_value-ones n

abbrev reads_back : ℕ → Bool
reads_back d = position alphabet (symbol d) == d

all_read_back : all_below 58 reads_back ≡ true
unfolding symbol
all_read_back = refl

position-symbol : (d : ℕ) → d < 58 → position alphabet (symbol d) ≡ d
position-symbol d h = (==_iff _ d).0 (all_below_lem 58 reads_back all_read_back d h)

-- The least significant digit is printed last.
print_digits-cons :
    (n d : ℕ) (ds : List ℕ) → print_digits n (d ∷ ds) ≡ print_digits n ds ++ (symbol d ∷ [])
unfolding print_digits
print_digits-cons n d ds =
    let ones : Bytes = replicate n b'1' in
    rw (reverse-cons d ds, map-append symbol (reverse ds) (d ∷ []))
      (sym (append_assoc ones (map symbol (reverse ds)) (symbol d ∷ [])))

text_value-print_digits :
    (n : ℕ) (ds : List ℕ) → IsNumeral ds → text_value 0 (print_digits n ds) ≡ value ds
unfolding value
text_value-print_digits n [] h =
    unfold print_digits in rw (append-nil {A = ℕ} (replicate n b'1')) (text_value-ones n)
text_value-print_digits n (d ∷ ds) (range, positive, h) = rw (print_digits-cons n d ds) (
    text_value-snoc 0 (print_digits n ds) (symbol d)
    ∙ omega (arith, text_value-print_digits n ds h, position-symbol d range))

length-print_digits : (n : ℕ) (ds : List ℕ) → length (print_digits n ds) ≡ n + length ds
length-print_digits n [] =
    unfold print_digits in
    rw (append-nil {A = ℕ} (replicate n b'1')) (length-replicate n b'1' ∙ omega arith)
length-print_digits n (d ∷ ds) =
    rw (print_digits-cons n d ds)
      (omega (arith, length-snoc (print_digits n ds) (symbol d), length-print_digits n ds))

-- The text of an account id stands, in the base-58 alphabet, for the number that the id's bytes stand
-- for; the loops end.
pub bs58_encode-text_value :
    (input : Bytes)
    → (text : Bytes) × (bs58_encode input ≡ some text) × (text_value 0 text ≡ be_value 0 input)
unfolding bs58_encode value
bs58_encode-text_value input =
    let (ds, encoded, same, numeral) = encode_digits-value [] input tt in
    (
      print_digits (count_leading 0 input) ds,
      rw encoded refl,
      text_value-print_digits (count_leading 0 input) ds numeral ∙ same,
    )

-- Two account ids, or two byte strings of one length, with the same text are the same.
pub bs58_encode-injective :
    (xs ys : Bytes)
    → All IsByte xs
    → All IsByte ys
    → length xs ≡ length ys
    → bs58_encode xs ≡ bs58_encode ys
    → xs ≡ ys
bs58_encode-injective xs ys hx hy l e =
    let (text, encoded, value_x) = bs58_encode-text_value xs in
    let (text', encoded', value_y) = bs58_encode-text_value ys in
    let same : some text ≡ some text' = sym encoded ∙ e ∙ encoded' in
    let values : be_value 0 xs ≡ be_value 0 ys = sym value_x ∙ cc same ∙ value_y in
    (be_value-injective 0 0 xs ys hx hy l values).1

-- Zeros at the front do not count towards the value.
count_leading-be_value :
    (input : Bytes)
    → All IsByte input
    → (count_leading 0 input ≤ length input)
      × (be_value 0 input < 256 ^ (length input - count_leading 0 input))
unfolding count_leading be_value
count_leading-be_value [] h = (omega arith, omega arith)
count_leading-be_value (b ∷ input) (range, h) = elim (Bool-cases (b == 0)) [
  | inl zero_byte ↦
      let no_byte : 256 * 0 + b ≡ 0 = ground arith in
      let (few, small) = count_leading-be_value input h in
      let less : suc (length input) - suc (count_leading 0 input)
          ≡ length input - count_leading 0 input =
        omega arith in
      rw (zero_byte, no_byte, less) (omega (arith, few), small)
  | inr other ↦
      let fits : 256 * 0 + b < 256 ^ 1 = omega (arith, range) in
      let whole : suc (length input) - 0 ≡ suc (length input) = omega arith in
      rw (other, whole)
        (omega arith, be_value_lt (256 * 0 + b) 1 input h fits (suc (length input)) (omega arith))
]

-- Account ids of 32 bytes: digits of the value against the capacity, for every number of leading zeros.
abbrev fits : ℕ → Bool
fits zeros = leb (256 ^ (32 - zeros)) (58 ^ (44 - zeros))

all_fit : all_below 33 fits ≡ true
all_fit = refl

-- The text of a 32-byte account id has at most 44 characters, and so fits the 45 digits that the code
-- reserves.
pub length-bs58_encode :
    (input : Bytes)
    → All IsByte input
    → length input ≡ 32
    → (text : Bytes) × (bs58_encode input ≡ some text) × (length text ≤ 44)
unfolding bs58_encode value
length-bs58_encode input h size =
    let zeros = count_leading 0 input in
    let (ds, encoded, same, numeral) = encode_digits-value [] input tt in
    let (few, small) = count_leading-be_value input h in
    let room : 256 ^ (32 - zeros) ≤ 58 ^ (44 - zeros) =
      leb→le (256 ^ (32 - zeros)) (58 ^ (44 - zeros))
        (all_below_lem 33 fits all_fit zeros (omega (arith, few, size))) in
    let small' : be_value 0 input < 256 ^ (32 - zeros) =
      subst (λ k. be_value 0 input < 256 ^ (k - zeros)) size small in
    let below : value ds < 58 ^ (44 - zeros) = omega (arith, same, small', room) in
    let short = length-IsNumeral (44 - zeros) ds numeral below in
    (
      print_digits zeros ds,
      rw encoded refl,
      omega (arith, length-print_digits zeros ds, short, few, size),
    )
