-- ===== src/Bench/Base58.antt =====
-- bs58_encode of crates/cu-bench/src/main.rs. Digits are kept with the least significant first. The inner
-- `while` runs on fuel, and `none` says that the fuel ran out.
pub mod Digits
pub mod Encoding
use mathlib.Core.List.{reverse}
use lp_0005_private_token_ba.Prelude.{
  ℕ, zero, suc, ◌+◌, ◌*◌, ◌/◌, ◌%◌, ◌^◌, List, [], ◌∷◌, ◌++◌, map, Bytes, codes, Option, some, none,
  ◌==◌, if◌then◌else◌, replicate,
}

abbrev pub alphabet : Bytes
alphabet = codes "123456789ABCDEFGHJKLMNPQRSTUVWXYZabcdefghijkmnopqrstuvwxyz"

-- `ALPHABET[d]`, for a digit below 58.
abbrev pub char_at : Bytes → ℕ → ℕ
char_at [] i = 0
char_at (c ∷ table) zero = c
char_at (c ∷ table) (suc i) = char_at table i

unfoldable pub symbol : ℕ → ℕ
symbol d = char_at alphabet d

-- The `for` over the digits: `carry` runs through them, each digit a `u8` again.
unfoldable pub absorb : ℕ → List ℕ → List ℕ × ℕ
absorb carry [] = ([], carry)
absorb carry (digit ∷ digits) =
    let carry' = carry + digit * 2 ^ 8 in
    let (rest, out) = absorb (carry' / 58) digits in ((carry' % 58 % 2 ^ 8) ∷ rest, out)

abbrev pub prepend : ℕ → Option (List ℕ) → Option (List ℕ)
prepend d none = none
prepend d (some ds) = some (d ∷ ds)

-- The `while` that pushes what is left of the carry.
unfoldable pub push_carry : ℕ → ℕ → Option (List ℕ)
push_carry zero carry = none
push_carry (suc fuel) carry =
    let rest = prepend (carry % 58 % 2 ^ 8) (push_carry fuel (carry / 58)) in
    if carry == 0 then some [] else rest

abbrev pub extend : List ℕ → Option (List ℕ) → Option (List ℕ)
extend digits none = none
extend digits (some pushed) = some (digits ++ pushed)

-- The digits after one byte.
unfoldable pub add_byte : ℕ → List ℕ → Option (List ℕ)
add_byte byte digits =
    let (absorbed, carry) = absorb byte digits in extend absorbed (push_carry (suc carry) carry)

abbrev pub and_then : {A B : Type 0} → Option A → (A → Option B) → Option B
and_then none f = none
and_then (some a) f = f a

unfoldable pub encode_digits : List ℕ → Bytes → Option (List ℕ)
encode_digits digits [] = some digits
encode_digits digits (byte ∷ input) =
    and_then (add_byte byte digits) λ digits'. encode_digits digits' input

-- `take_while(|b| b == 0).count()`, at any byte.
unfoldable pub count_leading : ℕ → Bytes → ℕ
count_leading c [] = 0
count_leading c (b ∷ input) = if b == c then suc (count_leading c input) else 0

unfoldable pub print_digits : ℕ → List ℕ → Bytes
print_digits leading_zeros digits = replicate leading_zeros b'1' ++ map symbol (reverse digits)

abbrev pub map_digits : ℕ → Option (List ℕ) → Option Bytes
map_digits leading_zeros none = none
map_digits leading_zeros (some digits) = some (print_digits leading_zeros digits)

unfoldable pub bs58_encode : Bytes → Option Bytes
bs58_encode input = map_digits (count_leading 0 input) (encode_digits [] input)
