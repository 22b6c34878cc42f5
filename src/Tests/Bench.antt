-- ===== src/Tests/Bench.antt =====
-- The base58 texts and the instruction words of the cycle benchmark at concrete inputs.
use lp_0005_private_token_ba.Prelude.{
  ◌≡◌, ◌≤◌, refl, ◌∷◌, Bytes, codes, length, replicate, some, arith,
}
use lp_0005_private_token_ba.Bench.Base58.{
  bs58_encode, encode_digits, add_byte, absorb, push_carry, print_digits, symbol, count_leading,
}
use lp_0005_private_token_ba.Bench.Base58.Digits.{be_value}
use lp_0005_private_token_ba.Bench.Base58.Encoding.{
  text_value, bs58_encode-text_value, bs58_encode-injective, length-bs58_encode,
}

-- An account id with a zero in front.
abbrev id : Bytes
id = 0 ∷ 0x74 ∷ replicate 30 0x5e

bs58_encode-text_value_example :
    (text : Bytes) × (bs58_encode id ≡ some text) × (text_value 0 text ≡ be_value 0 id)
bs58_encode-text_value_example = bs58_encode-text_value id

length-bs58_encode_example : (text : Bytes) × (bs58_encode id ≡ some text) × (length text ≤ 44)
length-bs58_encode_example = length-bs58_encode id (omega arith) refl

bs58_encode-injective_example : id ≡ id
bs58_encode-injective_example = bs58_encode-injective id id (omega arith) (omega arith) refl refl

known_text : bs58_encode (codes "hello world") ≡ some (codes "StV1DL6CwTryKyV")
unfolding bs58_encode encode_digits add_byte absorb push_carry print_digits symbol count_leading
known_text = refl
