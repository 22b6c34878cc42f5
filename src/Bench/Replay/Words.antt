-- ===== src/Bench/Replay/Words.antt =====
-- The words of an instruction in crates/cu-bench/src/main.rs, written and read.
use lp_0005_private_token_ba.Prelude.{
  ℕ, ◌+◌, ◌*◌, ◌/◌, ◌%◌, ◌^◌, ◌<◌, ◌≡◌, refl, List, [], ◌∷◌, All, IsByte, le_bytes, length,
  length-append, length-le_bytes, true, ◌==◌, ok, arith,
}
use lp_0005_private_token_ba.Core.{word_bytes}
use lp_0005_private_token_ba.Text.{Hex, trim_0x}
use lp_0005_private_token_ba.Text.Trim.{trim_0x-digits}
use lp_0005_private_token_ba.Bench.Replay.{words_of, decode_instruction_data}

abbrev IsU32 : ℕ → Type 0
IsU32 w = w < 2 ^ 32

words_of-word_bytes : (words : List ℕ) → All IsU32 words → words_of (word_bytes words) ≡ words
unfolding words_of le_bytes word_bytes
words_of-word_bytes [] h = refl
words_of-word_bytes (w ∷ words) (range, h) =
    let whole : w % 256
          + 2 ^ 8 * (w / 256 % 256)
          + 2 ^ 16 * (w / 256 / 256 % 256)
          + 2 ^ 24 * (w / 256 / 256 / 256 % 256)
        ≡ w =
      omega (arith, range) in
    let rest = words_of-word_bytes words h in cc (whole, rest)

length-word_bytes : (words : List ℕ) → length (word_bytes words) ≡ 4 * length words
unfolding word_bytes
length-word_bytes [] = omega arith
length-word_bytes (w ∷ words) = omega (
  arith,
  length-append (le_bytes 4 w) (word_bytes words),
  length-le_bytes 4 w,
  length-word_bytes words,
)

word_bytes-IsByte : (words : List ℕ) → All IsByte (word_bytes words)
unfolding le_bytes word_bytes
word_bytes-IsByte [] = tt
word_bytes-IsByte (w ∷ words) =
    (omega arith, (omega arith, (omega arith, (omega arith, word_bytes-IsByte words))))

-- The words that an instruction is made of come back from the hexadecimal text of their
-- little-endian bytes, with the prefix `0x` and without it.
pub decode_instruction_data-word_bytes :
    (hex : Hex) (words : List ℕ)
    → All IsU32 words
    → (decode_instruction_data hex (hex.encode (word_bytes words)) ≡ ok words)
      × (decode_instruction_data hex (b'0' ∷ b'x' ∷ hex.encode (word_bytes words)) ≡ ok words)
unfolding decode_instruction_data
decode_instruction_data-word_bytes hex words range =
    let bytes = word_bytes words in
    let text = hex.encode bytes in
    let same = trim_0x-digits text (hex.encode-IsHexDigit bytes) in
    let prefixed : trim_0x (b'0' ∷ b'x' ∷ text) ≡ text = unfold trim_0x in same in
    let decoded = hex.decode_encode bytes (word_bytes-IsByte words) in
    let fits : (length bytes % 4 == 0) ≡ true = ground (arith, length-word_bytes words) in
    let back = words_of-word_bytes words range in
    (rw (same, decoded, fits, back) refl, rw (prefixed, decoded, fits, back) refl)
