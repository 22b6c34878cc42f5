-- ===== src/Text.antt =====
-- What the programs use of Rust's texts, which are the lists of their UTF-8 bytes, and the `hex` crate
-- as an interface.
pub mod Trim
pub mod Decimal
use mathlib.Core.List.{reverse}
use lp_0005_private_token_ba.Prelude.{
  ℕ, zero, suc, ◌+◌, ◌-◌, ◌/◌, ◌%◌, ◌≡◌, List, [], ◌∷◌, ◌++◌, Bytes, All, IsByte, Bool, true, false,
  ◌&&◌, ◌||◌, leb, ltb, ◌==◌, if◌then◌else◌, length, Option, some, none, Result, ok, String,
}

abbrev pub starts_with : Bytes → Bytes → Bool
starts_with body [] = true
starts_with [] (p ∷ pattern) = false
starts_with (b ∷ body) (p ∷ pattern) = (b == p) && starts_with body pattern

-- `str::contains`.
unfoldable pub contains_text : Bytes → Bytes → Bool
contains_text [] pattern = starts_with [] pattern
contains_text (b ∷ body) pattern = starts_with (b ∷ body) pattern || contains_text body pattern

abbrev pub drop : ℕ → Bytes → Bytes
drop zero text = text
drop (suc n) [] = []
drop (suc n) (b ∷ text) = drop n text

-- What stands after the first occurrence of a pattern that is not empty.
unfoldable pub after : Bytes → Bytes → Option Bytes
after pattern [] = none
after pattern (b ∷ text) =
    let later = after pattern text in
    if starts_with (b ∷ text) pattern then some (drop (length pattern) (b ∷ text)) else later

-- What stands before it, the whole text where there is none.
unfoldable pub before : Bytes → Bytes → Bytes
before pattern [] = []
before pattern (b ∷ text) =
    let later = before pattern text in if starts_with (b ∷ text) pattern then [] else b ∷ later

-- `split(pattern).nth(1)`.
abbrev pub second_part : Bytes → Bytes → Option Bytes
second_part pattern text = elim (after pattern text) [
  | none ↦ none
  | some rest ↦ some (before pattern rest)
]

-- `trim_start_matches("0x")`, which drops the pattern as often as it stands there.
unfoldable pub trim_0x : Bytes → Bytes
trim_0x [] = []
trim_0x (a ∷ []) = a ∷ []
trim_0x (a ∷ b ∷ text) =
    let rest = trim_0x text in if (a == b'0') && (b == b'x') then rest else a ∷ b ∷ text

-- The characters of Unicode's White_Space, in UTF-8.
abbrev pub white_space : List Bytes
white_space =
    (0x09 ∷ [])
    ∷ (0x0a ∷ [])
    ∷ (0x0b ∷ [])
    ∷ (0x0c ∷ [])
    ∷ (0x0d ∷ [])
    ∷ (0x20 ∷ [])
    ∷ (0xc2 ∷ 0x85 ∷ [])
    ∷ (0xc2 ∷ 0xa0 ∷ [])
    ∷ (0xe1 ∷ 0x9a ∷ 0x80 ∷ [])
    ∷ (0xe2 ∷ 0x80 ∷ 0x80 ∷ [])
    ∷ (0xe2 ∷ 0x80 ∷ 0x81 ∷ [])
    ∷ (0xe2 ∷ 0x80 ∷ 0x82 ∷ [])
    ∷ (0xe2 ∷ 0x80 ∷ 0x83 ∷ [])
    ∷ (0xe2 ∷ 0x80 ∷ 0x84 ∷ [])
    ∷ (0xe2 ∷ 0x80 ∷ 0x85 ∷ [])
    ∷ (0xe2 ∷ 0x80 ∷ 0x86 ∷ [])
    ∷ (0xe2 ∷ 0x80 ∷ 0x87 ∷ [])
    ∷ (0xe2 ∷ 0x80 ∷ 0x88 ∷ [])
    ∷ (0xe2 ∷ 0x80 ∷ 0x89 ∷ [])
    ∷ (0xe2 ∷ 0x80 ∷ 0x8a ∷ [])
    ∷ (0xe2 ∷ 0x80 ∷ 0xa8 ∷ [])
    ∷ (0xe2 ∷ 0x80 ∷ 0xa9 ∷ [])
    ∷ (0xe2 ∷ 0x80 ∷ 0xaf ∷ [])
    ∷ (0xe2 ∷ 0x81 ∷ 0x9f ∷ [])
    ∷ (0xe3 ∷ 0x80 ∷ 0x80 ∷ [])
    ∷ []

-- How many bytes the first of the characters takes that stands at the front of a text, or 0.
abbrev pub width_at : List Bytes → Bytes → ℕ
width_at [] text = 0
width_at (char ∷ chars) text =
    let later = width_at chars text in if starts_with text char then length char else later

-- Drops the bytes that are left of a character, and then further characters.
unfoldable pub trim_front : List Bytes → ℕ → Bytes → Bytes
trim_front chars left [] = []
trim_front chars (suc left) (b ∷ text) = trim_front chars left text
trim_front chars zero (b ∷ text) =
    let width = width_at chars (b ∷ text) in
    let rest = trim_front chars (width - 1) text in if width == 0 then b ∷ text else rest

abbrev pub reverse_all : List Bytes → List Bytes
reverse_all [] = []
reverse_all (char ∷ chars) = reverse char ∷ reverse_all chars

-- `str::trim`: the front, and then the end as the front of the reversed text.
unfoldable pub trim : Bytes → Bytes
trim text =
    reverse (trim_front (reverse_all white_space) 0 (reverse (trim_front white_space 0 text)))

-- The decimal digits of a number that has at most `n` more of them, in front of a text.
unfoldable pub decimal_onto : ℕ → ℕ → Bytes → Bytes
decimal_onto zero x text = text
decimal_onto (suc n) x text =
    let shown = (b'0' + x % 10) ∷ text in
    let more = decimal_onto n (x / 10) shown in if ltb x 10 then shown else more

-- `to_string` of a `u128`, whose texts have at most 39 digits.
unfoldable pub decimal : ℕ → Bytes
decimal x = decimal_onto 39 x []

-- Texts with commas between them.
abbrev pub join : List Bytes → Bytes
join [] = []
join (text ∷ []) = text
join (text ∷ next ∷ texts) = text ++ (b',' ∷ join (next ∷ texts))

-- A digit of `hex::encode`.
abbrev pub is_hex_digit : ℕ → Bool
is_hex_digit c = (leb b'0' c && leb c b'9') || (leb b'a' c && leb c b'f')

abbrev pub IsHexDigit : ℕ → Type 0
IsHexDigit c = is_hex_digit c ≡ true

-- The `hex` crate: `encode` writes digits, and `decode` reads them back.
pub record Hex : Type 0 where
  pub encode : Bytes → Bytes
  pub decode : Bytes → Result String Bytes
  pub encode-IsHexDigit : (b : Bytes) → All IsHexDigit (encode b)
  pub decode_encode : (b : Bytes) → All IsByte b → decode (encode b) ≡ ok b
