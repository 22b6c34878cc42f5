-- ===== src/Text/Trim.antt =====
-- The trims of hexadecimal texts.
use mathlib.Core.List.{reverse, reverse-cons, reverse-reverse}
use lp_0005_private_token_ba.Prelude.{
  ℕ, ◌≡◌, refl, List, [], ◌∷◌, ◌++◌, Bytes, All, Bool, true, false, ◌==◌, not, ◌&&◌, arith,
}
use lp_0005_private_token_ba.Text.{
  white_space, width_at, trim_front, reverse_all, trim, trim_0x, is_hex_digit, IsHexDigit,
}

-- No digit is the first byte of one of the characters.
abbrev no_digit_first : List Bytes → Bool
no_digit_first [] = true
no_digit_first ([] ∷ chars) = false
no_digit_first ((b ∷ char) ∷ chars) = not (is_hex_digit b) && no_digit_first chars

width_at-digit :
    (chars : List Bytes) (c : ℕ) (text : Bytes)
    → IsHexDigit c
    → no_digit_first chars ≡ true
    → width_at chars (c ∷ text) ≡ 0
width_at-digit [] c text digit h = refl
width_at-digit ([] ∷ chars) c text digit h = cc
width_at-digit ((b ∷ char) ∷ chars) c text digit h =
    let differ : (c == b) ≡ false = ground arith in
    rw differ (width_at-digit chars c text digit (ground arith))

trim_front-digits :
    (chars : List Bytes) (text : Bytes)
    → All IsHexDigit text
    → no_digit_first chars ≡ true
    → trim_front chars 0 text ≡ text
unfolding trim_front
trim_front-digits chars [] digits h = refl
trim_front-digits chars (c ∷ text) (digit, digits) h = rw (width_at-digit chars c text digit h) refl

All-snoc :
    (text : Bytes) (c : ℕ) → All IsHexDigit text → IsHexDigit c → All IsHexDigit (text ++ (c ∷ []))
All-snoc [] c h digit = (digit, tt)
All-snoc (x ∷ text) c (first, h) digit = (first, All-snoc text c h digit)

All-reverse : (text : Bytes) → All IsHexDigit text → All IsHexDigit (reverse text)
All-reverse [] h = tt
All-reverse (c ∷ text) (digit, h) =
    rw (reverse-cons c text) (All-snoc (reverse text) c (All-reverse text h) digit)

-- Nothing of a hexadecimal text is white space.
pub trim-digits : (text : Bytes) → All IsHexDigit text → trim text ≡ text
unfolding trim
trim-digits text h =
    rw
      (
        trim_front-digits white_space text h refl,
        trim_front-digits (reverse_all white_space) (reverse text) (All-reverse text h) refl,
      )
      (reverse-reverse text)

-- And no prefix of it is `0x`.
pub trim_0x-digits : (text : Bytes) → All IsHexDigit text → trim_0x text ≡ text
unfolding trim_0x
trim_0x-digits [] h = refl
trim_0x-digits (a ∷ []) h = refl
trim_0x-digits (a ∷ b ∷ text) (_, (digit, _)) =
    let no_x : (b == b'x') ≡ false = ground arith in ground (arith, no_x)
