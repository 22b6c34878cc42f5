-- ===== src/Tests/Texts.antt =====
-- Texts for the tests: hexadecimal digits, and lists of fields in one text.
use lp_0005_private_token_ba.Prelude.{
  ℕ, zero, suc, ◌+◌, ◌-◌, ◌*◌, ◌/◌, ◌%◌, ◌≡◌, refl, ap, [], ◌∷◌, Bytes, String, All, IsByte, ltb,
  leb, if◌then◌else◌, ByteMap, Result, ok, err, arith,
}
use lp_0005_private_token_ba.Text.{Hex, IsHexDigit}

abbrev pub digit : ℕ → ℕ
digit d = if ltb d 10 then b'0' + d else b'a' + (d - 10)

abbrev pub digit_value : ℕ → ℕ
digit_value c = if leb c b'9' then c - b'0' else c - b'a' + 10

abbrev pub hex_encode : Bytes → Bytes
hex_encode [] = []
hex_encode (b ∷ bytes) = digit (b / 16 % 16) ∷ digit (b % 16) ∷ hex_encode bytes

abbrev pub cons_ok : ℕ → Result String Bytes → Result String Bytes
cons_ok b (ok bytes) = ok (b ∷ bytes)
cons_ok b (err e) = err e

abbrev pub hex_decode : Bytes → Result String Bytes
hex_decode [] = ok []
hex_decode (c ∷ []) = err "odd length"
hex_decode (c ∷ d ∷ text) = cons_ok (digit_value c * 16 + digit_value d) (hex_decode text)

pub digit_lem : (d : ℕ) → IsHexDigit (digit (d % 16)) × (digit_value (digit (d % 16)) ≡ d % 16)
digit_lem d = (ground arith, ground arith)

pub hex_encode-IsHexDigit : (b : Bytes) → All IsHexDigit (hex_encode b)
hex_encode-IsHexDigit [] = tt
hex_encode-IsHexDigit (b ∷ bytes) =
    ((digit_lem (b / 16)).0, ((digit_lem b).0, hex_encode-IsHexDigit bytes))

pub hex_decode-hex_encode : (b : Bytes) → All IsByte b → hex_decode (hex_encode b) ≡ ok b
hex_decode-hex_encode [] h = refl
hex_decode-hex_encode (b ∷ bytes) (range, h) =
    let whole : digit_value (digit (b / 16 % 16)) * 16 + digit_value (digit (b % 16)) ≡ b =
      omega (arith, (digit_lem (b / 16)).1, (digit_lem b).1, range) in
    rw (hex_decode-hex_encode bytes h, whole) refl

abbrev pub test_hex : Hex
test_hex = record {
  encode = hex_encode;
  decode = hex_decode;
  encode-IsHexDigit = hex_encode-IsHexDigit;
  decode_encode = hex_decode-hex_encode;
}

-- A text with its end marked, in front of others.
abbrev pub put_text : Bytes → Bytes → Bytes
put_text [] rest = 0 ∷ rest
put_text (b ∷ text) rest = suc b ∷ put_text text rest

abbrev pub cons_first : ℕ → Bytes × Bytes → Bytes × Bytes
cons_first b (text, rest) = (b ∷ text, rest)

abbrev pub take_text : Bytes → Bytes × Bytes
take_text [] = ([], [])
take_text (zero ∷ rest) = ([], rest)
take_text (suc b ∷ text) = cons_first b (take_text text)

pub take_text-put_text : (text rest : Bytes) → take_text (put_text text rest) ≡ (text, rest)
take_text-put_text [] rest = refl
take_text-put_text (b ∷ text) rest = ap (cons_first b) (take_text-put_text text rest)

abbrev pub put_fields : ByteMap Bytes → Bytes
put_fields [] = []
put_fields ((key, value) ∷ fields) = put_text key (put_text value (put_fields fields))

abbrev pub count : ByteMap Bytes → ℕ
count [] = 0
count (field ∷ fields) = suc (count fields)

abbrev pub take_fields : ℕ → Bytes → ByteMap Bytes
take_fields zero text = []
take_fields (suc n) text =
    let key = take_text text in
    let value = take_text key.1 in (key.0, value.0) ∷ take_fields n value.1

pub take_fields-put_fields :
    (fields : ByteMap Bytes) → take_fields (count fields) (put_fields fields) ≡ fields
take_fields-put_fields [] = refl
take_fields-put_fields ((key, value) ∷ fields) =
    rw
      (
        take_text-put_text key (put_text value (put_fields fields)),
        take_text-put_text value (put_fields fields),
      )
      (ap (λ t. (key, value) ∷ t) (take_fields-put_fields fields))

abbrev pub object_fields : Bytes → ByteMap Bytes
object_fields [] = []
object_fields (n ∷ text) = take_fields n text
