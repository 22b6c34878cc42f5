-- ===== src/Transport/Base64.antt =====
-- The base64 codec of crates/delivery-transport/src/waku_rest.rs. A text is the list of its bytes.
-- The decoder's accumulator is a `u32`, whose left shift drops the high bits.
pub mod RoundTrip
use lp_0005_private_token_ba.Prelude.{
  ℕ, zero, suc, ◌+◌, ◌-◌, ◌*◌, ◌/◌, ◌%◌, ◌^◌, List, [], ◌∷◌, Bytes, codes, Bool, true, false, not,
  ◌||◌, ◌&&◌, leb, ◌==◌, if◌then◌else◌, Result, ok, err, ◌>>=◌, Option, some, none,
}
use lp_0005_private_token_ba.Transport.{TransportError, decode, invalid_base64}

abbrev pub alphabet : Bytes
alphabet = codes "ABCDEFGHIJKLMNOPQRSTUVWXYZabcdefghijklmnopqrstuvwxyz0123456789+/"

-- `T[i]`, for an index below 64.
abbrev pub char_at : Bytes → ℕ → ℕ
char_at [] i = 0
char_at (c ∷ table) zero = c
char_at (c ∷ table) (suc i) = char_at table i

unfoldable pub symbol : ℕ → ℕ
symbol i = char_at alphabet i

-- The three bytes of a chunk as one number.
abbrev pub group : ℕ → ℕ → ℕ → ℕ
group a b c = a * 2 ^ 16 + b * 2 ^ 8 + c

-- One chunk of three bytes at a time, the last one padded.
unfoldable pub b64_encode : Bytes → Bytes
b64_encode [] = []
b64_encode (a ∷ []) =
    let n = group a 0 0 in symbol (n / 2 ^ 18 % 64) ∷ symbol (n / 2 ^ 12 % 64) ∷ b'=' ∷ b'=' ∷ []
b64_encode (a ∷ b ∷ []) =
    let n = group a b 0 in
    symbol (n / 2 ^ 18 % 64) ∷ symbol (n / 2 ^ 12 % 64) ∷ symbol (n / 2 ^ 6 % 64) ∷ b'=' ∷ []
b64_encode (a ∷ b ∷ c ∷ bytes) =
    let n = group a b c in
    symbol (n / 2 ^ 18 % 64)
    ∷ symbol (n / 2 ^ 12 % 64)
    ∷ symbol (n / 2 ^ 6 % 64)
    ∷ symbol (n % 64)
    ∷ b64_encode bytes

-- `idx` after the loop that fills it from the table's position `i` on: the last match, or 255.
abbrev pub index_from : Bytes → ℕ → ℕ → ℕ
index_from [] i c = 255
index_from (t ∷ table) i c =
    let later = index_from table (suc i) c in
    if later == 255 then (if t == c then i else 255) else later

unfoldable pub index_of : ℕ → ℕ
index_of c = index_from alphabet 0 c

-- Space, tab, line feed, form feed, carriage return.
abbrev pub is_ascii_whitespace : ℕ → Bool
is_ascii_whitespace c = (c == 32) || (c == 9) || (c == 10) || (c == 12) || (c == 13)

-- The characters that the loop skips.
unfoldable pub is_skipped : ℕ → Bool
is_skipped c = (c == b'=') || is_ascii_whitespace c

-- One turn of the loop: the accumulator, its pending bits, and the byte pushed, if any.
unfoldable pub decode_char : ℕ → ℕ → ℕ → Result TransportError (ℕ × ℕ × Option ℕ)
decode_char acc bits c =
    if is_skipped c
    then ok (acc, bits, none)
    else (let v = index_of c in
        let acc' = acc * 64 % 2 ^ 32 + v in
        if v == 255
        then err (decode (invalid_base64 c))
        else if leb 8 (bits + 6)
        then ok (acc', bits + 6 - 8, some (acc' / 2 ^ (bits + 6 - 8) % 256))
        else ok (acc', bits + 6, none))

abbrev pub push : Option ℕ → Bytes → Bytes
push none bytes = bytes
push (some b) bytes = b ∷ bytes

-- The loop, from an accumulator and its pending bits: the bytes that it still pushes.
unfoldable pub decode_from : ℕ → ℕ → Bytes → Result TransportError Bytes
decode_from acc bits [] = ok []
decode_from acc bits (c ∷ text) = do
  (acc', bits', pushed) ← decode_char acc bits c
  rest ← decode_from acc' bits' text
  ok (push pushed rest)

unfoldable pub b64_decode : Bytes → Result TransportError Bytes
b64_decode text = decode_from 0 0 text
