-- ===== src/Transport/Base64/RoundTrip.antt =====
-- b64_encode and b64_decode of crates/delivery-transport/src/waku_rest.rs, one after the other.
use lp_0005_private_token_ba.Prelude.{
  ℕ, ◌+◌, ◌-◌, ◌*◌, ◌/◌, ◌%◌, ◌^◌, ◌<◌, ◌≡◌, refl, ap, ◌∙◌, [], ◌∷◌, Bytes, IsByte, All, Bool, true,
  all_below, all_below_lem, false, not, ◌&&◌, leb, ◌==◌, if◌then◌else◌, Result-cases, ok, arith,
  inl, inr, ◌>>=◌, some, none,
}
use lp_0005_private_token_ba.Transport.Base64.{
  symbol, group, b64_encode, index_of, is_skipped, decode_char, decode_from, b64_decode,
}

-- A symbol that the decoder reads as its index.
abbrev reads_back : ℕ → Bool
reads_back i = (index_of (symbol i) == i) && not (is_skipped (symbol i))

all_read_back : all_below 64 reads_back ≡ true
unfolding index_of symbol is_skipped
all_read_back = refl

symbol_reads_back : (i : ℕ) → i < 64 → (index_of (symbol i) ≡ i) × (is_skipped (symbol i) ≡ false)
symbol_reads_back i h =
    let back : reads_back i ≡ true = all_below_lem 64 reads_back all_read_back i h in ground arith

-- The turn on a symbol with no bits pending, and with six, four and two.
decode_char-symbol :
    (acc bits i : ℕ)
    → i < 64
    → decode_char acc bits (symbol i) ≡ (
        if leb 8 (bits + 6)
        then ok (
          acc * 64 % 2 ^ 32 + i,
          bits + 6 - 8,
          some ((acc * 64 % 2 ^ 32 + i) / 2 ^ (bits + 6 - 8) % 256),
        )
        else ok (acc * 64 % 2 ^ 32 + i, bits + 6, none))
unfolding decode_char
decode_char-symbol acc bits i h =
    let (index, kept) = symbol_reads_back i h in
    let small : (i == 255) ≡ false = ground arith in rw (kept, index, small) refl

-- Four symbols with no bits pending are three bytes, and leave no bits pending.
decode_four :
    (acc i j k l : ℕ) (text : Bytes)
    → i < 64
    → j < 64
    → k < 64
    → l < 64
    → (last : ℕ) × (decode_from acc 0 (symbol i ∷ symbol j ∷ symbol k ∷ symbol l ∷ text) ≡ (
        decode_from last 0 text >>= λ rest.
        ok ((i * 4 + j / 16) ∷ (j % 16 * 16 + k / 4) ∷ (k % 4 * 64 + l) ∷ rest)))
unfolding decode_from
decode_four acc i j k l text hi hj hk hl =
    let a1 = acc * 64 % 2 ^ 32 + i in
    let a2 = a1 * 64 % 2 ^ 32 + j in
    let a3 = a2 * 64 % 2 ^ 32 + k in
    let a4 = a3 * 64 % 2 ^ 32 + l in
    let b1 : a2 / 2 ^ 4 % 256 ≡ i * 4 + j / 16 = omega arith in
    let b2 : a3 / 2 ^ 2 % 256 ≡ j % 16 * 16 + k / 4 = omega arith in
    let b3 : a4 / 2 ^ 0 % 256 ≡ k % 4 * 64 + l = omega arith in
    (
      a4,
      rw
          (
            decode_char-symbol acc 0 i hi,
            decode_char-symbol a1 6 j hj,
            decode_char-symbol a2 4 k hk,
            decode_char-symbol a3 2 l hl,
          )
          (elim (Result-cases (decode_from a4 0 text)) [
            | inl (rest, e) ↦ rw e (cc (b1, b2, b3))
            | inr (x, e) ↦ rw e refl
          ]),
    )

decode_two :
    (acc i j : ℕ)
    → i < 64
    → j < 64
    → decode_from acc 0 (symbol i ∷ symbol j ∷ b'=' ∷ b'=' ∷ []) ≡ ok ((i * 4 + j / 16) ∷ [])
unfolding decode_from
decode_two acc i j hi hj =
    let a1 = acc * 64 % 2 ^ 32 + i in
    let a2 = a1 * 64 % 2 ^ 32 + j in
    let b1 : a2 / 2 ^ 4 % 256 ≡ i * 4 + j / 16 = omega arith in
    rw (decode_char-symbol acc 0 i hi, decode_char-symbol a1 6 j hj)
      (unfold decode_char is_skipped in ap (λ b. ok (b ∷ [])) b1)

decode_three :
    (acc i j k : ℕ)
    → i < 64
    → j < 64
    → k < 64
    → decode_from acc 0 (symbol i ∷ symbol j ∷ symbol k ∷ b'=' ∷ [])
      ≡ ok ((i * 4 + j / 16) ∷ (j % 16 * 16 + k / 4) ∷ [])
unfolding decode_from
decode_three acc i j k hi hj hk =
    let a1 = acc * 64 % 2 ^ 32 + i in
    let a2 = a1 * 64 % 2 ^ 32 + j in
    let a3 = a2 * 64 % 2 ^ 32 + k in
    let b1 : a2 / 2 ^ 4 % 256 ≡ i * 4 + j / 16 = omega arith in
    let b2 : a3 / 2 ^ 2 % 256 ≡ j % 16 * 16 + k / 4 = omega arith in
    rw (decode_char-symbol acc 0 i hi, decode_char-symbol a1 6 j hj, decode_char-symbol a2 4 k hk)
      (unfold decode_char is_skipped in cc (b1, b2))

decode-encode :
    (bytes : Bytes) (acc : ℕ) → All IsByte bytes → decode_from acc 0 (b64_encode bytes) ≡ ok bytes
unfolding b64_encode
decode-encode [] acc h = unfold decode_from in refl
decode-encode (a ∷ []) acc (ha, _) =
    decode_two acc (group a 0 0 / 2 ^ 18 % 64) (group a 0 0 / 2 ^ 12 % 64) (omega arith)
      (omega arith)
    ∙ ap (λ x. ok (x ∷ [])) (omega arith)
decode-encode (a ∷ b ∷ []) acc (ha, (hb, _)) =
    let n = group a b 0 in
    let e1 : n / 2 ^ 18 % 64 * 4 + n / 2 ^ 12 % 64 / 16 ≡ a = omega arith in
    let e2 : n / 2 ^ 12 % 64 % 16 * 16 + n / 2 ^ 6 % 64 / 4 ≡ b = omega arith in
    decode_three acc (n / 2 ^ 18 % 64) (n / 2 ^ 12 % 64) (n / 2 ^ 6 % 64) (omega arith)
      (omega arith) (omega arith)
    ∙ cc (e1, e2)
decode-encode (a ∷ b ∷ c ∷ bytes) acc (ha, (hb, (hc, hs))) =
    let n = group a b c in
    let (last, four) =
      decode_four acc (n / 2 ^ 18 % 64) (n / 2 ^ 12 % 64) (n / 2 ^ 6 % 64) (n % 64)
        (b64_encode bytes) (omega arith) (omega arith) (omega arith) (omega arith) in
    let e1 : n / 2 ^ 18 % 64 * 4 + n / 2 ^ 12 % 64 / 16 ≡ a = omega arith in
    let e2 : n / 2 ^ 12 % 64 % 16 * 16 + n / 2 ^ 6 % 64 / 4 ≡ b = omega arith in
    let e3 : n / 2 ^ 6 % 64 % 4 * 64 + n % 64 ≡ c = omega arith in
    four ∙ rw (decode-encode bytes last hs) (cc (e1, e2, e3))

-- Every byte string comes back from its base64 text, whatever its length and so its padding.
pub b64_decode-b64_encode :
    (bytes : Bytes) → All IsByte bytes → b64_decode (b64_encode bytes) ≡ ok bytes
unfolding b64_decode
b64_decode-b64_encode bytes h = decode-encode bytes 0 h
