-- ===== src/Transport/Waku/Topics.antt =====
-- content_topic_for and WakuRestTransport::encode_topic of crates/delivery-transport/src/waku_rest.rs: a
-- topic as one segment of a URL's path, beside the percent-decoding of RFC 3986, which is the node's.
use lp_0005_private_token_ba.Prelude.{
  ℕ, ◌+◌, ◌-◌, ◌*◌, ◌/◌, ◌%◌, ◌<◌, ◌≡◌, ◌≢◌, refl, sym, ap, ◌∙◌, inl, inr, [], ◌∷◌, ◌++◌, Bytes,
  IsByte, All, codes, true, false, ◌==◌, ltb, all_below_lem, Bool-cases, if◌then◌else◌, ==_iff,
  arith, append-injective, length, length-append,
}
use lp_0005_private_token_ba.Transport.Waku.{
  content_topic_for, hex_digit, is_unreserved, encode_byte, encode_topic,
}

-- Where a decoder stands: outside an escape, after its `%`, or after its first digit.
pub data Place : Type 0 where
  outside after_percent : Place
  after_digit : ℕ → Place

abbrev hex_value : ℕ → ℕ
hex_value c = if ltb c b'A' then c - b'0' else c - b'A' + 10

abbrev next : Place → ℕ → Place
next outside c = if c == b'%' then after_percent else outside
next after_percent c = after_digit c
next (after_digit d) c = outside

abbrev emitted : Place → ℕ → Bytes
emitted outside c = if c == b'%' then [] else c ∷ []
emitted after_percent c = []
emitted (after_digit d) c = (hex_value d * 16 + hex_value c) ∷ []

unfoldable pub percent_decode_from : Place → Bytes → Bytes
percent_decode_from place [] = []
percent_decode_from place (c ∷ text) = emitted place c ++ percent_decode_from (next place c) text

abbrev pub percent_decode : Bytes → Bytes
percent_decode = percent_decode_from outside

-- None of the bytes that end a segment of a path.
abbrev pub IsSegmentByte : ℕ → Type 0
IsSegmentByte c = (c ≢ b'/') × (c ≢ b'?') × (c ≢ b'#')

percent_reserved : (b : ℕ) → is_unreserved b ≡ true → (b == b'%') ≡ false
percent_reserved b h = ground arith

hex_digit_value : (d : ℕ) → d < 16 → hex_value (hex_digit d) ≡ d
hex_digit_value d h =
    (==_iff (hex_value (hex_digit d)) d).0
      (all_below_lem 16 (λ i. hex_value (hex_digit i) == i) refl d h)

hex_digit_unreserved : (d : ℕ) → d < 16 → is_unreserved (hex_digit d) ≡ true
hex_digit_unreserved d h = all_below_lem 16 (λ i. is_unreserved (hex_digit i)) refl d h

decode-encode_byte :
    (b : ℕ) (rest : Bytes)
    → IsByte b
    → percent_decode (encode_byte b ++ rest) ≡ b ∷ percent_decode rest
unfolding percent_decode_from
decode-encode_byte b rest small = elim (Bool-cases (is_unreserved b)) [
  | inl plain ↦ rw (plain, percent_reserved b plain) refl
  | inr escaped ↦
      rw (escaped, hex_digit_value (b / 16) (omega arith), hex_digit_value (b % 16) (omega arith))
        (ap (λ c. c ∷ percent_decode rest) (omega arith))
]

-- What a node decodes is the topic itself.
percent_decode-encode_topic :
    (topic : Bytes) → All IsByte topic → percent_decode (encode_topic topic) ≡ topic
unfolding encode_topic percent_decode_from
percent_decode-encode_topic [] small = refl
percent_decode-encode_topic (b ∷ topic) (this, small) =
    decode-encode_byte b (encode_topic topic) this
    ∙ ap (λ t. b ∷ t) (percent_decode-encode_topic topic small)

All-append_join : (P : ℕ → Type 0) (xs ys : Bytes) → All P xs → All P ys → All P (xs ++ ys)
All-append_join P [] ys hx hy = hy
All-append_join P (x ∷ xs) ys (h, hx) hy = (h, All-append_join P xs ys hx hy)

unreserved-IsSegmentByte : (c : ℕ) → is_unreserved c ≡ true → IsSegmentByte c
unreserved-IsSegmentByte c h = ground arith

encode_byte-IsSegmentByte : (b : ℕ) → IsByte b → All IsSegmentByte (encode_byte b)
encode_byte-IsSegmentByte b small = elim (Bool-cases (is_unreserved b)) [
  | inl plain ↦ rw plain (unreserved-IsSegmentByte b plain, tt)
  | inr escaped ↦ rw escaped (
    (omega arith, omega arith, omega arith),
    (
      unreserved-IsSegmentByte (hex_digit (b / 16)) (hex_digit_unreserved (b / 16) (omega arith)),
      (
        unreserved-IsSegmentByte (hex_digit (b % 16)) (hex_digit_unreserved (b % 16) (omega arith)),
        tt,
      ),
    ),
  )
]

encode_topic-IsSegmentByte :
    (topic : Bytes) → All IsByte topic → All IsSegmentByte (encode_topic topic)
unfolding encode_topic
encode_topic-IsSegmentByte [] small = tt
encode_topic-IsSegmentByte (b ∷ topic) (this, small) =
    All-append_join IsSegmentByte (encode_byte b) (encode_topic topic)
      (encode_byte-IsSegmentByte b this) (encode_topic-IsSegmentByte topic small)

-- Rooms that differ have topics that differ.
content_topic_for-injective :
    (room room' : Bytes) → content_topic_for room ≡ content_topic_for room' → room ≡ room'
unfolding content_topic_for
content_topic_for-injective room room' e =
    let front = codes "/lp-0005/1/attestation-" in
    let rest =
      (append-injective front (room ++ codes "/proto") front (room' ++ codes "/proto") refl e).1 in
    let long = ap length rest in
    (append-injective room (codes "/proto") room' (codes "/proto")
      (omega (arith, length-append room (codes "/proto"), length-append room' (codes "/proto")))
      rest).0

content_topic_for-IsByte : (room : Bytes) → All IsByte room → All IsByte (content_topic_for room)
unfolding content_topic_for
content_topic_for-IsByte room small =
    All-append_join IsByte (codes "/lp-0005/1/attestation-") (room ++ codes "/proto") (omega arith)
      (All-append_join IsByte room (codes "/proto") small (omega arith))

-- A room of bytes, and another. The room's topic, as a node is asked for it, has no byte that ends a
-- segment of a path, decodes to the topic, and differs from that of the other room.
pub room_segments :
    (room room' : Bytes)
    → All IsByte room
    → All IsByte room'
    → room ≢ room'
    → All IsSegmentByte (encode_topic (content_topic_for room))
      × (percent_decode (encode_topic (content_topic_for room)) ≡ content_topic_for room)
      × (encode_topic (content_topic_for room) ≢ encode_topic (content_topic_for room'))
room_segments room room' small small' differ =
    let topic = content_topic_for-IsByte room small in
    let topic' = content_topic_for-IsByte room' small' in
    let decodes = percent_decode-encode_topic (content_topic_for room) topic in
    let decodes' = percent_decode-encode_topic (content_topic_for room') topic' in
    (
      encode_topic-IsSegmentByte (content_topic_for room) topic,
      decodes,
      λ same. differ (
          content_topic_for-injective room room' (sym decodes ∙ ap percent_decode same ∙ decodes')),
    )
