-- ===== src/Tests/Rooms.antt =====
-- The topics of two rooms.
use lp_0005_private_token_ba.Prelude.{
  ◌≡◌, ◌≢◌, refl, Bytes, All, bytes_eq, bytes_eq_ne, codes, arith,
}
use lp_0005_private_token_ba.Transport.Waku.{content_topic_for, encode_topic}
use lp_0005_private_token_ba.Transport.Waku.Topics.{IsSegmentByte, percent_decode, room_segments}

abbrev lounge : Bytes
lounge = codes "premium lounge"

abbrev nested : Bytes
nested = codes "a/proto"

lounge-ne-nested : lounge ≢ nested
unfolding bytes_eq
lounge-ne-nested = bytes_eq_ne lounge nested refl

room_segments_example :
    All IsSegmentByte (encode_topic (content_topic_for lounge))
    × (percent_decode (encode_topic (content_topic_for lounge)) ≡ content_topic_for lounge)
    × (encode_topic (content_topic_for lounge) ≢ encode_topic (content_topic_for nested))
room_segments_example = room_segments lounge nested (omega arith) (omega arith) lounge-ne-nested

encoded : encode_topic (codes "/a b~") ≡ codes "%2Fa%20b~"
unfolding encode_topic
encoded = refl
