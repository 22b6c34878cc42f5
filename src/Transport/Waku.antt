-- ===== src/Transport/Waku.antt =====
-- crates/delivery-transport/src/waku_rest.rs: the transport over a Waku node's REST interface. The node
-- is a parameter: its answer to a message that is published, and the messages it holds for a topic.
pub mod Exchange
pub mod Admin
pub mod Topics
use lp_0005_private_token_ba.Prelude.{
  ℕ, ◌/◌, ◌%◌, List, [], ◌∷◌, ◌++◌, Bytes, bytes_eq, codes, String, Bool, true, false, ◌||◌, ◌&&◌,
  leb, ltb, ◌+◌, ◌-◌, ◌==◌, if◌then◌else◌, Option, some, none, Result, ok, err, ok_or, ◌>>=◌,
}
use lp_0005_private_token_ba.Offchain.{Risc0}
use lp_0005_private_token_ba.Json.{Json, value_get, and_then}
use lp_0005_private_token_ba.Transport.{
  CredentialEnvelope, Bincode, TransportError, upstream, decode, text, no_peers, publish_failed,
  publish_error, poll_error, not_json, encode_envelope, decode_envelope,
}
use lp_0005_private_token_ba.Text.{contains_text}
use lp_0005_private_token_ba.Transport.Base64.{b64_encode, b64_decode}

unfoldable pub content_topic_for : Bytes → Bytes
content_topic_for room = codes "/lp-0005/1/attestation-" ++ (room ++ codes "/proto")

-- A digit of `{:02X}`.
abbrev pub hex_digit : ℕ → ℕ
hex_digit d = if ltb d 10 then b'0' + d else b'A' + (d - 10)

abbrev pub is_unreserved : ℕ → Bool
is_unreserved b =
    (leb b'A' b && leb b b'Z')
    || (leb b'a' b && leb b b'z')
    || (leb b'0' b && leb b b'9')
    || (b == b'-')
    || (b == b'_')
    || (b == b'.')
    || (b == b'~')

abbrev pub encode_byte : ℕ → Bytes
encode_byte b =
    if is_unreserved b then b ∷ [] else b'%' ∷ hex_digit (b / 16) ∷ hex_digit (b % 16) ∷ []

unfoldable pub encode_topic : Bytes → Bytes
encode_topic [] = []
encode_topic (b ∷ topic) = encode_byte b ++ encode_topic topic

-- How `ureq` answers a `POST`: accepted, an error status with the body's text, or no answer.
pub data Reply : Type 0 where
  accepted : Reply
  status : ℕ → Bytes → Reply
  failed : String → Reply

-- How it answers the `GET` of a topic's messages.
pub data Polled (Value : Type 0) : Type 0 where
  messages : List Value → Polled Value
  call_failed into_json_failed : String → Polled Value

-- The node's two endpoints: `/relay/v1/auto/messages` with a payload and a content topic, and
-- `/relay/v1/auto/messages/<topic>`.
pub record Node (json : Json) : Type 0 where
  pub post : (payload content_topic : Bytes) → Reply
  pub messages_of : (encoded_topic : Bytes) → Polled json.Value

unfoldable pub publish_result : Bytes → Reply → Result TransportError (Unit {0})
publish_result topic accepted = ok tt
publish_result topic (status http_code detail) =
    if contains_text detail (codes "NoPeersToPublish")
    then err (upstream no_peers)
    else err (upstream (publish_failed topic http_code detail))
publish_result topic (failed e) = err (upstream (publish_error topic e))

module _ (zk : Risc0) (bincode : Bincode zk) (json : Json) (node : Node json) where
  unfoldable pub send : Bytes → CredentialEnvelope zk → Result TransportError (Unit {0})
  send topic envelope = do
    bytes ← encode_envelope zk bincode envelope
    publish_result topic (node.post (b64_encode bytes) topic)

  unfoldable pub first_message :
      List json.Value → Result TransportError (Option (CredentialEnvelope zk))
  first_message [] = ok none
  first_message (first ∷ later) = do
    payload ←
        ok_or (and_then (value_get json first (codes "payload")) json.as_str)
          (decode (text "Waku message had no payload"))
    bytes ← b64_decode payload
    envelope ← decode_envelope zk bincode bytes
    ok (some envelope)

  unfoldable pub received_list : Bytes → Polled json.Value → Result TransportError (List json.Value)
  received_list topic (messages list) = ok list
  received_list topic (call_failed e) = err (upstream (poll_error topic e))
  received_list topic (into_json_failed e) = err (decode (not_json e))

  unfoldable pub recv : Bytes → Result TransportError (Option (CredentialEnvelope zk))
  recv topic = do
    msgs ← received_list topic (node.messages_of (encode_topic topic))
    first_message msgs
