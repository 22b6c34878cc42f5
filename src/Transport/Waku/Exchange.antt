-- ===== src/Transport/Waku/Exchange.antt =====
-- A send and a receive of crates/delivery-transport/src/waku_rest.rs, one after the other.
use lp_0005_private_token_ba.Prelude.{
  ◌≡◌, refl, List, ◌∷◌, Bytes, IsByte, All, codes, some, inl, inr, ok, bind_inverse, map_err-ok,
  Bool-cases,
}
use lp_0005_private_token_ba.Offchain.{Risc0}
use lp_0005_private_token_ba.Json.{Json, value_get, and_then}
use lp_0005_private_token_ba.Transport.{
  CredentialEnvelope, Bincode, encode_envelope, decode_envelope,
}
use lp_0005_private_token_ba.Transport.Base64.{b64_encode}
use lp_0005_private_token_ba.Transport.Base64.RoundTrip.{b64_decode-b64_encode}
use lp_0005_private_token_ba.Text.{contains_text}
use lp_0005_private_token_ba.Transport.Waku.{
  Node, Reply, accepted, status, failed, messages, send, recv, received_list, first_message,
  encode_topic, publish_result,
}

publish_result-ok : (topic : Bytes) (r : Reply) → publish_result topic r ≡ ok tt → r ≡ accepted
unfolding publish_result
publish_result-ok topic accepted e = refl
publish_result-ok topic (status http_code detail) e =
    elim (Bool-cases (contains_text detail (codes "NoPeersToPublish"))) [
      | inl lonely ↦ absurd (cc ((rw lonely at e)))
      | inr other ↦ absurd (cc ((rw other at e)))
    ]
publish_result-ok topic (failed x) e = cc

module _ (zk : Risc0) (bincode : Bincode zk) (json : Json) where
  -- The first message that the receiver's node holds for the topic has this payload.
  abbrev pub Holds : Node json → Bytes → Bytes → Type 0
  Holds node topic payload =
      (first : json.Value) × (later : List json.Value) × (node.messages_of (encode_topic topic)
        ≡ messages (first ∷ later))
      × (and_then (value_get json first (codes "payload")) json.as_str ≡ some payload)

  -- A send that returns posted a payload for its topic, which the sender's node accepted; a receiver
  -- whose node then holds it first for the topic gets the same envelope. bincode reads this envelope
  -- back from what it writes for it, and writes bytes.
  pub recv-send :
      (sender : Node json) (receiver : Bytes → Node json) (topic : Bytes)
      (envelope : CredentialEnvelope zk)
      → ((bytes : Bytes)
          → bincode.encode_to_vec envelope ≡ ok bytes
          → All IsByte bytes × (bincode.decode_from_slice bytes ≡ ok envelope))
      → ((payload : Bytes)
          → sender.post payload topic ≡ accepted
          → Holds (receiver payload) topic payload)
      → send zk bincode json sender topic envelope ≡ ok tt
      → (payload : Bytes) × (sender.post payload topic ≡ accepted)
        × (recv zk bincode json (receiver payload) topic ≡ ok (some envelope))
  unfolding send recv received_list first_message encode_envelope decode_envelope
  recv-send sender receiver topic envelope reads_back delivers sent =
      let (bytes, encoded, posted) = bind_inverse (encode_envelope zk bincode envelope) _ sent in
      let taken = publish_result-ok topic (sender.post (b64_encode bytes) topic) posted in
      let (first, later, held, payload) = delivers (b64_encode bytes) taken in
      let (are_bytes, reads) =
        reads_back bytes (map_err-ok _ (bincode.encode_to_vec envelope) encoded) in
      (
        b64_encode bytes,
        taken,
        rw (held, payload, b64_decode-b64_encode bytes are_bytes, reads) refl,
      )
