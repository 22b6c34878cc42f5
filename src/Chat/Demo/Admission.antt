-- ===== src/Chat/Demo/Admission.antt =====
-- main of integrations/chat-gate/examples/waku_token_gate.rs, from the proof to the decisions.
use lp_0005_private_token_ba.Prelude.{
  ℕ, ◌≡◌, ◌≢◌, ◌<◌, refl, List, [], Bytes, String, ne_bytes_eq, All, IsByte, some, none, Result, ok,
  err, arith,
}
use lp_0005_private_token_ba.Crypto.{Sha256, Ecdsa, Signer}
use lp_0005_private_token_ba.Offchain.{
  Risc0, threshold_too_low, signature_rejected, presenter_challenge_digest,
}
use lp_0005_private_token_ba.Json.{Json}
use lp_0005_private_token_ba.Transport.{
  CredentialEnvelope, Bincode, encode_envelope, decode_envelope,
}
use lp_0005_private_token_ba.Transport.Base64.{b64_encode}
use lp_0005_private_token_ba.Transport.Base64.RoundTrip.{b64_decode-b64_encode}
use lp_0005_private_token_ba.Transport.Waku.{
  Node, accepted, messages, content_topic_for, encode_topic, publish_result, send, recv,
  received_list, first_message,
}
use lp_0005_private_token_ba.Transport.Waku.Exchange.{Holds}
use lp_0005_private_token_ba.Transport.Waku.Admin.{NodeAdmin, health, subscribe}
use lp_0005_private_token_ba.Sdk.{groth16, Prover, private_inputs, prove_with_kind}
use lp_0005_private_token_ba.Sdk.Credential.{Proves, guest_main-stub}
use lp_0005_private_token_ba.Chat.{verify, nullifier_reused}
use lp_0005_private_token_ba.Chat.Demo.{
  group, demo_request, rand_nonce, poll_from, make_envelope, demo_main,
}
use lp_0005_private_token_ba.Chat.Demo.Flow.{
  poll_from_first, request, demo_stub, demo_request-witness_root, Distinguishes, signed,
  decide-signed,
}

abbrev pub topic : Bytes
topic = content_topic_for group

module _ (zk : Risc0) (bincode : Bincode zk) (json : Json) where
  -- The network takes an envelope, and the receiver's node holds nothing for the topic before a moment
  -- and this envelope at it; bincode writes the envelope as bytes and reads it back.
  pub record Carries (sending : Node json) (receiving : ℕ → Node json) (k : ℕ)
      (e : CredentialEnvelope zk) : Type 0 where
    pub bytes : Bytes
    pub encoded : bincode.encode_to_vec e ≡ ok bytes
    pub range : All IsByte bytes
    pub decoded : bincode.decode_from_slice bytes ≡ ok e
    pub taken : sending.post (b64_encode bytes) topic ≡ accepted
    pub before : (n : ℕ) → n < k → (receiving n).messages_of (encode_topic topic) ≡ messages []
    pub held : Holds zk bincode json (receiving k) topic (b64_encode bytes)

  module _ (sending : Node json) (receiving : ℕ → Node json) (k : ℕ) (e : CredentialEnvelope zk)
      (carries : Carries sending receiving k e) where
    sent : send zk bincode json sending topic e ≡ ok tt
    unfolding send encode_envelope publish_result
    sent = rw (carries.encoded, carries.taken) refl

    recv_before : (n : ℕ) → n < k → recv zk bincode json (receiving n) topic ≡ ok none
    unfolding recv received_list first_message
    recv_before n early = rw (carries.before n early) refl

    recv_held : recv zk bincode json (receiving k) topic ≡ ok (some e)
    unfolding recv received_list first_message decode_envelope
    recv_held =
        let (first, later, messages_held, payload) = carries.held in
        rw
          (
            messages_held,
            payload,
            b64_decode-b64_encode carries.bytes carries.range,
            carries.decoded,
          )
          refl

    polled : k < 20 → poll_from (λ i. recv zk bincode json (receiving i) topic) 0 20 ≡ ok (some e)
    polled soon =
        poll_from_first (λ i. recv zk bincode json (receiving i) topic) e 0 k 20
          (λ n above below. recv_before n below) recv_held (omega arith) (omega (arith, soon))

module _ (sha : Sha256) (zk : Risc0) (attestation_id : List ℕ) {ec : Ecdsa} (signer : Signer ec)
    (key : signer.SigningKey) (prover : Prover zk) {json : Json} (bincode : Bincode zk)
    (receipt_size : zk.Receipt → Result String ℕ) (sender receiver : NodeAdmin json) where
  -- Between two different nodes that answer, with a prover that proves what the guest commits and a
  -- network that carries the envelope within twenty polls: the candidate is admitted with the journal of
  -- the request, and of the three further tries the replay is refused as a reused nullifier, the
  -- intercepted credential at a fresh nonce as a rejected signature, where the key's signature on the first
  -- challenge is not one on the second, and the gate above the attested threshold as too low.
  pub demo_main_admits :
      (sending : Node json) (receiving : ℕ → Node json) (moment later k : ℕ)
      (sender_peer receiver_peer : Bytes)
      → health json sender ≡ ok sender_peer
      → health json receiver ≡ ok receiver_peer
      → sender_peer ≢ receiver_peer
      → subscribe json receiver topic ≡ ok tt
      → Proves sha zk prover attestation_id
      → ((r : zk.Receipt) → (size : ℕ) × (receipt_size r ≡ ok size))
      → k < 20
      → ((r : zk.Receipt)
          → prover.prove_with_opts groth16
              (private_inputs (request sha signer key))
              (demo_stub sha signer key)
            ≡ ok r
          → Carries zk bincode json sending receiving k
              (signed sha signer key r (demo_stub sha signer key) (rand_nonce sha moment)))
      → Distinguishes sha signer key
          (presenter_challenge_digest sha (rand_nonce sha moment) (demo_stub sha signer key))
          (presenter_challenge_digest sha (rand_nonce sha later) (demo_stub sha signer key))
      → demo_main sha ec zk attestation_id bincode signer prover receipt_size sender receiver
          sending receiving key moment later
        ≡ ok (record {
          journal = demo_stub sha signer key;
          replay = err nullifier_reused;
          stolen = err (verify signature_rejected);
          under = err (verify threshold_too_low);
        })
  unfolding demo_main make_envelope prove_with_kind
  demo_main_admits sending receiving moment later k sender_peer receiver_peer sender_up receiver_up
        apart subscribed proves sizes soon carried distinct =
      let j = demo_stub sha signer key in
      let (r, proved, verified, decoded) =
        proves groth16 (private_inputs (request sha signer key)) j j (
          guest_main-stub sha (request sha signer key) (demo_request-witness_root sha signer key)
            (unfold demo_request in omega arith)) in
      let carries = carried r proved in
      let e = signed sha signer key r j (rand_nonce sha moment) in
      let decided =
        decide-signed sha zk attestation_id signer key r j (rand_nonce sha moment)
          (rand_nonce sha later) verified decoded (unfold demo_request in refl)
          (unfold demo_request in refl) (unfold demo_request in refl) distinct in
      rw
        (
          sender_up,
          receiver_up,
          ne_bytes_eq sender_peer receiver_peer apart,
          subscribed,
          proved,
          decoded,
          (sizes r).1,
          sent zk bincode json sending receiving k e carries,
          polled zk bincode json sending receiving k e carries soon,
          decided,
        )
        refl
