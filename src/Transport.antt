-- ===== src/Transport.antt =====
-- crates/delivery-transport/src/lib.rs: the envelope of a credential on the wire, and the errors of the
-- transports, each with its message: a text, or the format of a message with its arguments.
-- A message that names the node's endpoint is told apart without it. The encoders of `bincode` are a
-- parameter.
pub mod Base64
pub mod Bus
pub mod Waku
pub mod Qt
use lp_0005_private_token_ba.Prelude.{ℕ, List, [], ◌∷◌, Bytes, String, codes, Result, map_err}
use lp_0005_private_token_ba.Crypto.{Sha256, hash_parts}
use lp_0005_private_token_ba.Core.{PublicJournal}
use lp_0005_private_token_ba.Offchain.{Risc0}

pub data Message : Type 0 where
  text : String → Message
  invalid_base64 : ℕ → Message
  no_peers : Message
  publish_failed : Bytes → ℕ → Bytes → Message
  publish_error poll_error : Bytes → String → Message
  not_json unreachable info_not_json spawn_failed : String → Message
  subscribe_failed unsubscribe_failed : Bytes → String → Message

pub data TransportError : Type 0 where
  upstream encode decode : Message → TransportError

pub record CredentialEnvelope (zk : Risc0) : Type 0 where
  pub receipt : zk.Receipt
  pub challenge_nonce : Bytes
  pub presenter_signature_der : Bytes
  pub app_meta : Bytes

pub record Bincode (zk : Risc0) : Type 0 where
  pub receipt_bytes : zk.Receipt → Bytes
  pub encode_to_vec : CredentialEnvelope zk → Result String Bytes
  pub decode_from_slice : Bytes → Result String (CredentialEnvelope zk)

module _ (zk : Risc0) where
  unfoldable pub envelope_journal : CredentialEnvelope zk → Result TransportError PublicJournal
  envelope_journal envelope = map_err (λ e. decode (text e)) (zk.decode_journal envelope.receipt)

  unfoldable pub fingerprint : Sha256 → Bincode zk → CredentialEnvelope zk → Bytes
  fingerprint sha bincode envelope = hash_parts sha (
      codes "/lp-0005/v0.1/EnvelopeFingerprint/"
      ∷ envelope.challenge_nonce
      ∷ envelope.presenter_signature_der
      ∷ envelope.app_meta
      ∷ bincode.receipt_bytes envelope.receipt
      ∷ [])

  unfoldable pub encode_envelope : Bincode zk → CredentialEnvelope zk → Result TransportError Bytes
  encode_envelope bincode envelope = map_err (λ e. encode (text e)) (bincode.encode_to_vec envelope)

  unfoldable pub decode_envelope :
      Bincode zk → Bytes → Result TransportError (CredentialEnvelope zk)
  decode_envelope bincode bytes = map_err (λ e. decode (text e)) (bincode.decode_from_slice bytes)
