-- ===== src/Nostr.antt =====
-- integrations/nostr-auth-gate/src/lib.rs: a credential inside a NIP-42 reply. Texts are the lists of
-- their UTF-8 bytes, and the decoders of base64, bincode and hex are parameters.
pub mod Reply
use lp_0005_private_token_ba.Prelude.{
  ℕ, List, [], ◌∷◌, Bytes, codes, String, length, ◌==◌, Result, ok, map_err, ensure, ◌>>=◌, ◌>>◌,
}
use lp_0005_private_token_ba.Crypto.{Sha256, hash_parts, Ecdsa}
use lp_0005_private_token_ba.Core.{PublicJournal}
use lp_0005_private_token_ba.Offchain.{Risc0, VerifyError, verify_credential}

pub data NostrGateError : Type 0 where
  missing_tag : NostrGateError
  bad_base64 decode_receipt bad_hex : String → NostrGateError
  verify : VerifyError → NostrGateError

pub record Lp0005AuthTag : Type 0 where
  pub credential_b64 : Bytes
  pub nonce_hex : Bytes
  pub signature_hex : Bytes

-- The decoders of the crates `base64`, `bincode` and `hex`.
pub record Decoders (zk : Risc0) : Type 0 where
  pub base64_decode : Bytes → Result String Bytes
  pub receipt_decode : Bytes → Result String zk.Receipt
  pub hex_decode : Bytes → Result String Bytes

unfoldable pub context_id_for_relay : Sha256 → Bytes → Bytes
context_id_for_relay sha relay_id = hash_parts sha (codes "nostr-auth-gate/v1/" ∷ relay_id ∷ [])

unfoldable pub verify_nip42_with_lp0005 :
    (sha : Sha256) (ec : Ecdsa) (zk : Risc0) (attestation_id : List ℕ)
    → Decoders zk
    → Lp0005AuthTag
    → Bytes
    → ℕ
    → Result NostrGateError PublicJournal
verify_nip42_with_lp0005 sha ec zk attestation_id decoders tag relay_context minimum_threshold = do
  receipt_bytes ← map_err bad_base64 (decoders.base64_decode tag.credential_b64)
  receipt ← map_err decode_receipt (decoders.receipt_decode receipt_bytes)
  nonce_bytes ← map_err bad_hex (decoders.hex_decode tag.nonce_hex)
  ensure (length nonce_bytes == 32) (bad_hex "nonce must be exactly 32 bytes")
  signature_bytes ← map_err bad_hex (decoders.hex_decode tag.signature_hex)
  let context_id = context_id_for_relay sha relay_context
  map_err verify (
      verify_credential zk attestation_id sha ec receipt nonce_bytes signature_bytes context_id
        minimum_threshold)
