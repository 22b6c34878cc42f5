-- ===== src/Offchain.antt =====
-- crates/verifier-offchain/src/lib.rs: the off-chain verifier of credentials.
pub mod Results
pub mod Holders
use lp_0005_private_token_ba.Prelude.{
  ℕ, List, [], ◌∷◌, Bytes, String, le_bytes, Result, ok, err, ok_or, map_err, fail_if, ensure,
  ◌>>=◌, ◌>>◌, bytes_eq, ltb, not,
}
use lp_0005_private_token_ba.Crypto.{Sha256, hash_parts, Ecdsa}
use lp_0005_private_token_ba.Core.{PublicJournal}
use lp_0005_private_token_ba.Kernel.{challenge_prefix}

-- The `risc0_zkvm` receipts: the check against an image id and the decoder of the journal, with
-- the texts of their errors.
pub record Risc0 : Type 1 where
  pub Receipt : Type 0
  pub verify : Receipt → List ℕ → Result String (Unit {0})
  pub decode_journal : Receipt → Result String PublicJournal

pub data VerifyError : Type 0 where
  receipt journal : String → VerifyError
  invalid_pubkey invalid_signature signature_rejected : VerifyError
  context_mismatch threshold_too_low : VerifyError

module _ (sha : Sha256) where
  unfoldable pub presenter_challenge_digest : Bytes → PublicJournal → Bytes
  presenter_challenge_digest nonce j = hash_parts sha (
      challenge_prefix
      ∷ nonce
      ∷ j.merkle_root
      ∷ le_bytes 16 j.threshold
      ∷ j.context_id
      ∷ j.presenter_pubkey
      ∷ j.nullifier
      ∷ [])

  unfoldable pub verify_presenter_signature :
      Ecdsa → PublicJournal → Bytes → Bytes → Result VerifyError (Unit {0})
  verify_presenter_signature ec j nonce signature_der = do
    vk ← ok_or (ec.from_sec1_bytes j.presenter_pubkey) invalid_pubkey
    sig ← ok_or (ec.from_der signature_der) invalid_signature
    let digest = presenter_challenge_digest nonce j
    ensure (ec.verify vk digest sig) signature_rejected

module _ (zk : Risc0) (attestation_id : List ℕ) where
  unfoldable pub verify_receipt : zk.Receipt → Result VerifyError PublicJournal
  verify_receipt r = do
    map_err receipt (zk.verify r attestation_id)
    map_err journal (zk.decode_journal r)

  unfoldable pub verify_credential :
      Sha256 → Ecdsa → zk.Receipt → Bytes → Bytes → Bytes → ℕ → Result VerifyError PublicJournal
  verify_credential sha ec r presenter_nonce presenter_signature_der expected_context_id
        minimum_threshold =
      do
        j ← verify_receipt r
        fail_if (not (bytes_eq j.context_id expected_context_id)) context_mismatch
        fail_if (ltb j.threshold minimum_threshold) threshold_too_low
        verify_presenter_signature sha ec j presenter_nonce presenter_signature_der
        ok j
