-- ===== src/Kernel.antt =====
-- crates/verifier-program/src/{lib,signature}.rs: the portable kernel of the on-chain verifier.
-- Also the digest that a presenter signs, which verifier-offchain computes from the same fields.
pub mod Challenge
pub mod Check
use lp_0005_private_token_ba.Prelude.{
  ℕ, List, [], ◌∷◌, Bytes, le_bytes, codes, Result, ok, err, ok_or, fail_if, ensure, ◌>>=◌, ◌>>◌,
  bytes_eq, ltb, not,
}
use lp_0005_private_token_ba.Crypto.{Sha256, hash_parts, Ecdsa}
use lp_0005_private_token_ba.Core.{PublicJournal}

pub data GateError : Type 0 where
  context_mismatch threshold_too_low invalid_pubkey : GateError
  invalid_signature signature_rejected nullifier_already_used : GateError

pub record GateInputs : Type 0 where
  pub attested : PublicJournal
  pub expected_context_id : Bytes
  pub minimum_threshold : ℕ
  pub challenge_nonce : Bytes
  pub presenter_signature_der : Bytes

abbrev pub challenge_prefix : Bytes
challenge_prefix = codes "/lp-0005/v0.1/PresenterChallenge/"

module _ (sha : Sha256) where
  unfoldable pub presenter_challenge_digest : Bytes → PublicJournal → Bytes
  presenter_challenge_digest nonce journal = hash_parts sha (
      challenge_prefix
      ∷ nonce
      ∷ journal.merkle_root
      ∷ le_bytes 16 journal.threshold
      ∷ journal.context_id
      ∷ journal.presenter_pubkey
      ∷ journal.nullifier
      ∷ [])

  unfoldable pub verify_presenter :
      Ecdsa → PublicJournal → Bytes → Bytes → Result GateError (Unit {0})
  verify_presenter ec journal nonce signature_der = do
    vk ← ok_or (ec.from_sec1_bytes journal.presenter_pubkey) invalid_pubkey
    sig ← ok_or (ec.from_der signature_der) invalid_signature
    let digest = presenter_challenge_digest nonce journal
    ensure (ec.verify vk digest sig) signature_rejected

  unfoldable pub check_gate : Ecdsa → GateInputs → Result GateError (Unit {0})
  check_gate ec inputs = do
    fail_if (not (bytes_eq inputs.attested.context_id inputs.expected_context_id)) context_mismatch
    fail_if (ltb inputs.attested.threshold inputs.minimum_threshold) threshold_too_low
    verify_presenter ec inputs.attested inputs.challenge_nonce inputs.presenter_signature_der
