-- ===== src/Offchain/Results.antt =====
-- verify_credential of crates/verifier-offchain/src/lib.rs, beside the kernel's gate.
use lp_0005_private_token_ba.Prelude.{
  ℕ, ◌≡◌, ◌≤◌, ◌↔◌, List, Bytes, Result, ok, err, arith, refl, sym, ap, ◌∙◌, bind_inverse, map_err,
  ◌>>=◌, ◌>>◌,
}
use lp_0005_private_token_ba.Crypto.{Sha256, Ecdsa}
use lp_0005_private_token_ba.Core.{PublicJournal}
use lp_0005_private_token_ba.Kernel
use lp_0005_private_token_ba.Kernel.{GateError, GateInputs, check_gate, verify_presenter}
use lp_0005_private_token_ba.Kernel.Check.{Answers, check_gate_results}
use lp_0005_private_token_ba.Offchain.{
  Risc0, VerifyError, presenter_challenge_digest, verify_presenter_signature, verify_receipt,
  verify_credential,
}

-- The kernel's error under the off-chain verifier's name; the kernel never reports a used nullifier.
abbrev pub to_verify_error : GateError → VerifyError
to_verify_error GateError.context_mismatch = VerifyError.context_mismatch
to_verify_error GateError.threshold_too_low = VerifyError.threshold_too_low
to_verify_error GateError.invalid_pubkey = VerifyError.invalid_pubkey
to_verify_error GateError.invalid_signature = VerifyError.invalid_signature
to_verify_error GateError.signature_rejected = VerifyError.signature_rejected
to_verify_error GateError.nullifier_already_used = VerifyError.signature_rejected

gate_passes :
    (m : Result GateError (Unit {0})) (j' j : PublicJournal)
    → (map_err to_verify_error m >> ok j') ≡ ok j
    → (m ≡ ok tt) × (j' ≡ j)
gate_passes (ok tt) j' j e = (refl, cc e)
gate_passes (err x) j' j e = cc

pub verify_receipt-ok :
    (zk : Risc0) (attestation_id : List ℕ) (r : zk.Receipt) (j : PublicJournal)
    → (verify_receipt zk attestation_id r ≡ ok j)
      ↔ ((zk.verify r attestation_id ≡ ok tt) × (zk.decode_journal r ≡ ok j))
unfolding verify_receipt
verify_receipt-ok zk attestation_id r j = ground arith

module _ (zk : Risc0) (attestation_id : List ℕ) (sha : Sha256) (ec : Ecdsa) (r : zk.Receipt)
    (nonce sig_der ctx : Bytes) (floor : ℕ) where
  abbrev gate_inputs : PublicJournal → GateInputs
  gate_inputs j = record {
    attested = j;
    expected_context_id = ctx;
    minimum_threshold = floor;
    challenge_nonce = nonce;
    presenter_signature_der = sig_der;
  }

  -- The off-chain verifier is the kernel's gate, applied to the journal of a receipt that verifies:
  -- the same answer on every journal, error for error.
  pub verify_credential-check_gate :
      verify_credential zk attestation_id sha ec r nonce sig_der ctx floor ≡ (
        verify_receipt zk attestation_id r >>= λ j.
        map_err to_verify_error (check_gate sha ec (gate_inputs j)) >> ok j)
  unfolding verify_credential verify_presenter_signature check_gate verify_presenter
      presenter_challenge_digest Kernel.presenter_challenge_digest
  verify_credential-check_gate = ground arith

  -- A credential is accepted exactly where its receipt verifies under the pinned image, the receipt's
  -- journal is the one returned, the journal has the expected context and reaches the floor, and the
  -- presenter answers the challenge.
  pub verify_credential-ok :
      (j : PublicJournal)
      → (verify_credential zk attestation_id sha ec r nonce sig_der ctx floor ≡ ok j) ↔ (
          (zk.verify r attestation_id ≡ ok tt)
          × (zk.decode_journal r ≡ ok j)
          × (j.context_id ≡ ctx)
          × (floor ≤ j.threshold)
          × Answers sha ec j nonce sig_der)
  verify_credential-ok j = (
    λ accepted.
        let (j', decoded, gated) =
          bind_inverse (verify_receipt zk attestation_id r) _
            (sym verify_credential-check_gate ∙ accepted) in
        let (passes, same) = gate_passes (check_gate sha ec (gate_inputs j')) j' j gated in
        let (verified, journal) =
          (verify_receipt-ok zk attestation_id r j).0 (decoded ∙ ap ok same) in
        let (context, reaches, answers) =
          (check_gate_results sha ec (gate_inputs j)).0.0 (rw same at passes) in
        (verified, journal, context, reaches, answers),
    λ (verified, journal, context, reaches, answers).
        verify_credential-check_gate
        ∙ rw
            (
              (verify_receipt-ok zk attestation_id r j).1 (verified, journal),
              (check_gate_results sha ec (gate_inputs j)).0.1 (context, reaches, answers),
            )
            refl,
  )
