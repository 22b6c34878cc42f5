-- ===== src/Gate/Deep/Rejection.antt =====
-- The error codes of the deep gate (attestation_verifier_deep.rs).
use lp_0005_private_token_ba.Prelude.{
  ℕ, ◌≡◌, ◌≢◌, ◌<◌, ◌⊎◌, inl, inr, List, Option, some, none, String, length, err, arith,
  bytes_eq_iff, Option-cases,
}
use lp_0005_private_token_ba.Crypto.{Sha256, Ecdsa}
use lp_0005_private_token_ba.Core.{
  PrivateInputs, derive_account_id, compute_nullifier, compute_gate_tag,
}
use lp_0005_private_token_ba.Circuit.{Lee}
use lp_0005_private_token_ba.Kernel
use lp_0005_private_token_ba.Kernel.Check.{Answers}
use lp_0005_private_token_ba.Gate.Deep.Acceptance.{journal_of}
use lp_0005_private_token_ba.Gate.{
  custom, e_threshold_too_low, e_context_mismatch, e_bad_signature, e_bad_pubkey_len,
}
use lp_0005_private_token_ba.Gate.Deep.{
  DeepArgs, gated_check, verify_presenter_signature, presenter_challenge_digest,
  authenticated_transfer_program_id, e_bad_witness, e_nullifier_mismatch,
  e_anchored_balance_too_low, e_presenter_not_attested, e_presenter_not_native, e_gate_tag_mismatch,
}

module _ (sha : Sha256) (ec : Ecdsa) (lee : Lee) (from_slice : List ℕ → Option PrivateInputs) where
  -- The demands on a decoded witness, each as the code that its failure has.
  abbrev pub WitnessFault : lee.AccountWithMetadata → DeepArgs → PrivateInputs → ℕ → Type 0
  WitnessFault presenter args w code =
      ((code ≡ e_nullifier_mismatch)
        × (compute_nullifier sha args.presenter_pubkey args.context_id
              (derive_account_id sha w.npk w.identifier)
            ≢ args.nullifier))
      ⊎ ((code ≡ e_presenter_not_attested)
          × (lee.account_id presenter ≢ derive_account_id sha w.npk w.identifier))
      ⊎ ((code ≡ e_presenter_not_native)
          × (lee.program_owner (lee.account presenter) ≢ authenticated_transfer_program_id))
      ⊎ ((code ≡ e_anchored_balance_too_low)
          × (lee.balance (lee.account presenter) < args.minimum_threshold))
      ⊎ ((code ≡ e_gate_tag_mismatch)
          × (compute_gate_tag sha args.nullifier args.minimum_threshold args.expected_context_id
              ≢ args.gate_tag))

  abbrev pub ArgsFault : DeepArgs → ℕ → Type 0
  ArgsFault args code =
      ((code ≡ e_context_mismatch) × (args.context_id ≢ args.expected_context_id))
      ⊎ ((code ≡ e_threshold_too_low) × (args.threshold < args.minimum_threshold))
      ⊎ ((code ≡ e_bad_pubkey_len) × (length args.presenter_pubkey ≢ 33))
      ⊎ ((code ≡ e_bad_signature)
          × ¬ Answers sha ec (journal_of args.gate) args.presenter_nonce
              args.presenter_signature_der)
      ⊎ ((code ≡ e_bad_witness) × (from_slice args.witness_words ≡ none))

  -- A rejected call fails the demand that its code names: of the arguments, or of the decoded
  -- witness.
  pub gated_check-rejected :
      (gate_marker presenter : lee.AccountWithMetadata) (args : DeepArgs) (code : ℕ) (msg : String)
      → gated_check sha ec lee from_slice gate_marker presenter args ≡ err (custom code msg)
      → ArgsFault args code
        ⊎ ((w : PrivateInputs) × (from_slice args.witness_words ≡ some w)
            × WitnessFault presenter args w code)
  unfolding gated_check verify_presenter_signature presenter_challenge_digest
      Kernel.presenter_challenge_digest
  gated_check-rejected gate_marker presenter args code msg e =
      elim (Option-cases (from_slice args.witness_words)) [
        | inl missing ↦ inl (ground (arith, bytes_eq_iff args.context_id args.expected_context_id))
        | inr (w, decoded) ↦ ground (
          arith,
          bytes_eq_iff args.context_id args.expected_context_id,
          bytes_eq_iff
              (compute_nullifier sha args.presenter_pubkey args.context_id
                (derive_account_id sha w.npk w.identifier))
              args.nullifier,
          bytes_eq_iff (lee.account_id presenter) (derive_account_id sha w.npk w.identifier),
          bytes_eq_iff (lee.program_owner (lee.account presenter))
              authenticated_transfer_program_id,
          bytes_eq_iff
              (compute_gate_tag sha args.nullifier args.minimum_threshold args.expected_context_id)
              args.gate_tag,
        )
      ]
