-- ===== src/Gate/Deep/Acceptance.antt =====
-- The calls that the deep gate (attestation_verifier_deep.rs) accepts.
use lp_0005_private_token_ba.Prelude.{
  ℕ, ◌≡◌, ◌≤◌, ◌↔◌, sym, ap, ◌∙◌, List, [], ◌∷◌, Option, some, length, ok, arith, bytes_eq_iff,
  Option-cases, inl, inr,
}
use lp_0005_private_token_ba.Crypto.{Sha256, Ecdsa}
use lp_0005_private_token_ba.Core.{
  PrivateInputs, PublicJournal, AttestInstruction, derive_account_id, compute_nullifier,
  compute_gate_tag,
}
use lp_0005_private_token_ba.Kernel
use lp_0005_private_token_ba.Kernel.Check.{Answers}
use lp_0005_private_token_ba.Circuit.{Lee}
use lp_0005_private_token_ba.Gate.{SpelOutput, GateArgs}
use lp_0005_private_token_ba.Gate.Deep.{
  DeepArgs, gated_check, verify_presenter_signature, presenter_challenge_digest, statement_of,
  authenticated_transfer_program_id, attestation_lez_program_id,
}

-- The journal that flat arguments spell out.
abbrev pub journal_of : GateArgs → PublicJournal
journal_of args = record {
  merkle_root = args.merkle_root;
  threshold = args.threshold;
  context_id = args.context_id;
  presenter_pubkey = args.presenter_pubkey;
  nullifier = args.nullifier;
}

module _ (sha : Sha256) (ec : Ecdsa) (lee : Lee) (from_slice : List ℕ → Option PrivateInputs) where
  -- All that the deep gate demands of its signer, its arguments and the decoded witness.
  pub record Accepts (presenter : lee.AccountWithMetadata) (args : DeepArgs) (w : PrivateInputs)
      : Type 0 where
    pub context : args.context_id ≡ args.expected_context_id
    pub floor : args.minimum_threshold ≤ args.threshold
    pub pubkey_len : length args.presenter_pubkey ≡ 33
    pub answers :
        Answers sha ec (journal_of args.gate) args.presenter_nonce args.presenter_signature_der
    pub decoded : from_slice args.witness_words ≡ some w
    pub nullifier :
        compute_nullifier sha args.presenter_pubkey args.context_id
          (derive_account_id sha w.npk w.identifier)
        ≡ args.nullifier
    pub attested : lee.account_id presenter ≡ derive_account_id sha w.npk w.identifier
    pub native : lee.program_owner (lee.account presenter) ≡ authenticated_transfer_program_id
    pub anchored : args.minimum_threshold ≤ lee.balance (lee.account presenter)
    pub tag :
        compute_gate_tag sha args.nullifier args.minimum_threshold args.expected_context_id
        ≡ args.gate_tag

  -- The output of an accepted call: both accounts as they came, and the call of the attestation
  -- program on the witness and the statement.
  abbrev pub accepted_output :
      (gate_marker presenter : lee.AccountWithMetadata)
      → DeepArgs
      → PrivateInputs
      → SpelOutput lee lee.AccountWithMetadata AttestInstruction
  accepted_output gate_marker presenter args w = record {
    accounts = gate_marker ∷ presenter ∷ [];
    chained =
        record {
          program_id = attestation_lez_program_id;
          pre_states = [];
          instruction = record { witness = w; statement = statement_of args };
        }
        ∷ [];
  }

  -- Every demand met: the deep gate accepts, with the witness's output.
  pub gated_check-Accepts :
      (gate_marker presenter : lee.AccountWithMetadata) (args : DeepArgs) (w : PrivateInputs)
      → Accepts presenter args w
      → gated_check sha ec lee from_slice gate_marker presenter args
        ≡ ok (accepted_output gate_marker presenter args w)
  unfolding gated_check verify_presenter_signature presenter_challenge_digest
      Kernel.presenter_challenge_digest
  gated_check-Accepts gate_marker presenter args w a = ground (
    arith,
    bytes_eq_iff args.context_id args.expected_context_id,
    bytes_eq_iff
        (compute_nullifier sha args.presenter_pubkey args.context_id
          (derive_account_id sha w.npk w.identifier))
        args.nullifier,
    bytes_eq_iff (lee.account_id presenter) (derive_account_id sha w.npk w.identifier),
    bytes_eq_iff (lee.program_owner (lee.account presenter)) authenticated_transfer_program_id,
    bytes_eq_iff
        (compute_gate_tag sha args.nullifier args.minimum_threshold args.expected_context_id)
        args.gate_tag,
  )

  -- An accepted call met every demand.
  pub gated_check-accepted :
      (gate_marker presenter : lee.AccountWithMetadata) (args : DeepArgs)
      (out : SpelOutput lee lee.AccountWithMetadata AttestInstruction)
      → gated_check sha ec lee from_slice gate_marker presenter args ≡ ok out
      → (w : PrivateInputs) × Accepts presenter args w
        × (out ≡ accepted_output gate_marker presenter args w)
  unfolding gated_check verify_presenter_signature presenter_challenge_digest
      Kernel.presenter_challenge_digest
  gated_check-accepted gate_marker presenter args out e =
      elim (Option-cases (from_slice args.witness_words)) [
        | inl missing ↦ absurd (ground arith)
        | inr (w, decoded) ↦ (
          w,
          ground (
            arith,
            bytes_eq_iff args.context_id args.expected_context_id,
            bytes_eq_iff
                (compute_nullifier sha args.presenter_pubkey args.context_id
                  (derive_account_id sha w.npk w.identifier))
                args.nullifier,
            bytes_eq_iff (lee.account_id presenter) (derive_account_id sha w.npk w.identifier),
            bytes_eq_iff (lee.program_owner (lee.account presenter))
                authenticated_transfer_program_id,
            bytes_eq_iff
                (compute_gate_tag sha args.nullifier args.minimum_threshold
                  args.expected_context_id)
                args.gate_tag,
          ),
          ground arith,
        )
      ]

  -- The deep gate accepts exactly where the witness decodes and every demand is met: context, floor,
  -- key length, challenge response, nullifier, attested account, pinned owner, anchored balance and
  -- gate tag. Its output then is both accounts as they came and one call of the attestation program
  -- on the witness and the stated values.
  pub gated_check_iff :
      (gate_marker presenter : lee.AccountWithMetadata) (args : DeepArgs)
      (out : SpelOutput lee lee.AccountWithMetadata AttestInstruction)
      → (gated_check sha ec lee from_slice gate_marker presenter args ≡ ok out) ↔ (
          (w : PrivateInputs) × Accepts presenter args w
          × (out ≡ accepted_output gate_marker presenter args w))
  gated_check_iff gate_marker presenter args out = (
    gated_check-accepted gate_marker presenter args out,
    λ (w, a, shape). gated_check-Accepts gate_marker presenter args w a ∙ ap ok (sym shape),
  )
