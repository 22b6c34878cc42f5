-- ===== src/Gate/Deep.antt =====
-- guest-deep/src/bin/attestation_verifier_deep.rs: the gate whose proof is verified on chain.
-- The decoder of the witness (risc0's serde) is a parameter. The account constraints of the
-- instruction (the marker's address and its claim, the presenter's signature) belong to the
-- framework's macro and are not part of this function.
pub mod Acceptance
pub mod Marker
pub mod Rejection
use lp_0005_private_token_ba.Prelude.{
  ℕ, List, [], ◌∷◌, Option, Bytes, le_bytes, codes, length, Result, ok, ok_or, fail_if, ensure,
  ◌>>=◌, ◌>>◌, bytes_eq, ltb, ◌==◌, not,
}
use lp_0005_private_token_ba.Crypto.{Sha256, hash_parts, Ecdsa}
use lp_0005_private_token_ba.Core.{
  PrivateInputs, AttestStatement, AttestInstruction, derive_account_id, compute_nullifier,
  compute_gate_tag,
}
use lp_0005_private_token_ba.Circuit.{Lee}
use lp_0005_private_token_ba.Gate.{
  SpelError, custom, e_threshold_too_low, e_context_mismatch, e_bad_signature, e_bad_pubkey_len,
  ChainedCall, SpelOutput, GateArgs,
}

abbrev pub e_bad_witness : ℕ
e_bad_witness = 3007

abbrev pub e_nullifier_mismatch : ℕ
e_nullifier_mismatch = 3008

abbrev pub e_anchored_balance_too_low : ℕ
e_anchored_balance_too_low = 3009

abbrev pub e_presenter_not_attested : ℕ
e_presenter_not_attested = 3010

abbrev pub e_presenter_not_native : ℕ
e_presenter_not_native = 3011

abbrev pub e_gate_tag_mismatch : ℕ
e_gate_tag_mismatch = 3012

abbrev pub attestation_lez_program_id : List ℕ
attestation_lez_program_id =
    1709468571 ∷ 4167293182 ∷ 4193013908 ∷ 557707240 ∷ 918071939 ∷ 428160327 ∷ 3222408227
    ∷ 3660016756 ∷ []

abbrev pub authenticated_transfer_program_id : List ℕ
authenticated_transfer_program_id =
    3170810844 ∷ 2526647253 ∷ 999807262 ∷ 1205602179 ∷ 3401962591 ∷ 3484055895 ∷ 2106546407
    ∷ 1900691388 ∷ []

-- The arguments of the deep instruction beside its two accounts.
pub record DeepArgs : Type 0 where
  pub gate : GateArgs
  pub open gate use *
  pub witness_words : List ℕ
  pub gate_tag : Bytes

module _ (sha : Sha256) where
  unfoldable pub presenter_challenge_digest : Bytes → Bytes → ℕ → Bytes → Bytes → Bytes → Bytes
  presenter_challenge_digest presenter_nonce merkle_root threshold context_id presenter_pubkey
        nullifier =
      hash_parts sha (
        codes "/lp-0005/v0.1/PresenterChallenge/"
        ∷ presenter_nonce
        ∷ merkle_root
        ∷ le_bytes 16 threshold
        ∷ context_id
        ∷ presenter_pubkey
        ∷ nullifier
        ∷ [])

unfoldable pub verify_presenter_signature :
    Ecdsa → Bytes → Bytes → Bytes → Result SpelError (Unit {0})
verify_presenter_signature ec digest presenter_pubkey signature_der = do
  let bad = custom e_bad_signature "bad presenter signature"
  pubkey ← ok_or (ec.from_sec1_bytes presenter_pubkey) bad
  signature ← ok_or (ec.from_der signature_der) bad
  ensure (ec.verify pubkey digest signature) bad

abbrev pub statement_of : DeepArgs → AttestStatement
statement_of args = record {
  merkle_root = args.merkle_root;
  threshold = args.threshold;
  context_id = args.context_id;
  presenter_pubkey = args.presenter_pubkey;
}

-- 10, 11. The chained call, and the two accounts.
abbrev pub deep_output :
    (lee : Lee)
    → (gate_marker presenter : lee.AccountWithMetadata) → PrivateInputs
    → DeepArgs
    → SpelOutput lee lee.AccountWithMetadata AttestInstruction
deep_output lee gate_marker presenter witness args = record {
  accounts = gate_marker ∷ presenter ∷ [];
  chained =
      record {
        program_id = attestation_lez_program_id;
        pre_states = [];
        instruction = record { witness = witness; statement = statement_of args };
      }
      ∷ [];
}

unfoldable pub gated_check :
    (sha : Sha256) (ec : Ecdsa) (lee : Lee) (from_slice : List ℕ → Option PrivateInputs)
    → (gate_marker presenter : lee.AccountWithMetadata) → DeepArgs
    → Result SpelError (SpelOutput lee lee.AccountWithMetadata AttestInstruction)
gated_check sha ec lee from_slice gate_marker presenter args = do
  -- 1. Context binding.
  fail_if (not (bytes_eq args.context_id args.expected_context_id))
      (custom e_context_mismatch "context mismatch")
  -- 2. Threshold floor.
  fail_if (ltb args.threshold args.minimum_threshold)
      (custom e_threshold_too_low "threshold too low")
  -- 3. Presenter key shape.
  fail_if (not (length args.presenter_pubkey == 33))
      (custom e_bad_pubkey_len "presenter_pubkey: expected 33-byte compressed secp256k1 key")
  -- 4. Presenter identity binding.
  let digest =
      presenter_challenge_digest sha args.presenter_nonce args.merkle_root args.threshold
        args.context_id args.presenter_pubkey args.nullifier
  verify_presenter_signature ec digest args.presenter_pubkey args.presenter_signature_der
  -- 5. The nullifier is the one that the witness yields.
  witness ←
      ok_or (from_slice args.witness_words) (custom e_bad_witness "witness_words did not decode")
  let account_id = derive_account_id sha witness.npk witness.identifier
  let derived = compute_nullifier sha args.presenter_pubkey args.context_id account_id
  fail_if (not (bytes_eq derived args.nullifier))
      (custom e_nullifier_mismatch "nullifier does not match the supplied witness")
  -- 6. The signing account is the attested one.
  fail_if (not (bytes_eq (lee.account_id presenter) account_id)) (
      custom e_presenter_not_attested
        "the signing account is not the account the witness attests to")
  -- 7. The balance is that of the pinned program.
  fail_if
      (not (bytes_eq (lee.program_owner (lee.account presenter)) authenticated_transfer_program_id))
      (custom e_presenter_not_native
        "the presenter account is not owned by the pinned token program")
  -- 8. The anchored balance.
  fail_if (ltb (lee.balance (lee.account presenter)) args.minimum_threshold) (
      custom e_anchored_balance_too_low
        "the attested account's on-chain balance is below the gate's minimum")
  -- 9. The marker's address commits to the policy.
  let expected_tag =
      compute_gate_tag sha args.nullifier args.minimum_threshold args.expected_context_id
  fail_if (not (bytes_eq expected_tag args.gate_tag))
      (custom e_gate_tag_mismatch "gate_tag does not commit to the enforced threshold and context")
  ok (deep_output lee gate_marker presenter witness args)
