-- ===== src/Tests/Gates.antt =====
-- The deep gate at the fixtures.
use mathlib.Core.Path.{subst}
use lp_0005_private_token_ba.Prelude.{
  ℕ, ◌≡◌, ◌≤◌, ◌↔◌, ◌⊎◌, refl, List, [], bytes_eq, bytes_eq_refl, some, ok, err, arith,
}
use lp_0005_private_token_ba.Crypto.{Collision}
use lp_0005_private_token_ba.Core.{PrivateInputs, AttestInstruction, IsWitness}
use lp_0005_private_token_ba.Core.Binding.{length-compute_nullifier}
use lp_0005_private_token_ba.Core.Merkle.{get_leaf}
use lp_0005_private_token_ba.Core.Attest.{Account}
use lp_0005_private_token_ba.Kernel.Check.{Answers}
use lp_0005_private_token_ba.Gate.{custom, SpelOutput, ChainedCall}
use lp_0005_private_token_ba.Gate.Deep.{DeepArgs, gated_check, authenticated_transfer_program_id}
use lp_0005_private_token_ba.Gate.Deep.Acceptance.{
  Accepts, accepted_output, gated_check-Accepts, gated_check_iff,
}
use lp_0005_private_token_ba.Gate.Deep.Marker.{gate_tag-policy, gated_check-committed}
use lp_0005_private_token_ba.Gate.Deep.Rejection.{gated_check-rejected, ArgsFault, WitnessFault}
use lp_0005_private_token_ba.Tests.Fixtures.{
  test_sha, test_ecdsa, test_lee, accounts, witness, statement, journal, holder, holder_nullifier,
  pubkey, context, nonce, signature, gate_args, deep_args, test_from_slice, presenter, marker,
  lez_input,
}
use lp_0005_private_token_ba.Tests.Attestation.{
  witness-IsWitness, accounts-AreAccounts, holder_returned, lez_output,
}

pub journal_answered : Answers test_sha test_ecdsa journal nonce signature
journal_answered = (pubkey, signature, refl, refl, bytes_eq_refl signature)

deep-Accepts : Accepts test_sha test_ecdsa test_lee test_from_slice presenter deep_args witness
deep-Accepts = record {
  context = refl;
  floor = omega arith;
  pubkey_len = refl;
  answers = journal_answered;
  decoded = refl;
  nullifier = refl;
  attested = refl;
  native = refl;
  anchored = omega arith;
  tag = refl;
}

abbrev deep_output : SpelOutput test_lee test_lee.AccountWithMetadata AttestInstruction
deep_output =
    accepted_output test_sha test_ecdsa test_lee test_from_slice marker presenter deep_args witness

deep_accepted :
    gated_check test_sha test_ecdsa test_lee test_from_slice marker presenter deep_args
    ≡ ok deep_output
deep_accepted =
    gated_check-Accepts test_sha test_ecdsa test_lee test_from_slice marker presenter deep_args
      witness deep-Accepts

gated_check_iff_example :
    (gated_check test_sha test_ecdsa test_lee test_from_slice marker presenter deep_args
      ≡ ok deep_output)
    ↔ ((w : PrivateInputs) × Accepts test_sha test_ecdsa test_lee test_from_slice presenter
          deep_args w
        × (deep_output
            ≡ accepted_output test_sha test_ecdsa test_lee test_from_slice marker presenter
                deep_args w))
gated_check_iff_example =
    gated_check_iff test_sha test_ecdsa test_lee test_from_slice marker presenter deep_args
      deep_output

gate_tag-policy_example :
    ((deep_args.nullifier ≡ holder_nullifier)
      × (deep_args.minimum_threshold ≡ 50_000)
      × (deep_args.context_id ≡ context)
      × (50_000 ≤ holder.balance)
      × (holder.program_owner ≡ authenticated_transfer_program_id))
    ⊎ Collision test_sha
gate_tag-policy_example =
    gate_tag-policy test_sha test_ecdsa test_lee test_from_slice marker presenter deep_args
      deep_accepted holder_nullifier 50_000 context
      (length-compute_nullifier test_sha pubkey context _) (omega arith)
      (length-compute_nullifier test_sha pubkey context _) (omega arith) refl

abbrev declared_call : ChainedCall test_lee AttestInstruction
declared_call = record {
  program_id = lez_input.self_program_id;
  pre_states = [];
  instruction = record { witness = witness; statement = statement };
}

decodes_witnesses :
    (words : List ℕ) (w : PrivateInputs) → test_from_slice words ≡ some w → IsWitness w
decodes_witnesses words w e =
    let same : witness ≡ w = cc e in subst IsWitness same witness-IsWitness

gated_check-committed_example :
    ((a : Account) × (i : ℕ) × (d : ℕ) × (get_leaf accounts i d ≡ some a)
      × (a.account_id ≡ holder.account_id)
      × (50_000 ≤ a.balance))
    ⊎ Collision test_sha
gated_check-committed_example =
    gated_check-committed test_sha test_ecdsa test_lee test_from_slice marker presenter deep_args
      deep_accepted accounts lez_input lez_output declared_call decodes_witnesses
      accounts-AreAccounts refl refl refl holder_returned

-- A call whose floor is above the stated threshold.
abbrev low_args : DeepArgs
low_args = record deep_args { gate = record gate_args { minimum_threshold = 200_000 } }

low_rejected :
    gated_check test_sha test_ecdsa test_lee test_from_slice marker presenter low_args
    ≡ err (custom 3001 "threshold too low")
unfolding gated_check bytes_eq
low_rejected = refl

gated_check-rejected_example :
    ArgsFault test_sha test_ecdsa test_lee test_from_slice low_args 3001
    ⊎ ((w : PrivateInputs) × (test_from_slice low_args.witness_words ≡ some w)
        × WitnessFault test_sha test_ecdsa test_lee test_from_slice presenter low_args w 3001)
gated_check-rejected_example =
    gated_check-rejected test_sha test_ecdsa test_lee test_from_slice marker presenter low_args 3001
      "threshold too low" low_rejected
