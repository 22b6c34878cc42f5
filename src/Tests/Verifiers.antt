-- ===== src/Tests/Verifiers.antt =====
-- The kernel, the off-chain verifier, the shallow guest and the v2 guest at the fixtures.

use lp_0005_private_token_ba.Prelude.{
  ◌≡◌, ◌≢◌, ◌≤◌, ◌<◌, ◌↔◌, ◌⊎◌, refl, [], ◌∷◌, Bytes, replicate, some, none, ok, err, map_err,
  ◌>>=◌, ◌>>◌, arith,
}
use lp_0005_private_token_ba.Crypto.{Collision}
use lp_0005_private_token_ba.Core.{IsJournal}
use lp_0005_private_token_ba.Core.Binding.{length-compute_nullifier}
use lp_0005_private_token_ba.Core.Merkle.{length-root}
use lp_0005_private_token_ba.Core.Attest.{commitment_root}
use lp_0005_private_token_ba.Kernel
use lp_0005_private_token_ba.Kernel.{GateError, check_gate, verify_presenter, GateInputs}
use lp_0005_private_token_ba.Kernel.Check.{Answers, Misanswers, check_gate_results}
use lp_0005_private_token_ba.Kernel.Challenge.{presenter_challenge_digest-binding}
use lp_0005_private_token_ba.Offchain.{verify_credential, verify_receipt}
use lp_0005_private_token_ba.Offchain.Results.{verify_credential-check_gate, to_verify_error}
use lp_0005_private_token_ba.Gate.{SpelOutput}
use lp_0005_private_token_ba.Gate.Shallow
use lp_0005_private_token_ba.Gate.Chained
use lp_0005_private_token_ba.Gate.Agreement.{
  gate_inputs, shallow_needs_no_attestation, chained-digest-ne,
}
use lp_0005_private_token_ba.Tests.Fixtures.{
  test_sha, test_ecdsa, test_signer, test_risc0, test_lee, journal, holder_nullifier, pubkey,
  context, nonce, signature, gate_args, presenter,
}

abbrev good_gate : GateInputs
good_gate = gate_inputs gate_args

check_gate_results_example :
    ((check_gate test_sha test_ecdsa good_gate ≡ ok tt) ↔ (
      (context ≡ context)
      × (50_000 ≤ journal.threshold)
      × Answers test_sha test_ecdsa journal nonce signature))
    × ((check_gate test_sha test_ecdsa good_gate ≡ err GateError.context_mismatch)
        ↔ (context ≢ context))
    × ((check_gate test_sha test_ecdsa good_gate ≡ err GateError.threshold_too_low)
        ↔ ((context ≡ context) × (journal.threshold < 50_000)))
    × ((check_gate test_sha test_ecdsa good_gate ≡ err GateError.invalid_pubkey) ↔ (
        (context ≡ context)
        × (50_000 ≤ journal.threshold)
        × (test_ecdsa.from_sec1_bytes pubkey ≡ none)))
    × ((check_gate test_sha test_ecdsa good_gate ≡ err GateError.invalid_signature) ↔ (
        (context ≡ context)
        × (50_000 ≤ journal.threshold)
        × ((vk : Bytes) × (test_ecdsa.from_sec1_bytes pubkey ≡ some vk))
        × (test_ecdsa.from_der signature ≡ none)))
    × ((check_gate test_sha test_ecdsa good_gate ≡ err GateError.signature_rejected) ↔ (
        (context ≡ context)
        × (50_000 ≤ journal.threshold)
        × Misanswers test_sha test_ecdsa journal nonce signature))
    × (check_gate test_sha test_ecdsa good_gate ≢ err GateError.nullifier_already_used)
check_gate_results_example = check_gate_results test_sha test_ecdsa good_gate

-- The fixtures' receipt is the journal itself.
verify_credential-check_gate_example :
    verify_credential test_risc0 (5 ∷ []) test_sha test_ecdsa journal nonce signature context 50_000
    ≡ (verify_receipt test_risc0 (5 ∷ []) journal >>= λ j.
        map_err to_verify_error (
          check_gate test_sha test_ecdsa (record {
            attested = j;
            expected_context_id = context;
            minimum_threshold = 50_000;
            challenge_nonce = nonce;
            presenter_signature_der = signature;
          }))
        >> ok j)
verify_credential-check_gate_example =
    verify_credential-check_gate test_risc0 (5 ∷ []) test_sha test_ecdsa journal nonce signature
      context 50_000

abbrev shallow_output : SpelOutput test_lee test_lee.Account Bytes
shallow_output = record { accounts = test_lee.account presenter ∷ []; chained = [] }

-- A key of nobody's, a root of no tree and a nullifier of no account.
shallow_needs_no_attestation_example :
    Shallow.gated_check test_sha test_ecdsa test_lee presenter (record {
      merkle_root = replicate 32 1;
      threshold = 60_000;
      context_id = context;
      presenter_pubkey = test_signer.public 77;
      nullifier = replicate 32 2;
      presenter_nonce = nonce;
      presenter_signature_der = test_signer.sign_der 77 (
          Shallow.presenter_challenge_digest test_sha nonce
            (replicate 32 1)
            60_000
            context
            (test_signer.public 77)
            (replicate 32 2));
      expected_context_id = context;
      minimum_threshold = 50_000;
    })
    ≡ ok shallow_output
shallow_needs_no_attestation_example =
    shallow_needs_no_attestation test_sha test_ecdsa test_signer 77 test_lee presenter
      (replicate 32 1) context (replicate 32 2) nonce 60_000 50_000 (omega arith)

journal-IsJournal : IsJournal journal
unfolding commitment_root
journal-IsJournal = record {
  root_hash = length-root test_sha _;
  threshold_u128 = omega arith;
  context_hash = refl;
  pubkey_length = refl;
  nullifier_hash = length-compute_nullifier test_sha pubkey context _;
}

chained-digest-ne_example :
    (Chained.challenge_digest test_sha nonce (
        Chained.canonical_journal_bytes journal.merkle_root journal.threshold context pubkey
          holder_nullifier)
      ≢ Kernel.presenter_challenge_digest test_sha nonce journal)
    ⊎ Collision test_sha
chained-digest-ne_example = chained-digest-ne test_sha journal nonce journal-IsJournal refl

presenter_challenge_digest-binding_example :
    ((nonce ≡ nonce) × (journal ≡ journal)) ⊎ Collision test_sha
presenter_challenge_digest-binding_example =
    presenter_challenge_digest-binding test_sha nonce nonce journal journal refl refl
      journal-IsJournal journal-IsJournal refl
