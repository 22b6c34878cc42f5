-- ===== src/Tests/Seconds.antt =====
-- A holder's second vote, after another holder's, at the fixtures.
use lp_0005_private_token_ba.Prelude.{
  ◌≡◌, ◌⊎◌, refl, ap, [], ◌∷◌, bytes_eq_refl, contains, false, ok, err, arith,
}
use lp_0005_private_token_ba.Kernel.{GateError, check_gate}
use lp_0005_private_token_ba.Kernel.Check.{check_gate_results}
use lp_0005_private_token_ba.Governance.{
  gate, nullifier_reused, governance_context_id, ProposalState, new_proposal, Vote, cast_vote,
}
use lp_0005_private_token_ba.Governance.Tally.{cast_votes, gate_inputs, count_vote-fresh}
use lp_0005_private_token_ba.Governance.Once.{second_vote_refused}
use lp_0005_private_token_ba.Tests.Fixtures.{test_sha, test_ecdsa, pubkey, holder_id}
use lp_0005_private_token_ba.Tests.Integrations.{vote}
use lp_0005_private_token_ba.Tests.Worlds.{held_journal, held_answer, holders_vote}

gate_accepts : check_gate test_sha test_ecdsa (gate_inputs holders_vote) ≡ ok tt
gate_accepts = (check_gate_results test_sha test_ecdsa (gate_inputs holders_vote)).0.1 (
  refl,
  omega arith,
  (
    pubkey,
    held_answer governance_context_id,
    refl,
    refl,
    bytes_eq_refl (held_answer governance_context_id),
  ),
)

first_counts : (cast_vote test_sha test_ecdsa new_proposal holders_vote).0 ≡ ok tt
unfolding cast_vote contains
first_counts = rw gate_accepts (ap (λ r. r.0) (count_vote-fresh new_proposal holders_vote refl))

-- Of the same key and account, with a lower threshold and the other choice.
abbrev again : Vote
again = record holders_vote {
  attestation = record (held_journal governance_context_id) { threshold = 60_000 };
  vote_yes = false;
}

-- After the first vote and another holder's.
abbrev between : ProposalState
between =
    cast_votes test_sha test_ecdsa (cast_vote test_sha test_ecdsa new_proposal holders_vote).1
      (vote ∷ [])

second_vote_refused_example :
    ((e : GateError) × (cast_vote test_sha test_ecdsa between again ≡ (err (gate e), between)))
    ⊎ (cast_vote test_sha test_ecdsa between again ≡ (err nullifier_reused, between))
second_vote_refused_example =
    second_vote_refused test_sha test_ecdsa new_proposal holders_vote again (vote ∷ []) holder_id
      refl refl refl first_counts
