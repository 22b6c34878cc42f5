-- ===== src/Tests/Ballots.antt =====
-- Votes of the governance gate, cast again and on another proposal, at the fixtures.
use lp_0005_private_token_ba.Prelude.{
  ◌≡◌, ◌%◌, ◌^◌, refl, ap, inl, inr, List, [], ◌∷◌, Bytes, bytes_eq, bytes_eq_ne, le_bytes,
  replicate, contains, false, ok, arith,
}
use lp_0005_private_token_ba.Crypto.{hash_parts}
use lp_0005_private_token_ba.Core.{compute_nullifier, derive_account_id}
use lp_0005_private_token_ba.Kernel.{check_gate}
use lp_0005_private_token_ba.Kernel.Check.{check_gate_results}
use lp_0005_private_token_ba.Governance.{
  governance_context_id, ProposalState, new_proposal, Vote, cast_vote,
}
use lp_0005_private_token_ba.Governance.Tally.{cast_votes, counted, gate_inputs, count_vote-fresh}
use lp_0005_private_token_ba.Governance.Step.{Apart}
use lp_0005_private_token_ba.Governance.Occurs.{count_if}
use lp_0005_private_token_ba.Governance.Count.{
  votes_yes, votes_no, is_nullifier_of, cast_votes_counts,
}
use lp_0005_private_token_ba.Governance.Replay.{cast_vote_recast}
use lp_0005_private_token_ba.Tests.Fixtures.{test_sha, test_ecdsa, journal}
use lp_0005_private_token_ba.Tests.Integrations.{vote, journal_in, answered_in}

-- A vote of the other choice under another nullifier.
abbrev other_vote : Vote
other_vote = record vote {
  attestation = record (journal_in governance_context_id) { nullifier = replicate 32 7 };
  vote_yes = false;
}

vote-Apart-other_vote : Apart vote other_vote
unfolding bytes_eq compute_nullifier hash_parts le_bytes derive_account_id
vote-Apart-other_vote = bytes_eq_ne journal.nullifier (replicate 32 7) refl

-- Two votes; the calls below cast the second, the first and the second again.
abbrev ballots : List Vote
ballots = vote ∷ other_vote ∷ []

cast_votes_counts_example :
    let s = cast_votes test_sha test_ecdsa new_proposal (other_vote ∷ vote ∷ other_vote ∷ []) in
    (s.yes_votes ≡ count_if (votes_yes test_sha test_ecdsa) ballots % 2 ^ 64)
    × (s.no_votes ≡ count_if (votes_no test_sha test_ecdsa) ballots % 2 ^ 64)
    × ((b : Bytes) → contains s.used_nullifiers b ≡ is_nullifier_of test_sha test_ecdsa ballots b)
cast_votes_counts_example =
    cast_votes_counts test_sha test_ecdsa ballots (other_vote ∷ vote ∷ other_vote ∷ [])
      ((vote-Apart-other_vote, tt), (tt, tt)) (inr (inl refl), (inl refl, tt))
      (inr (inl refl), (inl refl, (inr (inl refl), tt)))

gate_accepts : check_gate test_sha test_ecdsa (gate_inputs vote) ≡ ok tt
gate_accepts =
    (check_gate_results test_sha test_ecdsa (gate_inputs vote)).0.1
      (refl, omega arith, answered_in governance_context_id)

vote_counts : (cast_vote test_sha test_ecdsa new_proposal vote).0 ≡ ok tt
unfolding cast_vote contains
vote_counts = rw gate_accepts (ap (λ r. r.0) (count_vote-fresh new_proposal vote refl))

-- The same signature on another proposal, for the other choice.
abbrev other_proposal : ProposalState
other_proposal = record { yes_votes = 4; no_votes = 1; used_nullifiers = [] }

cast_vote_recast_example :
    cast_vote test_sha test_ecdsa other_proposal (record vote { vote_yes = false })
    ≡ (ok tt, counted other_proposal (record vote { vote_yes = false }))
unfolding contains
cast_vote_recast_example =
    cast_vote_recast test_sha test_ecdsa new_proposal other_proposal vote false vote_counts refl
