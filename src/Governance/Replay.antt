-- ===== src/Governance/Replay.antt =====
-- cast_vote of integrations/governance-gate/src/lib.rs: a vote cast again on another proposal.
use lp_0005_private_token_ba.Prelude.{◌≡◌, Bool, false, contains, ok, inl, inr}
use lp_0005_private_token_ba.Crypto.{Sha256, Ecdsa}
use lp_0005_private_token_ba.Governance.{ProposalState, Vote, cast_vote}
use lp_0005_private_token_ba.Governance.Tally.{counted, cast_vote_effect, count_vote-fresh}

-- A vote that was counted on one proposal is counted, with the same attestation, nonce and signature
-- and with either choice, on every proposal where its nullifier is not spent: the signature covers
-- neither the proposal nor the choice.
pub cast_vote_recast :
    (sha : Sha256) (ec : Ecdsa) (s t : ProposalState) (v : Vote) (choice : Bool)
    → (cast_vote sha ec s v).0 ≡ ok tt
    → contains t.used_nullifiers v.attestation.nullifier ≡ false
    → cast_vote sha ec t (record v { vote_yes = choice })
      ≡ (ok tt, counted t (record v { vote_yes = choice }))
unfolding cast_vote
cast_vote_recast sha ec s t v choice taken unspent = elim (cast_vote_effect sha ec s v) [
  | inl (e, refused, same) ↦ absurd (cc taken)
  | inr (inl (accepted, spent, same)) ↦ absurd (cc taken)
  | inr (inr (accepted, fresh, same)) ↦
      rw accepted (count_vote-fresh t (record v { vote_yes = choice }) unspent)
]
