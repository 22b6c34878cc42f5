-- ===== src/Governance.antt =====
-- integrations/governance-gate/src/lib.rs: votes gated by an attestation, one for each nullifier.
-- The vote counters are `u64` and wrap, as in a release build.
pub mod Tally
pub mod Step
pub mod Order
pub mod Replay
pub mod Once
pub mod Occurs
pub mod Count
use lp_0005_private_token_ba.Prelude.{
  ℕ, ◌+◌, ◌%◌, [], ◌^◌, ◌++◌, Bytes, ByteSet, insert, codes, replicate, Bool, Result, ok, err,
  if◌then◌else◌,
}
use lp_0005_private_token_ba.Crypto.{Sha256, Ecdsa}
use lp_0005_private_token_ba.Core.{PublicJournal}
use lp_0005_private_token_ba.Kernel.{GateError, check_gate}

abbrev pub governance_context_id : Bytes
governance_context_id = codes "/lp-0005/integ/governance-v1/" ++ replicate 3 0

pub data VoteError : Type 0 where
  gate : GateError → VoteError
  nullifier_reused not_eligible : VoteError

pub record ProposalState : Type 0 where
  pub yes_votes : ℕ
  pub no_votes : ℕ
  pub used_nullifiers : ByteSet

abbrev pub new_proposal : ProposalState
new_proposal = record { yes_votes = 0; no_votes = 0; used_nullifiers = [] }

-- The arguments of a call beside the state.
pub record Vote : Type 0 where
  pub attestation : PublicJournal
  pub presenter_nonce : Bytes
  pub presenter_signature_der : Bytes
  pub minimum_stake : ℕ
  pub vote_yes : Bool

-- After the gate: the nullifier is spent and the vote counted.
unfoldable pub count_vote : ProposalState → Vote → Result VoteError (Unit {0}) × ProposalState
count_vote state vote =
    let (used, fresh) = insert state.used_nullifiers vote.attestation.nullifier in
    if fresh
    then (
      ok tt,
      if vote.vote_yes
          then record state { used_nullifiers = used; yes_votes = (state.yes_votes + 1) % 2 ^ 64 }
          else record state { used_nullifiers = used; no_votes = (state.no_votes + 1) % 2 ^ 64 },
    )
    else (err nullifier_reused, record state { used_nullifiers = used })

unfoldable pub after_gate :
    ProposalState → Vote → Result GateError (Unit {0}) → Result VoteError (Unit {0}) × ProposalState
after_gate state vote (err e) = (err (gate e), state)
after_gate state vote (ok _) = count_vote state vote

unfoldable pub cast_vote :
    Sha256 → Ecdsa → ProposalState → Vote → Result VoteError (Unit {0}) × ProposalState
unfolding after_gate
cast_vote sha ec state vote = after_gate state vote (
    check_gate sha ec (record {
      attested = vote.attestation;
      expected_context_id = governance_context_id;
      minimum_threshold = vote.minimum_stake;
      challenge_nonce = vote.presenter_nonce;
      presenter_signature_der = vote.presenter_signature_der;
    }))
