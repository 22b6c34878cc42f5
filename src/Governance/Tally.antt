-- ===== src/Governance/Tally.antt =====
-- cast_vote of integrations/governance-gate/src/lib.rs: its outcomes, sequences of votes and their tally.
use lp_0005_private_token_ba.Prelude.{
  suc, ◌+◌, ◌%◌, ◌^◌, ◌<◌, ◌≤◌, ◌≡◌, ◌≢◌, ◌⊎◌, inl, inr, refl, List, [], ◌∷◌, Bytes, contains,
  insert, Distinct, length, bytes_eq_cases, ne_bytes_eq, true, false, Result-cases, Bool-cases, ok,
  err, arith, if◌then◌else◌,
}
use lp_0005_private_token_ba.Crypto.{Sha256, Ecdsa, Collision}
use lp_0005_private_token_ba.Core.{compute_nullifier}
use lp_0005_private_token_ba.Core.Binding.{compute_nullifier-binding}
use lp_0005_private_token_ba.Kernel.{GateError, GateInputs, check_gate}
use lp_0005_private_token_ba.Governance.{
  governance_context_id, gate, nullifier_reused, ProposalState, new_proposal, Vote, count_vote,
  cast_vote,
}

pub record IsTally (s : ProposalState) : Type 0 where
  pub distinct : Distinct s.used_nullifiers
  pub counted : s.yes_votes + s.no_votes ≡ length s.used_nullifiers

abbrev pub gate_inputs : Vote → GateInputs
gate_inputs v = record {
  attested = v.attestation;
  expected_context_id = governance_context_id;
  minimum_threshold = v.minimum_stake;
  challenge_nonce = v.presenter_nonce;
  presenter_signature_der = v.presenter_signature_der;
}

-- The state after a counted vote: the nullifier is spent, and the chosen side has one more vote.
abbrev pub counted : ProposalState → Vote → ProposalState
counted s v = record {
  yes_votes = if v.vote_yes then (s.yes_votes + 1) % 2 ^ 64 else s.yes_votes;
  no_votes = if v.vote_yes then s.no_votes else (s.no_votes + 1) % 2 ^ 64;
  used_nullifiers = v.attestation.nullifier ∷ s.used_nullifiers;
}

count_vote-spent :
    (s : ProposalState) (v : Vote)
    → contains s.used_nullifiers v.attestation.nullifier ≡ true
    → count_vote s v ≡ (err nullifier_reused, s)
unfolding count_vote insert
count_vote-spent s v h = ground arith

pub count_vote-fresh :
    (s : ProposalState) (v : Vote)
    → contains s.used_nullifiers v.attestation.nullifier ≡ false
    → count_vote s v ≡ (ok tt, counted s v)
unfolding count_vote insert
count_vote-fresh s v h = ground arith

counted-room :
    (s : ProposalState) (v : Vote)
    → length s.used_nullifiers + 1 < 2 ^ 64
    → IsTally s
    → (counted s v).yes_votes + (counted s v).no_votes ≡ suc (length s.used_nullifiers)
counted-room s v room h = elim (Bool-cases v.vote_yes) [
  | inl yes_side ↦ rw yes_side (omega (arith, h.counted))
  | inr no_side ↦ rw no_side (omega (arith, h.counted))
]

module _ (sha : Sha256) (ec : Ecdsa) where
  -- A vote has one of three outcomes. The gate refuses it: its error is passed on and nothing
  -- changes. The gate accepts it and its nullifier is spent: it is reported as reused and nothing
  -- changes. Otherwise the nullifier is spent, the chosen side gets one vote and the other none.
  pub cast_vote_effect :
      (s : ProposalState) (v : Vote)
      → ((e : GateError) × (check_gate sha ec (gate_inputs v) ≡ err e)
          × (cast_vote sha ec s v ≡ (err (gate e), s)))
        ⊎ ((check_gate sha ec (gate_inputs v) ≡ ok tt)
            × (contains s.used_nullifiers v.attestation.nullifier ≡ true)
            × (cast_vote sha ec s v ≡ (err nullifier_reused, s)))
        ⊎ ((check_gate sha ec (gate_inputs v) ≡ ok tt)
            × (contains s.used_nullifiers v.attestation.nullifier ≡ false)
            × (cast_vote sha ec s v ≡ (ok tt, counted s v)))
  unfolding cast_vote
  cast_vote_effect s v = elim (Result-cases (check_gate sha ec (gate_inputs v))) [
    | inr (e, refused) ↦ inl (e, refused, rw refused)
    | inl (_, accepted) ↦
        inr (elim (Bool-cases (contains s.used_nullifiers v.attestation.nullifier)) [
          | inl spent ↦ inl (accepted, spent, rw accepted (count_vote-spent s v spent))
          | inr fresh ↦ inr (accepted, fresh, rw accepted (count_vote-fresh s v fresh))
        ])
  ]

  -- The votes of a sequence of calls, one after the other.
  unfoldable pub cast_votes : ProposalState → List Vote → ProposalState
  cast_votes s [] = s
  cast_votes s (v ∷ vs) = cast_votes (cast_vote sha ec s v).1 vs

  -- A call adds at most one nullifier, and keeps the tally while the counters have room.
  cast_vote-IsTally :
      (s : ProposalState) (v : Vote)
      → length s.used_nullifiers + 1 < 2 ^ 64
      → IsTally s
      → IsTally (cast_vote sha ec s v).1
        × (length (cast_vote sha ec s v).1.used_nullifiers ≤ length s.used_nullifiers + 1)
  cast_vote-IsTally s v room h = elim (cast_vote_effect s v) [
    | inl (e, refused, same) ↦ rw same (h, omega arith)
    | inr (inl (accepted, spent, same)) ↦ rw same (h, omega arith)
    | inr (inr (accepted, fresh, same)) ↦
        rw same (
          record { distinct = (fresh, h.distinct); counted = counted-room s v room h },
          omega arith,
        )
  ]

  run_from :
      (s : ProposalState) (vs : List Vote)
      → length s.used_nullifiers + length vs < 2 ^ 64
      → IsTally s
      → IsTally (cast_votes s vs)
        × (length (cast_votes s vs).used_nullifiers ≤ length s.used_nullifiers + length vs)
  unfolding cast_votes
  run_from s [] room h = (h, omega arith)
  run_from s (v ∷ vs) room h =
      let (h', grown) = cast_vote-IsTally s v (omega arith) h in
      let (last, bound) = run_from (cast_vote sha ec s v).1 vs (omega arith) h' in
      (last, omega arith)

  -- From an empty proposal, after any calls, fewer than 2^64, no nullifier is spent twice, and the
  -- votes counted are as many as the nullifiers spent, which are at most the calls.
  pub cast_votes-IsTally :
      (vs : List Vote)
      → length vs < 2 ^ 64
      → IsTally (cast_votes new_proposal vs)
        × (length (cast_votes new_proposal vs).used_nullifiers ≤ length vs)
  cast_votes-IsTally vs room =
      let (tally, bound) = run_from new_proposal vs (omega arith) (omega arith) in
      (tally, omega arith)

-- Two different 33-byte keys over one account give two nullifiers in the governance context: where the
-- first is the only one spent, the second is not spent, unless SHA-256 collides.
pub two_keys_two_nullifiers :
    (sha : Sha256) (pk pk' account : Bytes)
    → length pk ≡ 33
    → length pk' ≡ 33
    → pk ≢ pk'
    → (contains
          (compute_nullifier sha pk governance_context_id account ∷ [])
          (compute_nullifier sha pk' governance_context_id account)
        ≡ false)
      ⊎ Collision sha
unfolding contains
two_keys_two_nullifiers sha pk pk' account hp hp' differ =
    let n = compute_nullifier sha pk governance_context_id account in
    let n' = compute_nullifier sha pk' governance_context_id account in
    elim (bytes_eq_cases n n') [
      | inl same ↦
          elim (compute_nullifier-binding sha pk pk' governance_context_id governance_context_id
            account account hp hp' refl refl same) [
              | inl parts ↦ absurd (differ parts.0)
              | inr c ↦ inr c
            ]
      | inr apart ↦ inl (rw (ne_bytes_eq n n' apart) refl)
    ]
