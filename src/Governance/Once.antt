-- ===== src/Governance/Once.antt =====
-- cast_vote of integrations/governance-gate/src/lib.rs: a second vote of one holder.
use lp_0005_private_token_ba.Prelude.{
  ◌≡◌, ◌⊎◌, refl, sym, ap, ◌∙◌, List, [], ◌∷◌, Bytes, bytes_eq_refl, contains, true, ok, err, inl,
  inr, arith,
}
use lp_0005_private_token_ba.Crypto.{Sha256, Ecdsa}
use lp_0005_private_token_ba.Core.{compute_nullifier}
use lp_0005_private_token_ba.Kernel.{GateError}
use lp_0005_private_token_ba.Kernel.Check.{check_gate_results}
use lp_0005_private_token_ba.Offchain.Holders.{NullifierOf}
use lp_0005_private_token_ba.Governance.{
  gate, nullifier_reused, governance_context_id, ProposalState, Vote, cast_vote,
}
use lp_0005_private_token_ba.Governance.Tally.{gate_inputs, cast_vote_effect, cast_votes}

contains-cons :
    (n b : Bytes) (used : List Bytes) → contains used b ≡ true → contains (n ∷ used) b ≡ true
unfolding contains
contains-cons n b used h = ground arith

module _ (sha : Sha256) (ec : Ecdsa) where
  cast_vote-keeps :
      (s : ProposalState) (v : Vote) (n : Bytes)
      → contains s.used_nullifiers n ≡ true
      → contains (cast_vote sha ec s v).1.used_nullifiers n ≡ true
  cast_vote-keeps s v n held = elim (cast_vote_effect sha ec s v) [
    | inl (e, refused, same) ↦ rw same held
    | inr (inl (accepted, spent, same)) ↦ rw same held
    | inr (inr (accepted, fresh, same)) ↦
        rw same (contains-cons v.attestation.nullifier n s.used_nullifiers held)
  ]

  pub cast_votes-keeps :
      (vs : List Vote) (s : ProposalState) (n : Bytes)
      → contains s.used_nullifiers n ≡ true
      → contains (cast_votes sha ec s vs).used_nullifiers n ≡ true
  unfolding cast_votes
  cast_votes-keeps [] s n held = held
  cast_votes-keeps (v ∷ vs) s n held =
      cast_votes-keeps vs (cast_vote sha ec s v).1 n (cast_vote-keeps s v n held)

  -- A vote that was counted has its nullifier spent and is of the governance context.
  counted_vote :
      (s : ProposalState) (v : Vote)
      → (cast_vote sha ec s v).0 ≡ ok tt
      → (contains (cast_vote sha ec s v).1.used_nullifiers v.attestation.nullifier ≡ true)
        × (v.attestation.context_id ≡ governance_context_id)
  unfolding contains
  counted_vote s v taken = elim (cast_vote_effect sha ec s v) [
    | inl (e, refused, same) ↦ absurd (cc (taken, same))
    | inr (inl (accepted, spent, same)) ↦ absurd (cc (taken, same))
    | inr (inr (accepted, fresh, same)) ↦ (
      rw (same, bytes_eq_refl v.attestation.nullifier) refl,
      ((check_gate_results sha ec (gate_inputs v)).0.0 accepted).0,
    )
  ]

  -- After a vote was counted, and whatever votes came since, a vote with the same presenter key for the
  -- same account is refused, by the gate or for its nullifier, and changes nothing: whatever root,
  -- threshold, nonce and choice it has. The nullifiers of the two are those of their journals.
  pub second_vote_refused :
      (s : ProposalState) (v w : Vote) (vs : List Vote) (account : Bytes)
      → NullifierOf sha v.attestation account
      → NullifierOf sha w.attestation account
      → v.attestation.presenter_pubkey ≡ w.attestation.presenter_pubkey
      → (cast_vote sha ec s v).0 ≡ ok tt
      → ((e : GateError) × (cast_vote sha ec (cast_votes sha ec (cast_vote sha ec s v).1 vs) w
            ≡ (err (gate e), cast_votes sha ec (cast_vote sha ec s v).1 vs)))
        ⊎ (cast_vote sha ec (cast_votes sha ec (cast_vote sha ec s v).1 vs) w
            ≡ (err nullifier_reused, cast_votes sha ec (cast_vote sha ec s v).1 vs))
  second_vote_refused s v w vs account own own' same_key taken =
      let (spent, context) = counted_vote s v taken in
      let later = cast_votes sha ec (cast_vote sha ec s v).1 vs in
      elim (cast_vote_effect sha ec later w) [
        | inl (e, refused, same) ↦ inl (e, same)
        | inr (inl (accepted, used, same)) ↦ inr same
        | inr (inr (accepted, fresh, same)) ↦
            let context' = ((check_gate_results sha ec (gate_inputs w)).0.0 accepted).0 in
            let one : v.attestation.nullifier ≡ w.attestation.nullifier =
              own
              ∙ ap (λ k. compute_nullifier sha k v.attestation.context_id account) same_key
              ∙ ap (λ c. compute_nullifier sha w.attestation.presenter_pubkey c account)
                  (context ∙ sym context')
              ∙ sym own' in
            absurd (
              cc (
                cast_votes-keeps vs (cast_vote sha ec s v).1 v.attestation.nullifier spent,
                ap (contains later.used_nullifiers) one,
                fresh,
              ))
      ]
