-- ===== src/Services/Spent.antt =====
-- The nullifiers that the services spend, of admit in integrations/chat-gate, activate in
-- integrations/premium-features and cast_vote in integrations/governance-gate, and the journals behind them.
use lp_0005_private_token_ba.Prelude.{
  ℕ, ◌≡◌, ◌⊎◌, inl, inr, refl, sym, ◌∙◌, List, ◌∷◌, Bytes, bytes_eq, bytes_eq_iff, contains, true,
  some, ok, Bool-cases,
}
use mathlib.Core.Path.{subst, subst₂}
use lp_0005_private_token_ba.Crypto.{Sha256, Ecdsa}
use lp_0005_private_token_ba.Core.{PublicJournal}
use lp_0005_private_token_ba.Core.Binding.{compute_nullifier-binding}
use lp_0005_private_token_ba.Kernel.Check.{check_gate_results}
use lp_0005_private_token_ba.Offchain.{Risc0, verify_credential}
use lp_0005_private_token_ba.Offchain.Results.{verify_credential-ok}
use lp_0005_private_token_ba.Offchain.Holders.{Attested, Sound, Attested-IsJournal}
use lp_0005_private_token_ba.Chat.{GroupRoster}
use lp_0005_private_token_ba.Chat.Members
use lp_0005_private_token_ba.Chat.Members.{admit_effect}
use lp_0005_private_token_ba.Premium.{FeatureService, tier_for}
use lp_0005_private_token_ba.Premium.Sessions
use lp_0005_private_token_ba.Premium.Sessions.{activate_effect}
use lp_0005_private_token_ba.Governance.{ProposalState, Vote, cast_vote}
use lp_0005_private_token_ba.Governance.Tally.{gate_inputs, cast_vote_effect}
use lp_0005_private_token_ba.Services.{Service, group, tier, governance, service_context, Broken}
use lp_0005_private_token_ba.Services.Contexts.{service_context-injective}

module _ (sha : Sha256) where
  -- A journal that the guest committed, of the service's context, with this nullifier.
  abbrev pub SpentBy : Service → Bytes → Type 0
  SpentBy s nullifier =
      (j : PublicJournal) × Attested sha j
      × (j.context_id ≡ service_context sha s)
      × (j.nullifier ≡ nullifier)

  -- One nullifier is of one service, unless the hash is broken.
  pub SpentBy-unique :
      (s s' : Service) (nullifier : Bytes)
      → SpentBy s nullifier
      → SpentBy s' nullifier
      → (s ≡ s') ⊎ Broken sha
  SpentBy-unique s s' nullifier (j, attested, context, own) (j', attested', context', own') =
      let (sizes, (account, account_hash, made)) = Attested-IsJournal sha j attested in
      let (sizes', (account', account_hash', made')) = Attested-IsJournal sha j' attested' in
      elim (compute_nullifier-binding sha j.presenter_pubkey j'.presenter_pubkey j.context_id
        j'.context_id account account' sizes.pubkey_length sizes'.pubkey_length sizes.context_hash
        sizes'.context_hash (sym made ∙ own ∙ sym own' ∙ made')) [
          | inl parts ↦ service_context-injective sha s s' (sym context ∙ parts.1 ∙ context')
          | inr collision ↦ inr (inl collision)
        ]

  -- Every nullifier that a roster, a service or a proposal holds is of a journal for it.
  abbrev pub RosterBacked : GroupRoster → Type 0
  RosterBacked g = (b : Bytes) → contains g.used_nullifiers b ≡ true → SpentBy (group g.group_id) b

  abbrev pub SessionsBacked : FeatureService → Type 0
  SessionsBacked s = (b : Bytes) (t : _) → tier_for s b ≡ some t → SpentBy (tier t) b

  abbrev pub VotesBacked : ProposalState → Type 0
  VotesBacked p = (b : Bytes) → contains p.used_nullifiers b ≡ true → SpentBy governance b

  -- One more nullifier in a set.
  contains_cons :
      (P : Bytes → Type 0) (used : List Bytes) (n b : Bytes)
      → P n
      → ((c : Bytes) → contains used c ≡ true → P c)
      → contains (n ∷ used) b ≡ true
      → P b
  unfolding contains
  contains_cons P used n b this others held = elim (Bool-cases (bytes_eq n b)) [
    | inl same ↦ subst P ((bytes_eq_iff n b).0 same) this
    | inr other ↦ others b ((rw other at held))
  ]

  module _ (ec : Ecdsa) (zk : Risc0) (attestation_id : List ℕ) where
    accepted-SpentBy :
        (s : Service) (r : zk.Receipt) (nonce sig_der : Bytes) (floor : ℕ) (j : PublicJournal)
        → Sound sha zk attestation_id
        → verify_credential zk attestation_id sha ec r nonce sig_der (service_context sha s) floor
          ≡ ok j
        → SpentBy s j.nullifier
    accepted-SpentBy s r nonce sig_der floor j sound accepted =
        let (verified, decoded, context, reaches, answered) =
          (verify_credential-ok zk attestation_id sha ec r nonce sig_der (service_context sha s)
              floor j).0
            accepted in
        (j, sound r j verified decoded, context, refl)

    pub admit-RosterBacked :
        (g : GroupRoster) (r : Members.Request sha ec zk attestation_id)
        → Sound sha zk attestation_id
        → RosterBacked g
        → RosterBacked (Members.admit_on sha ec zk attestation_id g r).1
    unfolding service_context
    admit-RosterBacked g r sound h = elim (admit_effect sha ec zk attestation_id g r) [
      | inl (e, refused, same) ↦ rw same h
      | inr (inl (j, accepted, spent, same)) ↦ rw same h
      | inr (inr (j, accepted, fresh, same)) ↦ rw same λ b held.
          contains_cons (SpentBy (group g.group_id)) g.used_nullifiers j.nullifier b
            (accepted-SpentBy (group g.group_id) r.receipt r.presenter_nonce
              r.presenter_signature_der g.minimum_stake j sound accepted)
            h held
    ]

    pub activate-SessionsBacked :
        (s : FeatureService) (r : Sessions.Request sha ec zk attestation_id)
        → Sound sha zk attestation_id
        → SessionsBacked s
        → SessionsBacked (Sessions.activate_on sha ec zk attestation_id s r).1
    unfolding service_context
    activate-SessionsBacked s r sound h b t held =
        elim (activate_effect sha ec zk attestation_id s r) [
          | inl (e, refused, same) ↦ h b t (rw same at held)
          | inr (inl (j, accepted, t', taken, same)) ↦ h b t (rw same at held)
          | inr (inr (j, accepted, fresh, returned, after)) ↦
              elim (Bool-cases (bytes_eq j.nullifier b)) [
                | inr other ↦ h b t (rw (after b, other) at held)
                | inl this ↦
                    let tier_is : r.tier ≡ t = cc ((rw (after b, this) at held)) in
                    subst₂ (λ u n. SpentBy (tier u) n) tier_is ((bytes_eq_iff j.nullifier b).0 this)
                      (accepted-SpentBy (tier r.tier) r.receipt r.presenter_nonce
                        r.presenter_signature_der _ j sound accepted)
              ]
        ]

    -- The journal of a vote is one that the guest committed: the kernel leaves that to its caller.
    pub cast_vote-VotesBacked :
        (p : ProposalState) (v : Vote)
        → Attested sha v.attestation
        → VotesBacked p
        → VotesBacked (cast_vote sha ec p v).1
    unfolding service_context
    cast_vote-VotesBacked p v attested h = elim (cast_vote_effect sha ec p v) [
      | inl (e, refused, same) ↦ rw same h
      | inr (inl (accepted, spent, same)) ↦ rw same h
      | inr (inr (accepted, fresh, same)) ↦
          let context = ((check_gate_results sha ec (gate_inputs v)).0.0 accepted).0 in
          rw same λ b held.
            contains_cons (SpentBy governance) p.used_nullifiers v.attestation.nullifier b
              (v.attestation, attested, context, refl) h held
    ]
