-- ===== src/Services/Served.antt =====
-- Proofs of crates/sdk/src/lib.rs, presented at the services that they are made for: admit of
-- integrations/chat-gate, activate of integrations/premium-features, verify_nip42_with_lp0005 of
-- integrations/nostr-auth-gate, cast_vote of integrations/governance-gate and verify_credential of
-- crates/verifier-offchain.
use lp_0005_private_token_ba.Prelude.{
  ℕ, ◌≡◌, ◌≤◌, refl, ap, ◌∙◌, List, [], Bytes, Bool, length, contains, lookup, contains_key, ok,
}
use mathlib.Core.Path.{subst}
use lp_0005_private_token_ba.Crypto.{Sha256, Ecdsa, Signer}
use lp_0005_private_token_ba.Core.{PublicJournal}
use lp_0005_private_token_ba.Core.Attest.{witness_root}
use lp_0005_private_token_ba.Kernel.Check.{check_gate_results}
use lp_0005_private_token_ba.Offchain.{Risc0, verify_credential}
use lp_0005_private_token_ba.Offchain.Results.{verify_credential-ok}
use lp_0005_private_token_ba.Sdk.{
  AttestationProof, ProveRequest, ReceiptKind, Prover, sign, private_inputs, prove_with_kind,
}
use lp_0005_private_token_ba.Sdk.Credential.{Proves, prove-verify_credential}
use lp_0005_private_token_ba.Chat.{admit, new_roster}
use lp_0005_private_token_ba.Chat.Members.{admit_verified-fresh}
use lp_0005_private_token_ba.Premium.{activate, open_session, minimum_balance}
use lp_0005_private_token_ba.Nostr.{Decoders, verify_nip42_with_lp0005}
use lp_0005_private_token_ba.Nostr.Reply.{Encoders, verify_nip42-Carries}
use lp_0005_private_token_ba.Governance.{Vote, new_proposal, cast_vote}
use lp_0005_private_token_ba.Governance.Tally.{gate_inputs, count_vote-fresh}
use lp_0005_private_token_ba.Services.{
  Service, group, relay, tier, label, governance, service_context,
}

module _ (sha : Sha256) (ec : Ecdsa) (zk : Risc0) (attestation_id : List ℕ) (decoders : Decoders zk)
    (encoders : Encoders zk decoders) where
  -- What a service asks for: the tier's balance, or a floor of its own.
  abbrev pub floor_of : Service → ℕ → ℕ
  floor_of (tier t) floor = minimum_balance t
  floor_of (group g) floor = floor
  floor_of (relay r) floor = floor
  floor_of (label l) floor = floor
  floor_of governance floor = floor

  abbrev pub vote_of : PublicJournal → Bytes → Bytes → ℕ → Bool → Vote
  vote_of j nonce sig_der floor choice = record {
    attestation = j;
    presenter_nonce = nonce;
    presenter_signature_der = sig_der;
    minimum_stake = floor;
    vote_yes = choice;
  }

  -- A new group admits, a service without sessions activates, a relay accepts the reply, an empty
  -- proposal counts the vote, and the off-chain verifier accepts.
  abbrev pub Honours : Service → zk.Receipt → PublicJournal → Bytes → Bytes → ℕ → Bool → Type 0
  Honours (group g) r j nonce sig_der floor choice =
      (admit sha ec zk attestation_id (new_roster g floor) r nonce sig_der).0 ≡ ok j
  Honours (tier t) r j nonce sig_der floor choice =
      (activate sha ec zk attestation_id (record { active_sessions = [] }) t r nonce sig_der).0
      ≡ ok j
  Honours (relay u) r j nonce sig_der floor choice =
      verify_nip42_with_lp0005 sha ec zk attestation_id decoders (encoders.tag_of r nonce sig_der) u
        floor
      ≡ ok j
  Honours (label l) r j nonce sig_der floor choice =
      verify_credential zk attestation_id sha ec r nonce sig_der (service_context sha (label l))
        floor
      ≡ ok j
  Honours governance r j nonce sig_der floor choice =
      (cast_vote sha ec new_proposal (vote_of j nonce sig_der floor choice)).0 ≡ ok tt

  accepted-Honours :
      (s : Service) (r : zk.Receipt) (j : PublicJournal) (nonce sig_der : Bytes) (floor : ℕ)
      (choice : Bool)
      → length nonce ≡ 32
      → verify_credential zk attestation_id sha ec r nonce sig_der
          (service_context sha s)
          (floor_of s floor)
        ≡ ok j
      → Honours s r j nonce sig_der floor choice
  unfolding admit activate open_session contains_key lookup contains cast_vote service_context
  accepted-Honours (group g) r j nonce sig_der floor choice long accepted =
      rw accepted (ap (λ k. k.0) (admit_verified-fresh (new_roster g floor) j refl))
  accepted-Honours (tier t) r j nonce sig_der floor choice long accepted = rw accepted refl
  accepted-Honours (relay u) r j nonce sig_der floor choice long accepted =
      verify_nip42-Carries sha ec zk attestation_id decoders (encoders.tag_of r nonce sig_der) r
        nonce sig_der u floor (encoders.reads_back r nonce sig_der long)
      ∙ rw accepted refl
  accepted-Honours (label l) r j nonce sig_der floor choice long accepted = accepted
  accepted-Honours governance r j nonce sig_der floor choice long accepted =
      let (verified, decoded, context, reaches, answers) =
        (verify_credential-ok zk attestation_id sha ec r nonce sig_der
            (service_context sha governance) floor j).0
          accepted in
      let v = vote_of j nonce sig_der floor choice in
      let passes = (check_gate_results sha ec (gate_inputs v)).0.1 (context, reaches, answers) in
      rw passes (ap (λ k. k.0) (count_vote-fresh new_proposal v refl))

  -- A holder whose path leads to the request's root and whose balance reaches its threshold, who asks
  -- for a proof in a service's context, gets one, and with it and a signature of the request's key is
  -- served there, at every floor up to the threshold: a new group admits it, a service without sessions
  -- opens the tier, a relay accepts the reply made of it, an empty proposal counts it for either choice,
  -- and the off-chain verifier accepts it. The nonce is any 32 bytes; that the relay drew it is nowhere
  -- asked. The prover proves what the guest commits, the signature scheme accepts its own signatures, and
  -- the relay's decoders read back what the client's encoders write.
  pub prove_served :
      (signer : Signer ec) (prover : Prover zk) (s : Service) (req : ProveRequest)
      (kind : ReceiptKind) (key : signer.SigningKey) (nonce : Bytes) (floor : ℕ) (choice : Bool)
      → Proves sha zk prover attestation_id
      → witness_root sha (private_inputs req) ≡ req.merkle_root
      → req.threshold ≤ req.balance
      → req.presenter_pubkey ≡ signer.public key
      → req.context_id ≡ service_context sha s
      → floor_of s floor ≤ req.threshold
      → length nonce ≡ 32
      → (p : AttestationProof zk) × (prove_with_kind sha prover req kind ≡ ok p)
        × Honours s p.receipt p.journal nonce (sign signer sha key nonce p.journal) floor choice
  prove_served signer prover s req kind key nonce floor choice proves folds reaches same_key
        same_context enough long =
      let (p, proved, stub, accepted) =
        prove-verify_credential sha signer zk prover attestation_id req kind key nonce
          (floor_of s floor) proves folds reaches same_key enough in
      let sig_der = sign signer sha key nonce p.journal in
      (
        p,
        proved,
        accepted-Honours s p.receipt p.journal nonce sig_der floor choice long (
            subst
              (λ c.
                verify_credential zk attestation_id sha ec p.receipt nonce sig_der c
                  (floor_of s floor)
                ≡ ok p.journal)
              same_context accepted),
      )
