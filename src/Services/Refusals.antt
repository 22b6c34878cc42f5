-- ===== src/Services/Refusals.antt =====
-- A credential of one service, presented at another: admit of integrations/chat-gate, activate of
-- integrations/premium-features, verify_nip42_with_lp0005 of integrations/nostr-auth-gate and cast_vote of
-- integrations/governance-gate.
use lp_0005_private_token_ba.Prelude.{
  ℕ, ◌≡◌, ◌⊎◌, refl, sym, ap, ◌∙◌, List, Bytes, ok, err, map_err,
}
use mathlib.Core.Logic.{⊎_map}
use mathlib.Core.Path.{subst}
use lp_0005_private_token_ba.Crypto.{Sha256, Ecdsa}
use lp_0005_private_token_ba.Core.{PublicJournal}
use lp_0005_private_token_ba.Kernel.{check_gate}
use lp_0005_private_token_ba.Kernel
use lp_0005_private_token_ba.Offchain.{Risc0, context_mismatch, verify_credential}
use lp_0005_private_token_ba.Chat.{GroupRoster, admit, admit_verified}
use lp_0005_private_token_ba.Chat
use lp_0005_private_token_ba.Premium.{Tier, FeatureService, activate, open_session}
use lp_0005_private_token_ba.Premium
use lp_0005_private_token_ba.Nostr.{Lp0005AuthTag, Decoders, verify_nip42_with_lp0005}
use lp_0005_private_token_ba.Nostr
use lp_0005_private_token_ba.Nostr.Reply.{Carries, verify_nip42-Carries}
use lp_0005_private_token_ba.Governance.{ProposalState, Vote, cast_vote}
use lp_0005_private_token_ba.Governance
use lp_0005_private_token_ba.Services.{
  Service, group, relay, tier, governance, service_context, Broken,
}
use lp_0005_private_token_ba.Services.Elsewhere.{
  IssuedFor, accepted-IssuedFor, other_context, verify_credential-elsewhere,
}

module _ (sha : Sha256) (ec : Ecdsa) (zk : Risc0) (attestation_id : List ℕ) where
  admit-elsewhere :
      (s : Service) (r : zk.Receipt) (j : PublicJournal) (nonce sig_der : Bytes) (g : GroupRoster)
      → IssuedFor sha ec zk attestation_id s r j
      → (admit sha ec zk attestation_id g r nonce sig_der ≡ (err (Chat.verify context_mismatch), g))
        ⊎ (s ≡ group g.group_id)
        ⊎ Broken sha
  unfolding admit admit_verified service_context
  admit-elsewhere s r j nonce sig_der g issued =
      ⊎_map (λ e. rw e refl) (λ rest. rest)
        (verify_credential-elsewhere sha ec zk attestation_id s (group g.group_id) r j nonce sig_der
          g.minimum_stake issued)

  activate-elsewhere :
      (s : Service) (r : zk.Receipt) (j : PublicJournal) (nonce sig_der : Bytes)
      (service : FeatureService) (t : Tier)
      → IssuedFor sha ec zk attestation_id s r j
      → (activate sha ec zk attestation_id service t r nonce sig_der
          ≡ (err (Premium.verify context_mismatch), service))
        ⊎ (s ≡ tier t)
        ⊎ Broken sha
  unfolding activate open_session service_context
  activate-elsewhere s r j nonce sig_der service t issued =
      ⊎_map (λ e. rw e refl) (λ rest. rest)
        (verify_credential-elsewhere sha ec zk attestation_id s (tier t) r j nonce sig_der
          (Premium.minimum_balance t) issued)

  nip42-elsewhere :
      (decoders : Decoders zk) (s : Service) (r : zk.Receipt) (j : PublicJournal)
      (nonce sig_der : Bytes) (tag : Lp0005AuthTag) (relay_context : Bytes) (floor : ℕ)
      → IssuedFor sha ec zk attestation_id s r j
      → Carries zk decoders tag r nonce sig_der
      → (verify_nip42_with_lp0005 sha ec zk attestation_id decoders tag relay_context floor
          ≡ err (Nostr.verify context_mismatch))
        ⊎ (s ≡ relay relay_context)
        ⊎ Broken sha
  unfolding service_context
  nip42-elsewhere decoders s r j nonce sig_der tag relay_context floor issued carries =
      ⊎_map
        (λ e.
          verify_nip42-Carries sha ec zk attestation_id decoders tag r nonce sig_der relay_context
            floor carries
          ∙ ap (map_err Nostr.verify) e)
        (λ rest. rest)
        (verify_credential-elsewhere sha ec zk attestation_id s (relay relay_context) r j nonce
          sig_der floor issued)

  -- The vote carries the credential's journal.
  cast_vote-elsewhere :
      (s : Service) (r : zk.Receipt) (v : Vote) (p : ProposalState)
      → IssuedFor sha ec zk attestation_id s r v.attestation
      → (cast_vote sha ec p v ≡ (err (Governance.gate Kernel.context_mismatch), p))
        ⊎ (s ≡ governance)
        ⊎ Broken sha
  unfolding cast_vote Governance.after_gate check_gate service_context
  cast_vote-elsewhere s r v p issued =
      ⊎_map (λ differ. rw differ refl) (λ rest. rest)
        (other_context sha ec zk attestation_id s governance r v.attestation issued)

  -- A credential that one service accepts is refused for its context at every other, whatever nonce,
  -- signature and policy it comes with there: by a chat group, by a tier of the premium features, by a
  -- relay, to whose tag it is written, and as a vote. Nothing changes there. The only other cases are
  -- that the two services are one, or that SHA-256 has a collision, or an input whose digest is the
  -- constant context of the governance gate.
  pub accepted_elsewhere :
      (decoders : Decoders zk) (s : Service) (r : zk.Receipt) (j : PublicJournal)
      (nonce sig_der nonce' sig_der' : Bytes) (floor floor' : ℕ) (g : GroupRoster)
      (service : FeatureService) (t : Tier) (tag : Lp0005AuthTag) (relay_context : Bytes) (v : Vote)
      (p : ProposalState)
      → verify_credential zk attestation_id sha ec r nonce sig_der (service_context sha s) floor
        ≡ ok j
      → Carries zk decoders tag r nonce' sig_der'
      → v.attestation ≡ j
      → ((admit sha ec zk attestation_id g r nonce' sig_der'
            ≡ (err (Chat.verify context_mismatch), g))
          ⊎ (s ≡ group g.group_id)
          ⊎ Broken sha)
        × ((activate sha ec zk attestation_id service t r nonce' sig_der'
              ≡ (err (Premium.verify context_mismatch), service))
            ⊎ (s ≡ tier t)
            ⊎ Broken sha)
        × ((verify_nip42_with_lp0005 sha ec zk attestation_id decoders tag relay_context floor'
              ≡ err (Nostr.verify context_mismatch))
            ⊎ (s ≡ relay relay_context)
            ⊎ Broken sha)
        × ((cast_vote sha ec p v ≡ (err (Governance.gate Kernel.context_mismatch), p))
            ⊎ (s ≡ governance)
            ⊎ Broken sha)
  accepted_elsewhere decoders s r j nonce sig_der nonce' sig_der' floor floor' g service t tag
        relay_context v p accepted carries same =
      let issued = accepted-IssuedFor sha ec zk attestation_id s r nonce sig_der floor j accepted in
      (
        admit-elsewhere s r j nonce' sig_der' g issued,
        activate-elsewhere s r j nonce' sig_der' service t issued,
        nip42-elsewhere decoders s r j nonce' sig_der' tag relay_context floor' issued carries,
        cast_vote-elsewhere s r v p
            (subst (IssuedFor sha ec zk attestation_id s r) (sym same) issued),
      )
