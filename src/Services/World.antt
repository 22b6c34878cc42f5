-- ===== src/Services/World.antt =====
-- A chat group, the premium features and a proposal, used side by side: calls of admit
-- (integrations/chat-gate), activate (integrations/premium-features) and cast_vote
-- (integrations/governance-gate) in any order.
use lp_0005_private_token_ba.Prelude.{ℕ, ◌≡◌, ◌⊎◌, List, [], Bytes, contains, true, some, lookup}
use mathlib.Core.Path.{subst}
use lp_0005_private_token_ba.Crypto.{Sha256, Ecdsa}
use lp_0005_private_token_ba.Offchain.{Risc0}
use lp_0005_private_token_ba.Offchain.Holders.{Attested, Sound}
use lp_0005_private_token_ba.Chat.{GroupRoster, new_roster}
use lp_0005_private_token_ba.Chat.Members
use lp_0005_private_token_ba.Premium.{FeatureService, tier_for}
use lp_0005_private_token_ba.Premium.Sessions
use lp_0005_private_token_ba.Governance.{ProposalState, new_proposal, Vote, cast_vote}
use lp_0005_private_token_ba.Services.{Service, group, relay, tier, label, governance, Broken}
use lp_0005_private_token_ba.Services.Spent.{
  SpentBy, SpentBy-unique, RosterBacked, SessionsBacked, VotesBacked, admit-RosterBacked,
  activate-SessionsBacked, cast_vote-VotesBacked,
}

pub record World : Type 0 where
  pub roster : GroupRoster
  pub features : FeatureService
  pub proposal : ProposalState

abbrev pub new_world : Bytes → ℕ → World
new_world group_id stake = record {
  roster = new_roster group_id stake;
  features = record { active_sessions = [] };
  proposal = new_proposal;
}

-- The nullifier is spent at the service.
unfoldable pub IsSpent : World → Service → Bytes → Type 0
IsSpent w (group g) n = (w.roster.group_id ≡ g) × (contains w.roster.used_nullifiers n ≡ true)
IsSpent w (tier t) n = tier_for w.features n ≡ some t
IsSpent w governance n = contains w.proposal.used_nullifiers n ≡ true
IsSpent w (relay r) n = ⊥
IsSpent w (label l) n = ⊥

module _ (sha : Sha256) (ec : Ecdsa) (zk : Risc0) (attestation_id : List ℕ) where
  -- The states that interleaved calls lead to. A vote comes with a journal that the guest committed.
  pub data Reached (group_id : Bytes) (stake : ℕ) : World → Type 0 where
    start : Reached group_id stake (new_world group_id stake)
    admits :
        {w : World}
        → Reached group_id stake w
        → (r : Members.Request sha ec zk attestation_id)
        → Reached group_id stake
            (record w { roster = (Members.admit_on sha ec zk attestation_id w.roster r).1 })
    activates :
        {w : World}
        → Reached group_id stake w
        → (r : Sessions.Request sha ec zk attestation_id)
        → Reached group_id stake
            (record w { features = (Sessions.activate_on sha ec zk attestation_id w.features r).1 })
    votes :
        {w : World}
        → Reached group_id stake w
        → (v : Vote) → Attested sha v.attestation
        → Reached group_id stake (record w { proposal = (cast_vote sha ec w.proposal v).1 })

  record IsWorld (w : World) : Type 0 where
    group_backed : RosterBacked sha w.roster
    tier_backed : SessionsBacked sha w.features
    vote_backed : VotesBacked sha w.proposal

  Reached-IsWorld :
      {group_id : Bytes} {stake : ℕ} {w : World}
      → Sound sha zk attestation_id
      → Reached group_id stake w
      → IsWorld w
  unfolding contains tier_for lookup
  Reached-IsWorld sound start = record {
    group_backed = λ b held. cc;
    tier_backed = λ b t held. cc;
    vote_backed = λ b held. cc;
  }
  Reached-IsWorld sound (admits {w = w} reached r) =
      let h = Reached-IsWorld sound reached in
      record {
        group_backed = admit-RosterBacked sha ec zk attestation_id w.roster r sound h.group_backed;
        tier_backed = h.tier_backed;
        vote_backed = h.vote_backed;
      }
  Reached-IsWorld sound (activates {w = w} reached r) =
      let h = Reached-IsWorld sound reached in
      record {
        group_backed = h.group_backed;
        tier_backed =
            activate-SessionsBacked sha ec zk attestation_id w.features r sound h.tier_backed;
        vote_backed = h.vote_backed;
      }
  Reached-IsWorld sound (votes {w = w} reached v attested) =
      let h = Reached-IsWorld sound reached in
      record {
        group_backed = h.group_backed;
        tier_backed = h.tier_backed;
        vote_backed =
            cast_vote-VotesBacked sha ec zk attestation_id w.proposal v attested h.vote_backed;
      }

  IsSpent-SpentBy :
      (w : World) (s : Service) (n : Bytes) → IsWorld w → IsSpent w s n → SpentBy sha s n
  unfolding IsSpent
  IsSpent-SpentBy w (group g) n h (same, held) =
      subst (λ i. SpentBy sha (group i) n) same (h.group_backed n held)
  IsSpent-SpentBy w (tier t) n h held = h.tier_backed n t held
  IsSpent-SpentBy w governance n h held = h.vote_backed n held
  IsSpent-SpentBy w (relay r) n h held = absurd held
  IsSpent-SpentBy w (label l) n h held = absurd held

  -- However calls to the chat group, the premium features and the proposal interleave, no nullifier is
  -- spent at two of them, nor at two tiers, unless SHA-256 collides or has an input whose digest is the
  -- constant context of the governance gate. A receipt that verifies is of a run of the guest, and a vote
  -- comes with a journal that the guest committed.
  pub spent_once :
      (group_id : Bytes) (stake : ℕ) (w : World) (s s' : Service) (n : Bytes)
      → Sound sha zk attestation_id
      → Reached group_id stake w
      → IsSpent w s n
      → IsSpent w s' n
      → (s ≡ s') ⊎ Broken sha
  spent_once group_id stake w s s' n sound reached spent spent' =
      let h = Reached-IsWorld sound reached in
      SpentBy-unique sha s s' n (IsSpent-SpentBy w s n h spent) (IsSpent-SpentBy w s' n h spent')
