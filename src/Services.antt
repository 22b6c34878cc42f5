-- ===== src/Services.antt =====
-- The services that take credentials, side by side: the groups of integrations/chat-gate, the relays of
-- integrations/nostr-auth-gate, the tiers of integrations/premium-features, the contexts of
-- crates/cli/src/bin/attest.rs and the proposals of integrations/governance-gate, each with the context
-- that its code expects.
pub mod Contexts
pub mod Elsewhere
pub mod Refusals
pub mod Spent
pub mod World
pub mod Served
use lp_0005_private_token_ba.Prelude.{Bytes, ◌≡◌, ◌⊎◌}
use lp_0005_private_token_ba.Crypto.{Sha256, Collision}
use lp_0005_private_token_ba.Chat.{group_context_id}
use lp_0005_private_token_ba.Nostr.{context_id_for_relay}
use lp_0005_private_token_ba.Premium.{Tier, context_id}
use lp_0005_private_token_ba.Cli.{context_id_from}
use lp_0005_private_token_ba.Governance.{governance_context_id}

pub data Service : Type 0 where
  group relay : Bytes → Service
  tier : Tier → Service
  label : Bytes → Service
  governance : Service

unfoldable pub service_context : Sha256 → Service → Bytes
service_context sha (group g) = group_context_id sha g
service_context sha (relay r) = context_id_for_relay sha r
service_context sha (tier t) = context_id sha t
service_context sha (label l) = context_id_from sha l
service_context sha governance = governance_context_id

-- Two inputs of SHA-256 with one digest, or an input whose digest is the text that the governance gate
-- has for its context.
abbrev pub Broken : Sha256 → Type 0
Broken sha = Collision sha ⊎ ((x : Bytes) × (sha.digest x ≡ governance_context_id))
