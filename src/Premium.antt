-- ===== src/Premium.antt =====
-- integrations/premium-features/src/lib.rs: feature tiers unlocked by a credential.
pub mod Sessions
use lp_0005_private_token_ba.Prelude.{
  ℕ, List, [], ◌∷◌, Bytes, codes, Option, ByteMap, lookup, contains_key, put, Result, ok, err,
  if◌then◌else◌,
}
use lp_0005_private_token_ba.Crypto.{Sha256, hash_parts, Ecdsa}
use lp_0005_private_token_ba.Core.{PublicJournal}
use lp_0005_private_token_ba.Offchain.{Risc0, VerifyError, verify_credential}

pub data ActivateError : Type 0 where
  verify : VerifyError → ActivateError
  nullifier_reused : ActivateError

pub data Tier : Type 0 where
  free pro enterprise : Tier

unfoldable pub minimum_balance : Tier → ℕ
minimum_balance free = 0
minimum_balance pro = 10_000
minimum_balance enterprise = 1_000_000

abbrev pub tier_name : Tier → Bytes
tier_name free = codes "free"
tier_name pro = codes "pro"
tier_name enterprise = codes "enterprise"

unfoldable pub context_id : Sha256 → Tier → Bytes
context_id sha tier =
    hash_parts sha (codes "/lp-0005/integ/premium-features-v1/tier/" ∷ tier_name tier ∷ [])

pub record FeatureService : Type 0 where
  pub active_sessions : ByteMap Tier

-- After the verification: one session for each nullifier.
unfoldable pub open_session :
    FeatureService
    → Tier
    → Result VerifyError PublicJournal
    → Result ActivateError PublicJournal × FeatureService
open_session service tier (err e) = (err (verify e), service)
open_session service tier (ok journal) =
    if contains_key service.active_sessions journal.nullifier
    then (err nullifier_reused, service)
    else (
      ok journal,
      record service { active_sessions = put service.active_sessions journal.nullifier tier },
    )

unfoldable pub activate :
    (sha : Sha256) (ec : Ecdsa) (zk : Risc0) (attestation_id : List ℕ)
    → FeatureService
    → Tier
    → zk.Receipt
    → Bytes
    → Bytes
    → Result ActivateError PublicJournal × FeatureService
unfolding open_session
activate sha ec zk attestation_id service tier receipt presenter_nonce presenter_signature_der =
    open_session service tier (
      verify_credential zk attestation_id sha ec receipt presenter_nonce presenter_signature_der
        (context_id sha tier) (minimum_balance tier))

unfoldable pub tier_for : FeatureService → Bytes → Option Tier
tier_for service nullifier = lookup service.active_sessions nullifier
