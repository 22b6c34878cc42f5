-- ===== src/Core/Separation.antt =====
-- The domain prefixes of attestation-core, and the kinds of identifiers that they begin.
use lp_0005_private_token_ba.Prelude.{
  ℕ, ◌≡◌, ◌≢◌, refl, List, ◌∷◌, Bytes, bytes_eq, bytes_eq_ne, bytes_eq_cases, length, ◌⊎◌, inl, inr,
}
use lp_0005_private_token_ba.Crypto.{Sha256, hash_parts, Collision, hash_parts-prefixes}
use lp_0005_private_token_ba.Core.{
  derive_account_id, compute_commitment, compute_nullifier, compute_gate_tag,
  private_account_id_prefix, commitment_prefix, nullifier_prefix, gate_tag_prefix,
}

account_id-ne-commitment : private_account_id_prefix ≢ commitment_prefix
unfolding bytes_eq
account_id-ne-commitment = bytes_eq_ne _ _ refl

account_id-ne-nullifier : private_account_id_prefix ≢ nullifier_prefix
unfolding bytes_eq
account_id-ne-nullifier = bytes_eq_ne _ _ refl

account_id-ne-gate_tag : private_account_id_prefix ≢ gate_tag_prefix
unfolding bytes_eq
account_id-ne-gate_tag = bytes_eq_ne _ _ refl

commitment-ne-nullifier : commitment_prefix ≢ nullifier_prefix
unfolding bytes_eq
commitment-ne-nullifier = bytes_eq_ne _ _ refl

commitment-ne-gate_tag : commitment_prefix ≢ gate_tag_prefix
unfolding bytes_eq
commitment-ne-gate_tag = bytes_eq_ne _ _ refl

nullifier-ne-gate_tag : nullifier_prefix ≢ gate_tag_prefix
unfolding bytes_eq
nullifier-ne-gate_tag = bytes_eq_ne _ _ refl

module _ (sha : Sha256) where
  apart :
      (p q : Bytes) (ps qs : List Bytes)
      → length p ≡ length q
      → p ≢ q
      → (hash_parts sha (p ∷ ps) ≢ hash_parts sha (q ∷ qs)) ⊎ Collision sha
  apart p q ps qs l ne = elim (bytes_eq_cases (hash_parts sha (p ∷ ps)) (hash_parts sha (q ∷ qs))) [
    | inl same ↦ inr (hash_parts-prefixes sha p q ps qs l ne same)
    | inr differ ↦ inl differ
  ]

  -- An account id, a commitment, a nullifier and a gate tag are never equal to one another, whatever
  -- went into them, unless SHA-256 collides.
  pub identifiers_separate :
      (npk : Bytes) (i : ℕ) (a : Bytes) (po : List ℕ) (b n : ℕ) (d : Bytes) (pk ctx account : Bytes)
      (nf : Bytes) (floor : ℕ) (gate_ctx : Bytes)
      → ((derive_account_id sha npk i ≢ compute_commitment sha a po b n d) ⊎ Collision sha)
        × ((derive_account_id sha npk i ≢ compute_nullifier sha pk ctx account) ⊎ Collision sha)
        × ((derive_account_id sha npk i ≢ compute_gate_tag sha nf floor gate_ctx) ⊎ Collision sha)
        × ((compute_commitment sha a po b n d ≢ compute_nullifier sha pk ctx account)
            ⊎ Collision sha)
        × ((compute_commitment sha a po b n d ≢ compute_gate_tag sha nf floor gate_ctx)
            ⊎ Collision sha)
        × ((compute_nullifier sha pk ctx account ≢ compute_gate_tag sha nf floor gate_ctx)
            ⊎ Collision sha)
  unfolding derive_account_id compute_commitment compute_nullifier compute_gate_tag
  identifiers_separate npk i a po b n d pk ctx account nf floor gate_ctx = (
    apart _ _ _ _ refl account_id-ne-commitment,
    apart _ _ _ _ refl account_id-ne-nullifier,
    apart _ _ _ _ refl account_id-ne-gate_tag,
    apart _ _ _ _ refl commitment-ne-nullifier,
    apart _ _ _ _ refl commitment-ne-gate_tag,
    apart _ _ _ _ refl nullifier-ne-gate_tag,
  )
