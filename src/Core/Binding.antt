-- ===== src/Core/Binding.antt =====
-- The preimages of the identifiers of attestation-core, and what two equal identifiers say of them.
use lp_0005_private_token_ba.Prelude.{ℕ, ◌≡◌, refl, List, Bytes, IsU128, length, arith, ◌⊎◌}
use lp_0005_private_token_ba.Crypto.{
  Sha256, Collision, hash_parts-binding, or_collision_map, length-hash_parts,
}
use lp_0005_private_token_ba.Core.{
  derive_account_id, compute_commitment, compute_nullifier, compute_gate_tag, leaf_hash, IsHash,
  IsProgramId,
}
use lp_0005_private_token_ba.Core.Layout.{
  u128_bytes-injective, u128_lengths, length-word_bytes, word_bytes-injective,
}

module _ (sha : Sha256) where
  pub length-derive_account_id : (npk : Bytes) (i : ℕ) → IsHash (derive_account_id sha npk i)
  unfolding derive_account_id
  length-derive_account_id npk i = length-hash_parts sha _

  pub length-compute_nullifier :
      (pk ctx account : Bytes) → IsHash (compute_nullifier sha pk ctx account)
  unfolding compute_nullifier
  length-compute_nullifier pk ctx account = length-hash_parts sha _

  pub length-compute_commitment :
      (a : Bytes) (po : List ℕ) (b n : ℕ) (d : Bytes) → IsHash (compute_commitment sha a po b n d)
  unfolding compute_commitment
  length-compute_commitment a po b n d = length-hash_parts sha _

  -- Equal account ids come from the same key and identifier, unless SHA-256 collides.
  pub derive_account_id-binding :
      (npk npk' : Bytes) (i i' : ℕ)
      → IsHash npk
      → IsHash npk'
      → IsU128 i
      → IsU128 i'
      → derive_account_id sha npk i ≡ derive_account_id sha npk' i'
      → ((npk ≡ npk') × (i ≡ i')) ⊎ Collision sha
  unfolding derive_account_id
  derive_account_id-binding npk npk' i i' hn hn' hi hi' e =
      or_collision_map (hash_parts-binding sha _ _ (refl, (omega arith, tt)) e)
        λ same. (cc same, u128_bytes-injective i i' hi hi' (cc same))

  -- For fields of the sizes of their Rust types, equal commitments are of the same account, owner,
  -- balance, nonce and data hash, unless SHA-256 collides.
  pub compute_commitment-binding :
      (a a' : Bytes) (po po' : List ℕ) (b b' n n' : ℕ) (d d' : Bytes)
      → IsHash a
      → IsHash a'
      → IsProgramId po
      → IsProgramId po'
      → IsU128 b
      → IsU128 b'
      → IsU128 n
      → IsU128 n'
      → compute_commitment sha a po b n d ≡ compute_commitment sha a' po' b' n' d'
      → ((a ≡ a') × (po ≡ po') × (b ≡ b') × (n ≡ n') × (d ≡ d')) ⊎ Collision sha
  unfolding compute_commitment
  compute_commitment-binding a a' po po' b b' n n' d d' ha ha' hp hp' hb hb' hn hn' e =
      or_collision_map
        (hash_parts-binding sha _ _
          (
            refl,
            (
              omega arith,
              (
                omega (arith, length-word_bytes po, length-word_bytes po'),
                (u128_lengths b b', (u128_lengths n n', tt)),
              ),
            ),
          )
          e)
        λ same. (
          cc same,
          word_bytes-injective po po' hp.1 hp'.1 (cc same),
          u128_bytes-injective b b' hb hb' (cc same),
          u128_bytes-injective n n' hn hn' (cc same),
          cc same,
        )

  -- For 33-byte keys and 32-byte contexts, equal nullifiers are of the same presenter key, context and
  -- account, unless SHA-256 collides.
  pub compute_nullifier-binding :
      (pk pk' ctx ctx' a a' : Bytes)
      → length pk ≡ 33
      → length pk' ≡ 33
      → IsHash ctx
      → IsHash ctx'
      → compute_nullifier sha pk ctx a ≡ compute_nullifier sha pk' ctx' a'
      → ((pk ≡ pk') × (ctx ≡ ctx') × (a ≡ a')) ⊎ Collision sha
  unfolding compute_nullifier
  compute_nullifier-binding pk pk' ctx ctx' a a' hp hp' hc hc' e =
      or_collision_map (hash_parts-binding sha _ _ (refl, (omega arith, (omega arith, tt))) e)
        λ same. (cc same, cc same, cc same)

  -- A gate marker commits to the nullifier, the enforced floor and the context: for 32-byte nullifiers
  -- and floors below 2^128, equal tags are of equal policies, unless SHA-256 collides.
  pub compute_gate_tag-binding :
      (nf nf' : Bytes) (floor floor' : ℕ) (ctx ctx' : Bytes)
      → IsHash nf
      → IsHash nf'
      → IsU128 floor
      → IsU128 floor'
      → compute_gate_tag sha nf floor ctx ≡ compute_gate_tag sha nf' floor' ctx'
      → ((nf ≡ nf') × (floor ≡ floor') × (ctx ≡ ctx')) ⊎ Collision sha
  unfolding compute_gate_tag
  compute_gate_tag-binding nf nf' floor floor' ctx ctx' hn hn' hf hf' e =
      or_collision_map
        (hash_parts-binding sha _ _ (refl, (omega arith, (u128_lengths floor floor', tt))) e)
        λ same. (cc same, u128_bytes-injective floor floor' hf hf' (cc same), cc same)

  -- Equal leaf hashes are of the same commitment, unless SHA-256 collides.
  pub leaf_hash-binding :
      (c c' : Bytes) → leaf_hash sha c ≡ leaf_hash sha c' → (c ≡ c') ⊎ Collision sha
  unfolding leaf_hash
  leaf_hash-binding c c' e = or_collision_map (hash_parts-binding sha _ _ tt e) λ same. cc same
