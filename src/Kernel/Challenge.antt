-- ===== src/Kernel/Challenge.antt =====
-- presenter_challenge_digest of crates/verifier-program/src/signature.rs and its preimage.
use lp_0005_private_token_ba.Prelude.{◌≡◌, refl, Bytes, arith, ◌⊎◌}
use lp_0005_private_token_ba.Crypto.{Sha256, Collision, hash_parts-binding, or_collision_map}
use lp_0005_private_token_ba.Core.{PublicJournal, IsJournal, IsHash}
use lp_0005_private_token_ba.Core.Layout.{u128_bytes-injective, u128_lengths}
use lp_0005_private_token_ba.Kernel.{presenter_challenge_digest}

module _ (sha : Sha256) where
  -- For 32-byte nonces and journals with fields of the sizes of their Rust types, a challenge digest
  -- binds the nonce and every field of the journal: equal digests are of the same nonce and journal,
  -- unless SHA-256 collides.
  pub presenter_challenge_digest-binding :
      (nonce nonce' : Bytes) (j j' : PublicJournal)
      → IsHash nonce
      → IsHash nonce'
      → IsJournal j
      → IsJournal j'
      → presenter_challenge_digest sha nonce j ≡ presenter_challenge_digest sha nonce' j'
      → ((nonce ≡ nonce') × (j ≡ j')) ⊎ Collision sha
  unfolding presenter_challenge_digest
  presenter_challenge_digest-binding nonce nonce' j j' hn hn' hj hj' e =
      or_collision_map
        (hash_parts-binding sha _ _
          (
            refl,
            (
              omega arith,
              (
                omega arith,
                (u128_lengths j.threshold j'.threshold, (omega arith, (omega arith, tt))),
              ),
            ),
          )
          e)
        λ same.
          let t : j.threshold ≡ j'.threshold =
            u128_bytes-injective j.threshold j'.threshold hj.threshold_u128 hj'.threshold_u128
              (cc same) in
          (cc same, cc (t, same))
