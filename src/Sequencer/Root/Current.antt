-- ===== src/Sequencer/Root/Current.antt =====
-- is_root_current of crates/sequencer-client/src/lib.rs, and its fold beside that of attestation-core.
use lp_0005_private_token_ba.Prelude.{
  ℕ, ◌/◌, ◌≡◌, ◌↔◌, refl, sym, ap, ◌∙◌, List, [], ◌∷◌, Bytes, bytes_eq, bytes_eq_iff, String, true,
  some, none, Result, Result-cases, ok, inl, inr,
}
use lp_0005_private_token_ba.Crypto.{Sha256}
use lp_0005_private_token_ba.Core.{fold_merkle_path, hash_level, leaf_hash}
use lp_0005_private_token_ba.Json.{Json}
use lp_0005_private_token_ba.Sequencer.{
  MembershipProof, Server, fold_siblings, fold_membership_proof,
}
use lp_0005_private_token_ba.Sequencer.Root.{
  get_proof_for_commitment, commitment_set_root, is_root_current,
}

module _ (sha : Sha256) where
  fold_siblings-fold_merkle_path :
      (node : Bytes) (i : ℕ) (p : List Bytes)
      → fold_siblings sha node i p ≡ fold_merkle_path sha node i p
  unfolding fold_siblings fold_merkle_path hash_level
  fold_siblings-fold_merkle_path node i [] = refl
  fold_siblings-fold_merkle_path node i (s ∷ p) =
      fold_siblings-fold_merkle_path (hash_level sha node i s) (i / 2) p

  -- The client's fold of a membership proof is the guests' fold from the leaf hash of the commitment.
  fold_membership_proof-fold_merkle_path :
      (c : Bytes) (proof : MembershipProof)
      → fold_membership_proof sha c proof
        ≡ fold_merkle_path sha (leaf_hash sha c) proof.leaf_index proof.siblings
  unfolding fold_membership_proof leaf_hash
  fold_membership_proof-fold_merkle_path c proof =
      fold_siblings-fold_merkle_path _ proof.leaf_index proof.siblings

  module _ (json : Json) (decode_hex : Bytes → Result String Bytes) (server : Server json) where
    -- The client calls a root current exactly where the sequencer has a membership proof of the known
    -- commitment, and the guests' fold of this proof, from the commitment's leaf hash, is the root.
    pub is_root_current_iff :
        (r c : Bytes)
        → (is_root_current json decode_hex server sha r c ≡ ok true) ↔ (
            (proof : MembershipProof) × (get_proof_for_commitment json decode_hex server c
              ≡ ok (some proof))
            × (fold_merkle_path sha (leaf_hash sha c) proof.leaf_index proof.siblings ≡ r))
    unfolding is_root_current commitment_set_root
    is_root_current_iff r c =
        elim (Result-cases (get_proof_for_commitment json decode_hex server c)) [
          | inr (e, failed) ↦ (
            λ h. absurd (cc ((rw failed at h))),
            λ (proof, found, folds). absurd (cc (failed, found)),
          )
          | inl (none, missing) ↦ (
            λ h. absurd (cc ((rw missing at h))),
            λ (proof, found, folds). absurd (cc (missing, found)),
          )
          | inl (some proof, found) ↦ (
            λ h.
                let current : bytes_eq (fold_membership_proof sha c proof) r ≡ true =
                  cc ((rw found at h)) in
                (
                  proof,
                  found,
                  sym (fold_membership_proof-fold_merkle_path c proof)
                      ∙ (bytes_eq_iff (fold_membership_proof sha c proof) r).0 current,
                ),
            λ (proof', found', folds).
                let same : proof' ≡ proof = cc (found, found') in
                rw found (
                  ap ok (
                    (bytes_eq_iff (fold_membership_proof sha c proof) r).1 (
                      fold_membership_proof-fold_merkle_path c proof
                      ∙ ap (λ k. fold_merkle_path sha (leaf_hash sha c) k.leaf_index k.siblings)
                          (sym same)
                      ∙ folds))),
          )
        ]
