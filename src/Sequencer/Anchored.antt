-- ===== src/Sequencer/Anchored.antt =====
-- verify_credential of crates/verifier-offchain/src/lib.rs followed by is_root_current of
-- crates/sequencer-client/src/lib.rs, the off-chain flow of docs/limitations.md, over the chain's tree
-- of docs/recon.md, in which the slots past the last commitment are empty.
use lp_0005_private_token_ba.Prelude.{
  ℕ, ◌≡◌, ◌⊎◌, sym, ap, ◌∙◌, List, Bytes, String, Result, Option, true, some, ok,
}
use lp_0005_private_token_ba.Crypto.{Sha256, Ecdsa}
use lp_0005_private_token_ba.Core.{PublicJournal, IsHash, fold_merkle_path, leaf_hash}
use lp_0005_private_token_ba.Core.Merkle.{Tree, get_leaf, map_tree}
use lp_0005_private_token_ba.Core.Merkle.Padded.{padded_path, fold_merkle_path-padded_root}
use lp_0005_private_token_ba.Core.Attest.{Account}
use lp_0005_private_token_ba.Core.Attest.Padded.{
  AreSlots, slot_commitment, chain_root, BrokenPadding,
}
use lp_0005_private_token_ba.Offchain.{Risc0, verify_credential}
use lp_0005_private_token_ba.Offchain.Holders.{Sound, HeldIn, verify_credential-HeldIn}
use lp_0005_private_token_ba.Json.{Json}
use lp_0005_private_token_ba.Sequencer.{MembershipProof, Server}
use lp_0005_private_token_ba.Sequencer.Root.{get_proof_for_commitment, is_root_current}
use lp_0005_private_token_ba.Sequencer.Root.Current.{is_root_current_iff}

module _ (sha : Sha256) (empty_node : Bytes) (json : Json)
    (decode_hex : Bytes → Result String Bytes) (server : Server json) where
  -- What the sequencer promises: its proof of a commitment is the path of a slot with this commitment in
  -- the chain's tree.
  abbrev pub Serves : Tree (Option Account) → Bytes → Type 0
  Serves t c =
      let slots = map_tree (slot_commitment sha) t in
      (proof : MembershipProof)
      → get_proof_for_commitment json decode_hex server c ≡ ok (some proof)
      → (depth : ℕ) × (get_leaf slots proof.leaf_index depth ≡ some (some c))
        × (proof.siblings ≡ padded_path sha empty_node slots proof.leaf_index depth)

  -- A root that the client calls current is that of the chain's tree.
  current-chain_root :
      (t : Tree (Option Account)) (r c : Bytes)
      → Serves t c
      → is_root_current json decode_hex server sha r c ≡ ok true
      → chain_root sha empty_node t ≡ r
  unfolding chain_root
  current-chain_root t r c serves current =
      let (proof, answered, folds) =
        (is_root_current_iff sha json decode_hex server r c).0 current in
      let (depth, found, siblings_same) = serves proof answered in
      sym (
        fold_merkle_path-padded_root sha empty_node (map_tree (slot_commitment sha) t) c
          proof.leaf_index depth found)
      ∙ ap (fold_merkle_path sha (leaf_hash sha c) proof.leaf_index) (sym siblings_same)
      ∙ folds

  -- A credential that the off-chain verifier accepts, and whose root the client then calls current, is of
  -- an account in a slot of the chain's tree: the account holds at least the floor, and the journal's
  -- nullifier is the account's, for the presenter's key in the expected context. The exceptions are a
  -- collision of SHA-256, and an empty slot's value that is the leaf hash of a witness's commitment or
  -- the hash of a pair of 32-byte strings. The chain's tree is any binary tree of slots, full or with
  -- empty ones, which all have one 32-byte node value; the sequencer's proof of the known commitment is
  -- the path of its slot, a receipt that verifies is of a run of the guest, and the accounts have
  -- fields of the sizes of their types.
  pub current_credential-HeldIn :
      (ec : Ecdsa) (zk : Risc0) (attestation_id : List ℕ) (t : Tree (Option Account))
      (r : zk.Receipt) (nonce sig_der ctx : Bytes) (floor : ℕ) (j : PublicJournal)
      (known_commitment : Bytes)
      → Sound sha zk attestation_id
      → IsHash empty_node
      → AreSlots t
      → Serves t known_commitment
      → verify_credential zk attestation_id sha ec r nonce sig_der ctx floor ≡ ok j
      → is_root_current json decode_hex server sha j.merkle_root known_commitment ≡ ok true
      → (HeldIn sha t j floor × (j.context_id ≡ ctx)) ⊎ BrokenPadding sha empty_node
  current_credential-HeldIn ec zk attestation_id t r nonce sig_der ctx floor j known_commitment
        sound he slots serves accepted current =
      verify_credential-HeldIn sha ec zk attestation_id empty_node t r nonce sig_der ctx floor j
        sound he slots accepted (current-chain_root t j.merkle_root known_commitment serves current)
