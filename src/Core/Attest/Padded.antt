-- ===== src/Core/Attest/Padded.antt =====
-- `attest` of attestation-core, over the tree that docs/recon.md describes: a slot holds an account or is
-- empty, and the value of an empty slot's node is a parameter.
use lp_0005_private_token_ba.Prelude.{
  ◌≤◌, ◌≡◌, refl, sym, ap, ◌∙◌, Bytes, length, Option, none, some, ok, ◌⊎◌, inl, inr,
}
use lp_0005_private_token_ba.Crypto.{Sha256, Collision, or_collision_bind, or_collision_map}
use lp_0005_private_token_ba.Core.{
  PrivateInputs, AttestStatement, IsHash, IsWitness, compute_nullifier, witness_commitment, attest,
  leaf_hash,
}
use lp_0005_private_token_ba.Core.Binding.{length-compute_commitment}
use lp_0005_private_token_ba.Core.Merkle.{
  Tree, AllLeaves, AllLeaves-get_leaf, leaf, node, get_leaf, get_leaf-map_tree, map_tree,
}
use lp_0005_private_token_ba.Core.Merkle.Padded.{
  IsSlot, padded_root, PairedEmpty, Forged, fold_merkle_path-slot,
}
use lp_0005_private_token_ba.Core.Attest.{
  Account, IsAccount, account_commitment, witness_id, witness_root, witness_nullifier,
  attest_results, length-witness_commitment, same_account,
}

-- The accounts of the slots that hold one have fields of the sizes of their types.
abbrev pub IsAccountSlot : Option Account → Type 0
IsAccountSlot (some a) = IsAccount a
IsAccountSlot none = Unit

abbrev pub AreSlots : Tree (Option Account) → Type 0
AreSlots = AllLeaves IsAccountSlot

module _ (sha : Sha256) where
  -- The commitment in a slot.
  unfoldable pub slot_commitment : Option Account → Option Bytes
  slot_commitment (some a) = some (account_commitment sha a)
  slot_commitment none = none

module _ (sha : Sha256) (empty_node : Bytes) where
  -- The root of a chain whose slots are these.
  unfoldable pub chain_root : Tree (Option Account) → Bytes
  chain_root t = padded_root sha empty_node (map_tree (slot_commitment sha) t)

  -- The value of an empty slot is the leaf hash of the commitment of a witness, or the hash of a pair of
  -- 32-byte strings, or SHA-256 collides.
  abbrev pub BrokenPadding : Type 0
  BrokenPadding =
      ((w : PrivateInputs) × (leaf_hash sha (witness_commitment sha w) ≡ empty_node))
      ⊎ (PairedEmpty sha empty_node ⊎ Collision sha)

  IsSlot-slot_commitment :
      (t : Tree (Option Account)) → AllLeaves IsSlot (map_tree (slot_commitment sha) t)
  unfolding map_tree slot_commitment account_commitment
  IsSlot-slot_commitment (leaf (some a)) = length-compute_commitment sha _ _ _ _ _
  IsSlot-slot_commitment (leaf none) = tt
  IsSlot-slot_commitment (node l r) = (IsSlot-slot_commitment l, IsSlot-slot_commitment r)

  some-slot_commitment :
      (slot : Option Account) (c : Bytes)
      → slot_commitment sha slot ≡ some c
      → (a : Account) × (slot ≡ some a) × (account_commitment sha a ≡ c)
  unfolding slot_commitment
  some-slot_commitment (some a) c e = (a, refl, cc e)
  some-slot_commitment none c e = absurd (cc e)

  forged-BrokenPadding {ℓ} :
      {P : Type ℓ} (w : PrivateInputs)
      → P ⊎ Forged sha empty_node (witness_commitment sha w)
      → P ⊎ BrokenPadding
  forged-BrokenPadding w (inl p) = inl p
  forged-BrokenPadding w (inr (inl same)) = inr (inl (w, same))
  forged-BrokenPadding w (inr (inr rest)) = inr (inr rest)

  collision-BrokenPadding {ℓ} : {P : Type ℓ} → P ⊎ Collision sha → P ⊎ BrokenPadding
  collision-BrokenPadding (inl p) = inl p
  collision-BrokenPadding (inr c) = inr (inr (inr c))

  -- A witness whose path folds to the chain's root has the commitment of one of its accounts.
  committed_slot :
      (t : Tree (Option Account)) (w : PrivateInputs)
      → IsHash empty_node
      → IsWitness w
      → witness_root sha w ≡ chain_root t
      → ((a : Account) × (get_leaf t w.leaf_index (length w.merkle_path) ≡ some (some a))
          × (account_commitment sha a ≡ witness_commitment sha w))
        ⊎ BrokenPadding
  unfolding witness_root chain_root
  committed_slot t w he hw e =
      or_collision_map
        (forged-BrokenPadding w (
          fold_merkle_path-slot sha empty_node (map_tree (slot_commitment sha) t)
            (witness_commitment sha w) w.leaf_index w.merkle_path he (IsSlot-slot_commitment t)
            (length-witness_commitment sha w) hw.path_hashes e))
        λ found.
          let (slot, at, same) =
            get_leaf-map_tree (slot_commitment sha) t w.leaf_index (length w.merkle_path) found in
          let (a, held, own) = some-slot_commitment slot (witness_commitment sha w) same in
          (a, at ∙ ap some held, own)

  -- Where the stated root is the chain's, a success of `attest` means that the slot at the witness's
  -- index holds an account with the witness's id, which reaches the threshold and is the account of the
  -- returned nullifier, unless the value of an empty slot is a hash that it should not be or SHA-256
  -- collides.
  pub attest-chain_root :
      (t : Tree (Option Account)) (w : PrivateInputs) (s : AttestStatement) (n : Bytes)
      → IsHash empty_node
      → AreSlots t
      → IsWitness w
      → chain_root t ≡ s.merkle_root
      → attest sha w s ≡ ok n
      → ((a : Account) × (get_leaf t w.leaf_index (length w.merkle_path) ≡ some (some a))
          × (a.account_id ≡ witness_id sha w)
          × (s.threshold ≤ a.balance)
          × (n ≡ compute_nullifier sha s.presenter_pubkey s.context_id a.account_id))
        ⊎ BrokenPadding
  unfolding witness_nullifier
  attest-chain_root t w s n he ht hw anchor accepted =
      let (folds, reaches, same_nullifier) = (attest_results sha w s n).0.0 accepted in
      or_collision_bind (committed_slot t w he hw (folds ∙ sym anchor))
        λ (a, found, same_commitment).
          or_collision_map
            (collision-BrokenPadding (
              same_account sha w a hw (AllLeaves-get_leaf IsAccountSlot t _ _ (some a) ht found)
                same_commitment))
            λ same. (a, found, same.0, rw (same.2) reaches, rw (same.0) (sym same_nullifier))
