-- ===== src/Core/Attest.antt =====
-- `attest` of attestation-core, over trees of accounts.
pub mod Padded
use lp_0005_private_token_ba.Prelude.{
  ℕ, ◌≤◌, ◌<◌, ◌≡◌, ◌≢◌, ◌↔◌, refl, sym, ap, ◌∙◌, List, Bytes, IsU128, length, some, ok, err,
  bytes_eq_iff, arith, ◌⊎◌,
}
use lp_0005_private_token_ba.Crypto.{Sha256, Collision, or_collision_bind, or_collision_map}
use lp_0005_private_token_ba.Core.{
  PrivateInputs, AttestStatement, IsHash, IsProgramId, IsWitness, not_anchored, below_threshold,
  derive_account_id, compute_commitment, compute_nullifier, leaf_hash, fold_merkle_path,
  witness_commitment, attest,
}
use lp_0005_private_token_ba.Core.Binding.{
  compute_commitment-binding, length-derive_account_id, length-compute_commitment,
}
use lp_0005_private_token_ba.Core.Merkle.{
  Tree, AllLeaves, AllLeaves-get_leaf, leaf, node, IsTree, get_leaf, get_leaf-map_tree,
  map_tree-get_leaf, map_tree, root, path_of,
}
use lp_0005_private_token_ba.Core.Merkle.Soundness.{fold_merkle_path_sound}
use lp_0005_private_token_ba.Core.Merkle.Completeness.{fold_merkle_path_complete}

-- An account as the chain commits to it.
pub record Account : Type 0 where
  pub account_id : Bytes
  pub program_owner : List ℕ
  pub balance : ℕ
  pub nonce : ℕ
  pub data_hash : Bytes

pub record IsAccount (a : Account) : Type 0 where
  pub id_hash : IsHash a.account_id
  pub owner_id : IsProgramId a.program_owner
  pub balance_u128 : IsU128 a.balance
  pub nonce_u128 : IsU128 a.nonce

abbrev pub AreAccounts : Tree Account → Type 0
AreAccounts = AllLeaves IsAccount

module _ (sha : Sha256) where
  unfoldable pub account_commitment : Account → Bytes
  account_commitment a =
      compute_commitment sha a.account_id a.program_owner a.balance a.nonce a.data_hash

  -- The tree of commitments over a tree of accounts, and its root.
  unfoldable pub commitment_root : Tree Account → Bytes
  commitment_root t = root sha (map_tree account_commitment t)

  -- The account id and the root that a witness leads to, and its nullifier for a statement.
  unfoldable pub witness_id : PrivateInputs → Bytes
  witness_id w = derive_account_id sha w.npk w.identifier

  unfoldable pub witness_root : PrivateInputs → Bytes
  witness_root w =
      fold_merkle_path sha (leaf_hash sha (witness_commitment sha w)) w.leaf_index w.merkle_path

  unfoldable pub witness_nullifier : PrivateInputs → AttestStatement → Bytes
  witness_nullifier w s = compute_nullifier sha s.presenter_pubkey s.context_id (witness_id w)

  -- `attest` returns exactly where the path leads to the stated root and the balance reaches the
  -- threshold, and then returns the nullifier; a wrong root is reported before a low balance.
  pub attest_results :
      (w : PrivateInputs) (s : AttestStatement) (n : Bytes)
      → ((attest sha w s ≡ ok n) ↔ (
          (witness_root w ≡ s.merkle_root)
          × (s.threshold ≤ w.balance)
          × (witness_nullifier w s ≡ n)))
        × ((attest sha w s ≡ err not_anchored) ↔ (witness_root w ≢ s.merkle_root))
        × ((attest sha w s ≡ err below_threshold)
            ↔ ((witness_root w ≡ s.merkle_root) × (w.balance < s.threshold)))
  unfolding attest witness_commitment witness_root witness_nullifier witness_id
  attest_results w s n = ground (arith, bytes_eq_iff (witness_root w) s.merkle_root)

  pub length-witness_commitment : (w : PrivateInputs) → IsHash (witness_commitment sha w)
  unfolding witness_commitment
  length-witness_commitment w = length-compute_commitment sha _ _ _ _ _

  -- A tree of accounts has well-formed commitments.
  IsTree-map_tree : (t : Tree Account) → IsTree (map_tree account_commitment t)
  unfolding map_tree account_commitment
  IsTree-map_tree (leaf a) = length-compute_commitment sha _ _ _ _ _
  IsTree-map_tree (node l r) = (IsTree-map_tree l, IsTree-map_tree r)

  -- A committed account with the commitment of a witness has its id and balance.
  pub same_account :
      (w : PrivateInputs) (a : Account)
      → IsWitness w
      → IsAccount a
      → account_commitment a ≡ witness_commitment sha w
      → ((a.account_id ≡ witness_id w)
          × (a.program_owner ≡ w.program_owner)
          × (a.balance ≡ w.balance))
        ⊎ Collision sha
  unfolding account_commitment witness_commitment witness_id
  same_account w a hw ha e =
      or_collision_map
        (compute_commitment-binding sha _ _ _ _ _ _ _ _ _ _ ha.id_hash
          (length-derive_account_id sha _ _) ha.owner_id hw.owner_id ha.balance_u128 hw.balance_u128
          ha.nonce_u128 hw.nonce_u128 e)
        λ same. (same.0, same.1, same.2)

  -- A witness whose path folds to the root of a tree of accounts has the commitment of one of them.
  committed_leaf :
      (t : Tree Account) (w : PrivateInputs)
      → IsWitness w
      → witness_root w ≡ commitment_root t
      → ((a : Account) × (get_leaf t w.leaf_index (length w.merkle_path) ≡ some a)
          × (account_commitment a ≡ witness_commitment sha w))
        ⊎ Collision sha
  unfolding witness_root commitment_root
  committed_leaf t w hw e =
      or_collision_map
        (fold_merkle_path_sound sha (map_tree account_commitment t) (witness_commitment sha w)
          w.leaf_index w.merkle_path (IsTree-map_tree t) (length-witness_commitment w)
          hw.path_hashes e)
        λ found. get_leaf-map_tree account_commitment t w.leaf_index (length w.merkle_path) found

  -- Where the stated root is that of a tree of accounts, and the accounts and the witness have fields of
  -- the sizes of their Rust types, a success of `attest` means that one of
  -- these accounts, the one at the witness's index, has the witness's id, reaches the threshold, and
  -- is the account of the returned nullifier, unless SHA-256 collides.
  pub attest_sound :
      (t : Tree Account) (w : PrivateInputs) (s : AttestStatement) (n : Bytes)
      → AreAccounts t
      → IsWitness w
      → commitment_root t ≡ s.merkle_root
      → attest sha w s ≡ ok n
      → ((a : Account) × (get_leaf t w.leaf_index (length w.merkle_path) ≡ some a)
          × (a.account_id ≡ witness_id w)
          × (s.threshold ≤ a.balance)
          × (n ≡ compute_nullifier sha s.presenter_pubkey s.context_id a.account_id))
        ⊎ Collision sha
  unfolding witness_nullifier
  attest_sound t w s n ht hw anchor accepted =
      let (folds, reaches, same_nullifier) = (attest_results w s n).0.0 accepted in
      or_collision_bind (committed_leaf t w hw (folds ∙ sym anchor)) λ (c, found, same_commitment).
        or_collision_map
          (same_account w c hw (AllLeaves-get_leaf IsAccount t _ _ c ht found) same_commitment)
          λ same. (c, found, same.0, rw (same.2) reaches, rw (same.0) (sym same_nullifier))

  -- The witness that describes an account of the tree and carries the path of its leaf.
  abbrev pub Describes : Tree Account → ℕ → PrivateInputs → Account → Type 0
  Describes t d w a =
      (get_leaf t w.leaf_index d ≡ some a)
      × (w.merkle_path ≡ path_of sha (map_tree account_commitment t) w.leaf_index d)
      × (account_commitment a ≡ witness_commitment sha w)

  -- A witness that describes an account of the tree, with the path of its leaf, is attested at every
  -- threshold up to its balance against the tree's root.
  pub attest_complete :
      (t : Tree Account) (d : ℕ) (w : PrivateInputs) (s : AttestStatement) (a : Account)
      → Describes t d w a
      → commitment_root t ≡ s.merkle_root
      → s.threshold ≤ w.balance
      → attest sha w s ≡ ok (witness_nullifier w s)
  unfolding commitment_root witness_root
  attest_complete t d w s a (found, path, same) anchor reaches =
      (attest_results w s (witness_nullifier w s)).0.1 (
        ap (fold_merkle_path sha (leaf_hash sha (witness_commitment sha w)) w.leaf_index) path
            ∙ fold_merkle_path_complete sha (map_tree account_commitment t)
                (witness_commitment sha w) w.leaf_index d
                (map_tree-get_leaf account_commitment t w.leaf_index d found ∙ ap some same)
            ∙ anchor,
        reaches,
        refl,
      )
