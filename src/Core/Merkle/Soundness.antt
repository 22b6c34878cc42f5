-- ===== src/Core/Merkle/Soundness.antt =====
-- fold_merkle_path of attestation-core: from a fold that arrives at a root to the leaf of the tree.
use lp_0005_private_token_ba.Prelude.{
  ℕ, ◌/◌, ◌%◌, ◌^◌, ◌≡◌, sym, ap, ◌∙◌, true, false, List, [], ◌∷◌, ◌++◌, Bytes, length,
  length-append, length-snoc, All, All-append, List-last, some, arith, ◌⊎◌, inl, inr, ◌==◌,
  Bool-cases,
}
use lp_0005_private_token_ba.Crypto.{
  Sha256, hash_parts, Collision, hash_parts-binding, hash_parts-lengths, or_collision_map,
  or_collision_bind,
}
use lp_0005_private_token_ba.Core.{hash_level, fold_merkle_path, leaf_hash, IsHash}
use lp_0005_private_token_ba.Core.Merkle.{
  Tree, leaf, node, IsTree, get_leaf, get_leaf-left, get_leaf-right, root, length-root,
  length-leaf_hash, length-fold_merkle_path, fold_merkle_path-append, fold_merkle_path-nil,
}
use lp_0005_private_token_ba.Core.Binding.{leaf_hash-binding}

module _ (sha : Sha256) where
  -- The two preimages of one level agree in both halves, or SHA-256 collides.
  pair-binding :
      (x y u v : Bytes)
      → IsHash x
      → IsHash u
      → hash_parts sha (x ∷ y ∷ []) ≡ hash_parts sha (u ∷ v ∷ [])
      → ((x ≡ u) × (y ≡ v)) ⊎ Collision sha
  pair-binding x y u v hx hu e =
      or_collision_map (hash_parts-binding sha _ _ (omega arith, tt) e) λ same. (cc same, cc same)

  -- A leaf hash, of 32 bytes, is no hash of a pair, of 64 bytes.
  pub leaf_not_pair :
      (c x y : Bytes)
      → IsHash c
      → IsHash x
      → IsHash y
      → leaf_hash sha c ≡ hash_parts sha (x ∷ y ∷ [])
      → Collision sha
  unfolding leaf_hash
  leaf_not_pair c x y hc hx hy e =
      hash_parts-lengths sha _ _
        (λ same. absurd (
          omega
            (arith, length-append {0} c [], length-append {0} x (y ++ []), length-append {0} y [])))
        e

  -- One level that arrives at the hash of a pair, taken apart.
  pub level-binding :
      (x : Bytes) (k : ℕ) (s u v : Bytes)
      → IsHash x
      → IsHash s
      → IsHash u
      → hash_level sha x k s ≡ hash_parts sha (u ∷ v ∷ [])
      → ((((k % 2 == 0) ≡ true) × (x ≡ u)) ⊎ (((k % 2 == 0) ≡ false) × (x ≡ v))) ⊎ Collision sha
  unfolding hash_level
  level-binding x k s u v hx hs hu e = elim (Bool-cases (k % 2 == 0)) [
    | inl left ↦
        or_collision_map (pair-binding x s u v hx hu (rw left at e)) λ same. inl (left, same.0)
    | inr right ↦
        or_collision_map (pair-binding s x u v hs hu (rw right at e)) λ same. inr (right, same.1)
  ]

  pub level_not_leaf :
      (c x : Bytes) (k : ℕ) (s : Bytes)
      → IsHash c
      → IsHash x
      → IsHash s
      → hash_level sha x k s ≡ leaf_hash sha c
      → Collision sha
  unfolding hash_level
  level_not_leaf c x k s hc hx hs e = elim (Bool-cases (k % 2 == 0)) [
    | inl left ↦ leaf_not_pair c x s hc hx hs (sym (rw left at e))
    | inr right ↦ leaf_not_pair c s x hc hs hx (sym (rw right at e))
  ]

  sound_at_root :
      (t : Tree Bytes) (c : Bytes) (i : ℕ)
      → IsHash c
      → leaf_hash sha c ≡ root sha t
      → (get_leaf t i 0 ≡ some c) ⊎ Collision sha
  unfolding get_leaf root
  sound_at_root (leaf c') c i hc e =
      or_collision_map (leaf_hash-binding sha c c' e) λ same. ap some (sym same)
  sound_at_root (node l r) c i hc e =
      inr (leaf_not_pair c (root sha l) (root sha r) hc (length-root sha l) (length-root sha r) e)

  -- A path of 32-byte hashes that folds from a 32-byte commitment to the root of a tree of 32-byte
  -- commitments proves membership: the leaf that the index leads to, at
  -- the depth of the path's length, is the committed one, unless SHA-256 collides. No length of the
  -- path is assumed.
  pub fold_merkle_path_sound :
      (t : Tree Bytes) (c : Bytes) (i : ℕ) (p : List Bytes)
      → IsTree t
      → IsHash c
      → All IsHash p
      → fold_merkle_path sha (leaf_hash sha c) i p ≡ root sha t
      → (get_leaf t i (length p) ≡ some c) ⊎ Collision sha
  unfolding root
  fold_merkle_path_sound (leaf c') c i p ht hc hp e = elim (List-last p) [
    | inl nil ↦ rw nil (sound_at_root (leaf c') c i hc (rw (nil, fold_merkle_path-nil) at e))
    | inr (q, s, snoc) ↦
        let hs = All-append IsHash q (s ∷ []) (rw snoc at hp) in
        inr (
          level_not_leaf c' (fold_merkle_path sha (leaf_hash sha c) i q) (i / 2 ^ length q) s ht
            (length-fold_merkle_path sha _ i q (length-leaf_hash sha c)) hs.1.0
            (sym (fold_merkle_path-append sha _ i q s) ∙ (rw snoc at e)))
  ]
  fold_merkle_path_sound (node l r) c i p (hl, hr) hc hp e = elim (List-last p) [
    | inl nil ↦ rw nil (sound_at_root (node l r) c i hc (rw (nil, fold_merkle_path-nil) at e))
    | inr (q, s, snoc) ↦
        let (hq, hs) = All-append IsHash q (s ∷ []) (rw snoc at hp) in
        or_collision_bind
          (level-binding (fold_merkle_path sha (leaf_hash sha c) i q) (i / 2 ^ length q) s
            (root sha l) (root sha r) (length-fold_merkle_path sha _ i q (length-leaf_hash sha c))
            hs.0 (length-root sha l) (sym (fold_merkle_path-append sha _ i q s) ∙ (rw snoc at e)))
          (λ side. elim side [
            | inl (bit, same) ↦
                or_collision_map (fold_merkle_path_sound l c i q hl hc hq same)
                  (λ found. rw (snoc, length-snoc, get_leaf-left l r i (length q) bit) found)
            | inr (bit, same) ↦
                or_collision_map (fold_merkle_path_sound r c i q hr hc hq same)
                  (λ found. rw (snoc, length-snoc, get_leaf-right l r i (length q) bit) found)
          ])
  ]
