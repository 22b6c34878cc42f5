-- ===== src/Core/Merkle/Completeness.antt =====
-- fold_merkle_path of attestation-core: from a leaf of a tree to its path and the root; the bits of the
-- index.
use native.Mathlib.Nat.{pow-suc}
use lp_0005_private_token_ba.Prelude.{
  ℕ, zero, suc, ◌+◌, ◌*◌, ◌/◌, ◌%◌, ◌^◌, ◌≡◌, refl, ap, ◌∙◌, List, [], ◌∷◌, Bytes, length,
  length-snoc, some, arith, inl, inr, ◌==◌, Bool-cases,
}
use lp_0005_private_token_ba.Crypto.{Sha256}
use lp_0005_private_token_ba.Core.{hash_level, fold_merkle_path, leaf_hash}
use lp_0005_private_token_ba.Core.Merkle.{
  Tree, leaf, node, get_leaf, root, path_of, fold_merkle_path-append, fold_merkle_path-nil,
}

-- Halving an index keeps what it has above `n + 1` bits above `n` bits.
halve-high_bits :
    (i k n : ℕ) → ((i + k * 2 ^ suc n) % 2 ≡ i % 2) × ((i + k * 2 ^ suc n) / 2 ≡ i / 2 + k * 2 ^ n)
halve-high_bits i k n =
    let e : k * 2 ^ suc n ≡ 2 * (k * 2 ^ n) = rw pow-suc (omega arith) in
    (omega (arith, e), omega (arith, e))

module _ (sha : Sha256) where
  length-path_of :
      (t : Tree Bytes) (i d : ℕ) {c : Bytes}
      → get_leaf t i d ≡ some c
      → length (path_of sha t i d) ≡ d
  unfolding get_leaf path_of
  length-path_of (leaf c') i zero e = refl
  length-path_of (leaf c') i (suc d) e = cc
  length-path_of (node l r) i zero e = cc
  length-path_of (node l r) i (suc d) e = elim (Bool-cases (i / 2 ^ d % 2 == 0)) [
    | inl bit ↦ rw (bit, length-snoc) (ap suc (length-path_of l i d (rw bit at e)))
    | inr bit ↦ rw (bit, length-snoc) (ap suc (length-path_of r i d (rw bit at e)))
  ]

  -- The path of a leaf of a tree, folded from the leaf's hash, gives the root.
  pub fold_merkle_path_complete :
      (t : Tree Bytes) (c : Bytes) (i d : ℕ)
      → get_leaf t i d ≡ some c
      → fold_merkle_path sha (leaf_hash sha c) i (path_of sha t i d) ≡ root sha t
  unfolding get_leaf path_of root
  fold_merkle_path_complete (leaf c') c i zero e =
      fold_merkle_path-nil sha _ i ∙ ap (leaf_hash sha) (cc e)
  fold_merkle_path_complete (leaf c') c i (suc d) e = cc
  fold_merkle_path_complete (node l r) c i zero e = cc
  fold_merkle_path_complete (node l r) c i (suc d) e = elim (Bool-cases (i / 2 ^ d % 2 == 0)) [
    | inl bit ↦
        rw
          (
            bit,
            fold_merkle_path-append sha,
            length-path_of l i d (rw bit at e),
            fold_merkle_path_complete l c i d (rw bit at e),
          )
          (unfold hash_level in rw bit)
    | inr bit ↦
        rw
          (
            bit,
            fold_merkle_path-append sha,
            length-path_of r i d (rw bit at e),
            fold_merkle_path_complete r c i d (rw bit at e),
          )
          (unfold hash_level in rw bit)
  ]

  -- Indices that differ by a multiple of the tree's width fold alike: the high bits of `leaf_index`
  -- are not bound by the root.
  pub fold_merkle_path-high_bits :
      (x : Bytes) (i k : ℕ) (p : List Bytes)
      → fold_merkle_path sha x (i + k * 2 ^ length p) p ≡ fold_merkle_path sha x i p
  unfolding fold_merkle_path
  fold_merkle_path-high_bits x i k [] = refl
  fold_merkle_path-high_bits x i k (s ∷ p) =
      let (parity, half) = halve-high_bits i k (length p) in
      rw half (
        fold_merkle_path-high_bits (hash_level sha x (i + k * 2 ^ suc (length p)) s) (i / 2) k p
        ∙ ap (λ y. fold_merkle_path sha y (i / 2) p) (unfold hash_level in rw parity))
