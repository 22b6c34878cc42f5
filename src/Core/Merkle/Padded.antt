-- ===== src/Core/Merkle/Padded.antt =====
-- fold_merkle_path of attestation-core over the tree that docs/recon.md describes, whose capacity is a
-- power of two: a slot past the last commitment is empty, and its node has a value that lez keeps in
-- a table, `DEFAULT_VALUES`, which is not in this repository and is a parameter here.
use lp_0005_private_token_ba.Prelude.{
  ℕ, zero, suc, ◌/◌, ◌%◌, ◌^◌, ◌≡◌, refl, sym, ap, ◌∙◌, List, [], ◌∷◌, ◌++◌, Bytes, length,
  length-snoc, All, All-append, List-last, Option, none, some, ◌⊎◌, inl, inr, ◌==◌, Bool-cases,
  if◌then◌else◌,
}
use lp_0005_private_token_ba.Crypto.{
  Sha256, hash_parts, Collision, length-hash_parts, or_collision_map, or_collision_bind,
}
use lp_0005_private_token_ba.Core.{hash_level, fold_merkle_path, leaf_hash, IsHash}
use lp_0005_private_token_ba.Core.Binding.{leaf_hash-binding}
use lp_0005_private_token_ba.Core.Merkle.{
  Tree, leaf, node, AllLeaves, get_leaf, get_leaf-left, get_leaf-right, length-leaf_hash,
  length-fold_merkle_path, fold_merkle_path-append, fold_merkle_path-nil,
}
use lp_0005_private_token_ba.Core.Merkle.Soundness.{leaf_not_pair, level-binding, level_not_leaf}

-- A slot holds a 32-byte commitment or nothing.
abbrev pub IsSlot : Option Bytes → Type 0
IsSlot (some c) = IsHash c
IsSlot none = Unit

module _ (sha : Sha256) (empty_node : Bytes) where
  unfoldable pub slot_node : Option Bytes → Bytes
  slot_node (some c) = leaf_hash sha c
  slot_node none = empty_node

  unfoldable pub padded_root : Tree (Option Bytes) → Bytes
  padded_root (leaf slot) = slot_node slot
  padded_root (node l r) = hash_parts sha (padded_root l ∷ padded_root r ∷ [])

  -- The siblings on the way from a slot up to the root, the slot's own first.
  unfoldable pub padded_path : Tree (Option Bytes) → ℕ → ℕ → List Bytes
  padded_path (leaf slot) i d = []
  padded_path (node l r) i zero = []
  padded_path (node l r) i (suc d) =
      if i / 2 ^ d % 2 == 0
      then padded_path l i d ++ (padded_root r ∷ [])
      else padded_path r i d ++ (padded_root l ∷ [])

  -- The value of an empty slot is the hash of a pair of 32-byte strings.
  abbrev pub PairedEmpty : Type 0
  PairedEmpty =
      (x : Bytes) × (y : Bytes) × IsHash x × IsHash y × (hash_parts sha (x ∷ y ∷ []) ≡ empty_node)

  -- The value of an empty slot is the hash of this leaf or of a pair, or SHA-256 collides.
  abbrev pub Forged : Bytes → Type 0
  Forged c = (leaf_hash sha c ≡ empty_node) ⊎ (PairedEmpty ⊎ Collision sha)

  or_Forged {ℓ} : {P : Type ℓ} (c : Bytes) → P ⊎ Collision sha → P ⊎ Forged c
  or_Forged c (inl p) = inl p
  or_Forged c (inr collision) = inr (inr (inr collision))

  length-padded_path :
      (t : Tree (Option Bytes)) (i d : ℕ) {slot : Option Bytes}
      → get_leaf t i d ≡ some slot
      → length (padded_path t i d) ≡ d
  unfolding get_leaf padded_path
  length-padded_path (leaf slot') i zero e = refl
  length-padded_path (leaf slot') i (suc d) e = cc
  length-padded_path (node l r) i zero e = cc
  length-padded_path (node l r) i (suc d) e = elim (Bool-cases (i / 2 ^ d % 2 == 0)) [
    | inl bit ↦ rw (bit, length-snoc) (ap suc (length-padded_path l i d (rw bit at e)))
    | inr bit ↦ rw (bit, length-snoc) (ap suc (length-padded_path r i d (rw bit at e)))
  ]

  -- The path of a commitment in a padded tree, folded from its leaf hash, gives the root.
  pub fold_merkle_path-padded_root :
      (t : Tree (Option Bytes)) (c : Bytes) (i d : ℕ)
      → get_leaf t i d ≡ some (some c)
      → fold_merkle_path sha (leaf_hash sha c) i (padded_path t i d) ≡ padded_root t
  unfolding get_leaf padded_path padded_root slot_node
  fold_merkle_path-padded_root (leaf slot) c i zero e =
      let same : slot ≡ some c = cc e in fold_merkle_path-nil sha _ i ∙ sym (ap slot_node same)
  fold_merkle_path-padded_root (leaf slot) c i (suc d) e = cc
  fold_merkle_path-padded_root (node l r) c i zero e = cc
  fold_merkle_path-padded_root (node l r) c i (suc d) e = elim (Bool-cases (i / 2 ^ d % 2 == 0)) [
    | inl bit ↦
        rw
          (
            bit,
            fold_merkle_path-append sha,
            length-padded_path l i d (rw bit at e),
            fold_merkle_path-padded_root l c i d (rw bit at e),
          )
          (unfold hash_level in rw bit)
    | inr bit ↦
        rw
          (
            bit,
            fold_merkle_path-append sha,
            length-padded_path r i d (rw bit at e),
            fold_merkle_path-padded_root r c i d (rw bit at e),
          )
          (unfold hash_level in rw bit)
  ]

  length-padded_root : (t : Tree (Option Bytes)) → IsHash empty_node → IsHash (padded_root t)
  unfolding padded_root slot_node
  length-padded_root (leaf (some c)) h = length-leaf_hash sha c
  length-padded_root (leaf none) h = h
  length-padded_root (node l r) h = length-hash_parts sha _

  level-PairedEmpty :
      (x : Bytes) (k : ℕ) (s : Bytes)
      → IsHash x
      → IsHash s
      → hash_level sha x k s ≡ empty_node
      → PairedEmpty
  unfolding hash_level
  level-PairedEmpty x k s hx hs e = elim (Bool-cases (k % 2 == 0)) [
    | inl left ↦ (x, s, hx, hs, rw left at e)
    | inr right ↦ (s, x, hs, hx, rw right at e)
  ]

  at_padded_root :
      (t : Tree (Option Bytes)) (c : Bytes) (i : ℕ)
      → IsHash empty_node
      → IsHash c
      → leaf_hash sha c ≡ padded_root t
      → (get_leaf t i 0 ≡ some (some c)) ⊎ Forged c
  unfolding get_leaf padded_root slot_node
  at_padded_root (leaf (some c')) c i he hc e =
      or_Forged c
        (or_collision_map (leaf_hash-binding sha c c' e) λ same. ap some (ap some (sym same)))
  at_padded_root (leaf none) c i he hc e = inr (inl e)
  at_padded_root (node l r) c i he hc e = inr (
      inr (
        inr (
          leaf_not_pair sha c (padded_root l) (padded_root r) hc (length-padded_root l he)
            (length-padded_root r he) e)))

  below_slot :
      (slot : Option Bytes) (c x : Bytes) (k : ℕ) (s : Bytes)
      → IsSlot slot
      → IsHash x
      → IsHash s
      → hash_level sha x k s ≡ slot_node slot
      → Forged c
  unfolding slot_node
  below_slot (some c') c x k s hc hx hs e = inr (inr (level_not_leaf sha c' x k s hc hx hs e))
  below_slot none c x k s hc hx hs e = inr (inl (level-PairedEmpty x k s hx hs e))

  -- A path of 32-byte hashes that folds from a 32-byte commitment to the root of a padded tree leads to
  -- the slot that holds this commitment, unless an empty slot's value is a hash that it should not be or
  -- SHA-256 collides.
  pub fold_merkle_path-slot :
      (t : Tree (Option Bytes)) (c : Bytes) (i : ℕ) (p : List Bytes)
      → IsHash empty_node
      → AllLeaves IsSlot t
      → IsHash c
      → All IsHash p
      → fold_merkle_path sha (leaf_hash sha c) i p ≡ padded_root t
      → (get_leaf t i (length p) ≡ some (some c)) ⊎ Forged c
  unfolding padded_root
  fold_merkle_path-slot (leaf slot) c i p he ht hc hp e = elim (List-last p) [
    | inl nil ↦ rw nil (at_padded_root (leaf slot) c i he hc (rw (nil, fold_merkle_path-nil) at e))
    | inr (q, s, snoc) ↦
        let hs = All-append IsHash q (s ∷ []) (rw snoc at hp) in
        inr (
          below_slot slot c (fold_merkle_path sha (leaf_hash sha c) i q) (i / 2 ^ length q) s ht
            (length-fold_merkle_path sha _ i q (length-leaf_hash sha c)) hs.1.0
            (sym (fold_merkle_path-append sha _ i q s) ∙ (rw snoc at e)))
  ]
  fold_merkle_path-slot (node l r) c i p he (hl, hr) hc hp e = elim (List-last p) [
    | inl nil ↦ rw nil (at_padded_root (node l r) c i he hc (rw (nil, fold_merkle_path-nil) at e))
    | inr (q, s, snoc) ↦
        let (hq, hs) = All-append IsHash q (s ∷ []) (rw snoc at hp) in
        or_collision_bind
          (or_Forged c (
            level-binding sha (fold_merkle_path sha (leaf_hash sha c) i q) (i / 2 ^ length q) s
              (padded_root l) (padded_root r)
              (length-fold_merkle_path sha _ i q (length-leaf_hash sha c)) hs.0
              (length-padded_root l he)
              (sym (fold_merkle_path-append sha _ i q s) ∙ (rw snoc at e))))
          (λ side. elim side [
            | inl (bit, same) ↦
                or_collision_map (fold_merkle_path-slot l c i q he hl hc hq same)
                  (λ found. rw (snoc, length-snoc, get_leaf-left l r i (length q) bit) found)
            | inr (bit, same) ↦
                or_collision_map (fold_merkle_path-slot r c i q he hr hc hq same)
                  (λ found. rw (snoc, length-snoc, get_leaf-right l r i (length q) bit) found)
          ])
  ]
