-- ===== src/Core/Merkle.antt =====
-- `fold_merkle_path` against a specification: a binary tree of commitments with hashed leaves, in
-- which bit `d` of an index (from the root's side) says which child holds the leaf.
pub mod Soundness
pub mod Completeness
pub mod Padded
use native.Mathlib.Nat.{pow-suc, div-div-eq-div-mul, mul_comm}
use mathlib.Core.Path.{subst}
use lp_0005_private_token_ba.Prelude.{
  ℕ, zero, suc, ◌+◌, ◌*◌, ◌/◌, ◌%◌, ◌^◌, ◌<◌, ◌≡◌, ◌≢◌, refl, sym, ap, ◌∙◌, Bool, true, false, List,
  [], ◌∷◌, ◌++◌, Bytes, length, length-append, All, All-append, List-last, Option, none, some,
  arith, ◌⊎◌, inl, inr, ◌==◌, if◌then◌else◌, Bool-cases, concat,
}
use lp_0005_private_token_ba.Crypto.{
  Sha256, hash_parts, Collision, hash_parts-binding, hash_parts-lengths, length-hash_parts,
  or_collision_map, or_collision_bind,
}
use lp_0005_private_token_ba.Core.{hash_level, fold_merkle_path, leaf_hash, IsHash}
use lp_0005_private_token_ba.Core.Binding.{leaf_hash-binding}

pub data Tree (A : Type 0) : Type 0 where
  leaf : A → Tree A
  node : Tree A → Tree A → Tree A

abbrev pub AllLeaves : {A : Type 0} → (A → Type 0) → Tree A → Type 0
AllLeaves P (leaf a) = P a
AllLeaves P (node l r) = AllLeaves P l × AllLeaves P r

-- Every commitment is a 32-byte string.
abbrev pub IsTree : Tree Bytes → Type 0
IsTree = AllLeaves IsHash

module _ {A : Type 0} where
  -- The leaf at depth `d` that the low `d` bits of the index lead to.
  unfoldable pub get_leaf : Tree A → ℕ → ℕ → Option A
  get_leaf (leaf c) i zero = some c
  get_leaf (leaf c) i (suc d) = none
  get_leaf (node l r) i zero = none
  get_leaf (node l r) i (suc d) = if i / 2 ^ d % 2 == 0 then get_leaf l i d else get_leaf r i d

  get_leaf-left :
      (l r : Tree A) (i d : ℕ)
      → (i / 2 ^ d % 2 == 0) ≡ true
      → get_leaf (node l r) i (suc d) ≡ get_leaf l i d
  unfolding get_leaf
  get_leaf-left l r i d e = rw e

  get_leaf-right :
      (l r : Tree A) (i d : ℕ)
      → (i / 2 ^ d % 2 == 0) ≡ false
      → get_leaf (node l r) i (suc d) ≡ get_leaf r i d
  unfolding get_leaf
  get_leaf-right l r i d e = rw e

pub AllLeaves-get_leaf :
    {A : Type 0} (P : A → Type 0) (t : Tree A) (i d : ℕ) (a : A)
    → AllLeaves P t
    → get_leaf t i d ≡ some a
    → P a
unfolding get_leaf
AllLeaves-get_leaf P (leaf b) i zero a h e = subst P (cc e) h
AllLeaves-get_leaf P (leaf b) i (suc d) a h e = absurd (cc e)
AllLeaves-get_leaf P (node l r) i zero a h e = absurd (cc e)
AllLeaves-get_leaf P (node l r) i (suc d) a (hl, hr) e = elim (Bool-cases (i / 2 ^ d % 2 == 0)) [
  | inl bit ↦ AllLeaves-get_leaf P l i d a hl (rw bit at e)
  | inr bit ↦ AllLeaves-get_leaf P r i d a hr (rw bit at e)
]

unfoldable pub map_tree : {A B : Type 0} → (A → B) → Tree A → Tree B
map_tree f (leaf a) = leaf (f a)
map_tree f (node l r) = node (map_tree f l) (map_tree f r)

-- A leaf of a mapped tree is the image of a leaf.
pub get_leaf-map_tree :
    {A B : Type 0} (f : A → B) (t : Tree A) (i d : ℕ) {b : B}
    → get_leaf (map_tree f t) i d ≡ some b
    → (a : A) × (get_leaf t i d ≡ some a) × (f a ≡ b)
unfolding get_leaf map_tree
get_leaf-map_tree f (leaf a) i zero e = (a, refl, cc e)
get_leaf-map_tree f (leaf a) i (suc d) e = cc
get_leaf-map_tree f (node l r) i zero e = cc
get_leaf-map_tree f (node l r) i (suc d) e = elim (Bool-cases (i / 2 ^ d % 2 == 0)) [
  | inl bit ↦ rw bit (get_leaf-map_tree f l i d (rw bit at e))
  | inr bit ↦ rw bit (get_leaf-map_tree f r i d (rw bit at e))
]

pub map_tree-get_leaf :
    {A B : Type 0} (f : A → B) (t : Tree A) (i d : ℕ) {a : A}
    → get_leaf t i d ≡ some a
    → get_leaf (map_tree f t) i d ≡ some (f a)
unfolding get_leaf map_tree
map_tree-get_leaf f (leaf b) i zero e = ap some (ap f (cc e))
map_tree-get_leaf f (leaf b) i (suc d) e = cc
map_tree-get_leaf f (node l r) i zero e = cc
map_tree-get_leaf f (node l r) i (suc d) e = elim (Bool-cases (i / 2 ^ d % 2 == 0)) [
  | inl bit ↦ rw bit (map_tree-get_leaf f l i d (rw bit at e))
  | inr bit ↦ rw bit (map_tree-get_leaf f r i d (rw bit at e))
]

module _ (sha : Sha256) where
  unfoldable pub root : Tree Bytes → Bytes
  root (leaf c) = leaf_hash sha c
  root (node l r) = hash_parts sha (root l ∷ root r ∷ [])

  -- The siblings on the way from a leaf up to the root, the leaf's own first.
  unfoldable pub path_of : Tree Bytes → ℕ → ℕ → List Bytes
  path_of (leaf c) i d = []
  path_of (node l r) i zero = []
  path_of (node l r) i (suc d) =
      if i / 2 ^ d % 2 == 0 then path_of l i d ++ (root r ∷ []) else path_of r i d ++ (root l ∷ [])

div-div-pow : (i n : ℕ) → i / 2 / 2 ^ n ≡ i / 2 ^ suc n
div-div-pow i n =
    div-div-eq-div-mul i 2 (2 ^ n) ∙ ap (λ (k : ℕ). i / k) (mul_comm 2 (2 ^ n) ∙ sym (pow-suc 2 n))

module _ (sha : Sha256) where
  pub length-root : (t : Tree Bytes) → IsHash (root sha t)
  unfolding root leaf_hash
  length-root (leaf c) = length-hash_parts sha _
  length-root (node l r) = length-hash_parts sha _

  pub length-leaf_hash : (c : Bytes) → IsHash (leaf_hash sha c)
  unfolding leaf_hash
  length-leaf_hash c = length-hash_parts sha _

  length-hash_level : (x : Bytes) (i : ℕ) (s : Bytes) → IsHash (hash_level sha x i s)
  unfolding hash_level
  length-hash_level x i s = elim (Bool-cases (i % 2 == 0)) [
    | inl e ↦ rw e (length-hash_parts sha _)
    | inr e ↦ rw e (length-hash_parts sha _)
  ]

  pub length-fold_merkle_path :
      (x : Bytes) (i : ℕ) (p : List Bytes) → IsHash x → IsHash (fold_merkle_path sha x i p)
  unfolding fold_merkle_path
  length-fold_merkle_path x i [] h = h
  length-fold_merkle_path x i (s ∷ p) h =
      length-fold_merkle_path (hash_level sha x i s) (i / 2) p (length-hash_level x i s)

  -- The last sibling is hashed in at the top.
  pub fold_merkle_path-append :
      (x : Bytes) (i : ℕ) (p : List Bytes) (s : Bytes)
      → fold_merkle_path sha x i (p ++ (s ∷ []))
        ≡ hash_level sha (fold_merkle_path sha x i p) (i / 2 ^ length p) s
  unfolding fold_merkle_path
  fold_merkle_path-append x i [] s = ap (λ k. hash_level sha x k s) (omega arith)
  fold_merkle_path-append x i (r ∷ p) s =
      fold_merkle_path-append (hash_level sha x i r) (i / 2) p s
      ∙ ap (λ k. hash_level sha (fold_merkle_path sha (hash_level sha x i r) (i / 2) p) k s)
          (div-div-pow i (length p))

  pub fold_merkle_path-nil : (x : Bytes) (i : ℕ) → fold_merkle_path sha x i [] ≡ x
  unfolding fold_merkle_path
  fold_merkle_path-nil x i = refl
