-- ===== src/Crypto/Binding.antt =====
-- Hashes over parts: preimages of one layout, of different lengths, and of different prefixes.
use lp_0005_private_token_ba.Prelude.{
  Bytes, List, [], ◌∷◌, concat, length, ◌≡◌, ◌≢◌, ◌⊎◌, inl, inr, ap, sym, ◌∙◌, append-nil,
  append-injective, bytes_eq_cases, refl,
}
use lp_0005_private_token_ba.Crypto.Primitives.{Sha256, hash_parts, Collision}

-- Part lists of the same layout: equally many parts, of equal lengths but for the last, which may
-- differ.
abbrev pub SameLayout : List Bytes → List Bytes → Type 0
SameLayout [] [] = Unit {0}
SameLayout (p ∷ []) (q ∷ []) = Unit {0}
SameLayout (p ∷ p' ∷ ps) (q ∷ q' ∷ qs) = (length p ≡ length q) × SameLayout (p' ∷ ps) (q' ∷ qs)
SameLayout _ _ = ⊥

concat-injective : (ps qs : List Bytes) → SameLayout ps qs → concat ps ≡ concat qs → ps ≡ qs
concat-injective [] [] l e = refl
concat-injective (p ∷ []) (q ∷ []) l e = ap (λ b. b ∷ []) (sym (append-nil p) ∙ e ∙ append-nil q)
concat-injective (p ∷ p' ∷ ps) (q ∷ q' ∷ qs) (lp, lps) e =
    let (ep, er) = append-injective p (concat (p' ∷ ps)) q (concat (q' ∷ qs)) lp e in
    let rest : p' ∷ ps ≡ q' ∷ qs = concat-injective (p' ∷ ps) (q' ∷ qs) lps er in cc (ep, rest)
concat-injective [] (q ∷ qs) l e = absurd l
concat-injective (p ∷ []) [] l e = absurd l
concat-injective (p ∷ p' ∷ ps) [] l e = absurd l
concat-injective (p ∷ []) (q ∷ q' ∷ qs) l e = absurd l
concat-injective (p ∷ p' ∷ ps) (q ∷ []) l e = absurd l

module _ (sha : Sha256) where
  pub digest-binding : (x y : Bytes) → sha.digest x ≡ sha.digest y → (x ≡ y) ⊎ Collision sha
  digest-binding x y e = elim (bytes_eq_cases x y) [
    | inl same ↦ inl same
    | inr differ ↦ inr (x, y, differ, e)
  ]

  pub hash_parts-binding :
      (ps qs : List Bytes)
      → SameLayout ps qs
      → hash_parts sha ps ≡ hash_parts sha qs
      → (ps ≡ qs) ⊎ Collision sha
  unfolding hash_parts
  hash_parts-binding ps qs l e = elim (digest-binding (concat ps) (concat qs) e) [
    | inl same ↦ inl (concat-injective ps qs l same)
    | inr c ↦ inr c
  ]

  -- Inputs of different lengths have different digests, or collide.
  pub hash_parts-lengths :
      (ps qs : List Bytes)
      → length (concat ps) ≢ length (concat qs)
      → hash_parts sha ps ≡ hash_parts sha qs
      → Collision sha
  unfolding hash_parts
  hash_parts-lengths ps qs l e = (concat ps, concat qs, λ same. l (ap length same), e)

  -- Preimages that begin with different prefixes of one length have different digests, or collide.
  pub hash_parts-prefixes :
      (p q : Bytes) (ps qs : List Bytes)
      → length p ≡ length q
      → p ≢ q
      → hash_parts sha (p ∷ ps) ≡ hash_parts sha (q ∷ qs)
      → Collision sha
  unfolding hash_parts
  hash_parts-prefixes p q ps qs l ne e = (
    concat (p ∷ ps),
    concat (q ∷ qs),
    λ same. ne (append-injective p (concat ps) q (concat qs) l same).0,
    e,
  )

  pub length-hash_parts : (ps : List Bytes) → length (hash_parts sha ps) ≡ 32
  unfolding hash_parts
  length-hash_parts ps = sha.length-digest (concat ps)

-- A conclusion up to a collision, carried through one more step.
pub or_collision_map {ℓ} : {P Q C : Type ℓ} → P ⊎ C → (P → Q) → Q ⊎ C
or_collision_map (inl p) f = inl (f p)
or_collision_map (inr c) f = inr c

pub or_collision_bind {ℓ} : {P Q C : Type ℓ} → P ⊎ C → (P → Q ⊎ C) → Q ⊎ C
or_collision_bind (inl p) f = f p
or_collision_bind (inr c) f = inr c
