-- ===== src/Prelude/Lists.antt =====
-- Lists measured by native numbers, and a predicate on all their members.
use Prim.Native.Nat.{ℕ, zero, suc, ◌+◌}
use mathlib.Core.Path.{◌≡◌, refl, ap}
use mathlib.Core.Logic.{◌⊎◌, inl, inr}
use mathlib.Core.List.{List, [], ◌∷◌, ◌++◌}
use native.Mathlib.Omega.{arith}

module _ {ℓ} {A : Type ℓ} where
  abbrev pub length : List A → ℕ
  length [] = 0
  length (x ∷ xs) = suc (length xs)

  abbrev pub replicate : ℕ → A → List A
  replicate zero a = []
  replicate (suc n) a = a ∷ replicate n a

  abbrev pub concat : List (List A) → List A
  concat [] = []
  concat (xs ∷ xss) = xs ++ concat xss

  abbrev pub All {κ} : (A → Type κ) → List A → Type κ
  All P [] = Unit {κ}
  All P (x ∷ xs) = P x × All P xs

  pub length-append : (xs ys : List A) → length (xs ++ ys) ≡ length xs + length ys
  length-append [] ys = omega arith
  length-append (x ∷ xs) ys = omega (arith, length-append xs ys)

  pub length-snoc : (xs : List A) (x : A) → length (xs ++ (x ∷ [])) ≡ suc (length xs)
  length-snoc xs x = omega (arith, length-append xs (x ∷ []))

  pub length-replicate : (n : ℕ) (a : A) → length (replicate n a) ≡ n
  length-replicate zero a = refl
  length-replicate (suc n) a = ap suc (length-replicate n a)

  -- Two concatenations whose front parts are equally long agree part by part.
  pub append-injective :
      (xs ys us vs : List A) → length xs ≡ length us → xs ++ ys ≡ us ++ vs → (xs ≡ us) × (ys ≡ vs)
  append-injective [] ys [] vs l e = (refl, e)
  append-injective [] ys (u ∷ us) vs l e = absurd (omega arith)
  append-injective (x ∷ xs) ys [] vs l e = absurd (omega arith)
  append-injective (x ∷ xs) ys (u ∷ us) vs l e =
      ground (arith, append-injective xs ys us vs (omega arith))

  -- A list is empty, or has a last element.
  pub List-last :
      (xs : List A) → (xs ≡ []) ⊎ ((front : List A) × (x : A) × (xs ≡ front ++ (x ∷ [])))
  List-last [] = inl refl
  List-last (x ∷ xs) = elim (List-last xs) [
    | inl e ↦ inr ([], x, ap (λ t. x ∷ t) e)
    | inr (front, y, e) ↦ inr (x ∷ front, y, ap (λ t. x ∷ t) e)
  ]

  pub All-append {κ} : (P : A → Type κ) (xs ys : List A) → All P (xs ++ ys) → All P xs × All P ys
  All-append P [] ys h = (tt, h)
  All-append P (x ∷ xs) ys (px, h) = let (l, r) = All-append P xs ys h in ((px, l), r)
