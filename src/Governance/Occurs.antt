-- ===== src/Governance/Occurs.antt =====
-- cast_vote of integrations/governance-gate/src/lib.rs: lists of votes, and how many of a kind have their
-- nullifier among the spent ones.
use lp_0005_private_token_ba.Prelude.{
  ℕ, ◌+◌, ◌≡◌, ◌⊎◌, inl, inr, refl, sym, List, [], ◌∷◌, ByteSet, All, contains, bytes_eq_refl,
  ne_bytes_eq, Bool, false, ◌&&◌, Bool-cases, if◌then◌else◌, arith,
}
use mathlib.Core.Path.{subst}
use lp_0005_private_token_ba.Governance.{Vote}
use lp_0005_private_token_ba.Governance.Step.{Apart}

-- A vote is one of a list.
abbrev pub Occurs : Vote → List Vote → Type 0
Occurs v [] = ⊥
Occurs v (w ∷ ws) = (v ≡ w) ⊎ Occurs v ws

-- No two of the votes spend the same nullifier.
abbrev pub AreApart : List Vote → Type 0
AreApart [] = Unit
AreApart (v ∷ vs) = All (Apart v) vs × AreApart vs

All-Occurs : (P : Vote → Type 0) (vs : List Vote) (v : Vote) → All P vs → Occurs v vs → P v
All-Occurs P [] v h occurs = elim occurs [ ]
All-Occurs P (w ∷ ws) v (p, ps) (inl e) = subst P (sym e) p
All-Occurs P (w ∷ ws) v (p, ps) (inr occurs) = All-Occurs P ws v ps occurs

unfoldable pub count_if : (Vote → Bool) → List Vote → ℕ
count_if p [] = 0
count_if p (v ∷ vs) = (if p v then 1 else 0) + count_if p vs

-- The votes of a kind whose nullifiers are spent.
abbrev pub seen : (Vote → Bool) → ByteSet → Vote → Bool
seen p used v = p v && contains used v.attestation.nullifier

pub contains-Apart :
    (used : ByteSet) (v w : Vote)
    → Apart w v
    → contains (w.attestation.nullifier ∷ used) v.attestation.nullifier
      ≡ contains used v.attestation.nullifier
unfolding contains
contains-Apart used v w apart =
    rw (ne_bytes_eq w.attestation.nullifier v.attestation.nullifier apart) refl

count_if-Apart :
    (p : Vote → Bool) (used : ByteSet) (w : Vote) (vs : List Vote)
    → All (Apart w) vs
    → count_if (seen p (w.attestation.nullifier ∷ used)) vs ≡ count_if (seen p used) vs
unfolding count_if
count_if-Apart p used w [] h = refl
count_if-Apart p used w (v ∷ vs) (apart, h) =
    rw (contains-Apart used v w apart, count_if-Apart p used w vs h) refl

pub count_if-none : (p : Vote → Bool) (vs : List Vote) → count_if (seen p []) vs ≡ 0
unfolding count_if contains
count_if-none p [] = refl
count_if-none p (v ∷ vs) = rw (count_if-none p vs) (ground arith)

count_if-head :
    (p : Vote → Bool) (used : ByteSet) (w : Vote) (vs : List Vote)
    → All (Apart w) vs
    → contains used w.attestation.nullifier ≡ false
    → count_if (seen p (w.attestation.nullifier ∷ used)) (w ∷ vs)
      ≡ (if p w then 1 else 0) + count_if (seen p used) (w ∷ vs)
unfolding count_if contains
count_if-head p used w vs far fresh =
    rw (count_if-Apart p used w vs far, bytes_eq_refl w.attestation.nullifier, fresh)
      (elim (Bool-cases (p w)) [
        | inl taken ↦ rw taken (omega arith)
        | inr left ↦ rw left (omega arith)
      ])

-- Spending the nullifier of one of the votes counts that vote and no other.
pub count_if-Occurs :
    (p : Vote → Bool) (used : ByteSet) (w : Vote) (vs : List Vote)
    → AreApart vs
    → Occurs w vs
    → contains used w.attestation.nullifier ≡ false
    → count_if (seen p (w.attestation.nullifier ∷ used)) vs
      ≡ (if p w then 1 else 0) + count_if (seen p used) vs
unfolding count_if
count_if-Occurs p used w [] apart occurs fresh = elim occurs [ ]
count_if-Occurs p used w (v ∷ vs) (far, apart) (inl e) fresh =
    subst
      (λ x.
        count_if (seen p (w.attestation.nullifier ∷ used)) (x ∷ vs)
        ≡ (if p w then 1 else 0) + count_if (seen p used) (x ∷ vs))
      e (count_if-head p used w vs (subst (λ x. All (Apart x) vs) (sym e) far) fresh)
count_if-Occurs p used w (v ∷ vs) (far, apart) (inr occurs) fresh =
    let away : Apart w v = λ e. All-Occurs (Apart v) vs w far occurs (sym e) in
    rw (contains-Apart used v w away, count_if-Occurs p used w vs apart occurs fresh) (omega arith)
