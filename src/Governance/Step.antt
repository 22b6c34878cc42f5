-- ===== src/Governance/Step.antt =====
-- cast_vote of integrations/governance-gate/src/lib.rs: two proposals compared by their counters and the
-- members of their `BTreeSet`, whose order of insertion nobody sees, and one or two votes on them.
use lp_0005_private_token_ba.Prelude.{
  ◌≡◌, ◌≢◌, refl, sym, ◌∙◌, Bytes, Bool, true, false, not, ◌&&◌, contains, ne_bytes_eq, Result, ok,
  err, arith, inl, inr, Bool-cases, if◌then◌else◌,
}
use mathlib.Core.HLevel.{¬_prop}
use lp_0005_private_token_ba.Kernel.{GateError}
use lp_0005_private_token_ba.Governance.{ProposalState, Vote}
use lp_0005_private_token_ba.Governance.Tally.{counted}

pub record SameProposal (s t : ProposalState) : Type 0 where
  pub same_yes : s.yes_votes ≡ t.yes_votes
  pub same_no : s.no_votes ≡ t.no_votes
  pub same_spent : (b : Bytes) → contains s.used_nullifiers b ≡ contains t.used_nullifiers b

pub SameProposal-refl : (s : ProposalState) → SameProposal s s
SameProposal-refl s = record { same_yes = refl; same_no = refl; same_spent = λ b. refl }

pub SameProposal-trans :
    (s t u : ProposalState) → SameProposal s t → SameProposal t u → SameProposal s u
SameProposal-trans s t u h k = record {
  same_yes = h.same_yes ∙ k.same_yes;
  same_no = h.same_no ∙ k.same_no;
  same_spent = λ b. h.same_spent b ∙ k.same_spent b;
}

-- Two votes spend different nullifiers.
abbrev pub Apart : Vote → Vote → Type 0
Apart v w = v.attestation.nullifier ≢ w.attestation.nullifier

pub Apart-sym : (v w : Vote) → Apart v w → Apart w v
Apart-sym v w apart e = apart (sym e)

pub Apart-prop : (v w : Vote) → IsProp (Apart v w)
Apart-prop v w = ¬_prop

abbrev pub is_ok : Result GateError (Unit {0}) → Bool
is_ok (ok _) = true
is_ok (err _) = false

-- The state after a vote, given whether the gate accepts it.
unfoldable pub next : Bool → ProposalState → Vote → ProposalState
next gate s v =
    if gate && not (contains s.used_nullifiers v.attestation.nullifier) then counted s v else s

next_spent :
    (gate : Bool) (s : ProposalState) (v : Vote)
    → contains s.used_nullifiers v.attestation.nullifier ≡ true
    → next gate s v ≡ s
unfolding next
next_spent false s v h = refl
next_spent true s v h = rw h refl

next_refused : (s : ProposalState) (v : Vote) → next false s v ≡ s
unfolding next
next_refused s v = refl

next_fresh :
    (s : ProposalState) (v : Vote)
    → contains s.used_nullifiers v.attestation.nullifier ≡ false
    → next true s v ≡ counted s v
unfolding next
next_fresh s v h = rw h refl

counted-respects :
    (s t : ProposalState) (v : Vote) → SameProposal s t → SameProposal (counted s v) (counted t v)
unfolding contains
counted-respects s t v h = record {
  same_yes = rw h.same_yes refl;
  same_no = rw h.same_no refl;
  same_spent = λ b. rw (h.same_spent b) refl;
}

pub next-respects :
    (gate : Bool) (s t : ProposalState) (v : Vote)
    → SameProposal s t
    → SameProposal (next gate s v) (next gate t v)
unfolding next
next-respects false s t v h = h
next-respects true s t v h =
    elim (Bool-cases (contains t.used_nullifiers v.attestation.nullifier)) [
      | inl spent ↦ rw (h.same_spent v.attestation.nullifier, spent) h
      | inr fresh ↦ rw (h.same_spent v.attestation.nullifier, fresh) (counted-respects s t v h)
    ]

same_proposal :
    (s t : ProposalState)
    → s.yes_votes ≡ t.yes_votes
    → s.no_votes ≡ t.no_votes
    → ((b : Bytes) → contains s.used_nullifiers b ≡ contains t.used_nullifiers b)
    → SameProposal s t
same_proposal s t ey en es = record { same_yes = ey; same_no = en; same_spent = es }

counted-swap :
    (s : ProposalState) (v w : Vote)
    → SameProposal (counted (counted s v) w) (counted (counted s w) v)
unfolding contains
counted-swap s v w = same_proposal _ _ yes_same no_same (λ b. ground arith)
  where
    yes_same : (counted (counted s v) w).yes_votes ≡ (counted (counted s w) v).yes_votes
    yes_same = ground arith

    no_same : (counted (counted s v) w).no_votes ≡ (counted (counted s w) v).no_votes
    no_same = ground arith

contains-counted :
    (s : ProposalState) (v w : Vote)
    → Apart v w
    → contains (counted s v).used_nullifiers w.attestation.nullifier
      ≡ contains s.used_nullifiers w.attestation.nullifier
unfolding contains
contains-counted s v w apart =
    rw (ne_bytes_eq v.attestation.nullifier w.attestation.nullifier apart) refl

pub next-swap :
    (gate gate' : Bool) (s : ProposalState) (v w : Vote)
    → Apart v w
    → SameProposal (next gate' (next gate s v) w) (next gate (next gate' s w) v)
next-swap false gate' s v w apart =
    rw (next_refused s v, next_refused (next gate' s w) v) (SameProposal-refl _)
next-swap true false s v w apart =
    rw (next_refused (next true s v) w, next_refused s w) (SameProposal-refl _)
next-swap true true s v w apart =
    let v_keeps = contains-counted s v w apart in
    let w_keeps = contains-counted s w v (λ e. apart (sym e)) in
    let in_set = contains s.used_nullifiers in
    elim (Bool-cases (in_set v.attestation.nullifier)) [
      | inl spent ↦ elim (Bool-cases (in_set w.attestation.nullifier)) [
        | inl spent' ↦
            rw (next_spent true s v spent, next_spent true s w spent', next_spent true s v spent)
              (SameProposal-refl _)
        | inr fresh' ↦
            rw
              (
                next_spent true s v spent,
                next_fresh s w fresh',
                next_spent true (counted s w) v (w_keeps ∙ spent),
              )
              (SameProposal-refl _)
      ]
      | inr fresh ↦ elim (Bool-cases (in_set w.attestation.nullifier)) [
        | inl spent' ↦
            rw
              (
                next_fresh s v fresh,
                next_spent true (counted s v) w (v_keeps ∙ spent'),
                next_spent true s w spent',
                next_fresh s v fresh,
              )
              (SameProposal-refl _)
        | inr fresh' ↦
            rw
              (
                next_fresh s v fresh,
                next_fresh s w fresh',
                next_fresh (counted s v) w (v_keeps ∙ fresh'),
                next_fresh (counted s w) v (w_keeps ∙ fresh),
              )
              (counted-swap s v w)
      ]
    ]
