-- ===== src/Governance/Count.antt =====
-- cast_vote of integrations/governance-gate/src/lib.rs: what a sequence of calls counts, beside a count
-- of the votes themselves.
use lp_0005_private_token_ba.Prelude.{
  ℕ, ◌%◌, ◌^◌, ◌≡◌, inl, inr, refl, sym, ap, ◌∙◌, List, [], ◌∷◌, Bytes, ByteSet, All, contains,
  bytes_eq, bytes_eq_refl, bytes_eq_iff, Bool, true, false, not, ◌&&◌, ◌||◌, Bool-cases, arith,
}
use mathlib.Core.Path.{subst}
use lp_0005_private_token_ba.Crypto.{Sha256, Ecdsa}
use lp_0005_private_token_ba.Governance.{ProposalState, new_proposal, Vote, cast_vote}
use lp_0005_private_token_ba.Governance.Tally.{counted, cast_vote_effect, cast_votes}
use lp_0005_private_token_ba.Governance.Step.{is_ok}
use lp_0005_private_token_ba.Governance.Order.{accepted}
use lp_0005_private_token_ba.Governance.Once.{cast_votes-keeps}
use lp_0005_private_token_ba.Governance.Occurs.{
  Occurs, AreApart, count_if, seen, count_if-Occurs, count_if-none,
}

same_Bool : {a b : Bool} → (a ≡ true → b ≡ true) → (b ≡ true → a ≡ true) → a ≡ b
same_Bool {a = true} {b = true} f g = refl
same_Bool {a = true} {b = false} f g = sym (f refl)
same_Bool {a = false} {b = true} f g = g refl
same_Bool {a = false} {b = false} f g = refl

module _ (sha : Sha256) (ec : Ecdsa) where
  abbrev pub votes_yes : Vote → Bool
  votes_yes v = accepted sha ec v && v.vote_yes

  abbrev pub votes_no : Vote → Bool
  votes_no v = accepted sha ec v && not v.vote_yes

  -- One of the accepted votes has this nullifier.
  unfoldable pub is_nullifier_of : List Vote → Bytes → Bool
  is_nullifier_of [] b = false
  is_nullifier_of (v ∷ vs) b =
      (accepted sha ec v && bytes_eq v.attestation.nullifier b) || is_nullifier_of vs b

  record IsCount (vs : List Vote) (s : ProposalState) : Type 0 where
    yes_count : s.yes_votes ≡ count_if (seen votes_yes s.used_nullifiers) vs % 2 ^ 64
    no_count : s.no_votes ≡ count_if (seen votes_no s.used_nullifiers) vs % 2 ^ 64
    of_votes : (b : Bytes) → contains s.used_nullifiers b ≡ true → is_nullifier_of vs b ≡ true

  is_nullifier_of-Occurs :
      (vs : List Vote) (v : Vote)
      → Occurs v vs
      → accepted sha ec v ≡ true
      → is_nullifier_of vs v.attestation.nullifier ≡ true
  unfolding is_nullifier_of
  is_nullifier_of-Occurs [] v occurs taken = elim occurs [ ]
  is_nullifier_of-Occurs (w ∷ ws) v (inl e) taken =
      rw (sym e, taken, bytes_eq_refl v.attestation.nullifier) refl
  is_nullifier_of-Occurs (w ∷ ws) v (inr occurs) taken =
      rw (is_nullifier_of-Occurs ws v occurs taken) (ground arith)

  counted-IsCount :
      (vs : List Vote) (s : ProposalState) (v : Vote)
      → AreApart vs
      → Occurs v vs
      → accepted sha ec v ≡ true
      → contains s.used_nullifiers v.attestation.nullifier ≡ false
      → IsCount vs s
      → IsCount vs (counted s v)
  unfolding contains
  counted-IsCount vs s v apart occurs taken fresh h =
      let adds_yes = count_if-Occurs votes_yes s.used_nullifiers v vs apart occurs fresh in
      let adds_no = count_if-Occurs votes_no s.used_nullifiers v vs apart occurs fresh in
      record {
        yes_count = elim (Bool-cases v.vote_yes) [
          | inl for ↦ rw for (omega (arith, h.yes_count, rw (taken, for) at adds_yes))
          | inr against ↦ rw against (omega (arith, h.yes_count, rw (taken, against) at adds_yes))
        ];
        no_count = elim (Bool-cases v.vote_yes) [
          | inl for ↦ rw for (omega (arith, h.no_count, rw (taken, for) at adds_no))
          | inr against ↦ rw against (omega (arith, h.no_count, rw (taken, against) at adds_no))
        ];
        of_votes = λ b held. elim (Bool-cases (bytes_eq v.attestation.nullifier b)) [
          | inl same ↦
              subst (λ c. is_nullifier_of vs c ≡ true)
                ((bytes_eq_iff v.attestation.nullifier b).0 same)
                (is_nullifier_of-Occurs vs v occurs taken)
          | inr other ↦ h.of_votes b (rw other at held)
        ];
      }

  new-IsCount : (vs : List Vote) → IsCount vs new_proposal
  unfolding contains
  new-IsCount vs = record {
    yes_count = rw (count_if-none votes_yes vs) refl;
    no_count = rw (count_if-none votes_no vs) refl;
    of_votes = λ b held. absurd (cc held);
  }

  cast_vote-IsCount :
      (vs : List Vote) (s : ProposalState) (v : Vote)
      → AreApart vs
      → Occurs v vs
      → IsCount vs s
      → IsCount vs (cast_vote sha ec s v).1
  cast_vote-IsCount vs s v apart occurs h = elim (cast_vote_effect sha ec s v) [
    | inl (e, refused, same) ↦ rw same h
    | inr (inl (passed, spent, same)) ↦ rw same h
    | inr (inr (passed, fresh, same)) ↦
        rw same (counted-IsCount vs s v apart occurs (ap is_ok passed) fresh h)
  ]

  cast_votes-IsCount :
      (vs ws : List Vote) (s : ProposalState)
      → AreApart vs
      → All (λ w. Occurs w vs) ws
      → IsCount vs s
      → IsCount vs (cast_votes sha ec s ws)
  unfolding cast_votes
  cast_votes-IsCount vs [] s apart occur h = h
  cast_votes-IsCount vs (w ∷ ws) s apart (occurs, occur) h =
      cast_votes-IsCount vs ws (cast_vote sha ec s w).1 apart occur
        (cast_vote-IsCount vs s w apart occurs h)

  -- A vote that the gate accepts has its nullifier spent afterwards.
  cast_vote-spends :
      (s : ProposalState) (v : Vote)
      → accepted sha ec v ≡ true
      → contains (cast_vote sha ec s v).1.used_nullifiers v.attestation.nullifier ≡ true
  unfolding contains
  cast_vote-spends s v taken = elim (cast_vote_effect sha ec s v) [
    | inl (e, refused, same) ↦ absurd (cc (rw refused at taken))
    | inr (inl (passed, spent, same)) ↦ rw same spent
    | inr (inr (passed, fresh, same)) ↦ rw (same, bytes_eq_refl v.attestation.nullifier) refl
  ]

  cast_votes-spends :
      (ws : List Vote) (s : ProposalState) (v : Vote)
      → Occurs v ws
      → accepted sha ec v ≡ true
      → contains (cast_votes sha ec s ws).used_nullifiers v.attestation.nullifier ≡ true
  unfolding cast_votes
  cast_votes-spends [] s v occurs taken = elim occurs [ ]
  cast_votes-spends (w ∷ ws) s v (inl e) taken =
      cast_votes-keeps sha ec ws (cast_vote sha ec s w).1 v.attestation.nullifier
        (rw (sym e) (cast_vote-spends s v taken))
  cast_votes-spends (w ∷ ws) s v (inr occurs) taken =
      cast_votes-spends ws (cast_vote sha ec s w).1 v occurs taken

  abbrev AreSpent : ByteSet → List Vote → Type 0
  AreSpent used = All λ v. accepted sha ec v ≡ true → contains used v.attestation.nullifier ≡ true

  cast_votes-AreSpent :
      (vs ws : List Vote) (s : ProposalState)
      → All (λ v. Occurs v ws) vs
      → AreSpent (cast_votes sha ec s ws).used_nullifiers vs
  cast_votes-AreSpent [] ws s h = tt
  cast_votes-AreSpent (v ∷ vs) ws s (occurs, h) =
      (cast_votes-spends ws s v occurs, cast_votes-AreSpent vs ws s h)

  -- Once every accepted vote is spent, all of a side are counted.
  count_if-AreSpent :
      (side : Vote → Bool) (used : ByteSet) (vs : List Vote)
      → AreSpent used vs
      → count_if (seen (λ v. accepted sha ec v && side v) used) vs
        ≡ count_if (λ v. accepted sha ec v && side v) vs
  unfolding count_if
  count_if-AreSpent side used [] h = refl
  count_if-AreSpent side used (v ∷ vs) (spent, h) = elim (Bool-cases (accepted sha ec v)) [
    | inl taken ↦ rw (taken, spent taken, count_if-AreSpent side used vs h) (ground arith)
    | inr left ↦ rw (left, count_if-AreSpent side used vs h) refl
  ]

  contains-is_nullifier_of :
      (used : ByteSet) (vs : List Vote) (b : Bytes)
      → AreSpent used vs
      → is_nullifier_of vs b ≡ true
      → contains used b ≡ true
  unfolding is_nullifier_of
  contains-is_nullifier_of used [] b h e = absurd (cc e)
  contains-is_nullifier_of used (v ∷ vs) b (spent, h) e =
      elim (Bool-cases (accepted sha ec v && bytes_eq v.attestation.nullifier b)) [
        | inl own ↦
            subst (λ c. contains used c ≡ true)
              ((bytes_eq_iff v.attestation.nullifier b).0 (ground (arith, own)))
              (spent (ground (arith, own)))
        | inr other ↦ contains-is_nullifier_of used vs b h (rw other at e)
      ]

  -- Calls on an empty proposal cast votes that spend pairwise different nullifiers, each of them at
  -- least once and in any order, and no other votes. Then the proposal has one vote for each accepted
  -- vote of a side, counted modulo 2^64, and the spent nullifiers are those of the accepted votes.
  pub cast_votes_counts :
      (vs calls : List Vote)
      → AreApart vs
      → All (λ v. Occurs v calls) vs
      → All (λ v. Occurs v vs) calls
      → let s = cast_votes sha ec new_proposal calls in
        (s.yes_votes ≡ count_if votes_yes vs % 2 ^ 64)
        × (s.no_votes ≡ count_if votes_no vs % 2 ^ 64)
        × ((b : Bytes) → contains s.used_nullifiers b ≡ is_nullifier_of vs b)
  cast_votes_counts vs calls apart cast only =
      let h = cast_votes-IsCount vs calls new_proposal apart only (new-IsCount vs) in
      let spent = cast_votes-AreSpent vs calls new_proposal cast in
      let used = (cast_votes sha ec new_proposal calls).used_nullifiers in
      (
        h.yes_count
            ∙ ap (λ (k : ℕ). k % 2 ^ 64) (count_if-AreSpent (λ v. v.vote_yes) used vs spent),
        h.no_count
            ∙ ap (λ (k : ℕ). k % 2 ^ 64) (count_if-AreSpent (λ v. not v.vote_yes) used vs spent),
        λ b. same_Bool (h.of_votes b) (contains-is_nullifier_of used vs b spent),
      )
