-- ===== src/Governance/Order.antt =====
-- cast_vote of integrations/governance-gate/src/lib.rs: the votes of a proposal in another order.
use lp_0005_private_token_ba.Prelude.{◌≡◌, refl, List, [], ◌∷◌, Bool, inl, inr}
use mathlib.Core.List.{Permᴰ, Pairwise, mem-cons_self}
use mathlib.Core.Quot
use mathlib.Core.Quot.{Quot, Quot-set}
use mathlib.Core.List.Permᴰ
use lp_0005_private_token_ba.Crypto.{Sha256, Ecdsa}
use lp_0005_private_token_ba.Kernel.{check_gate}
use lp_0005_private_token_ba.Governance.{ProposalState, Vote, cast_vote}
use lp_0005_private_token_ba.Governance.Tally.{gate_inputs, cast_vote_effect, cast_votes}
use lp_0005_private_token_ba.Governance.Step.{
  SameProposal, SameProposal-refl, SameProposal-trans, Apart, Apart-sym, Apart-prop, is_ok, next,
  next-respects, next-swap,
}

module _ (sha : Sha256) (ec : Ecdsa) where
  -- The gate accepts the vote.
  abbrev pub accepted : Vote → Bool
  accepted v = is_ok (check_gate sha ec (gate_inputs v))

  cast_vote-next : (s : ProposalState) (v : Vote) → (cast_vote sha ec s v).1 ≡ next (accepted v) s v
  unfolding next
  cast_vote-next s v = elim (cast_vote_effect sha ec s v) [
    | inl (e, refused, same) ↦ rw (same, refused) refl
    | inr (inl (passed, spent, same)) ↦ rw (same, passed, spent) refl
    | inr (inr (passed, fresh, same)) ↦ rw (same, passed, fresh) refl
  ]

  cast_votes-respects :
      (vs : List Vote) (s t : ProposalState)
      → SameProposal s t
      → SameProposal (cast_votes sha ec s vs) (cast_votes sha ec t vs)
  unfolding cast_votes
  cast_votes-respects [] s t h = h
  cast_votes-respects (v ∷ vs) s t h =
      cast_votes-respects vs _ _
        (rw (cast_vote-next s v, cast_vote-next t v) (next-respects (accepted v) s t v h))

  cast_vote-respects :
      (s t : ProposalState) (v w : Vote)
      → v ≡ w
      → SameProposal s t
      → SameProposal (cast_vote sha ec s v).1 (cast_vote sha ec t w).1
  cast_vote-respects s t v w e h =
      rw (cast_vote-next s v, cast_vote-next t w, e) (next-respects (accepted w) s t w h)

  cast_vote-swap :
      (s t : ProposalState) (v w v' w' : Vote)
      → v ≡ w'
      → w ≡ v'
      → Apart v w
      → SameProposal s t
      → SameProposal
          (cast_vote sha ec (cast_vote sha ec s v).1 w).1
          (cast_vote sha ec (cast_vote sha ec t v').1 w').1
  cast_vote-swap s t v w v' w' e e' apart h =
      SameProposal-trans _ _ _
        (rw
          (
            cast_vote-next s v,
            cast_vote-next (next (accepted v) s v) w,
            cast_vote-next s w,
            cast_vote-next (next (accepted w) s w) v,
          )
          (next-swap (accepted v) (accepted w) s v w apart))
        (cast_vote-respects _ _ v w' e (cast_vote-respects s t w v' e' h))

  from_same :
      {vs ws : List Vote}
      → Permᴰ vs ws
      → (s t : ProposalState) → Pairwise Apart vs
      → SameProposal s t
      → SameProposal (cast_votes sha ec s vs) (cast_votes sha ec t ws)
  unfolding cast_votes
  from_same Permᴰ.nil s t apart h = h
  from_same (Permᴰ.cons {a = v} {b = w} e perm) s t (Pairwise.cons far apart) h =
      from_same perm _ _ apart (cast_vote-respects s t v w e h)
  from_same (Permᴰ.swap {a = v} {b = w} {a' = v'} {b' = w'} {l = l} e e') s t
        (Pairwise.cons far apart) h =
      cast_votes-respects l _ _ (cast_vote-swap s t v w v' w' e e' (far w mem-cons_self) h)
  from_same (Permᴰ.trans perm perm') s t apart h =
      SameProposal-trans _ _ _ (from_same perm s s apart (SameProposal-refl s))
        (from_same perm' s t (Permᴰ.pairwise Apart-prop Apart-sym perm apart) h)

  -- Votes that spend pairwise different nullifiers leave the same proposal in every order they are
  -- cast in: the same count of each side, and the same nullifiers spent.
  pub cast_votes_order :
      (s : ProposalState) (vs ws : List Vote)
      → Pairwise Apart vs
      → Permᴰ vs ws
      → SameProposal (cast_votes sha ec s vs) (cast_votes sha ec s ws)
  cast_votes_order s vs ws apart perm = from_same perm s s apart (SameProposal-refl s)

-- A proposal up to the order in which its nullifiers were spent.
abbrev pub Proposal : Type 0
Proposal = Quot SameProposal

module _ (sha : Sha256) (ec : Ecdsa) where
  unfoldable cast : Proposal → Vote → Proposal
  cast p v =
      Quot.lift Quot-set (λ s. Quot.mk (cast_vote sha ec s v).1)
        (λ s t h. Quot.sound (cast_vote-respects sha ec s t v v refl h)) p

  -- On proposals up to that order, two votes that spend different nullifiers commute.
  cast_comm : (v w : Vote) → Apart v w → (p : Proposal) → cast (cast p v) w ≡ cast (cast p w) v
  unfolding cast
  cast_comm v w apart =
      Quot.ind (λ p. Quot-set _ _)
        λ s. Quot.sound (cast_vote-swap sha ec s s v w w v refl refl apart (SameProposal-refl s))
