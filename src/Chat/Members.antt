-- ===== src/Chat/Members.antt =====
-- admit of integrations/chat-gate/src/lib.rs: its outcomes, and the members of a reachable roster.
use mathlib.Core.Path.{subst}
use lp_0005_private_token_ba.Prelude.{
  ℕ, ◌≡◌, ◌≤◌, ◌⊎◌, inl, inr, refl, ap, ◌∙◌, List, ◌∷◌, Bytes, contains, insert, contains-insert,
  bytes_eq, bytes_eq_iff, Bool-cases, true, false, Result, Result-cases, ok, err, arith,
}
use lp_0005_private_token_ba.Crypto.{Sha256, Ecdsa, Collision, hash_parts-binding, or_collision_map}
use lp_0005_private_token_ba.Core.{PublicJournal}
use lp_0005_private_token_ba.Kernel.Check.{Answers}
use lp_0005_private_token_ba.Offchain.{Risc0, VerifyError, verify_credential}
use lp_0005_private_token_ba.Offchain.Results.{verify_credential-ok}
use lp_0005_private_token_ba.Chat.{
  AdmissionError, verify, nullifier_reused, group_context_id, GroupRoster, new_roster,
  admit_verified, admit,
}

pub admit_verified-spent :
    (g : GroupRoster) (j : PublicJournal)
    → contains g.used_nullifiers j.nullifier ≡ true
    → admit_verified g (ok j) ≡ (err nullifier_reused, g)
unfolding admit_verified insert
admit_verified-spent g j spent = ground arith

-- The roster with a journal's nullifier spent and its key a member.
abbrev pub joined : GroupRoster → PublicJournal → GroupRoster
joined g j = record g {
  used_nullifiers = j.nullifier ∷ g.used_nullifiers;
  members = (insert g.members j.presenter_pubkey).0;
}

pub admit_verified-fresh :
    (g : GroupRoster) (j : PublicJournal)
    → contains g.used_nullifiers j.nullifier ≡ false
    → admit_verified g (ok j) ≡ (ok j, joined g j)
unfolding admit_verified insert
admit_verified-fresh g j fresh = ground arith

-- Two groups have two contexts, so a credential for one group is refused at another, unless SHA-256
-- collides.
pub group_context_id-injective :
    (sha : Sha256) (g g' : Bytes)
    → group_context_id sha g ≡ group_context_id sha g'
    → (g ≡ g') ⊎ Collision sha
unfolding group_context_id
group_context_id-injective sha g g' e =
    or_collision_map (hash_parts-binding sha _ _ (refl, tt) e) λ same. cc same

module _ (sha : Sha256) (ec : Ecdsa) (zk : Risc0) (attestation_id : List ℕ) where
  pub record Request : Type 0 where
    pub receipt : zk.Receipt
    pub presenter_nonce : Bytes
    pub presenter_signature_der : Bytes

  abbrev pub verified : GroupRoster → Request → Result VerifyError PublicJournal
  verified g r =
      verify_credential zk attestation_id sha ec r.receipt r.presenter_nonce
        r.presenter_signature_der (group_context_id sha g.group_id) g.minimum_stake

  abbrev pub admit_on : GroupRoster → Request → Result AdmissionError PublicJournal × GroupRoster
  admit_on g r =
      admit sha ec zk attestation_id g r.receipt r.presenter_nonce r.presenter_signature_der

  -- A request has one of three outcomes: the credential is refused, with the verifier's error; its
  -- nullifier is spent, and it is reported as reused; or it is returned, its nullifier is spent and
  -- its key is a member. The first two change nothing.
  pub admit_effect :
      (g : GroupRoster) (r : Request)
      → ((e : VerifyError) × (verified g r ≡ err e) × (admit_on g r ≡ (err (verify e), g)))
        ⊎ ((j : PublicJournal) × (verified g r ≡ ok j)
            × (contains g.used_nullifiers j.nullifier ≡ true)
            × (admit_on g r ≡ (err nullifier_reused, g)))
        ⊎ ((j : PublicJournal) × (verified g r ≡ ok j)
            × (contains g.used_nullifiers j.nullifier ≡ false)
            × (admit_on g r ≡ (ok j, joined g j)))
  unfolding admit
  admit_effect g r = elim (Result-cases (verified g r)) [
    | inr (e, refused) ↦ inl (e, refused, rw refused (unfold admit_verified in refl))
    | inl (j, accepted) ↦ inr (elim (Bool-cases (contains g.used_nullifiers j.nullifier)) [
      | inl spent ↦ inl (j, accepted, spent, rw (accepted, admit_verified-spent g j spent))
      | inr fresh ↦ inr (j, accepted, fresh, rw (accepted, admit_verified-fresh g j fresh))
    ])
  ]

  -- The rosters that requests lead to, from a new group.
  pub data Reached (group_id : Bytes) (stake : ℕ) : GroupRoster → Type 0 where
    start : Reached group_id stake (new_roster group_id stake)
    next :
        {g : GroupRoster}
        → Reached group_id stake g
        → (r : Request) → Reached group_id stake (admit_on g r).1

  -- A credential for a group by the holder of a key.
  abbrev pub Backed : Bytes → ℕ → Bytes → Type 0
  Backed group_id stake pubkey =
      (r : Request) × (j : PublicJournal) × (zk.verify r.receipt attestation_id ≡ ok tt)
      × (zk.decode_journal r.receipt ≡ ok j)
      × (j.presenter_pubkey ≡ pubkey)
      × (j.context_id ≡ group_context_id sha group_id)
      × (stake ≤ j.threshold)
      × Answers sha ec j r.presenter_nonce r.presenter_signature_der

  -- What every reachable roster satisfies.
  record IsRoster (group_id : Bytes) (stake : ℕ) (g : GroupRoster) : Type 0 where
    same_group : g.group_id ≡ group_id
    same_stake : g.minimum_stake ≡ stake
    backed : (pk : Bytes) → contains g.members pk ≡ true → Backed group_id stake pk

  verified-Backed :
      (group_id : Bytes) (stake : ℕ) (g : GroupRoster) (r : Request) (j : PublicJournal)
      → IsRoster group_id stake g
      → verified g r ≡ ok j
      → Backed group_id stake j.presenter_pubkey
  verified-Backed group_id stake g r j h accepted =
      let (receipt, journal, context, reaches, answers) =
        (verify_credential-ok zk attestation_id sha ec r.receipt r.presenter_nonce
            r.presenter_signature_der (group_context_id sha g.group_id) g.minimum_stake j).0
          accepted in
      (
        r,
        j,
        receipt,
        journal,
        refl,
        context ∙ ap (group_context_id sha) h.same_group,
        rw (← h.same_stake) reaches,
        answers,
      )

  joined-IsRoster :
      (group_id : Bytes) (stake : ℕ) (g : GroupRoster) (r : Request) (j : PublicJournal)
      → IsRoster group_id stake g
      → verified g r ≡ ok j
      → IsRoster group_id stake (joined g j)
  joined-IsRoster group_id stake g r j h accepted = record {
    same_group = h.same_group;
    same_stake = h.same_stake;
    backed = λ pk member. elim (Bool-cases (bytes_eq j.presenter_pubkey pk)) [
      | inl this ↦
          subst (Backed group_id stake) ((bytes_eq_iff j.presenter_pubkey pk).0 this)
            (verified-Backed group_id stake g r j h accepted)
      | inr other ↦
          h.backed pk ((rw (contains-insert g.members j.presenter_pubkey pk, other) at member))
    ];
  }

  admit-IsRoster :
      (group_id : Bytes) (stake : ℕ) (g : GroupRoster) (r : Request)
      → IsRoster group_id stake g
      → IsRoster group_id stake (admit_on g r).1
  admit-IsRoster group_id stake g r h = elim (admit_effect g r) [
    | inl (e, refused, same) ↦ rw same h
    | inr (inl (j, accepted, spent, same)) ↦ rw same h
    | inr (inr (j, accepted, fresh, same)) ↦
        rw same (joined-IsRoster group_id stake g r j h accepted)
  ]

  Reached-IsRoster :
      {group_id : Bytes} {stake : ℕ} {g : GroupRoster}
      → Reached group_id stake g
      → IsRoster group_id stake g
  unfolding contains
  Reached-IsRoster start = record { same_group = refl; same_stake = refl; backed = λ pk member. cc }
  Reached-IsRoster (next reached r) = admit-IsRoster _ _ _ r (Reached-IsRoster reached)

  -- However requests came in, each member of a group has a receipt that verifies, whose journal names
  -- the member's key and the group's context, reaches the group's stake, and was answered for with
  -- that key.
  pub members-Backed :
      (group_id : Bytes) (stake : ℕ) (g : GroupRoster) (pk : Bytes)
      → Reached group_id stake g
      → contains g.members pk ≡ true
      → Backed group_id stake pk
  members-Backed group_id stake g pk reached member = (Reached-IsRoster reached).backed pk member
