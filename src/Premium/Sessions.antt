-- ===== src/Premium/Sessions.antt =====
-- activate of integrations/premium-features/src/lib.rs: its outcomes, and the sessions of a reachable
-- service.
use mathlib.Core.Path.{subst₂}
use lp_0005_private_token_ba.Prelude.{
  ℕ, ◌≡◌, ◌≤◌, ◌⊎◌, inl, inr, refl, List, [], Bytes, bytes_eq, bytes_eq_ne, bytes_eq_iff,
  Bool-cases, Option-cases, none, some, lookup, contains_key, put, lookup-put, Result, Result-cases,
  ok, err, arith, if◌then◌else◌,
}
use lp_0005_private_token_ba.Crypto.{Sha256, Ecdsa, Collision, hash_parts-binding, or_collision_map}
use lp_0005_private_token_ba.Core.{PublicJournal}
use lp_0005_private_token_ba.Kernel.Check.{Answers}
use lp_0005_private_token_ba.Offchain.{Risc0, VerifyError, verify_credential}
use lp_0005_private_token_ba.Offchain.Results.{verify_credential-ok}
use lp_0005_private_token_ba.Premium.{
  ActivateError, verify, nullifier_reused, Tier, free, pro, enterprise, minimum_balance, tier_name,
  context_id, FeatureService, open_session, activate, tier_for,
}

open_session-fresh :
    (s : FeatureService) (t : Tier) (j : PublicJournal)
    → lookup s.active_sessions j.nullifier ≡ none
    → open_session s t (ok j)
      ≡ (ok j, record s { active_sessions = put s.active_sessions j.nullifier t })
unfolding open_session contains_key
open_session-fresh s t j fresh = ground arith

open_session-taken :
    (s : FeatureService) (t : Tier) (j : PublicJournal) {t' : Tier}
    → lookup s.active_sessions j.nullifier ≡ some t'
    → open_session s t (ok j) ≡ (err nullifier_reused, s)
unfolding open_session contains_key
open_session-taken s t j taken = ground arith

module _ (sha : Sha256) (ec : Ecdsa) (zk : Risc0) (attestation_id : List ℕ) where
  -- One call of `activate`.
  pub record Request : Type 0 where
    pub tier : Tier
    pub receipt : zk.Receipt
    pub presenter_nonce : Bytes
    pub presenter_signature_der : Bytes

  abbrev pub verified : Request → Result VerifyError PublicJournal
  verified r =
      verify_credential zk attestation_id sha ec r.receipt r.presenter_nonce
        r.presenter_signature_der (context_id sha r.tier) (minimum_balance r.tier)

  abbrev pub activate_on :
      FeatureService → Request → Result ActivateError PublicJournal × FeatureService
  activate_on s r =
      activate sha ec zk attestation_id s r.tier r.receipt r.presenter_nonce
        r.presenter_signature_der

  -- A request has one of three outcomes: the credential is refused, with the verifier's error; its
  -- nullifier has a session already, and it is reported as reused; or it is new, and is returned. Only
  -- in the last case does anything change, and then exactly this nullifier's tier.
  pub activate_effect :
      (s : FeatureService) (r : Request)
      → ((e : VerifyError) × (verified r ≡ err e) × (activate_on s r ≡ (err (verify e), s)))
        ⊎ ((j : PublicJournal) × (verified r ≡ ok j)
            × (t : Tier) × (tier_for s j.nullifier ≡ some t)
            × (activate_on s r ≡ (err nullifier_reused, s)))
        ⊎ ((j : PublicJournal) × (verified r ≡ ok j)
            × (tier_for s j.nullifier ≡ none)
            × ((activate_on s r).0 ≡ ok j)
            × ((n : Bytes)
                → tier_for (activate_on s r).1 n
                  ≡ (if bytes_eq j.nullifier n then some r.tier else tier_for s n)))
  unfolding activate tier_for contains_key
  activate_effect s r = elim (Result-cases (verified r)) [
    | inr (e, refused) ↦ inl (e, refused, rw refused)
    | inl (j, accepted) ↦ inr (elim (Option-cases (lookup s.active_sessions j.nullifier)) [
      | inr (t, taken) ↦
          inl (j, accepted, t, taken, rw (accepted, open_session-taken s r.tier j taken))
      | inl fresh ↦ inr (
        j,
        accepted,
        fresh,
        rw (accepted, open_session-fresh s r.tier j fresh),
        λ n.
            rw (accepted, open_session-fresh s r.tier j fresh)
              (lookup-put s.active_sessions j.nullifier n r.tier),
      )
    ])
  ]

  -- A credential for a tier, at some nullifier.
  abbrev pub Backed : Bytes → Tier → Type 0
  Backed n t =
      (r : Request) × (j : PublicJournal) × (r.tier ≡ t)
      × (zk.verify r.receipt attestation_id ≡ ok tt)
      × (zk.decode_journal r.receipt ≡ ok j)
      × (j.nullifier ≡ n)
      × (j.context_id ≡ context_id sha t)
      × (minimum_balance t ≤ j.threshold)
      × Answers sha ec j r.presenter_nonce r.presenter_signature_der

  -- The states that calls of `activate` lead to, from no sessions.
  pub data Reached : FeatureService → Type 0 where
    start : Reached (record { active_sessions = [] })
    next : {s : FeatureService} → Reached s → (r : Request) → Reached (activate_on s r).1

  verified-Backed :
      (r : Request) (j : PublicJournal) → verified r ≡ ok j → Backed j.nullifier r.tier
  verified-Backed r j accepted =
      let (receipt, journal, context, reaches, answers) =
        (verify_credential-ok zk attestation_id sha ec r.receipt r.presenter_nonce
            r.presenter_signature_der (context_id sha r.tier) (minimum_balance r.tier) j).0
          accepted in
      (r, j, refl, receipt, journal, refl, context, reaches, answers)

  activate-Backed :
      (s : FeatureService) (r : Request)
      → ((n : Bytes) (t : Tier) → tier_for s n ≡ some t → Backed n t)
      → (n : Bytes) (t : Tier) → tier_for (activate_on s r).1 n ≡ some t
      → Backed n t
  activate-Backed s r backed n t active = elim (activate_effect s r) [
    | inl (e, refused, same) ↦ backed n t (rw same at active)
    | inr (inl (j, accepted, t', taken, same)) ↦ backed n t (rw same at active)
    | inr (inr (j, accepted, fresh, returned, after)) ↦ elim (Bool-cases (bytes_eq j.nullifier n)) [
      | inr other ↦ backed n t (rw (after n, other) at active)
      | inl this ↦
          let tier_is : r.tier ≡ t = cc ((rw (after n, this) at active)) in
          subst₂ Backed ((bytes_eq_iff j.nullifier n).0 this) tier_is (verified-Backed r j accepted)
    ]
  ]

  -- However the service was used, an active session of a tier has a receipt that verifies, a journal
  -- in the tier's context with a threshold that reaches the tier's balance, and a presenter who
  -- answered for it.
  pub sessions-Backed :
      (s : FeatureService) (n : Bytes) (t : Tier) → Reached s → tier_for s n ≡ some t → Backed n t
  unfolding tier_for lookup
  sessions-Backed s n t start active = cc
  sessions-Backed s n t (next reached r) active =
      activate-Backed _ r (λ n' t'. sessions-Backed _ n' t' reached) n t active

tier_names_differ : (t t' : Tier) → tier_name t ≡ tier_name t' → t ≡ t'
tier_names_differ free free e = refl
tier_names_differ pro pro e = refl
tier_names_differ enterprise enterprise e = refl
tier_names_differ free pro e = absurd (unfold bytes_eq in bytes_eq_ne _ _ refl e)
tier_names_differ free enterprise e = absurd (unfold bytes_eq in bytes_eq_ne _ _ refl e)
tier_names_differ pro free e = absurd (unfold bytes_eq in bytes_eq_ne _ _ refl e)
tier_names_differ pro enterprise e = absurd (unfold bytes_eq in bytes_eq_ne _ _ refl e)
tier_names_differ enterprise free e = absurd (unfold bytes_eq in bytes_eq_ne _ _ refl e)
tier_names_differ enterprise pro e = absurd (unfold bytes_eq in bytes_eq_ne _ _ refl e)

-- Two tiers have two contexts, so a credential for one tier is refused at another, unless SHA-256
-- collides.
pub context_id-injective :
    (sha : Sha256) (t t' : Tier) → context_id sha t ≡ context_id sha t' → (t ≡ t') ⊎ Collision sha
unfolding context_id
context_id-injective sha t t' e =
    or_collision_map (hash_parts-binding sha _ _ (refl, tt) e)
      λ same. tier_names_differ t t' (cc same)
