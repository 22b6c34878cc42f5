-- ===== src/Chat/Demo/Flow.antt =====
-- The decisions of integrations/chat-gate/examples/waku_token_gate.rs on a credential that arrives.
use lp_0005_private_token_ba.Prelude.{
  ℕ, zero, suc, ◌+◌, ◌≡◌, ◌≤◌, refl, ap, ◌∙◌, List, Bytes, bytes_eq, bytes_eq_refl, bytes_eq_iff,
  ltb, true, false, contains, Option, some, none, Result, ok, err, arith, ◌<◌, ◌==◌, ==_iff,
  Bool-cases, inl, inr,
}
use lp_0005_private_token_ba.Crypto.{Sha256, Ecdsa, Signer}
use lp_0005_private_token_ba.Core.{PublicJournal, leaf_hash, witness_commitment}
use lp_0005_private_token_ba.Core.Attest.{witness_root}
use lp_0005_private_token_ba.Offchain.{
  Risc0, threshold_too_low, signature_rejected, verify_receipt, verify_credential,
  presenter_challenge_digest, verify_presenter_signature,
}
use lp_0005_private_token_ba.Offchain.Results.{verify_receipt-ok, verify_credential-ok}
use lp_0005_private_token_ba.Transport.{CredentialEnvelope, TransportError}
use lp_0005_private_token_ba.Sdk.{
  ProveRequest, private_inputs, journal_stub, sign, sign_digest, precompute_leaf,
  synthetic_merkle_path,
}
use lp_0005_private_token_ba.Sdk.Credential.{sign-Answers}
use lp_0005_private_token_ba.Chat.{
  verify, nullifier_reused, group_context_id, new_roster, admit_verified, admit,
}
use lp_0005_private_token_ba.Chat.Members.{admit_verified-fresh, admit_verified-spent, joined}
use lp_0005_private_token_ba.Chat.Demo.{
  group, min_stake, demo_balance, demo_request, poll_from, decide,
}

-- A credential that arrives at some try is the one that the poll returns, where nothing arrives before.
pub poll_from_first :
    {A : Type 0} (receive : ℕ → Result TransportError (Option A)) (a : A) (i k tries : ℕ)
    → ((n : ℕ) → i ≤ n → n < k → receive n ≡ ok none)
    → receive k ≡ ok (some a)
    → i ≤ k
    → k < i + tries
    → poll_from receive i tries ≡ ok (some a)
unfolding poll_from
poll_from_first receive a i k zero before arrives reached soon = absurd (omega arith)
poll_from_first receive a i k (suc tries) before arrives reached soon = elim (Bool-cases (i == k)) [
  | inl now ↦ let here : i ≡ k = (==_iff i k).0 now in rw (ap receive here, arrives) refl
  | inr not_now ↦
      let early : i < k = ground arith in
      let rest =
        poll_from_first receive a (suc i) k tries (λ n above below. before n (omega arith) below)
          arrives early (omega arith) in
      rw (before i (omega arith) early) rest
]

module _ (sha : Sha256) {ec : Ecdsa} (signer : Signer ec) (key : signer.SigningKey) where
  abbrev pub request : ProveRequest
  request = demo_request sha (signer.public key) (group_context_id sha group) demo_balance

  abbrev pub demo_stub : PublicJournal
  demo_stub = journal_stub sha request

  pub demo_request-witness_root : witness_root sha (private_inputs request) ≡ request.merkle_root
  unfolding demo_request precompute_leaf synthetic_merkle_path witness_root leaf_hash
      witness_commitment
  demo_request-witness_root = refl

  -- The key's signature on one digest is not one on another.
  abbrev pub Distinguishes : (d d' : Bytes) → Type 0
  Distinguishes d d' = ec.verify (signer.verifying_key key) d' (signer.signature key d) ≡ false

  abbrev pub signed :
      {zk : Risc0} → zk.Receipt → PublicJournal → (nonce : Bytes) → CredentialEnvelope zk
  signed r j nonce = record {
    receipt = r;
    challenge_nonce = nonce;
    presenter_signature_der = sign signer sha key nonce j;
    app_meta = group;
  }

module _ (sha : Sha256) (zk : Risc0) (attestation_id : List ℕ) {ec : Ecdsa} (signer : Signer ec)
    (key : signer.SigningKey) where
  module _ (r : zk.Receipt) (j : PublicJournal) (nonce fresh : Bytes)
      (verified : zk.verify r attestation_id ≡ ok tt) (decoded : zk.decode_journal r ≡ ok j)
      (same_context : j.context_id ≡ group_context_id sha group)
      (same_threshold : j.threshold ≡ min_stake)
      (same_key : j.presenter_pubkey ≡ signer.public key) where
    accepted :
        verify_credential zk attestation_id sha ec r nonce
          (sign signer sha key nonce j)
          (group_context_id sha group)
          min_stake
        ≡ ok j
    accepted =
        (verify_credential-ok zk attestation_id sha ec r nonce (sign signer sha key nonce j)
            (group_context_id sha group) min_stake j).1
          (
            verified,
            decoded,
            same_context,
            omega (arith, same_threshold),
            sign-Answers sha signer key nonce j same_key,
          )

    received : verify_receipt zk attestation_id r ≡ ok j
    received = (verify_receipt-ok zk attestation_id r j).1 (verified, decoded)

    context_passes : bytes_eq j.context_id (group_context_id sha group) ≡ true
    context_passes = (bytes_eq_iff j.context_id (group_context_id sha group)).1 same_context

    -- Under a floor above the threshold.
    rejected_under :
        verify_credential zk attestation_id sha ec r nonce
          (sign signer sha key nonce j)
          (group_context_id sha group)
          (demo_balance + 1)
        ≡ err threshold_too_low
    unfolding verify_credential
    rejected_under =
        let low : ltb j.threshold (demo_balance + 1) ≡ true = rw same_threshold refl in
        rw (received, context_passes, low) refl

    -- On another nonce.
    rejected_stolen :
        Distinguishes sha signer key
          (presenter_challenge_digest sha nonce j)
          (presenter_challenge_digest sha fresh j)
        → verify_credential zk attestation_id sha ec r fresh
            (sign signer sha key nonce j)
            (group_context_id sha group)
            min_stake
          ≡ err signature_rejected
    unfolding verify_credential sign sign_digest verify_presenter_signature
    rejected_stolen apart =
        let enough : ltb j.threshold min_stake ≡ false = rw same_threshold refl in
        let parses : ec.from_sec1_bytes j.presenter_pubkey ≡ some (signer.verifying_key key) =
          ap ec.from_sec1_bytes same_key ∙ signer.public_parses key in
        rw
          (
            received,
            context_passes,
            enough,
            parses,
            signer.signature_parses key (presenter_challenge_digest sha nonce j),
            apart,
          )
          refl

    pub decide-signed :
        Distinguishes sha signer key
          (presenter_challenge_digest sha nonce j)
          (presenter_challenge_digest sha fresh j)
        → decide sha ec zk attestation_id fresh (signed sha signer key {zk = zk} r j nonce)
          ≡ ok (record {
            journal = j;
            replay = err nullifier_reused;
            stolen = err (verify signature_rejected);
            under = err (verify threshold_too_low);
          })
    unfolding decide admit
    decide-signed apart =
        let g = new_roster group min_stake in
        let first = admit_verified-fresh g j (unfold contains in refl) in
        let again =
          admit_verified-spent (joined g j) j
            (unfold contains in rw (bytes_eq_refl j.nullifier) refl) in
        rw (accepted, first, accepted, again, rejected_stolen apart, rejected_under)
          (unfold admit_verified in refl)
