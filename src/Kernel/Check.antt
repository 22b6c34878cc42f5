-- ===== src/Kernel/Check.antt =====
-- check_gate of crates/verifier-program/src/lib.rs, branch by branch.
use lp_0005_private_token_ba.Prelude.{
  ◌≡◌, ◌≢◌, ◌≤◌, ◌<◌, ◌↔◌, Bytes, some, none, true, false, ok, err, arith, bytes_eq_iff,
}
use lp_0005_private_token_ba.Crypto.{Sha256, Ecdsa}
use lp_0005_private_token_ba.Core.{PublicJournal}
use lp_0005_private_token_ba.Kernel.{
  context_mismatch, threshold_too_low, invalid_pubkey, invalid_signature, signature_rejected,
  nullifier_already_used, GateInputs, presenter_challenge_digest, verify_presenter, check_gate,
}

-- A presenter's answer to a challenge: a parsed key, a parsed signature, and that it verifies.
abbrev pub Answers : Sha256 → Ecdsa → PublicJournal → Bytes → Bytes → Type 0
Answers sha ec j nonce sig_der =
    (vk : ec.VerifyingKey) × (sig : ec.Signature) × (ec.from_sec1_bytes j.presenter_pubkey
      ≡ some vk)
    × (ec.from_der sig_der ≡ some sig)
    × (ec.verify vk (presenter_challenge_digest sha nonce j) sig ≡ true)

-- Well-formed, but the signature does not verify.
abbrev pub Misanswers : Sha256 → Ecdsa → PublicJournal → Bytes → Bytes → Type 0
Misanswers sha ec j nonce sig_der =
    (vk : ec.VerifyingKey) × (sig : ec.Signature) × (ec.from_sec1_bytes j.presenter_pubkey
      ≡ some vk)
    × (ec.from_der sig_der ≡ some sig)
    × (ec.verify vk (presenter_challenge_digest sha nonce j) sig ≡ false)

module _ (sha : Sha256) (ec : Ecdsa) where
  -- `check_gate` accepts exactly where the context is the expected one, the attested threshold
  -- reaches the floor, and the presenter answers the challenge. A wrong context is reported first, a
  -- low threshold second, then a bad key, a bad encoding and a signature that does not verify, in
  -- this order; it never reports a used nullifier.
  pub check_gate_results :
      (g : GateInputs)
      → ((check_gate sha ec g ≡ ok tt) ↔ (
          (g.attested.context_id ≡ g.expected_context_id)
          × (g.minimum_threshold ≤ g.attested.threshold)
          × Answers sha ec g.attested g.challenge_nonce g.presenter_signature_der))
        × ((check_gate sha ec g ≡ err context_mismatch)
            ↔ (g.attested.context_id ≢ g.expected_context_id))
        × ((check_gate sha ec g ≡ err threshold_too_low) ↔ (
            (g.attested.context_id ≡ g.expected_context_id)
            × (g.attested.threshold < g.minimum_threshold)))
        × ((check_gate sha ec g ≡ err invalid_pubkey) ↔ (
            (g.attested.context_id ≡ g.expected_context_id)
            × (g.minimum_threshold ≤ g.attested.threshold)
            × (ec.from_sec1_bytes g.attested.presenter_pubkey ≡ none)))
        × ((check_gate sha ec g ≡ err invalid_signature) ↔ (
            (g.attested.context_id ≡ g.expected_context_id)
            × (g.minimum_threshold ≤ g.attested.threshold)
            × ((vk : ec.VerifyingKey) × (ec.from_sec1_bytes g.attested.presenter_pubkey ≡ some vk))
            × (ec.from_der g.presenter_signature_der ≡ none)))
        × ((check_gate sha ec g ≡ err signature_rejected) ↔ (
            (g.attested.context_id ≡ g.expected_context_id)
            × (g.minimum_threshold ≤ g.attested.threshold)
            × Misanswers sha ec g.attested g.challenge_nonce g.presenter_signature_der))
        × (check_gate sha ec g ≢ err nullifier_already_used)
  unfolding check_gate verify_presenter
  check_gate_results g = ground (arith, bytes_eq_iff g.attested.context_id g.expected_context_id)
