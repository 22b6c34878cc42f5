-- ===== src/Services/Elsewhere.antt =====
-- verify_credential of crates/verifier-offchain/src/lib.rs: a credential of one service, checked for
-- another.
use lp_0005_private_token_ba.Prelude.{
  ℕ, ◌≡◌, ◌⊎◌, inl, inr, refl, sym, ◌∙◌, List, Bytes, bytes_eq, bytes_eq_cases, ne_bytes_eq, false,
  ok, err,
}
use lp_0005_private_token_ba.Crypto.{Sha256, Ecdsa}
use lp_0005_private_token_ba.Core.{PublicJournal}
use lp_0005_private_token_ba.Offchain.{Risc0, context_mismatch, verify_credential, verify_receipt}
use lp_0005_private_token_ba.Offchain.Results.{verify_credential-ok, verify_receipt-ok}
use lp_0005_private_token_ba.Services.{Service, service_context, Broken}
use lp_0005_private_token_ba.Services.Contexts.{service_context-injective}

module _ (sha : Sha256) (ec : Ecdsa) (zk : Risc0) (attestation_id : List ℕ) where
  -- The receipt is genuine, and its journal is of the service's context.
  pub record IssuedFor (s : Service) (r : zk.Receipt) (j : PublicJournal) : Type 0 where
    pub genuine : verify_receipt zk attestation_id r ≡ ok j
    pub in_context : j.context_id ≡ service_context sha s

  -- A credential that a service accepts was issued for it.
  pub accepted-IssuedFor :
      (s : Service) (r : zk.Receipt) (nonce sig_der : Bytes) (floor : ℕ) (j : PublicJournal)
      → verify_credential zk attestation_id sha ec r nonce sig_der (service_context sha s) floor
        ≡ ok j
      → IssuedFor s r j
  accepted-IssuedFor s r nonce sig_der floor j accepted =
      let (verified, decoded, context, reaches, answered) =
        (verify_credential-ok zk attestation_id sha ec r nonce sig_der (service_context sha s) floor
            j).0
          accepted in
      record {
        genuine = (verify_receipt-ok zk attestation_id r j).1 (verified, decoded);
        in_context = context;
      }

  -- The journal's context is another than the service's, or the services are one, or the hash is
  -- broken.
  pub other_context :
      (s s' : Service) (r : zk.Receipt) (j : PublicJournal)
      → IssuedFor s r j
      → (bytes_eq j.context_id (service_context sha s') ≡ false) ⊎ (s ≡ s') ⊎ Broken sha
  other_context s s' r j issued = elim (bytes_eq_cases j.context_id (service_context sha s')) [
    | inl same ↦ inr (service_context-injective sha s s' (sym issued.in_context ∙ same))
    | inr differ ↦ inl (ne_bytes_eq j.context_id (service_context sha s') differ)
  ]

  verify_credential-mismatch :
      (r : zk.Receipt) (nonce sig_der ctx : Bytes) (floor : ℕ) (j : PublicJournal)
      → verify_receipt zk attestation_id r ≡ ok j
      → bytes_eq j.context_id ctx ≡ false
      → verify_credential zk attestation_id sha ec r nonce sig_der ctx floor ≡ err context_mismatch
  unfolding verify_credential
  verify_credential-mismatch r nonce sig_der ctx floor j genuine differ = rw (genuine, differ) refl

  -- Whatever the nonce, the signature and the floor, a credential issued for one service is refused for
  -- its context at every other, unless the hash is broken.
  pub verify_credential-elsewhere :
      (s s' : Service) (r : zk.Receipt) (j : PublicJournal) (nonce sig_der : Bytes) (floor : ℕ)
      → IssuedFor s r j
      → (verify_credential zk attestation_id sha ec r nonce sig_der (service_context sha s') floor
          ≡ err context_mismatch)
        ⊎ (s ≡ s')
        ⊎ Broken sha
  verify_credential-elsewhere s s' r j nonce sig_der floor issued =
      elim (other_context s s' r j issued) [
        | inl differ ↦ inl (
            verify_credential-mismatch r nonce sig_der (service_context sha s') floor j
              issued.genuine differ)
        | inr rest ↦ inr rest
      ]
