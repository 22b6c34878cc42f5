-- ===== src/Gate/Skeleton.antt =====
-- crates/verifier-program-spel/src/lib.rs: the wrapper of check_gate as an instruction, a skeleton that
-- the workspace does not build.
use lp_0005_private_token_ba.Prelude.{
  ℕ, ◌≡◌, ◌↔◌, List, [], ◌∷◌, Bytes, replicate, Result, ok, map_err, ◌>>◌, refl, length,
  bind_inverse, map_err-ok,
}
use lp_0005_private_token_ba.Crypto.{Sha256, Ecdsa}
use lp_0005_private_token_ba.Core.{PublicJournal}
use lp_0005_private_token_ba.Circuit.{Lee}
use lp_0005_private_token_ba.Kernel.{GateError, GateInputs, check_gate}
use lp_0005_private_token_ba.Gate.{SpelOutput, GateArgs}
use lp_0005_private_token_ba.Gate.Shallow
use lp_0005_private_token_ba.Gate.Agreement.{shallow-check_gate, gate_inputs}
use lp_0005_private_token_ba.Gate.Deep.Acceptance.{journal_of}

-- `[0u32; 8]`, to be filled in.
abbrev pub skeleton_program_id : List ℕ
skeleton_program_id = replicate 8 0

-- The panic of `expect`.
pub data Expected : Type 0 where
  gate_check : GateError → Expected

module _ (sha : Sha256) (ec : Ecdsa) (lee : Lee) where
  abbrev pub inputs : PublicJournal → (nonce sig_der expected_context_id : Bytes) → ℕ → GateInputs
  inputs attested_journal presenter_nonce presenter_signature_der expected_context_id
        minimum_threshold =
      record {
        attested = attested_journal;
        expected_context_id = expected_context_id;
        minimum_threshold = minimum_threshold;
        challenge_nonce = presenter_nonce;
        presenter_signature_der = presenter_signature_der;
      }

  -- The presenter's account, and the call of the attestation program with the journal.
  abbrev pub output_of :
      lee.AccountWithMetadata → PublicJournal → SpelOutput lee lee.Account PublicJournal
  output_of presenter attested_journal = record {
    accounts = lee.account presenter ∷ [];
    chained =
        record { program_id = skeleton_program_id; pre_states = []; instruction = attested_journal }
        ∷ [];
  }

  unfoldable pub gated_check :
      lee.AccountWithMetadata
      → PublicJournal
      → (nonce sig_der expected_context_id : Bytes) → ℕ
      → Result Expected (SpelOutput lee lee.Account PublicJournal)
  gated_check presenter attested_journal presenter_nonce presenter_signature_der expected_context_id
        minimum_threshold =
      do
        map_err gate_check (
            check_gate sha ec (
              inputs attested_journal presenter_nonce presenter_signature_der expected_context_id
                minimum_threshold))
        ok (output_of presenter attested_journal)

  -- On arguments with a 33-byte key, the wrapper and the shallow guest return on the same ones.
  pub gated_check-shallow :
      (presenter : lee.AccountWithMetadata) (args : GateArgs)
      → length args.presenter_pubkey ≡ 33
      → ((out : SpelOutput lee lee.Account PublicJournal) × (gated_check presenter
              (journal_of args)
              args.presenter_nonce
              args.presenter_signature_der
              args.expected_context_id
              args.minimum_threshold
            ≡ ok out))
        ↔ ((out : SpelOutput lee lee.Account Bytes) × (Shallow.gated_check sha ec lee presenter args
              ≡ ok out))
  unfolding gated_check
  gated_check-shallow presenter args size = (
    λ (out, returned).
        let (_, passed, _) =
          bind_inverse (map_err gate_check (check_gate sha ec (gate_inputs args))) _ returned in
        let gate = map_err-ok gate_check (check_gate sha ec (gate_inputs args)) passed in
        (_, (shallow-check_gate sha ec lee presenter args _).1 (size, gate, refl)),
    λ (out, returned).
        let (_, gate, _) = (shallow-check_gate sha ec lee presenter args out).0 returned in
        (output_of presenter (journal_of args), rw gate refl),
  )
