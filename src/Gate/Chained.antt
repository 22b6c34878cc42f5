-- ===== src/Gate/Chained.antt =====
-- guest/src/bin/attestation_verifier.rs (v2): the gate that declares a chained call on the journal's
-- bytes, and signs a digest of its own.
use lp_0005_private_token_ba.Prelude.{
  ℕ, List, [], ◌∷◌, ◌++◌, Bytes, le_bytes, length, Result, ok, ok_or, fail_if, ensure, ◌>>=◌, ◌>>◌,
  bytes_eq, ltb, ◌==◌, not,
}
use lp_0005_private_token_ba.Crypto.{Sha256, Ecdsa}
use lp_0005_private_token_ba.Circuit.{Lee}
use lp_0005_private_token_ba.Gate.{
  SpelError, custom, e_threshold_too_low, e_context_mismatch, e_bad_signature, e_bad_pubkey_len,
  SpelOutput, GateArgs,
}

abbrev pub attestation_program_id : List ℕ
attestation_program_id =
    2483799259 ∷ 2922882797 ∷ 876186261 ∷ 293393208 ∷ 1395530467 ∷ 1389967705 ∷ 1615301448
    ∷ 1302162100 ∷ []

unfoldable pub canonical_journal_bytes : Bytes → ℕ → Bytes → Bytes → Bytes → Bytes
canonical_journal_bytes merkle_root threshold context_id presenter_pubkey nullifier =
    merkle_root ++ (le_bytes 16 threshold ++ (context_id ++ (presenter_pubkey ++ nullifier)))

-- The digest that the presenter signs here: of the nonce and the hash of the journal's bytes.
unfoldable pub challenge_digest : Sha256 → Bytes → Bytes → Bytes
challenge_digest sha presenter_nonce journal_bytes =
    sha.digest (presenter_nonce ++ sha.digest journal_bytes)

unfoldable pub verify_presenter_signature :
    Sha256 → Ecdsa → Bytes → Bytes → Bytes → Bytes → Result SpelError (Unit {0})
verify_presenter_signature sha ec journal_bytes presenter_pubkey presenter_nonce signature_der = do
  let bad = custom e_bad_signature "bad presenter signature"
  let digest = challenge_digest sha presenter_nonce journal_bytes
  pubkey ← ok_or (ec.from_sec1_bytes presenter_pubkey) bad
  signature ← ok_or (ec.from_der signature_der) bad
  ensure (ec.verify pubkey digest signature) bad

unfoldable pub gated_check :
    (sha : Sha256) (ec : Ecdsa) (lee : Lee)
    → lee.AccountWithMetadata
    → GateArgs
    → Result SpelError (SpelOutput lee lee.Account Bytes)
gated_check sha ec lee presenter args = do
  fail_if (not (bytes_eq args.context_id args.expected_context_id))
      (custom e_context_mismatch "context mismatch")
  fail_if (ltb args.threshold args.minimum_threshold)
      (custom e_threshold_too_low "threshold too low")
  fail_if (not (length args.presenter_pubkey == 33))
      (custom e_bad_pubkey_len "presenter_pubkey: expected 33-byte compressed secp256k1 key")
  let journal_bytes =
      canonical_journal_bytes args.merkle_root args.threshold args.context_id args.presenter_pubkey
        args.nullifier
  verify_presenter_signature sha ec journal_bytes args.presenter_pubkey args.presenter_nonce
      args.presenter_signature_der
  ok (record {
    accounts = lee.account presenter ∷ [];
    chained =
        record { program_id = attestation_program_id; pre_states = []; instruction = journal_bytes }
        ∷ [];
  })
