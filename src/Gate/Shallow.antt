-- ===== src/Gate/Shallow.antt =====
-- guest-shallow/src/bin/attestation_verifier_shallow.rs: the gate without a chained call.
use lp_0005_private_token_ba.Prelude.{
  ℕ, [], ◌∷◌, Bytes, le_bytes, codes, length, Result, ok, ok_or, fail_if, ensure, ◌>>=◌, ◌>>◌,
  bytes_eq, ltb, ◌==◌, not,
}
use lp_0005_private_token_ba.Crypto.{Sha256, hash_parts, Ecdsa}
use lp_0005_private_token_ba.Circuit.{Lee}
use lp_0005_private_token_ba.Gate.{
  SpelError, custom, e_threshold_too_low, e_context_mismatch, e_bad_signature, e_bad_pubkey_len,
  SpelOutput, GateArgs,
}

module _ (sha : Sha256) where
  unfoldable pub presenter_challenge_digest : Bytes → Bytes → ℕ → Bytes → Bytes → Bytes → Bytes
  presenter_challenge_digest presenter_nonce merkle_root threshold context_id presenter_pubkey
        nullifier =
      hash_parts sha (
        codes "/lp-0005/v0.1/PresenterChallenge/"
        ∷ presenter_nonce
        ∷ merkle_root
        ∷ le_bytes 16 threshold
        ∷ context_id
        ∷ presenter_pubkey
        ∷ nullifier
        ∷ [])

unfoldable pub verify_presenter_signature :
    Ecdsa → Bytes → Bytes → Bytes → Result SpelError (Unit {0})
verify_presenter_signature ec digest presenter_pubkey signature_der = do
  let bad = custom e_bad_signature "bad presenter signature"
  pubkey ← ok_or (ec.from_sec1_bytes presenter_pubkey) bad
  signature ← ok_or (ec.from_der signature_der) bad
  ensure (ec.verify pubkey digest signature) bad

-- The instruction has no payload for a callee.
unfoldable pub gated_check :
    (sha : Sha256) (ec : Ecdsa) (lee : Lee)
    → lee.AccountWithMetadata
    → GateArgs
    → Result SpelError (SpelOutput lee lee.Account Bytes)
gated_check sha ec lee presenter args = do
  fail_if (not (bytes_eq args.context_id args.expected_context_id))
      (custom e_context_mismatch "context mismatch")
  fail_if (ltb args.threshold args.minimum_threshold)
      (custom e_threshold_too_low "threshold too low")
  fail_if (not (length args.presenter_pubkey == 33))
      (custom e_bad_pubkey_len "presenter_pubkey: expected 33-byte compressed secp256k1 key")
  let digest =
      presenter_challenge_digest sha args.presenter_nonce args.merkle_root args.threshold
        args.context_id args.presenter_pubkey args.nullifier
  verify_presenter_signature ec digest args.presenter_pubkey args.presenter_signature_der
  ok (record { accounts = lee.account presenter ∷ []; chained = [] })
