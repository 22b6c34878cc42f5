-- ===== src/Cli/Readers.antt =====
-- The commands of crates/cli/src/bin/attest.rs that only read: journal, sign-challenge, sign-digest,
-- gated-check-args and verify, by the lines that they print. A random nonce is an argument.
use lp_0005_private_token_ba.Prelude.{
  ℕ, List, [], ◌∷◌, ◌++◌, Bytes, String, codes, Option, some, none, Result, ok, err, map_err, ◌>>=◌,
}
use lp_0005_private_token_ba.Core.{PublicJournal}
use lp_0005_private_token_ba.Offchain.{verify_receipt, verify_credential}
use lp_0005_private_token_ba.Text.{trim, trim_0x, decimal}
use lp_0005_private_token_ba.Sdk.{sign, sign_digest}
use lp_0005_private_token_ba.Cli.{
  Platform, CliError, json_error, hex_error, key_error, journal_error, signature_not_hex,
  secret_length, digest_length, usage, verify_failed, json_macro_panic, context_id_from,
  bytes_as_csv, as_32_bytes, parse_nonce, load_presenter, load_receipt,
}

module _ (os : Platform) where
  unfoldable pub journal_lines : os.fs.State → os.fs.FilePath → Result CliError (List Bytes)
  journal_lines s credential = do
    receipt ← load_receipt os s credential
    journal ← map_err verify_failed (verify_receipt os.zk os.attestation_id receipt)
    threshold ← map_err json_macro_panic (os.json_text.number journal.threshold)
    let hex_text = λ (b : Bytes). os.json_text.text (os.hex.encode b)
    printed ← map_err json_error (
        os.json_text.to_string_pretty (
          os.json_text.object (
            (codes "merkle_root", hex_text journal.merkle_root)
            ∷ (codes "threshold", threshold)
            ∷ (codes "context_id", hex_text journal.context_id)
            ∷ (codes "presenter_pubkey", hex_text journal.presenter_pubkey)
            ∷ (codes "nullifier", hex_text journal.nullifier)
            ∷ [])))
    ok (printed ∷ [])

  -- The journal of a credential without a check of its receipt, and the nonce with its signature.
  unfoldable pub signed_challenge :
      os.fs.State
      → (credential presenter : os.fs.FilePath) (nonce : Bytes)
      → Result CliError (PublicJournal × Bytes × Bytes)
  signed_challenge s credential presenter nonce = do
    pk ← load_presenter os s presenter
    receipt ← load_receipt os s credential
    journal ← map_err journal_error (os.zk.decode_journal receipt)
    nonce_bytes ← parse_nonce os nonce
    ok (journal, nonce_bytes, sign os.signer os.sha pk nonce_bytes journal)

  unfoldable pub sign_challenge_lines :
      os.fs.State
      → (credential presenter : os.fs.FilePath) (nonce : Bytes) → Result CliError (List Bytes)
  sign_challenge_lines s credential presenter nonce = do
    (journal, nonce_bytes, signature) ← signed_challenge s credential presenter nonce
    ok (os.hex.encode signature ∷ [])

  unfoldable pub sign_digest_lines : (secret digest : Bytes) → Result CliError (List Bytes)
  sign_digest_lines secret digest = do
    secret_bytes ← map_err hex_error (os.hex.decode (trim_0x secret))
    sk ← as_32_bytes secret_length secret_bytes
    digest_bytes ← map_err hex_error (os.hex.decode (trim_0x digest))
    d ← as_32_bytes digest_length digest_bytes
    pk ← map_err key_error (os.key_from_bytes sk)
    ok (os.hex.encode (sign_digest os.signer pk d) ∷ [])

  unfoldable pub quoted : String → Bytes → Bytes
  quoted flag value = codes flag ++ (codes " '" ++ (value ++ codes "'"))

  unfoldable pub bare : String → Bytes → Bytes
  bare flag value = codes flag ++ (codes " " ++ value)

  unfoldable pub gated_check_args_lines :
      os.fs.State
      → (credential presenter : os.fs.FilePath) (context : Bytes) (threshold : ℕ) (nonce : Bytes)
      → Result CliError (List Bytes)
  gated_check_args_lines s credential presenter context threshold nonce = do
    (journal, nonce_bytes, signature) ← signed_challenge s credential presenter nonce
    let pubkey_csv = bytes_as_csv journal.presenter_pubkey
    let sig_csv = bytes_as_csv signature
    let expected_context = context_id_from os.sha context
    ok (
        quoted "--merkle-root" (os.hex.encode journal.merkle_root)
        ∷ bare "--threshold" (decimal journal.threshold)
        ∷ quoted "--context-id" (os.hex.encode journal.context_id)
        ∷ quoted "--presenter-pubkey" pubkey_csv
        ∷ quoted "--nullifier" (os.hex.encode journal.nullifier)
        ∷ quoted "--presenter-nonce" (os.hex.encode nonce_bytes)
        ∷ quoted "--presenter-signature-der" sig_csv
        ∷ quoted "--expected-context-id" (os.hex.encode expected_context)
        ∷ bare "--minimum-threshold" (decimal threshold)
        ∷ [])

  -- The nonce and the signature of `verify`: those given, or a random nonce signed here.
  unfoldable pub resolve :
      (random : Bytes)
      → os.fs.State
      → os.zk.Receipt
      → (nonce signature : Option Bytes) → Option os.fs.FilePath
      → Result CliError (Bytes × Bytes)
  resolve random s receipt (some n_hex) (some s_hex) presenter = do
    n ← parse_nonce os n_hex
    sig ← map_err signature_not_hex (os.hex.decode (trim s_hex))
    ok (n, sig)
  resolve random s receipt none none (some presenter_path) = do
    pk ← load_presenter os s presenter_path
    journal ← map_err verify_failed (verify_receipt os.zk os.attestation_id receipt)
    ok (random, sign os.signer os.sha pk random journal)
  resolve random s receipt none none none = err usage
  resolve random s receipt (some n_hex) none presenter = err usage
  resolve random s receipt none (some s_hex) presenter = err usage

  unfoldable pub verify_lines :
      (random : Bytes)
      → os.fs.State
      → (credential : os.fs.FilePath) (context : Bytes) (threshold : ℕ)
        (nonce signature : Option Bytes)
      → Option os.fs.FilePath
      → Result CliError (List Bytes)
  verify_lines random s credential context threshold nonce signature presenter = do
    receipt ← load_receipt os s credential
    (nonce_bytes, sig_bytes) ← resolve random s receipt nonce signature presenter
    let expected_context = context_id_from os.sha context
    journal ← map_err verify_failed (
        verify_credential os.zk os.attestation_id os.sha os.ec receipt nonce_bytes sig_bytes
          expected_context threshold)
    ok (
        codes "verified."
        ∷ (codes "threshold attested: " ++ decimal journal.threshold)
        ∷ (codes "context_id:         0x" ++ os.hex.encode journal.context_id)
        ∷ (codes "nullifier:          0x" ++ os.hex.encode journal.nullifier)
        ∷ [])
