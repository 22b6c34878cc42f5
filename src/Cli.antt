-- ===== src/Cli.antt =====
-- crates/cli/src/bin/attest.rs: what the commands stand on. The platform is a parameter: the files, the
-- crates that print and parse, and the prover. The helpers at the end of the file are here, the commands
-- below.
pub mod Readers
pub mod Commands
pub mod Files
pub mod Session
pub mod EndToEnd
pub mod Flags
pub mod Verified
pub mod Journal
pub mod Digest
use lp_0005_private_token_ba.Prelude.{
  ℕ, List, [], ◌∷◌, ◌++◌, map, Bytes, String, codes, Option, some, none, length, ◌==◌, ◌≡◌, ◌≢◌,
  ◌≤◌, All, IsByte, ByteMap, lookup, Result, ok, err, ok_or, map_err, ensure, ◌>>=◌, ◌>>◌,
}
use lp_0005_private_token_ba.Crypto.{Sha256, hash_parts, Ecdsa, Signer}
use lp_0005_private_token_ba.Offchain.{Risc0, VerifyError}
use lp_0005_private_token_ba.Json.{Json, value_get}
use lp_0005_private_token_ba.Text.{Hex, trim, decimal, join}
use lp_0005_private_token_ba.Sdk.{Prover}
use lp_0005_private_token_ba.Sdk.Errors.{ErrorText, ProveError}

-- `std::fs`, with the state of the files passed along.
pub record FileSystem : Type 1 where
  pub State : Type 0
  pub FilePath : Type 0
  pub display : FilePath → Bytes
  pub read : State → FilePath → Result String Bytes
  pub write : State → FilePath → Bytes → Result String State
  pub from_utf8 : Bytes → Result String Bytes

-- The printer and the parser of `serde_json`, and what `json!` makes of an object, a text and a `u128`.
pub record JsonText (json : Json) : Type 0 where
  pub from_str : Bytes → Result String json.Value
  pub to_string_pretty : json.Value → Result String Bytes
  pub object : ByteMap json.Value → json.Value
  pub text : Bytes → json.Value
  pub number : ℕ → Result String json.Value

-- `bincode`, at a receipt.
pub record ReceiptCodec (zk : Risc0) : Type 0 where
  pub encode_to_vec : zk.Receipt → Result String Bytes
  pub decode_from_slice : Bytes → Result String (zk.Receipt × ℕ)

pub record Platform : Type 1 where
  pub sha : Sha256
  pub ec : Ecdsa
  pub signer : Signer ec
  -- `PresenterKey::from_bytes`, whose range check is that of `k256`.
  pub key_from_bytes : Bytes → Result String signer.SigningKey
  pub hex : Hex
  pub json : Json
  pub json_text : JsonText json
  pub fs : FileSystem
  pub zk : Risc0
  pub codec : ReceiptCodec zk
  pub prover : Prover zk
  pub error_text : ErrorText
  pub attestation_id : List ℕ

-- What the crates document of the platform.
pub record Documented (os : Platform) : Type 0 where
  pub read_write :
      (s s' : os.fs.State) (p : os.fs.FilePath) (b : Bytes)
      → os.fs.write s p b ≡ ok s'
      → os.fs.read s' p ≡ ok b
  pub read_other :
      (s s' : os.fs.State) (p q : os.fs.FilePath) (b : Bytes)
      → p ≢ q
      → os.fs.write s p b ≡ ok s'
      → os.fs.read s' q ≡ os.fs.read s q
  pub print_parse :
      (v : os.json.Value)
      → (t : Bytes) × (os.json_text.to_string_pretty v ≡ ok t)
        × (os.fs.from_utf8 t ≡ ok t)
        × (os.json_text.from_str t ≡ ok v)
  pub object_get :
      (m : ByteMap os.json.Value) (key : Bytes)
      → value_get os.json (os.json_text.object m) key ≡ lookup m key
  pub text_as_str : (s : Bytes) → os.json.as_str (os.json_text.text s) ≡ some s
  pub receipt_roundtrip :
      (r : os.zk.Receipt) (b : Bytes)
      → os.codec.encode_to_vec r ≡ ok b
      → (n : ℕ) × (os.codec.decode_from_slice b ≡ ok (r, n))
  pub signature_length :
      (sk : os.signer.SigningKey) (d : Bytes) → 8 ≤ length (os.signer.sign_der sk d)
  pub signature_bytes :
      (sk : os.signer.SigningKey) (d : Bytes) → All IsByte (os.signer.sign_der sk d)

pub data CliError : Type 0 where
  reading : (path : Bytes) → String → CliError
  io json_error hex_error key_error encode_error decode_error journal_error : String → CliError
  nonce_not_hex signature_not_hex : String → CliError
  missing_secret_hex bad_sk_length nonce_length secret_length digest_length usage : CliError
  prove_failed : ProveError → CliError
  verify_failed : VerifyError → CliError
  json_macro_panic : String → CliError

abbrev pub tree_depth : ℕ
tree_depth = 5

unfoldable pub context_id_from : Sha256 → Bytes → Bytes
context_id_from sha s = hash_parts sha (codes "/lp-0005/v0.1/context/" ∷ s ∷ [])

unfoldable pub sha256 : Sha256 → Bytes → Bytes
sha256 sha b = hash_parts sha (b ∷ [])

unfoldable pub bytes_as_csv : Bytes → Bytes
bytes_as_csv bytes = join (map decimal bytes)

-- `try_into` of a slice at 32 bytes.
abbrev pub as_32_bytes : CliError → Bytes → Result CliError Bytes
as_32_bytes e bytes = ensure (length bytes == 32) e >> ok bytes

module _ (os : Platform) where
  unfoldable pub parse_nonce : Bytes → Result CliError Bytes
  parse_nonce hex_in = do
    bytes ← map_err nonce_not_hex (os.hex.decode (trim hex_in))
    as_32_bytes nonce_length bytes

  -- `v[key]`, which is `null` where there is none.
  abbrev pub or_null : Option os.json.Value → os.json.Value
  or_null none = os.json.null
  or_null (some v) = v

  unfoldable pub index_value : os.json.Value → Bytes → os.json.Value
  index_value v key = or_null (value_get os.json v key)

  abbrev pub read_to_string : os.fs.State → os.fs.FilePath → Result String Bytes
  read_to_string s path = os.fs.read s path >>= os.fs.from_utf8

  unfoldable pub load_presenter :
      os.fs.State → os.fs.FilePath → Result CliError os.signer.SigningKey
  load_presenter s path = do
    raw ← map_err (reading (os.fs.display path)) (read_to_string s path)
    v ← map_err json_error (os.json_text.from_str raw)
    hex_sk ← ok_or (os.json.as_str (index_value v (codes "secret_hex"))) missing_secret_hex
    decoded ← map_err hex_error (os.hex.decode hex_sk)
    bytes ← as_32_bytes bad_sk_length decoded
    map_err key_error (os.key_from_bytes bytes)

  -- A credential's file, decoded.
  unfoldable pub load_receipt : os.fs.State → os.fs.FilePath → Result CliError os.zk.Receipt
  load_receipt s path = do
    bytes ← map_err io (os.fs.read s path)
    (receipt, read) ← map_err decode_error (os.codec.decode_from_slice bytes)
    ok receipt
