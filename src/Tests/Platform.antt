-- ===== src/Tests/Platform.antt =====
-- A platform for the command line at concrete functions: files as a map, texts of hexadecimal digits,
-- and JSON values that are their own printed texts.
use lp_0005_private_token_ba.Prelude.{
  ltb, if◌then◌else◌, ◌^◌, err, ℕ, suc, ◌%◌, ◌≡◌, ◌≢◌, ◌≤◌, refl, ap, sym, ◌∙◌, [], ◌∷◌, ◌++◌,
  Bytes, All, IsByte, codes, false, bytes_eq, bytes_eq_refl, ne_bytes_eq, le_bytes, length-le_bytes,
  length-append, length, ByteMap, lookup, put, lookup-put, some, none, ok, ok_or, arith,
}
use lp_0005_private_token_ba.Crypto.{Ecdsa, Signer}
use lp_0005_private_token_ba.Core.{PublicJournal}
use lp_0005_private_token_ba.Json.{Json}
use lp_0005_private_token_ba.Cli.{FileSystem, JsonText, ReceiptCodec, Platform, Documented}
use lp_0005_private_token_ba.Tests.Fixtures.{test_sha, test_risc0}
use lp_0005_private_token_ba.Tests.Client.{test_prover}
use lp_0005_private_token_ba.Tests.Texts.{
  test_hex, put_text, take_text, take_text-put_text, put_fields, count, take_fields-put_fields,
  object_fields,
}

abbrev pub test_json : Json
test_json = record {
  Value = Bytes;
  Object = ByteMap Bytes;
  as_object = λ v. some (object_fields v);
  get = λ o k. lookup o k;
  as_u64 = λ v. none;
  as_str = λ v. some v;
  as_array = λ v. none;
  null = [];
  is_null = λ v. false;
}

abbrev pub object_of : ByteMap Bytes → Bytes
object_of fields = count fields ∷ put_fields fields

abbrev pub test_json_text : JsonText test_json
test_json_text = record {
  from_str = λ t. ok t;
  to_string_pretty = λ v. ok v;
  object = object_of;
  text = λ s. s;
  number = λ n. if ltb n (2 ^ 64) then ok (n ∷ []) else err "number out of range";
}

abbrev pub test_fs : FileSystem
test_fs = record {
  State = ByteMap Bytes;
  FilePath = Bytes;
  display = λ p. p;
  read = λ s p. ok_or (lookup s p) "no such file";
  write = λ s p b. ok (put s p b);
  from_utf8 = λ b. ok b;
}

-- A signature is the key and the digest, as bytes.
abbrev pub bytes_of : Bytes → Bytes
bytes_of [] = []
bytes_of (x ∷ xs) = (x % 256) ∷ bytes_of xs

abbrev pub sign_bytes : ℕ → Bytes → Bytes
sign_bytes sk d = bytes_of (le_bytes 33 sk ++ d)

abbrev pub cli_ecdsa : Ecdsa
cli_ecdsa = record {
  VerifyingKey = Bytes;
  Signature = Bytes;
  from_sec1_bytes = λ b. some b;
  from_der = λ b. some b;
  verify = λ vk d sig. bytes_eq sig (bytes_of (vk ++ d));
}

abbrev pub cli_signer : Signer cli_ecdsa
cli_signer = record {
  SigningKey = ℕ;
  public = λ sk. le_bytes 33 sk;
  sign_der = sign_bytes;
  length-public = λ sk. length-le_bytes 33 sk;
  verifying_key = λ sk. le_bytes 33 sk;
  signature = sign_bytes;
  public_parses = λ sk. refl;
  signature_parses = λ sk d. refl;
  signature_verifies = λ sk d. bytes_eq_refl (sign_bytes sk d);
}

pub bytes_of-IsByte : (b : Bytes) → All IsByte (bytes_of b)
bytes_of-IsByte [] = tt
bytes_of-IsByte (x ∷ xs) = (omega arith, bytes_of-IsByte xs)

length-bytes_of : (b : Bytes) → length (bytes_of b) ≡ length b
length-bytes_of [] = refl
length-bytes_of (x ∷ xs) = ap suc (length-bytes_of xs)

abbrev pub put_journal : PublicJournal → Bytes
put_journal j = put_text j.merkle_root (
    put_text (j.threshold ∷ [])
      (put_text j.context_id (put_text j.presenter_pubkey (put_text j.nullifier []))))

abbrev pub first_number : Bytes → ℕ
first_number [] = 0
first_number (n ∷ ns) = n

abbrev pub take_journal : Bytes → PublicJournal
take_journal b =
    let root = take_text b in
    let threshold = take_text root.1 in
    let context = take_text threshold.1 in
    let pubkey = take_text context.1 in
    let nullifier = take_text pubkey.1 in
    record {
      merkle_root = root.0;
      threshold = first_number threshold.0;
      context_id = context.0;
      presenter_pubkey = pubkey.0;
      nullifier = nullifier.0;
    }

abbrev pub test_codec : ReceiptCodec test_risc0
test_codec = record {
  encode_to_vec = λ j. ok (put_journal j);
  decode_from_slice = λ b. ok (take_journal b, 0);
}

take_journal-put_journal : (j : PublicJournal) → take_journal (put_journal j) ≡ j
take_journal-put_journal j =
    let last = put_text j.nullifier [] in
    let pubkey = put_text j.presenter_pubkey last in
    let context = put_text j.context_id pubkey in
    let threshold = put_text (j.threshold ∷ []) context in
    rw
      (
        take_text-put_text j.merkle_root threshold,
        take_text-put_text j.context_id pubkey,
        take_text-put_text j.presenter_pubkey last,
        take_text-put_text j.nullifier [],
      )
      refl

abbrev pub os : Platform
os = record {
  sha = test_sha;
  ec = cli_ecdsa;
  signer = cli_signer;
  key_from_bytes = λ b. ok (first_number b);
  hex = test_hex;
  json = test_json;
  json_text = test_json_text;
  fs = test_fs;
  zk = test_risc0;
  codec = test_codec;
  prover = test_prover;
  error_text = record { alternate = λ e. codes e; to_lowercase = λ b. b };
  attestation_id = 5 ∷ [];
}

read_write :
    (s s' : ByteMap Bytes) (p b : Bytes) → test_fs.write s p b ≡ ok s' → test_fs.read s' p ≡ ok b
read_write s s' p b written =
    let same : put s p b ≡ s' = cc written in
    let found : lookup (put s p b) p ≡ some b = lookup-put s p p b ∙ rw (bytes_eq_refl p) refl in
    rw (sym same, found) refl

read_other :
    (s s' : ByteMap Bytes) (p q b : Bytes)
    → p ≢ q
    → test_fs.write s p b ≡ ok s'
    → test_fs.read s' q ≡ test_fs.read s q
read_other s s' p q b apart written =
    let same : put s p b ≡ s' = cc written in
    let found : lookup (put s p b) q ≡ lookup s q =
      lookup-put s p q b ∙ rw (ne_bytes_eq p q apart) refl in
    rw (sym same, found) refl

receipt_roundtrip :
    (r : PublicJournal) (b : Bytes)
    → test_codec.encode_to_vec r ≡ ok b
    → (n : ℕ) × (test_codec.decode_from_slice b ≡ ok (r, n))
receipt_roundtrip r b encoded =
    let same : put_journal r ≡ b = cc encoded in
    (0, rw (sym same) (ap (λ j. ok (j, 0)) (take_journal-put_journal r)))

signature_length : (sk : ℕ) (d : Bytes) → 8 ≤ length (sign_bytes sk d)
signature_length sk d = omega (
  arith,
  length-bytes_of (le_bytes 33 sk ++ d),
  length-append (le_bytes 33 sk) d,
  length-le_bytes 33 sk,
)

pub os-Documented : Documented os
os-Documented = record {
  read_write = read_write;
  read_other = read_other;
  print_parse = λ v. (v, refl, refl, refl);
  object_get = λ m key. ap (λ fields. lookup fields key) (take_fields-put_fields m);
  text_as_str = λ s. refl;
  receipt_roundtrip = receipt_roundtrip;
  signature_length = signature_length;
  signature_bytes = λ sk d. bytes_of-IsByte (le_bytes 33 sk ++ d);
}
