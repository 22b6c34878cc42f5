-- ===== src/Cli/Files.antt =====
-- The files that the commands of crates/cli/src/bin/attest.rs write, read back by the helpers.
use lp_0005_private_token_ba.Prelude.{
  ◌≡◌, ◌≢◌, refl, [], ◌∷◌, Bytes, codes, All, IsByte, length, ==_iff, ByteMap, lookup, some, ok,
  bytes_eq,
}
use lp_0005_private_token_ba.Text.Trim.{trim-digits}
use lp_0005_private_token_ba.Cli.{
  Platform, Documented, CliError, bad_sk_length, as_32_bytes, parse_nonce, index_value,
  load_presenter, load_receipt,
}
use lp_0005_private_token_ba.Cli.Commands.{keygen_cmd}

pub as_32_bytes-ok : (e : CliError) (b : Bytes) → length b ≡ 32 → as_32_bytes e b ≡ ok b
as_32_bytes-ok e b size = rw ((==_iff (length b) 32).1 size) refl

module _ (os : Platform) (laws : Documented os) where
  -- Whatever is written, the file takes it.
  abbrev pub Writable : os.fs.State → os.fs.FilePath → Type 0
  Writable s p = (b : Bytes) → (s' : os.fs.State) × (os.fs.write s p b ≡ ok s')

  pub parse_nonce-encode :
      (nonce : Bytes)
      → All IsByte nonce
      → length nonce ≡ 32
      → parse_nonce os (os.hex.encode nonce) ≡ ok nonce
  unfolding parse_nonce
  parse_nonce-encode nonce range size =
      rw
        (
          trim-digits (os.hex.encode nonce) (os.hex.encode-IsHexDigit nonce),
          os.hex.decode_encode nonce range,
        )
        (as_32_bytes-ok _ nonce size)

  pub load_receipt_written :
      (s s' : os.fs.State) (p : os.fs.FilePath) (r : os.zk.Receipt) (b : Bytes)
      → os.codec.encode_to_vec r ≡ ok b
      → os.fs.write s p b ≡ ok s'
      → load_receipt os s' p ≡ ok r
  unfolding load_receipt
  load_receipt_written s s' p r b encoded written =
      let (n, decoded) = laws.receipt_roundtrip r b encoded in
      rw (laws.read_write s s' p b written, decoded) refl

  -- A file that another write leaves alone.
  pub load_presenter_other :
      (s s' : os.fs.State) (p q : os.fs.FilePath) (b : Bytes)
      → p ≢ q
      → os.fs.write s p b ≡ ok s'
      → load_presenter os s' q ≡ load_presenter os s q
  unfolding load_presenter
  load_presenter_other s s' p q b apart written = rw (laws.read_other s s' p q b apart written) refl

  load_presenter_parsed :
      (s : os.fs.State) (p : os.fs.FilePath) (key : os.signer.SigningKey) (t secret bytes : Bytes)
      (v : os.json.Value)
      → os.fs.read s p ≡ ok t
      → (os.fs.from_utf8 t ≡ ok t) × (os.json_text.from_str t ≡ ok v)
      → os.json.as_str (index_value os v (codes "secret_hex")) ≡ some secret
      → os.hex.decode secret ≡ ok bytes
      → length bytes ≡ 32
      → os.key_from_bytes bytes ≡ ok key
      → load_presenter os s p ≡ ok key
  unfolding load_presenter
  load_presenter_parsed s p key t secret bytes v found (utf8, parsed) field decoded size valid =
      rw (found, utf8, parsed, field, decoded, as_32_bytes-ok bad_sk_length bytes size, valid) refl

  pub index_value-text :
      (m : ByteMap os.json.Value) (key value : Bytes)
      → lookup m key ≡ some (os.json_text.text value)
      → os.json.as_str (index_value os (os.json_text.object m) key) ≡ some value
  unfolding index_value
  index_value-text m key value found = rw (laws.object_get m key, found) (laws.text_as_str value)

  -- A key that `keygen` writes, from 32 random bytes in the curve's range, is the one that the other
  -- commands load from its file, where the file can be written.
  pub keygen_cmd-load_presenter :
      (random : Bytes) (s : os.fs.State) (out : os.fs.FilePath) (key : os.signer.SigningKey)
      → All IsByte random
      → length random ≡ 32
      → os.key_from_bytes random ≡ ok key
      → Writable s out
      → ((keygen_cmd os random s out).outcome ≡ ok tt)
        × (load_presenter os (keygen_cmd os random s out).files out ≡ ok key)
  unfolding keygen_cmd bytes_eq
  keygen_cmd-load_presenter random s out key range size valid writable =
      let hex_text = λ (b : Bytes). os.json_text.text (os.hex.encode b) in
      let fields : ByteMap os.json.Value =
        (codes "secret_hex", hex_text random)
        ∷ (codes "public_hex", hex_text (os.signer.public key))
        ∷ [] in
      let (t, printed, utf8, parsed) = laws.print_parse (os.json_text.object fields) in
      let (s', written) = writable t in
      let field =
        index_value-text fields (codes "secret_hex") (os.hex.encode random)
          (unfold lookup in refl) in
      (
        rw (valid, printed, written) refl,
        rw (valid, printed, written)
            (load_presenter_parsed s' out key t (os.hex.encode random) random
              (os.json_text.object fields) (laws.read_write s s' out t written) (utf8, parsed) field
              (os.hex.decode_encode random range) size valid),
      )
