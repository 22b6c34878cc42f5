-- ===== src/Cli/Digest.antt =====
-- sign-digest of crates/cli/src/bin/attest.rs, beside the deep guest that checks its signature.
use lp_0005_private_token_ba.Prelude.{
  ℕ, ◌≡◌, refl, ap, ◌∙◌, [], ◌∷◌, Bytes, All, IsByte, length, ok,
}
use lp_0005_private_token_ba.Crypto.{hash_parts}
use lp_0005_private_token_ba.Gate.Deep
use lp_0005_private_token_ba.Text.{trim_0x}
use lp_0005_private_token_ba.Text.Trim.{trim_0x-digits}
use lp_0005_private_token_ba.Sdk.{sign_digest}
use lp_0005_private_token_ba.Cli.{Platform, Documented, secret_length, digest_length}
use lp_0005_private_token_ba.Cli.Files.{as_32_bytes-ok}
use lp_0005_private_token_ba.Cli.Readers.{sign_digest_lines}

module _ (os : Platform) (laws : Documented os) where
  -- For 32 secret bytes that are a key, and the digest of the deep guest for any nonce and fields:
  -- `sign-digest` on the two in hexadecimal, behind `0x` or not, prints one line; it is the hexadecimal text
  -- of a signature that the deep guest accepts for the key's public half.
  pub sign_digest_lines-verify_presenter_signature :
      (secret nonce root ctx nullifier digest : Bytes) (threshold : ℕ) (key : os.signer.SigningKey)
      → digest
        ≡ Deep.presenter_challenge_digest os.sha nonce root threshold ctx
            (os.signer.public key)
            nullifier
      → All IsByte digest
      → All IsByte secret
      → length secret ≡ 32
      → os.key_from_bytes secret ≡ ok key
      → (line : Bytes) × (sig : Bytes) × (sign_digest_lines os
            (os.hex.encode secret)
            (os.hex.encode digest)
          ≡ ok (line ∷ []))
        × (sign_digest_lines os
              (b'0' ∷ b'x' ∷ os.hex.encode secret)
              (b'0' ∷ b'x' ∷ os.hex.encode digest)
            ≡ ok (line ∷ []))
        × (os.hex.decode line ≡ ok sig)
        × (Deep.verify_presenter_signature os.ec digest (os.signer.public key) sig ≡ ok tt)
  unfolding sign_digest_lines sign_digest Deep.verify_presenter_signature
  sign_digest_lines-verify_presenter_signature secret nonce root ctx nullifier digest threshold key
        same digest_bytes secret_bytes secret_size valid =
      let digest_size : length digest ≡ 32 =
        unfold Deep.presenter_challenge_digest hash_parts in
        ap length same ∙ os.sha.length-digest _ in
      let secret_text = trim_0x-digits (os.hex.encode secret) (os.hex.encode-IsHexDigit secret) in
      let digest_text = trim_0x-digits (os.hex.encode digest) (os.hex.encode-IsHexDigit digest) in
      let secret_0x : trim_0x (b'0' ∷ b'x' ∷ os.hex.encode secret) ≡ os.hex.encode secret =
        unfold trim_0x in secret_text in
      let digest_0x : trim_0x (b'0' ∷ b'x' ∷ os.hex.encode digest) ≡ os.hex.encode digest =
        unfold trim_0x in digest_text in
      let secret_read = os.hex.decode_encode secret secret_bytes in
      let digest_read = os.hex.decode_encode digest digest_bytes in
      let sig = os.signer.sign_der key digest in
      (
        os.hex.encode sig,
        sig,
        rw
            (
              secret_text,
              digest_text,
              secret_read,
              digest_read,
              as_32_bytes-ok secret_length secret secret_size,
              as_32_bytes-ok digest_length digest digest_size,
              valid,
            )
            refl,
        rw
            (
              secret_0x,
              digest_0x,
              secret_read,
              digest_read,
              as_32_bytes-ok secret_length secret secret_size,
              as_32_bytes-ok digest_length digest digest_size,
              valid,
            )
            refl,
        os.hex.decode_encode sig (laws.signature_bytes key digest),
        rw
            (
              os.signer.public_parses key,
              os.signer.signature_parses key digest,
              os.signer.signature_verifies key digest,
            )
            refl,
      )
