-- ===== src/Crypto/Primitives.antt =====
-- The cryptographic crates the program calls, as interfaces: `sha2` and `k256`.
-- Nothing is assumed of the hash function but the length of its output. Where the program relies
-- on collision resistance, a theorem concludes with a collision as its other case.
use lp_0005_private_token_ba.Prelude.{
  Bytes, Bool, Option, some, true, List, concat, length, ◌≡◌, ◌≢◌,
}

-- `sha2::Sha256`: 32 bytes out of any input.
pub record Sha256 : Type 0 where
  pub digest : Bytes → Bytes
  pub length-digest : (b : Bytes) → length (digest b) ≡ 32

-- `Sha256::new()`, one `update` for each part, and `finalize`: the digest of the concatenation.
unfoldable pub hash_parts : Sha256 → List Bytes → Bytes
hash_parts sha parts = sha.digest (concat parts)

-- Two inputs with the same digest.
abbrev pub Collision : Sha256 → Type 0
Collision sha = (x : Bytes) × (y : Bytes) × (x ≢ y) × (sha.digest x ≡ sha.digest y)

-- `k256::ecdsa`: the parsers of keys and signatures, and the check of a signature.
pub record Ecdsa : Type 1 where
  pub VerifyingKey : Type 0
  pub Signature : Type 0
  pub from_sec1_bytes : Bytes → Option VerifyingKey
  pub from_der : Bytes → Option Signature
  pub verify : VerifyingKey → Bytes → Signature → Bool

-- The signing half of `k256::ecdsa`, with its documented behaviour: a public key and a signature
-- parse back, and a signature verifies under the key that made it.
pub record Signer (ec : Ecdsa) : Type 1 where
  pub SigningKey : Type 0
  pub public : SigningKey → Bytes
  pub sign_der : SigningKey → Bytes → Bytes
  pub length-public : (sk : SigningKey) → length (public sk) ≡ 33
  pub verifying_key : SigningKey → ec.VerifyingKey
  pub signature : SigningKey → Bytes → ec.Signature
  pub public_parses : (sk : SigningKey) → ec.from_sec1_bytes (public sk) ≡ some (verifying_key sk)
  pub signature_parses :
      (sk : SigningKey) (d : Bytes) → ec.from_der (sign_der sk d) ≡ some (signature sk d)
  pub signature_verifies :
      (sk : SigningKey) (d : Bytes) → ec.verify (verifying_key sk) d (signature sk d) ≡ true
