-- ===== src/Nostr/Reply.antt =====
-- verify_nip42_with_lp0005 of integrations/nostr-auth-gate/src/lib.rs, and its contexts.
use lp_0005_private_token_ba.Prelude.{
  ℕ, ◌≡◌, ◌↔◌, ◌⊎◌, refl, List, Bytes, length, ok, map_err, arith,
}
use lp_0005_private_token_ba.Crypto.{Sha256, Ecdsa, Collision, hash_parts-binding, or_collision_map}
use lp_0005_private_token_ba.Core.{PublicJournal}
use lp_0005_private_token_ba.Offchain.{Risc0, verify_credential}
use lp_0005_private_token_ba.Nostr.{
  Lp0005AuthTag, Decoders, verify, context_id_for_relay, verify_nip42_with_lp0005,
}

-- The three texts of a tag decode to a receipt, a nonce of 32 bytes and a signature.
pub record Carries (zk : Risc0) (decoders : Decoders zk) (tag : Lp0005AuthTag) (r : zk.Receipt)
    (nonce sig_der : Bytes) : Type 0 where
  pub blob : Bytes
  pub credential : decoders.base64_decode tag.credential_b64 ≡ ok blob
  pub receipt : decoders.receipt_decode blob ≡ ok r
  pub nonce_read : decoders.hex_decode tag.nonce_hex ≡ ok nonce
  pub nonce_length : length nonce ≡ 32
  pub signature_read : decoders.hex_decode tag.signature_hex ≡ ok sig_der

-- A client's encoders of base64, bincode and hex: the relay's decoders read back what they write.
pub record Encoders (zk : Risc0) (decoders : Decoders zk) : Type 0 where
  pub tag_of : zk.Receipt → Bytes → Bytes → Lp0005AuthTag
  pub reads_back :
      (r : zk.Receipt) (nonce sig_der : Bytes)
      → length nonce ≡ 32
      → Carries zk decoders (tag_of r nonce sig_der) r nonce sig_der

module _ (sha : Sha256) (ec : Ecdsa) (zk : Risc0) (attestation_id : List ℕ)
    (decoders : Decoders zk) where
  -- A reply is honoured exactly where its three texts decode, the nonce to 32 bytes, and the
  -- credential they hold is accepted in the relay's context at the relay's floor; the journal is the
  -- credential's.
  pub verify_nip42_iff :
      (tag : Lp0005AuthTag) (relay : Bytes) (floor : ℕ) (j : PublicJournal)
      → (verify_nip42_with_lp0005 sha ec zk attestation_id decoders tag relay floor ≡ ok j) ↔ (
          (blob : Bytes) × (receipt : zk.Receipt) × (nonce : Bytes) × (sig : Bytes)
          × (decoders.base64_decode tag.credential_b64 ≡ ok blob)
          × (decoders.receipt_decode blob ≡ ok receipt)
          × (decoders.hex_decode tag.nonce_hex ≡ ok nonce)
          × (length nonce ≡ 32)
          × (decoders.hex_decode tag.signature_hex ≡ ok sig)
          × (verify_credential zk attestation_id sha ec receipt nonce sig
                (context_id_for_relay sha relay)
                floor
              ≡ ok j))
  unfolding verify_nip42_with_lp0005
  verify_nip42_iff tag relay floor j = ground arith

module _ (sha : Sha256) (ec : Ecdsa) (zk : Risc0) (attestation_id : List ℕ)
    (decoders : Decoders zk) where
  -- A tag is judged by the credential that it carries.
  pub verify_nip42-Carries :
      (tag : Lp0005AuthTag) (r : zk.Receipt) (nonce sig_der relay : Bytes) (floor : ℕ)
      → Carries zk decoders tag r nonce sig_der
      → verify_nip42_with_lp0005 sha ec zk attestation_id decoders tag relay floor
        ≡ map_err verify (
            verify_credential zk attestation_id sha ec r nonce sig_der
              (context_id_for_relay sha relay)
              floor)
  unfolding verify_nip42_with_lp0005
  verify_nip42-Carries tag r nonce sig_der relay floor carries =
      rw
        (
          carries.credential, carries.receipt, carries.nonce_read, carries.nonce_length,
          carries.signature_read,
        )
        refl

-- Two relays have two contexts, so a credential made for one is refused at another, unless SHA-256
-- collides.
pub context_id_for_relay-injective :
    (sha : Sha256) (relay relay' : Bytes)
    → context_id_for_relay sha relay ≡ context_id_for_relay sha relay'
    → (relay ≡ relay') ⊎ Collision sha
unfolding context_id_for_relay
context_id_for_relay-injective sha relay relay' e =
    or_collision_map (hash_parts-binding sha _ _ (refl, tt) e) λ same. cc same
