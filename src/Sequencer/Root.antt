-- ===== src/Sequencer/Root.antt =====
-- get_proof_for_commitment, commitment_set_root and is_root_current of crates/sequencer-client/src/lib.rs.
pub mod Current
use lp_0005_private_token_ba.Prelude.{
  ℕ, List, Bytes, bytes_eq, String, Bool, true, false, Option, some, none, Result, ok, err, ◌>>=◌,
}
use lp_0005_private_token_ba.Crypto.{Sha256}
use lp_0005_private_token_ba.Json.{Json}
use lp_0005_private_token_ba.Sequencer.{
  ClientError, MembershipProof, Server, byte_array, call, optional, fold_membership_proof,
}
use lp_0005_private_token_ba.Sequencer.Decode.{decode_proof_tuple}

module _ (json : Json) (decode_hex : Bytes → Result String Bytes) (server : Server json) where
  unfoldable pub decode_optional : Option json.Value → Result ClientError (Option MembershipProof)
  decode_optional none = ok none
  decode_optional (some v) = do proof ← decode_proof_tuple json decode_hex v; ok (some proof)

  unfoldable pub get_proof_for_commitment : Bytes → Result ClientError (Option MembershipProof)
  get_proof_for_commitment commitment = do
    v ← call json server "getProofForCommitment" (byte_array commitment)
    decode_optional (optional json v)

  abbrev pub fold_found : Sha256 → Bytes → Option MembershipProof → Option Bytes
  fold_found sha known_commitment none = none
  fold_found sha known_commitment (some proof) =
      some (fold_membership_proof sha known_commitment proof)

  unfoldable pub commitment_set_root : Sha256 → Bytes → Result ClientError (Option Bytes)
  commitment_set_root sha known_commitment = do
    found ← get_proof_for_commitment known_commitment
    ok (fold_found sha known_commitment found)

  -- `root == Some(*merkle_root)`.
  abbrev pub is_some_root : Option Bytes → Bytes → Bool
  is_some_root none merkle_root = false
  is_some_root (some root) merkle_root = bytes_eq root merkle_root

  unfoldable pub is_root_current : Sha256 → Bytes → Bytes → Result ClientError Bool
  is_root_current sha merkle_root known_commitment = do
    root ← commitment_set_root sha known_commitment
    ok (is_some_root root merkle_root)
