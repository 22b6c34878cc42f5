-- ===== src/Sequencer/Decode.antt =====
-- decode_proof_tuple and decode_hash_array of crates/sequencer-client/src/lib.rs.
use lp_0005_private_token_ba.Prelude.{
  ℕ, suc, List, [], ◌∷◌, Bytes, codes, String, length, ltb, ◌==◌, if◌then◌else◌, Option, some, none,
  Result, ok, err, ok_or, map_err, ensure, ◌>>=◌, ◌>>◌,
}
use lp_0005_private_token_ba.Json.{Json, and_then}
use lp_0005_private_token_ba.Sequencer.{
  ClientError, malformed, text, tuple_length, non_byte, hex_decode, not_a_hash, hash_length,
  MembershipProof,
}

module _ (json : Json) (decode_hex : Bytes → Result String Bytes) where
  -- `as_u64`, then `u8::try_from`.
  abbrev pub as_byte : json.Value → Option ℕ
  as_byte v = and_then (json.as_u64 v) λ n. if ltb n 256 then some n else none

  unfoldable pub decode_bytes : ℕ → List json.Value → Result ClientError Bytes
  decode_bytes i [] = ok []
  decode_bytes i (v ∷ values) = do
    b ← ok_or (as_byte v) (malformed (non_byte i))
    bytes ← decode_bytes i values
    ok (b ∷ bytes)

  -- The bytes of one sibling: an array of bytes, or a text in hex.
  unfoldable pub sibling_bytes : ℕ → json.Value → Result ClientError Bytes
  sibling_bytes i v = elim (json.as_array v) [
    | some values ↦ decode_bytes i values
    | none ↦ elim (json.as_str v) [
      | some hex_str ↦ map_err (λ e. malformed (hex_decode i e)) (decode_hex hex_str)
      | none ↦ err (malformed (not_a_hash i))
    ]
  ]

  unfoldable pub decode_hashes_from : ℕ → List json.Value → Result ClientError (List Bytes)
  decode_hashes_from i [] = ok []
  decode_hashes_from i (v ∷ values) = do
    bytes ← sibling_bytes i v
    ensure (length bytes == 32) (malformed (hash_length i (length bytes)))
    out ← decode_hashes_from (suc i) values
    ok (bytes ∷ out)

  unfoldable pub decode_hash_array : List json.Value → Result ClientError (List Bytes)
  decode_hash_array values = decode_hashes_from 0 values

  unfoldable pub decode_object : json.Object → Result ClientError MembershipProof
  decode_object obj = do
    leaf_index ←
        ok_or (and_then (json.get obj (codes "leaf_index")) json.as_u64)
          (malformed (text "missing leaf_index in MembershipProof object"))
    siblings_arr ←
        ok_or (and_then (json.get obj (codes "siblings")) json.as_array)
          (malformed (text "missing siblings in MembershipProof object"))
    siblings ← decode_hash_array siblings_arr
    ok (record { leaf_index = leaf_index; siblings = siblings })

  unfoldable pub decode_tuple : List json.Value → Result ClientError MembershipProof
  decode_tuple (index ∷ hashes ∷ []) = do
    leaf_index ← ok_or (json.as_u64 index) (malformed (text "leaf_index is not a u64"))
    siblings_arr ← ok_or (json.as_array hashes) (malformed (text "siblings is not an array"))
    siblings ← decode_hash_array siblings_arr
    ok (record { leaf_index = leaf_index; siblings = siblings })
  decode_tuple arr = err (malformed (tuple_length (length arr)))

  unfoldable pub decode_proof_tuple : json.Value → Result ClientError MembershipProof
  decode_proof_tuple v = elim (json.as_object v) [
    | some obj ↦ decode_object obj
    | none ↦ elim (json.as_array v) [
      | some arr ↦ decode_tuple arr
      | none ↦ err (malformed (text "MembershipProof is neither object nor tuple"))
    ]
  ]
