-- ===== src/Sequencer.antt =====
-- crates/sequencer-client/src/lib.rs: the JSON-RPC client, as far as membership proofs and the root that
-- the sequencer holds. The server behind HTTP and the decoder of hex are parameters.
pub mod Decode
pub mod Root
pub mod Anchored
pub mod Calls
use lp_0005_private_token_ba.Prelude.{
  ℕ, zero, suc, ◌+◌, ◌/◌, ◌%◌, List, [], ◌∷◌, Bytes, bytes_eq, String, Bool, true, false, ◌==◌,
  if◌then◌else◌, Option, some, none, Result, ok, err, map_err, ◌>>=◌,
}
use lp_0005_private_token_ba.Crypto.{Sha256, hash_parts}
use lp_0005_private_token_ba.Json.{Json}

-- An `i64`.
pub data ℤ : Type 0 where
  pos negsuc : ℕ → ℤ

-- The message of an RPC error: the server's, or one of the client's own, by its format.
pub data RpcMessage : Type 0 where
  from_server : Bytes → RpcMessage
  text : String → RpcMessage
  tuple_length : ℕ → RpcMessage
  non_byte : ℕ → RpcMessage
  hex_decode : ℕ → String → RpcMessage
  not_a_hash : ℕ → RpcMessage
  hash_length : ℕ → ℕ → RpcMessage

pub data ClientError : Type 0 where
  http json_decode : String → ClientError
  rpc : ℤ → RpcMessage → ClientError
  empty_response : ClientError

-- The errors that the client raises itself, with code -1.
abbrev pub malformed : RpcMessage → ClientError
malformed message = rpc (negsuc 0) message

pub record MembershipProof : Type 0 where
  pub leaf_index : ℕ
  pub siblings : List Bytes

pub record JsonRpcErrorBody : Type 0 where
  pub error_code : ℤ
  pub message : Bytes

pub record JsonRpcEnvelope (json : Json) : Type 0 where
  pub result : Option json.Value
  pub error : Option JsonRpcErrorBody

-- The parameters of a call: none, one array of bytes, or one text.
pub data Params : Type 0 where
  no_params : Params
  byte_array one_text : Bytes → Params

-- The endpoint: what comes back from a POST whose status is a success and whose body is an envelope.
pub record Server (json : Json) : Type 0 where
  pub post : (method : String) → Params → Result String (JsonRpcEnvelope json)

-- The loop of `fold_membership_proof`.
module _ (sha : Sha256) where
  unfoldable pub fold_siblings : Bytes → ℕ → List Bytes → Bytes
  fold_siblings node idx [] = node
  fold_siblings node idx (sib ∷ siblings) =
      let next =
        if idx % 2 == 0
        then hash_parts sha (node ∷ sib ∷ [])
        else hash_parts sha (sib ∷ node ∷ []) in
      fold_siblings next (idx / 2) siblings

  unfoldable pub fold_membership_proof : Bytes → MembershipProof → Bytes
  fold_membership_proof commitment proof =
      fold_siblings (hash_parts sha (commitment ∷ [])) proof.leaf_index proof.siblings

module _ (json : Json) where
  unfoldable pub open_envelope : JsonRpcEnvelope json → Result ClientError json.Value
  open_envelope envelope = elim envelope.error [
    | some e ↦ err (rpc e.error_code (from_server e.message))
    | none ↦ elim envelope.result [ none ↦ ok json.null | some v ↦ ok v ]
  ]

  -- `call`, at the result type `Value`.
  unfoldable pub call : Server json → String → Params → Result ClientError json.Value
  call server method params = do
    envelope ← map_err http (server.post method params)
    open_envelope envelope

  -- `from_value` at `Option<Value>`: `null` is `None`.
  abbrev pub optional : json.Value → Option json.Value
  optional v = if json.is_null v then none else some v

  unfoldable pub get_transaction : Server json → Bytes → Result ClientError (Option Bytes)
  get_transaction server tx_hash = do
    v ← call server "getTransaction" (one_text tx_hash)
    ok (json.as_str v)
