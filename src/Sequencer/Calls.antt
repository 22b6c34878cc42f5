-- ===== src/Sequencer/Calls.antt =====
-- The calls of crates/sequencer-client/src/lib.rs whose results serde decodes, and the request envelope.
use lp_0005_private_token_ba.Prelude.{
  ℕ, Bytes, String, Option, some, none, Result, ok, map_err, ◌>>=◌,
}
use lp_0005_private_token_ba.Json.{Json}
use lp_0005_private_token_ba.Sequencer.{
  ClientError, json_decode, Server, no_params, one_text, call, optional,
}

abbrev pub default_testnet_url : String
default_testnet_url = "https://testnet.lez.logos.co"

pub record Request (P : Type 0) : Type 0 where
  pub jsonrpc : String
  pub id : ℕ
  pub method : String
  pub params : P

-- `Request::new`.
abbrev pub new_request : {P : Type 0} → ℕ → String → P → Request P
new_request id method params = record { jsonrpc = "2.0"; id = id; method = method; params = params }

pub data AccountSnapshot (Value : Type 0) : Type 0 where
  public_account : (nonce : ℕ) (account_data : Bytes) → AccountSnapshot Value
  raw : Value → AccountSnapshot Value

-- `from_value` at the result types.
pub record FromValue (json : Json) : Type 0 where
  pub u64 : json.Value → Result String ℕ
  pub string : json.Value → Result String Bytes
  pub snapshot : json.Value → Result String (AccountSnapshot json.Value)

module _ (json : Json) (from_value : FromValue json) (server : Server json) where
  unfoldable pub get_last_block_id : Result ClientError ℕ
  get_last_block_id = do
    v ← call json server "getLastBlockId" no_params
    map_err json_decode (from_value.u64 v)

  abbrev pub decode_snapshot :
      Option json.Value → Result ClientError (Option (AccountSnapshot json.Value))
  decode_snapshot none = ok none
  decode_snapshot (some v) = do
    account ← map_err json_decode (from_value.snapshot v)
    ok (some account)

  unfoldable pub get_account : Bytes → Result ClientError (Option (AccountSnapshot json.Value))
  get_account account_id = do
    v ← call json server "getAccount" (one_text account_id)
    decode_snapshot (optional json v)

  unfoldable pub send_transaction : Bytes → Result ClientError Bytes
  send_transaction tx_blob_base64 = do
    v ← call json server "sendTransaction" (one_text tx_blob_base64)
    map_err json_decode (from_value.string v)
