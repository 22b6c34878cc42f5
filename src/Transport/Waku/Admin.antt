-- ===== src/Transport/Waku/Admin.antt =====
-- The calls of crates/delivery-transport/src/waku_rest.rs around an exchange: which endpoint a client
-- takes, the node's health, and its subscriptions.
use lp_0005_private_token_ba.Prelude.{
  List, [], ◌∷◌, Bytes, String, codes, Option, some, none, Result, ok, err, ok_or, map_err, ◌>>=◌,
}
use lp_0005_private_token_ba.Json.{Json, value_get, and_then}
use lp_0005_private_token_ba.Transport.{
  TransportError, upstream, decode, text, unreachable, info_not_json, subscribe_failed,
  unsubscribe_failed,
}

abbrev pub default_endpoint : Bytes
default_endpoint = codes "http://127.0.0.1:8645"

-- `WakuRestTransport::new`, by the environment's variable `WAKU_REST_ENDPOINT`.
abbrev pub new_endpoint : Option Bytes → Bytes
new_endpoint none = default_endpoint
new_endpoint (some endpoint) = endpoint

-- How `ureq` answers the `GET` of the node's info.
pub data Info (Value : Type 0) : Type 0 where
  info : Value → Info Value
  no_answer no_json : String → Info Value

-- The node's endpoints `/debug/v1/info` and `/relay/v1/auto/subscriptions`.
pub record NodeAdmin (json : Json) : Type 0 where
  pub get_info : Info json.Value
  pub post_subscription : (topics : List Bytes) → Result String (Unit {0})
  pub delete_subscription : (topics : List Bytes) → Result String (Unit {0})

abbrev pub first_of : {A : Type 0} → List A → Option A
first_of [] = none
first_of (x ∷ xs) = some x

module _ (json : Json) (node : NodeAdmin json) where
  abbrev pub info_body : Info json.Value → Result TransportError json.Value
  info_body (info v) = ok v
  info_body (no_answer e) = err (upstream (unreachable e))
  info_body (no_json e) = err (decode (info_not_json e))

  unfoldable pub health : Result TransportError Bytes
  health = do
    body ← info_body node.get_info
    let addresses = and_then (value_get json body (codes "listenAddresses")) json.as_array
    ok_or (and_then (and_then addresses first_of) json.as_str)
        (decode (text "no listenAddresses in node info"))

  unfoldable pub subscribe : Bytes → Result TransportError (Unit {0})
  subscribe topic =
      map_err (λ e. upstream (subscribe_failed topic e)) (node.post_subscription (topic ∷ []))

  unfoldable pub unsubscribe : Bytes → Result TransportError (Unit {0})
  unsubscribe topic =
      map_err (λ e. upstream (unsubscribe_failed topic e)) (node.delete_subscription (topic ∷ []))
