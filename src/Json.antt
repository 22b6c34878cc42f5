-- ===== src/Json.antt =====
-- `serde_json::Value`, by the accessors that the program calls: each is `none` on a value of another
-- kind, and `get` on a missing key.
use lp_0005_private_token_ba.Prelude.{ℕ, List, Bytes, Bool, Option, some, none}

pub record Json : Type 1 where
  pub Value : Type 0
  pub Object : Type 0
  pub as_object : Value → Option Object
  pub get : Object → Bytes → Option Value
  pub as_u64 : Value → Option ℕ
  pub as_str : Value → Option Bytes
  pub as_array : Value → Option (List Value)
  pub null : Value
  pub is_null : Value → Bool

-- `and_then`.
abbrev pub and_then : {A B : Type 0} → Option A → (A → Option B) → Option B
and_then none f = none
and_then (some a) f = f a

-- `Value::get`, which looks into an object.
abbrev pub value_get : (json : Json) → json.Value → Bytes → Option json.Value
value_get json v key = and_then (json.as_object v) λ o. json.get o key
