-- ===== src/Bench/Replay.antt =====
-- crates/cu-bench/src/main.rs: the inputs of an instruction rebuilt from a dry run and the accounts on
-- chain, its run in the executor, and the cycles. The executor, the sequencer's answers and the types
-- of `lee_core` are parameters.
pub mod Words
use lp_0005_private_token_ba.Prelude.{
  ℕ, zero, suc, ◌+◌, ◌*◌, ◌%◌, ◌^◌, List, [], ◌∷◌, Bytes, String, codes, Bool, true, false, ◌||◌,
  not, bytes_eq, length, ◌==◌, if◌then◌else◌, Option, some, none, Result, ok, err, ok_or, map_err,
  fail_if, ensure, ◌>>=◌, ◌>>◌,
}
use lp_0005_private_token_ba.Json.{Json, value_get}
use lp_0005_private_token_ba.Text.{Hex, trim_0x}
use lp_0005_private_token_ba.Bench.Base58.{bs58_encode}

abbrev pub max_num_cycles_public_execution : ℕ
max_num_cycles_public_execution = 1024 * 1024 * 32

pub record DryRunAccount : Type 0 where
  pub id : Bytes
  pub flags : List Bytes

pub record DryRun : Type 0 where
  pub instruction : Bytes
  pub instruction_data : Bytes
  pub accounts : List DryRunAccount

pub record RpcAccount : Type 0 where
  pub program_owner : List ℕ
  pub balance : ℕ
  pub account_data : Bytes
  pub nonce : ℕ

pub data BenchError : Type 0 where
  data_not_hex id_not_hex : String → BenchError
  data_length id_length : ℕ → BenchError
  request_failed response_not_json result_shape data_rejected execution_failed : String → BenchError
  account_not_found : (id_b58 : Bytes) → BenchError
  base58_out_of_fuel : BenchError

-- `chunks_exact(4)`, each a little-endian `u32`.
unfoldable pub words_of : Bytes → List ℕ
words_of [] = []
words_of (a ∷ []) = []
words_of (a ∷ b ∷ []) = []
words_of (a ∷ b ∷ c ∷ []) = []
words_of (a ∷ b ∷ c ∷ d ∷ bytes) = (a + 2 ^ 8 * b + 2 ^ 16 * c + 2 ^ 24 * d) ∷ words_of bytes

unfoldable pub decode_instruction_data : Hex → Bytes → Result BenchError (List ℕ)
decode_instruction_data hex hex_str = do
  bytes ← map_err data_not_hex (hex.decode (trim_0x hex_str))
  fail_if (not (length bytes % 4 == 0)) (data_length (length bytes))
  ok (words_of bytes)

unfoldable pub parse_account_id : Hex → Bytes → Result BenchError Bytes
parse_account_id hex raw = do
  bytes ← map_err id_not_hex (hex.decode (trim_0x raw))
  ensure (length bytes == 32) (id_length (length bytes))
  ok bytes

-- How the sequencer answers the `POST` of `getAccount`, and serde's reading of its result.
pub data Answer (Value : Type 0) : Type 0 where
  answer : Value → Answer Value
  no_answer no_json : String → Answer Value

pub record Sequencer (json : Json) : Type 0 where
  pub get_account : (id_b58 : Bytes) → Answer json.Value
  pub account_from_value : json.Value → Result String RpcAccount

module _ {json : Json} (sequencer : Sequencer json) where
  abbrev pub answer_body : Answer json.Value → Result BenchError json.Value
  answer_body (answer v) = ok v
  answer_body (no_answer e) = err (request_failed e)
  answer_body (no_json e) = err (response_not_json e)

  -- `get("result").filter(|v| !v.is_null())`.
  abbrev pub present : Option json.Value → Option json.Value
  present none = none
  present (some v) = if json.is_null v then none else some v

  unfoldable pub fetch_account : Bytes → Result BenchError RpcAccount
  fetch_account account_id = do
    id_b58 ← ok_or (bs58_encode account_id) base58_out_of_fuel
    resp ← answer_body (sequencer.get_account id_b58)
    result ← ok_or (present (value_get json resp (codes "result"))) (account_not_found id_b58)
    map_err result_shape (sequencer.account_from_value result)

-- The accounts of `lee_core`, by their constructors: the data's limit is checked.
pub record LeeAccounts : Type 1 where
  pub Account : Type 0
  pub new_account : RpcAccount → Result String Account
  pub AccountWithMetadata : Type 0
  pub with_metadata : Account → (is_authorized : Bool) → (id : Bytes) → AccountWithMetadata

-- `any(|f| f == "signer")`.
unfoldable pub is_signer : List Bytes → Bool
is_signer [] = false
is_signer (f ∷ flags) = bytes_eq f (codes "signer") || is_signer flags

pub record Inputs (lee : LeeAccounts) : Type 0 where
  pub program_id : List ℕ
  pub caller_program_id : Option (List ℕ)
  pub pre_states : List lee.AccountWithMetadata
  pub instruction_data : List ℕ

pub record Segment : Type 0 where
  pub cycles : ℕ
  pub po2 : ℕ

pub record Report : Type 0 where
  pub user_cycles : ℕ
  pub proving_cycles : ℕ
  pub segments : ℕ
  pub instruction_data_words : ℕ
  pub pre_states : ℕ

-- The sums of `u64`s.
unfoldable pub user_cycles_of : List Segment → ℕ
user_cycles_of [] = 0
user_cycles_of (s ∷ segments) = (s.cycles + user_cycles_of segments) % 2 ^ 64

unfoldable pub proving_cycles_of : List Segment → ℕ
proving_cycles_of [] = 0
proving_cycles_of (s ∷ segments) = (2 ^ (s.po2 % 64) + proving_cycles_of segments) % 2 ^ 64

module _ (hex : Hex) {json : Json} (sequencer : Sequencer json) (lee : LeeAccounts) where
  unfoldable pub pre_state : DryRunAccount → Result BenchError lee.AccountWithMetadata
  pre_state acc = do
    raw_id ← parse_account_id hex acc.id
    fetched ← fetch_account sequencer raw_id
    account ← map_err data_rejected (lee.new_account fetched)
    ok (lee.with_metadata account (is_signer acc.flags) raw_id)

  unfoldable pub pre_states_of :
      List DryRunAccount → Result BenchError (List lee.AccountWithMetadata)
  pre_states_of [] = ok []
  pre_states_of (acc ∷ accounts) = do
    first ← pre_state acc
    rest ← pre_states_of accounts
    ok (first ∷ rest)

  -- `main`, from the decoded program and the dry run on; the executor runs under the session limit.
  unfoldable pub replay :
      (execute : ℕ → Inputs lee → Result String (List Segment))
      → (program_id : List ℕ) → DryRun
      → Result BenchError Report
  replay execute program_id dry_run = do
    instruction_data ← decode_instruction_data hex dry_run.instruction_data
    pre_states ← pre_states_of dry_run.accounts
    segments ← map_err execution_failed (
        execute max_num_cycles_public_execution (record {
          program_id = program_id;
          caller_program_id = none;
          pre_states = pre_states;
          instruction_data = instruction_data;
        }))
    ok (record {
      user_cycles = user_cycles_of segments;
      proving_cycles = proving_cycles_of segments;
      segments = length segments;
      instruction_data_words = length instruction_data;
      pre_states = length pre_states;
    })
