-- ===== src/Gate.antt =====
-- crates/verifier-program-spel/methods: the three on-chain guests, and what they share: the error
-- codes, the output of an instruction and the pinned program ids.
pub mod Shallow
pub mod Chained
pub mod Deep
pub mod Agreement
pub mod Skeleton
use lp_0005_private_token_ba.Prelude.{ℕ, List, [], ◌∷◌, String, Bytes}
use lp_0005_private_token_ba.Circuit.{Lee}

-- `SpelError::custom`.
pub data SpelError : Type 0 where
  custom : ℕ → String → SpelError

abbrev pub e_threshold_too_low : ℕ
e_threshold_too_low = 3001

abbrev pub e_context_mismatch : ℕ
e_context_mismatch = 3004

abbrev pub e_bad_signature : ℕ
e_bad_signature = 3005

abbrev pub e_bad_pubkey_len : ℕ
e_bad_pubkey_len = 3006

-- `ChainedCall::new`, by its arguments.
pub record ChainedCall (lee : Lee) (Instruction : Type 0) : Type 0 where
  pub program_id : List ℕ
  pub pre_states : List lee.AccountWithMetadata
  pub instruction : Instruction

-- `SpelOutput::execute`, by its arguments.
pub record SpelOutput (lee : Lee) (State Instruction : Type 0) : Type 0 where
  pub accounts : List State
  pub chained : List (ChainedCall lee Instruction)

-- The flat arguments that the three guests have in common: the journal's fields, the challenge
-- response and the policy.
pub record GateArgs : Type 0 where
  pub merkle_root : Bytes
  pub threshold : ℕ
  pub context_id : Bytes
  pub presenter_pubkey : Bytes
  pub nullifier : Bytes
  pub presenter_nonce : Bytes
  pub presenter_signature_der : Bytes
  pub expected_context_id : Bytes
  pub minimum_threshold : ℕ
