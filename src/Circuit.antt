-- ===== src/Circuit.antt =====
-- crates/attestation-circuit/methods: the standalone guest (guest/src/bin/attestation.rs) and the
-- LEZ-native program (guest-lez/src/bin/attestation_lez.rs). An input read by the environment is an
-- argument, what is committed or written is the result, and an assert that fails is a panic.
pub mod Agreement
pub mod Baseline
use lp_0005_private_token_ba.Prelude.{
  ℕ, List, map, Bytes, replicate, Result, ok, ensure, ◌>>=◌, ◌>>◌, bytes_eq, leb, not,
}
use lp_0005_private_token_ba.Crypto.{Sha256}
use lp_0005_private_token_ba.Core.{
  PrivateInputs, PublicJournal, AttestInstruction, Panic, not_anchored, below_threshold,
  zero_nullifier, derive_account_id, compute_commitment, compute_nullifier, fold_merkle_path,
  leaf_hash, attest,
}

-- The types of the `lee_core` crate, by the fields and the constructor that the programs use.
pub record Lee : Type 1 where
  pub Account : Type 0
  pub program_owner : Account → List ℕ
  pub balance : Account → ℕ
  pub AccountWithMetadata : Type 0
  pub account : AccountWithMetadata → Account
  pub account_id : AccountWithMetadata → Bytes
  pub AccountPostState : Type 0
  pub post_state : Account → AccountPostState

-- What `read_lee_inputs` returns.
pub record ProgramInput (lee : Lee) (Instruction : Type 0) : Type 0 where
  pub self_program_id : List ℕ
  pub caller_program_id : List ℕ
  pub pre_states : List lee.AccountWithMetadata
  pub instruction : Instruction
  pub instruction_words : List ℕ

-- The arguments of `ProgramOutput::new`.
pub record ProgramOutput (lee : Lee) : Type 0 where
  pub self_program_id : List ℕ
  pub caller_program_id : List ℕ
  pub instruction_words : List ℕ
  pub pre_states : List lee.AccountWithMetadata
  pub post_states : List lee.AccountPostState

module _ (sha : Sha256) where
  -- `main` of the standalone guest: the journal stub comes back with the nullifier filled in.
  unfoldable pub guest_main : PrivateInputs → PublicJournal → Result Panic PublicJournal
  guest_main priv_in journal =
      let account_id = derive_account_id sha priv_in.npk priv_in.identifier in
      let leaf_commitment =
        compute_commitment sha account_id priv_in.program_owner priv_in.balance priv_in.nonce
          priv_in.data_hash in
      let recovered_root =
        fold_merkle_path sha (leaf_hash sha leaf_commitment) priv_in.leaf_index
          priv_in.merkle_path in
      do
        ensure (bytes_eq recovered_root journal.merkle_root) not_anchored
        ensure (leb journal.threshold priv_in.balance) below_threshold
        ok (record journal {
          nullifier = compute_nullifier sha journal.presenter_pubkey journal.context_id account_id;
        })

  -- `main` of the LEZ-native program: every account passes through unchanged.
  unfoldable pub lez_main :
      (lee : Lee) → ProgramInput lee AttestInstruction → Result Panic (ProgramOutput lee)
  lez_main lee input = do
    nullifier ← attest sha input.instruction.witness input.instruction.statement
    ensure (not (bytes_eq nullifier (replicate 32 0))) zero_nullifier
    ok (record {
      self_program_id = input.self_program_id;
      caller_program_id = input.caller_program_id;
      instruction_words = input.instruction_words;
      pre_states = input.pre_states;
      post_states = map (λ pre. lee.post_state (lee.account pre)) input.pre_states;
    })
