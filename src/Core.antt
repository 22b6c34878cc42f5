-- ===== src/Core.antt =====
-- crates/attestation-core/src/lib.rs: the types shared by the guests and the host, the hashes that
-- derive identifiers, the Merkle fold, and `attest`, the whole statement.
-- A `[u8; N]` is a list of numbers; `IsWitness` and `IsJournal` state what the Rust
-- types guarantee of lengths and ranges. A failed `assert!` is a `Panic`.
pub mod Layout
pub mod Binding
pub mod Merkle
pub mod Separation
pub mod Attest
use lp_0005_private_token_ba.Prelude.{
  ℕ, ◌+◌, ◌/◌, ◌%◌, ◌^◌, ◌<◌, ◌≡◌, List, [], ◌∷◌, ◌++◌, Bytes, IsU128, le_bytes, codes, length,
  replicate, All, Result, ok, ensure, ◌>>=◌, ◌>>◌, bytes_eq, leb, ◌==◌, if◌then◌else◌,
}
use lp_0005_private_token_ba.Crypto.{Sha256, hash_parts}

abbrev pub commitment_prefix : Bytes
commitment_prefix = codes "/LEE/v0.3/Commitment/" ++ replicate 11 0

abbrev pub private_account_id_prefix : Bytes
private_account_id_prefix = codes "/LEE/v0.3/AccountId/Private/" ++ replicate 4 0

abbrev pub nullifier_prefix : Bytes
nullifier_prefix = codes "/lp-0005/v0.1/Nullifier/" ++ replicate 8 0

abbrev pub gate_tag_prefix : Bytes
gate_tag_prefix = codes "/lp-0005/v0.1/GateTag/" ++ replicate 10 0

pub record PrivateInputs : Type 0 where
  pub npk : Bytes
  pub identifier : ℕ
  pub program_owner : List ℕ
  pub balance : ℕ
  pub nonce : ℕ
  pub data_hash : Bytes
  pub merkle_path : List Bytes
  pub leaf_index : ℕ

pub record PublicJournal : Type 0 where
  pub merkle_root : Bytes
  pub threshold : ℕ
  pub context_id : Bytes
  pub presenter_pubkey : Bytes
  pub nullifier : Bytes

pub record AttestStatement : Type 0 where
  pub merkle_root : Bytes
  pub threshold : ℕ
  pub context_id : Bytes
  pub presenter_pubkey : Bytes

pub record AttestInstruction : Type 0 where
  pub witness : PrivateInputs
  pub statement : AttestStatement

abbrev pub IsHash : Bytes → Type 0
IsHash b = length b ≡ 32

-- `[u32; 8]`.
abbrev pub IsProgramId : List ℕ → Type 0
IsProgramId words = (length words ≡ 8) × All (λ w. w < 2 ^ 32) words

pub record IsWitness (w : PrivateInputs) : Type 0 where
  pub npk_hash : IsHash w.npk
  pub identifier_u128 : IsU128 w.identifier
  pub owner_id : IsProgramId w.program_owner
  pub balance_u128 : IsU128 w.balance
  pub nonce_u128 : IsU128 w.nonce
  pub data_hash : IsHash w.data_hash
  pub path_hashes : All IsHash w.merkle_path

pub record IsJournal (j : PublicJournal) : Type 0 where
  pub root_hash : IsHash j.merkle_root
  pub threshold_u128 : IsU128 j.threshold
  pub context_hash : IsHash j.context_id
  pub pubkey_length : length j.presenter_pubkey ≡ 33
  pub nullifier_hash : IsHash j.nullifier

-- The messages of the asserts of the guests.
pub data Panic : Type 0 where
  not_anchored : Panic
  below_threshold : Panic
  zero_nullifier : Panic

-- `for word in program_owner { update(word.to_le_bytes()) }`
unfoldable pub word_bytes : List ℕ → Bytes
word_bytes [] = []
word_bytes (word ∷ words) = le_bytes 4 word ++ word_bytes words

module _ (sha : Sha256) where
  unfoldable pub derive_account_id : Bytes → ℕ → Bytes
  derive_account_id npk identifier =
      hash_parts sha (private_account_id_prefix ∷ npk ∷ le_bytes 16 identifier ∷ [])

  unfoldable pub compute_commitment : Bytes → List ℕ → ℕ → ℕ → Bytes → Bytes
  compute_commitment account_id program_owner balance nonce data_hash = hash_parts sha (
      commitment_prefix
      ∷ account_id
      ∷ word_bytes program_owner
      ∷ le_bytes 16 balance
      ∷ le_bytes 16 nonce
      ∷ data_hash
      ∷ [])

  -- One level of the walk: the node goes left where the low bit of the index is 0.
  unfoldable pub hash_level : Bytes → ℕ → Bytes → Bytes
  hash_level node idx sib =
      if idx % 2 == 0 then hash_parts sha (node ∷ sib ∷ []) else hash_parts sha (sib ∷ node ∷ [])

  unfoldable pub fold_merkle_path : Bytes → ℕ → List Bytes → Bytes
  fold_merkle_path node idx [] = node
  fold_merkle_path node idx (sib ∷ siblings) =
      fold_merkle_path (hash_level node idx sib) (idx / 2) siblings

  unfoldable pub compute_nullifier : Bytes → Bytes → Bytes → Bytes
  compute_nullifier presenter_pubkey context_id account_id =
      hash_parts sha (nullifier_prefix ∷ presenter_pubkey ∷ context_id ∷ account_id ∷ [])

  unfoldable pub compute_gate_tag : Bytes → ℕ → Bytes → Bytes
  compute_gate_tag nullifier minimum_threshold expected_context_id =
      hash_parts sha
        (gate_tag_prefix ∷ nullifier ∷ le_bytes 16 minimum_threshold ∷ expected_context_id ∷ [])

  -- The commitment of the account that a witness describes, and its leaf hash.
  unfoldable pub witness_commitment : PrivateInputs → Bytes
  witness_commitment w =
      compute_commitment (derive_account_id w.npk w.identifier) w.program_owner w.balance w.nonce
        w.data_hash

  unfoldable pub leaf_hash : Bytes → Bytes
  leaf_hash leaf_commitment = hash_parts sha (leaf_commitment ∷ [])

  unfoldable pub attest : PrivateInputs → AttestStatement → Result Panic Bytes
  attest witness statement =
      let account_id = derive_account_id witness.npk witness.identifier in
      let leaf_commitment =
        compute_commitment account_id witness.program_owner witness.balance witness.nonce
          witness.data_hash in
      let recovered_root =
        fold_merkle_path (leaf_hash leaf_commitment) witness.leaf_index witness.merkle_path in
      do
        ensure (bytes_eq recovered_root statement.merkle_root) not_anchored
        ensure (leb statement.threshold witness.balance) below_threshold
        ok (compute_nullifier statement.presenter_pubkey statement.context_id account_id)
