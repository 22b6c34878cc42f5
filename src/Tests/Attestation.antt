-- ===== src/Tests/Attestation.antt =====
-- The account's attestation: what it proves of the tree of accounts.

use lp_0005_private_token_ba.Prelude.{
  ◌≡◌, ◌≢◌, ◌≤◌, ◌<◌, ◌↔◌, ◌⊎◌, refl, [], Bytes, bytes_eq, bytes_eq_ne, le_bytes, replicate, some,
  ok, err, arith,
}
use lp_0005_private_token_ba.Crypto.{Collision, hash_parts, length-hash_parts}
use lp_0005_private_token_ba.Core.{
  IsWitness, attest, compute_nullifier, leaf_hash, derive_account_id, not_anchored, below_threshold,
  witness_commitment, compute_commitment, fold_merkle_path,
}
use lp_0005_private_token_ba.Core.Binding.{length-derive_account_id}
use lp_0005_private_token_ba.Core.Merkle.{Tree, leaf, node, get_leaf, map_tree, root, path_of}
use lp_0005_private_token_ba.Core.Merkle.Soundness.{fold_merkle_path_sound}
use lp_0005_private_token_ba.Core.Merkle.Completeness.{fold_merkle_path_complete}
use lp_0005_private_token_ba.Core.Attest.{
  Account, AreAccounts, account_commitment, witness_root, witness_id, witness_nullifier,
  attest_results, attest_sound, attest_complete, Describes,
}
use lp_0005_private_token_ba.Circuit.{guest_main, lez_main, ProgramOutput}
use lp_0005_private_token_ba.Circuit.Agreement.{guest_main_results, lez_main-attest}
use lp_0005_private_token_ba.Tests.Fixtures.{
  test_sha, test_lee, accounts, witness, statement, holder, holder_nullifier, pubkey, context,
  lez_input, journal,
}

pub witness-IsWitness : IsWitness witness
unfolding leaf_hash
witness-IsWitness = record {
  npk_hash = refl;
  identifier_u128 = omega arith;
  owner_id = omega arith;
  balance_u128 = omega arith;
  nonce_u128 = omega arith;
  data_hash = refl;
  path_hashes = (length-hash_parts test_sha _, tt);
}

pub accounts-AreAccounts : AreAccounts accounts
accounts-AreAccounts = (
  record {
    id_hash = refl;
    owner_id = omega arith;
    balance_u128 = omega arith;
    nonce_u128 = omega arith;
  },
  record {
    id_hash = length-derive_account_id test_sha _ _;
    owner_id = omega arith;
    balance_u128 = omega arith;
    nonce_u128 = omega arith;
  },
)

witness-Describes : Describes test_sha accounts 1 witness holder
unfolding get_leaf map_tree path_of root account_commitment witness_commitment
witness-Describes = (refl, refl, refl)

pub witness_proved : attest test_sha witness statement ≡ ok holder_nullifier
unfolding witness_nullifier witness_id
witness_proved =
    attest_complete test_sha accounts 1 witness statement holder witness-Describes refl
      (omega arith)

attest_sound_example :
    ((a : Account) × (get_leaf accounts 1 1 ≡ some a)
      × (a.account_id ≡ witness_id test_sha witness)
      × (100_000 ≤ a.balance)
      × (holder_nullifier ≡ compute_nullifier test_sha pubkey context a.account_id))
    ⊎ Collision test_sha
attest_sound_example =
    attest_sound test_sha accounts witness statement holder_nullifier accounts-AreAccounts
      witness-IsWitness refl witness_proved

attest_results_example :
    ((attest test_sha witness statement ≡ ok holder_nullifier) ↔ (
      (witness_root test_sha witness ≡ statement.merkle_root)
      × (100_000 ≤ 1_000_000)
      × (witness_nullifier test_sha witness statement ≡ holder_nullifier)))
    × ((attest test_sha witness statement ≡ err not_anchored)
        ↔ (witness_root test_sha witness ≢ statement.merkle_root))
    × ((attest test_sha witness statement ≡ err below_threshold)
        ↔ ((witness_root test_sha witness ≡ statement.merkle_root) × (1_000_000 < 100_000)))
attest_results_example = attest_results test_sha witness statement holder_nullifier

-- The guest on the fixture's witness and journal.
guest_main_results_example :
    let account_id = derive_account_id test_sha witness.npk witness.identifier in
    let commitment =
      compute_commitment test_sha account_id witness.program_owner witness.balance witness.nonce
        witness.data_hash in
    let recovered =
      fold_merkle_path test_sha
        (leaf_hash test_sha commitment)
        witness.leaf_index
        witness.merkle_path in
    ((guest_main test_sha witness journal ≡ ok journal) ↔ (
      (recovered ≡ journal.merkle_root)
      × (journal.threshold ≤ witness.balance)
      × (journal ≡ record journal {
        nullifier =
            compute_nullifier test_sha journal.presenter_pubkey journal.context_id account_id;
      })))
    × ((guest_main test_sha witness journal ≡ err not_anchored) ↔ (recovered ≢ journal.merkle_root))
    × ((guest_main test_sha witness journal ≡ err below_threshold)
        ↔ ((recovered ≡ journal.merkle_root) × (witness.balance < journal.threshold)))
guest_main_results_example = guest_main_results test_sha witness journal journal

-- A tree of two commitments, and the path of its right leaf.
abbrev commitments : Tree Bytes
commitments = node (leaf (replicate 32 4)) (leaf (replicate 32 6))

fold_merkle_path_sound_example :
    (get_leaf commitments 1 1 ≡ some (replicate 32 6)) ⊎ Collision test_sha
unfolding path_of root leaf_hash
fold_merkle_path_sound_example =
    fold_merkle_path_sound test_sha commitments (replicate 32 6) 1
      (path_of test_sha commitments 1 1) (refl, refl) refl (length-hash_parts test_sha _, tt)
      (fold_merkle_path_complete test_sha commitments (replicate 32 6) 1 1
        (unfold get_leaf in refl))

abbrev pub lez_output : ProgramOutput test_lee
lez_output = record {
  self_program_id = lez_input.self_program_id;
  caller_program_id = lez_input.caller_program_id;
  instruction_words = lez_input.instruction_words;
  pre_states = lez_input.pre_states;
  post_states = [];
}

lez_main-attest_example : (lez_main test_sha test_lee lez_input ≡ ok lez_output) ↔ (
    ((n : Bytes) × (attest test_sha witness statement ≡ ok n) × (n ≢ replicate 32 0))
    × (lez_output ≡ lez_output))
lez_main-attest_example = lez_main-attest test_sha test_lee lez_input lez_output

pub holder_nullifier-ne-zero : holder_nullifier ≢ replicate 32 0
unfolding bytes_eq compute_nullifier derive_account_id hash_parts le_bytes
holder_nullifier-ne-zero = bytes_eq_ne _ _ refl

pub holder_returned : lez_main test_sha test_lee lez_input ≡ ok lez_output
holder_returned =
    (lez_main-attest test_sha test_lee lez_input lez_output).1
      ((holder_nullifier, witness_proved, holder_nullifier-ne-zero), refl)
