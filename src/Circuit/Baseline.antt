-- ===== src/Circuit/Baseline.antt =====
-- crates/attestation-circuit/src/bin/baseline.rs: the inputs of the measured proof, and the run that
-- measures it. The prover and the encoder of receipts are parameters; times are not kept.
use lp_0005_private_token_ba.Prelude.{
  ℕ, zero, suc, ◌%◌, ◌≡◌, refl, List, [], ◌∷◌, Bytes, String, codes, bytes_eq_refl, length,
  replicate, Result, ok, ◌>>=◌, ◌>>◌,
}
use lp_0005_private_token_ba.Crypto.{Sha256, hash_parts}
use lp_0005_private_token_ba.Core.{
  PrivateInputs, PublicJournal, derive_account_id, compute_commitment, compute_nullifier,
  fold_merkle_path, leaf_hash,
}
use lp_0005_private_token_ba.Circuit.{guest_main}
use lp_0005_private_token_ba.Offchain.{Risc0}

abbrev pub tree_depth : ℕ
tree_depth = 5

module _ (sha : Sha256) where
  abbrev pub sha256 : Bytes → Bytes
  sha256 b = hash_parts sha (b ∷ [])

  unfoldable pub path_from : ℕ → ℕ → List Bytes
  path_from i zero = []
  path_from i (suc depth) = sha256 (replicate 32 (i % 256)) ∷ path_from (suc i) depth

  unfoldable pub synth_inputs : PrivateInputs × PublicJournal
  synth_inputs =
      let npk = replicate 32 0x33 in
      let program_owner = replicate 8 0x11_22_33_44 in
      let data_hash = sha256 (codes "fixture-account-data") in
      let account_id = derive_account_id sha npk 42 in
      let leaf_commit = compute_commitment sha account_id program_owner 1_000_000 7 data_hash in
      let path = path_from 0 tree_depth in
      let presenter_pubkey = replicate 33 2 in
      let context_id = sha256 (codes "lp-0005-baseline-context") in
      (
        record {
          npk = npk;
          identifier = 42;
          program_owner = program_owner;
          balance = 1_000_000;
          nonce = 7;
          data_hash = data_hash;
          merkle_path = path;
          leaf_index = 3;
        },
        record {
          merkle_root = fold_merkle_path sha (sha256 leaf_commit) 3 path;
          threshold = 100_000;
          context_id = context_id;
          presenter_pubkey = presenter_pubkey;
          nullifier = compute_nullifier sha presenter_pubkey context_id account_id;
        },
      )

  -- `main`: the size of the receipt and the journal that are printed.
  unfoldable pub baseline_main :
      (zk : Risc0)
      → (prove : PrivateInputs → PublicJournal → Result String zk.Receipt)
      → (encode_to_vec : zk.Receipt → Result String Bytes) → (attestation_id : List ℕ)
      → Result String (ℕ × PublicJournal)
  baseline_main zk prove encode_to_vec attestation_id = do
    receipt ← prove synth_inputs.0 synth_inputs.1
    receipt_bytes ← encode_to_vec receipt
    zk.verify receipt attestation_id
    journal ← zk.decode_journal receipt
    ok (length receipt_bytes, journal)

  -- The guest accepts the measured inputs, and commits the journal that the host filled in, its
  -- nullifier included, whatever the hash function.
  pub guest_main-synth_inputs : guest_main sha synth_inputs.0 synth_inputs.1 ≡ ok synth_inputs.1
  unfolding synth_inputs guest_main leaf_hash
  guest_main-synth_inputs = rw (bytes_eq_refl synth_inputs.1.merkle_root) refl
