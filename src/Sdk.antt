-- ===== src/Sdk.antt =====
-- crates/sdk/src/lib.rs: the request for a credential, its proof, and the presenter's signature. The
-- prover of risc0 is a parameter, with the texts of its errors.
pub mod Credential
pub mod Errors
use lp_0005_private_token_ba.Prelude.{
  ℕ, zero, suc, ◌%◌, List, [], ◌∷◌, ◌++◌, Bytes, String, replicate, Result, ok, ◌>>=◌,
}
use lp_0005_private_token_ba.Crypto.{Sha256, Ecdsa, Signer, hash_parts}
use lp_0005_private_token_ba.Core.{
  PrivateInputs, PublicJournal, derive_account_id, compute_commitment, compute_nullifier,
  fold_merkle_path,
}
use lp_0005_private_token_ba.Offchain.{Risc0, presenter_challenge_digest}

pub record AttestationProof (zk : Risc0) : Type 0 where
  pub receipt : zk.Receipt
  pub journal : PublicJournal

pub record ProveRequest : Type 0 where
  pub npk : Bytes
  pub identifier : ℕ
  pub program_owner : List ℕ
  pub balance : ℕ
  pub nonce : ℕ
  pub data_hash : Bytes
  pub merkle_path : List Bytes
  pub leaf_index : ℕ
  pub merkle_root : Bytes
  pub threshold : ℕ
  pub context_id : Bytes
  pub presenter_pubkey : Bytes

pub data ReceiptKind : Type 0 where
  composite groth16 : ReceiptKind

-- The environment with the two inputs written, run through the default prover with the options of a
-- receipt kind.
pub record Prover (zk : Risc0) : Type 0 where
  pub prove_with_opts : ReceiptKind → PrivateInputs → PublicJournal → Result String zk.Receipt

module _ {ec : Ecdsa} (signer : Signer ec) where
  unfoldable pub sign_digest : signer.SigningKey → Bytes → Bytes
  sign_digest key digest = signer.sign_der key digest

  unfoldable pub sign : Sha256 → signer.SigningKey → Bytes → PublicJournal → Bytes
  unfolding sign_digest
  sign sha key nonce journal = sign_digest key (presenter_challenge_digest sha nonce journal)

abbrev pub private_inputs : ProveRequest → PrivateInputs
private_inputs req = record {
  npk = req.npk;
  identifier = req.identifier;
  program_owner = req.program_owner;
  balance = req.balance;
  nonce = req.nonce;
  data_hash = req.data_hash;
  merkle_path = req.merkle_path;
  leaf_index = req.leaf_index;
}

module _ (sha : Sha256) where
  abbrev pub journal_stub : ProveRequest → PublicJournal
  journal_stub req = record {
    merkle_root = req.merkle_root;
    threshold = req.threshold;
    context_id = req.context_id;
    presenter_pubkey = req.presenter_pubkey;
    nullifier =
        compute_nullifier sha req.presenter_pubkey req.context_id
          (derive_account_id sha req.npk req.identifier);
  }

  unfoldable pub prove_with_kind :
      {zk : Risc0} → Prover zk → ProveRequest → ReceiptKind → Result String (AttestationProof zk)
  prove_with_kind {zk} prover req kind = do
    receipt ← prover.prove_with_opts kind (private_inputs req) (journal_stub req)
    journal ← zk.decode_journal receipt
    ok (record { receipt = receipt; journal = journal })

  abbrev pub prove : {zk : Risc0} → Prover zk → ProveRequest → Result String (AttestationProof zk)
  prove prover req = prove_with_kind prover req composite

  abbrev pub prove_groth16 :
      {zk : Risc0} → Prover zk → ProveRequest → Result String (AttestationProof zk)
  prove_groth16 prover req = prove_with_kind prover req groth16

  -- The commitment and its leaf hash.
  unfoldable pub precompute_leaf : ProveRequest → Bytes × Bytes
  precompute_leaf req =
      let account_id = derive_account_id sha req.npk req.identifier in
      let commit =
        compute_commitment sha account_id req.program_owner req.balance req.nonce req.data_hash in
      (commit, hash_parts sha (commit ∷ []))

  -- The siblings from position `i` on: the hash of 32 copies of `i as u8`.
  unfoldable pub synthetic_path_from : ℕ → ℕ → List Bytes
  synthetic_path_from i zero = []
  synthetic_path_from i (suc depth) =
      hash_parts sha (replicate 32 (i % 256) ∷ []) ∷ synthetic_path_from (suc i) depth

  unfoldable pub synthetic_merkle_path : Bytes → ℕ → ℕ → List Bytes × Bytes
  synthetic_merkle_path leaf_hash leaf_index depth =
      let path = synthetic_path_from 0 depth in
      (path, fold_merkle_path sha leaf_hash leaf_index path)

pub record DemoFixture : Type 0 where
  pub npk : Bytes
  pub identifier : ℕ
  pub program_owner : List ℕ
  pub balance : ℕ
  pub nonce : ℕ
  pub data_seed : Bytes
  pub leaf_index : ℕ
  pub tree_depth : ℕ
  pub threshold : ℕ
  pub context_id : Bytes
  pub presenter_pubkey : Bytes

unfoldable pub into_request : Sha256 → DemoFixture → ProveRequest
into_request sha fixture =
    let req : ProveRequest = record {
      npk = fixture.npk;
      identifier = fixture.identifier;
      program_owner = fixture.program_owner;
      balance = fixture.balance;
      nonce = fixture.nonce;
      data_hash = hash_parts sha (fixture.data_seed ∷ []);
      merkle_path = [];
      leaf_index = fixture.leaf_index;
      merkle_root = replicate 32 0;
      threshold = fixture.threshold;
      context_id = fixture.context_id;
      presenter_pubkey = fixture.presenter_pubkey;
    } in
    let leaf_hash = (precompute_leaf sha req).1 in
    let synthetic = synthetic_merkle_path sha leaf_hash req.leaf_index fixture.tree_depth in
    record req { merkle_path = synthetic.0; merkle_root = synthetic.1 }
