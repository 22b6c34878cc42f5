-- ===== src/Tests/Fixtures.antt =====
-- The parameters of the model at concrete functions, and an account with its attestation.
use mathlib.Core.List.{foldl}
use lp_0005_private_token_ba.Prelude.{
  ℕ, ◌+◌, ◌*◌, refl, List, [], ◌∷◌, ◌++◌, Bytes, bytes_eq, bytes_eq_refl, le_bytes, length-le_bytes,
  replicate, Option, some, ok,
}
use lp_0005_private_token_ba.Crypto.{Sha256, Ecdsa, Signer}
use lp_0005_private_token_ba.Core.{
  PrivateInputs, PublicJournal, AttestStatement, AttestInstruction, derive_account_id,
  compute_nullifier, compute_gate_tag, leaf_hash,
}
use lp_0005_private_token_ba.Core.Merkle.{Tree, leaf, node}
use lp_0005_private_token_ba.Core.Attest.{Account, account_commitment, commitment_root}
use lp_0005_private_token_ba.Kernel.{presenter_challenge_digest}
use lp_0005_private_token_ba.Offchain.{Risc0}
use lp_0005_private_token_ba.Circuit.{Lee, ProgramInput}
use lp_0005_private_token_ba.Gate.{GateArgs}
use lp_0005_private_token_ba.Gate.Deep.{
  DeepArgs, authenticated_transfer_program_id, attestation_lez_program_id,
}

-- A digest of 32 bytes: a polynomial in the input.
abbrev pub test_sha : Sha256
test_sha = record {
  digest = λ b. le_bytes 32 (foldl (λ acc x. acc * 257 + x + 1) 0 b);
  length-digest = λ b. length-le_bytes 32 _;
}

-- A signature is the key followed by the digest.
abbrev pub test_ecdsa : Ecdsa
test_ecdsa = record {
  VerifyingKey = Bytes;
  Signature = Bytes;
  from_sec1_bytes = λ b. some b;
  from_der = λ b. some b;
  verify = λ vk d sig. bytes_eq sig (vk ++ d);
}

abbrev pub test_signer : Signer test_ecdsa
test_signer = record {
  SigningKey = ℕ;
  public = λ sk. le_bytes 33 sk;
  sign_der = λ sk d. le_bytes 33 sk ++ d;
  length-public = λ sk. length-le_bytes 33 sk;
  verifying_key = λ sk. le_bytes 33 sk;
  signature = λ sk d. le_bytes 33 sk ++ d;
  public_parses = λ sk. refl;
  signature_parses = λ sk d. refl;
  signature_verifies = λ sk d. bytes_eq_refl (le_bytes 33 sk ++ d);
}

abbrev pub test_risc0 : Risc0
test_risc0 = record {
  Receipt = PublicJournal;
  verify = λ r image. ok tt;
  decode_journal = λ r. ok r;
}

-- An account is its owner and its balance; an account with metadata has an id in front.
abbrev pub test_lee : Lee
test_lee = record {
  Account = List ℕ × ℕ;
  program_owner = λ a. a.0;
  balance = λ a. a.1;
  AccountWithMetadata = Bytes × (List ℕ × ℕ);
  account = λ m. m.1;
  account_id = λ m. m.0;
  AccountPostState = List ℕ × ℕ;
  post_state = λ a. a;
}

abbrev pub npk : Bytes
npk = replicate 32 0x33

abbrev pub holder_id : Bytes
holder_id = derive_account_id test_sha npk 42

abbrev pub holder : Account
holder = record {
  account_id = holder_id;
  program_owner = authenticated_transfer_program_id;
  balance = 1_000_000;
  nonce = 7;
  data_hash = replicate 32 5;
}

abbrev pub neighbour : Account
neighbour = record holder { balance = 3; account_id = replicate 32 9 }

-- The neighbour's leaf is on the left, the holder's on the right.
abbrev pub accounts : Tree Account
accounts = node (leaf neighbour) (leaf holder)

abbrev pub witness : PrivateInputs
witness = record {
  npk = npk;
  identifier = 42;
  program_owner = authenticated_transfer_program_id;
  balance = 1_000_000;
  nonce = 7;
  data_hash = replicate 32 5;
  merkle_path = leaf_hash test_sha (account_commitment test_sha neighbour) ∷ [];
  leaf_index = 1;
}

abbrev pub context : Bytes
context = replicate 32 0xaa

abbrev pub pubkey : Bytes
pubkey = replicate 33 2

abbrev pub nonce : Bytes
nonce = replicate 32 0x11

abbrev pub holder_nullifier : Bytes
holder_nullifier = compute_nullifier test_sha pubkey context holder_id

abbrev pub statement : AttestStatement
statement = record {
  merkle_root = commitment_root test_sha accounts;
  threshold = 100_000;
  context_id = context;
  presenter_pubkey = pubkey;
}

abbrev pub journal : PublicJournal
journal = record {
  merkle_root = commitment_root test_sha accounts;
  threshold = 100_000;
  context_id = context;
  presenter_pubkey = pubkey;
  nullifier = holder_nullifier;
}

abbrev pub signature : Bytes
signature = pubkey ++ presenter_challenge_digest test_sha nonce journal

abbrev pub gate_args : GateArgs
gate_args = record {
  merkle_root = commitment_root test_sha accounts;
  threshold = 100_000;
  context_id = context;
  presenter_pubkey = pubkey;
  nullifier = holder_nullifier;
  presenter_nonce = nonce;
  presenter_signature_der = signature;
  expected_context_id = context;
  minimum_threshold = 50_000;
}

abbrev pub deep_args : DeepArgs
deep_args = record {
  gate = gate_args;
  witness_words = 1 ∷ 2 ∷ 3 ∷ [];
  gate_tag = compute_gate_tag test_sha holder_nullifier 50_000 context;
}

abbrev pub test_from_slice : List ℕ → Option PrivateInputs
test_from_slice words = some witness

abbrev pub presenter : Bytes × (List ℕ × ℕ)
presenter = (holder_id, (authenticated_transfer_program_id, 1_000_000))

abbrev pub marker : Bytes × (List ℕ × ℕ)
marker = (replicate 32 1, ([], 0))

abbrev pub lez_input : ProgramInput test_lee AttestInstruction
lez_input = record {
  self_program_id = attestation_lez_program_id;
  caller_program_id = 1 ∷ [];
  pre_states = [];
  instruction = record { witness = witness; statement = statement };
  instruction_words = 4 ∷ [];
}
