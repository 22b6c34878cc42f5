-- ===== src/Cli/Commands.antt =====
-- The commands of crates/cli/src/bin/attest.rs: keygen and prove, which write files, and main. The clock and the random bytes are arguments, and what
-- is printed is a list of lines.
use lp_0005_private_token_ba.Prelude.{
  ℕ, List, [], ◌∷◌, ◌++◌, Bytes, codes, Bool, if◌then◌else◌, Option, length, replicate, Result, ok,
  err, map_err,
}
use lp_0005_private_token_ba.Text.{decimal}
use lp_0005_private_token_ba.Sdk.{
  AttestationProof, ProveRequest, precompute_leaf, synthetic_merkle_path,
}
use lp_0005_private_token_ba.Sdk.Errors.{ProveError, prove_checked, prove_groth16_checked}
use lp_0005_private_token_ba.Cli.Readers.{
  journal_lines, sign_challenge_lines, sign_digest_lines, gated_check_args_lines, verify_lines,
}
use lp_0005_private_token_ba.Cli.{
  Platform, CliError, io, json_error, key_error, encode_error, prove_failed, tree_depth,
  context_id_from, sha256, load_presenter,
}

-- How a command ends: the files, the lines printed, and the result of `main`.
pub record Exit (os : Platform) : Type 0 where
  pub files : os.fs.State
  pub lines : List Bytes
  pub outcome : Result CliError (Unit {0})

pub data Cmd (os : Platform) : Type 0 where
  keygen : (out : os.fs.FilePath) → Cmd os
  journal_of : (credential : os.fs.FilePath) → Cmd os
  challenge : Cmd os
  sign_challenge : (credential presenter : os.fs.FilePath) (nonce : Bytes) → Cmd os
  sign_digest_hex : (secret digest : Bytes) → Cmd os
  prove_to :
      (presenter : os.fs.FilePath) (balance threshold : ℕ) (context : Bytes) (groth16 : Bool)
      (out : os.fs.FilePath)
      → Cmd os
  gated_check_args :
      (credential presenter : os.fs.FilePath) (context : Bytes) (threshold : ℕ) (nonce : Bytes)
      → Cmd os
  verify :
      (credential : os.fs.FilePath) (context : Bytes) (threshold : ℕ)
      (nonce signature : Option Bytes) (presenter : Option os.fs.FilePath)
      → Cmd os

module _ (os : Platform) where
  -- `?` on a step, and `println!`.
  abbrev pub attempt : {A : Type 0} → os.fs.State → Result CliError A → (A → Exit os) → Exit os
  attempt s (ok a) next = next a
  attempt s (err e) next = record { files = s; lines = []; outcome = err e }

  abbrev pub printing : List Bytes → Exit os → Exit os
  printing lines exit = record exit { lines = lines ++ exit.lines }

  abbrev pub finish : os.fs.State → List Bytes → Exit os
  finish s lines = record { files = s; lines = lines; outcome = ok tt }

  abbrev pub print_result : os.fs.State → Result CliError (List Bytes) → Exit os
  print_result s r = attempt s r (finish s)

  unfoldable pub keygen_cmd : (random : Bytes) → os.fs.State → os.fs.FilePath → Exit os
  keygen_cmd bytes s out = attempt s (map_err key_error (os.key_from_bytes bytes)) λ key.
      let public_hex = os.hex.encode (os.signer.public key) in
      let payload = os.json_text.object (
        (codes "secret_hex", os.json_text.text (os.hex.encode bytes))
        ∷ (codes "public_hex", os.json_text.text public_hex)
        ∷ []) in
      attempt s (map_err json_error (os.json_text.to_string_pretty payload)) λ printed.
        attempt s (map_err io (os.fs.write s out printed)) λ s'. finish s' (
          (codes "wrote presenter key to " ++ os.fs.display out)
          ∷ (codes "public:  0x" ++ public_hex)
          ∷ [])

  -- The request of `prove`: a demo account, and a path of `tree_depth` siblings for its leaf.
  unfoldable pub prove_request : Bytes → (balance threshold : ℕ) → Bytes → ProveRequest
  prove_request pubkey balance threshold context_id =
      let req : ProveRequest = record {
        npk = replicate 32 0x33;
        identifier = 42;
        program_owner = replicate 8 0x11_22_33_44;
        balance = balance;
        nonce = 7;
        data_hash = sha256 os.sha (codes "demo-account-data");
        merkle_path = [];
        leaf_index = 3;
        merkle_root = replicate 32 0;
        threshold = threshold;
        context_id = context_id;
        presenter_pubkey = pubkey;
      } in
      let leaf_hash = (precompute_leaf os.sha req).1 in
      let synthetic = synthetic_merkle_path os.sha leaf_hash req.leaf_index tree_depth in
      record req { merkle_path = synthetic.0; merkle_root = synthetic.1 }

  unfoldable pub run_prover : Bool → ProveRequest → Result ProveError (AttestationProof os.zk)
  run_prover groth16 req =
      if groth16
      then prove_groth16_checked os.sha os.error_text os.prover req
      else prove_checked os.sha os.error_text os.prover req

  unfoldable pub prove_cmd :
      (elapsed : Bytes)
      → os.fs.State
      → (presenter : os.fs.FilePath) (balance threshold : ℕ) (context : Bytes) (groth16 : Bool)
        (out : os.fs.FilePath)
      → Exit os
  prove_cmd elapsed s presenter balance threshold context groth16 out =
      attempt s (load_presenter os s presenter) λ pk.
        let req =
          prove_request (os.signer.public pk) balance threshold (context_id_from os.sha context) in
        let wrapped = if groth16 then codes " (Groth16-wrapped)" else [] in
        printing ((codes "proving" ++ (wrapped ++ codes "...")) ∷ []) (
          attempt s (map_err prove_failed (run_prover groth16 req)) λ proof.
            printing ((codes "proved in " ++ elapsed) ∷ []) (
              attempt s (map_err encode_error (os.codec.encode_to_vec proof.receipt)) λ bytes.
                attempt s (map_err io (os.fs.write s out bytes)) λ s'. finish s' (
                  (codes "wrote credential ("
                    ++ (decimal (length bytes) ++ (codes " bytes) to " ++ os.fs.display out)))
                  ∷ (codes "nullifier: 0x" ++ os.hex.encode proof.journal.nullifier)
                  ∷ [])))

  unfoldable pub main : (random elapsed : Bytes) → os.fs.State → Cmd os → Exit os
  main random elapsed s challenge = finish s (os.hex.encode random ∷ [])
  main random elapsed s (keygen out) = keygen_cmd random s out
  main random elapsed s (prove_to presenter balance threshold context groth16 out) =
      prove_cmd elapsed s presenter balance threshold context groth16 out
  main random elapsed s (journal_of credential) = print_result s (journal_lines os s credential)
  main random elapsed s (sign_challenge credential presenter nonce) =
      print_result s (sign_challenge_lines os s credential presenter nonce)
  main random elapsed s (sign_digest_hex secret digest) =
      print_result s (sign_digest_lines os secret digest)
  main random elapsed s (gated_check_args credential presenter context threshold nonce) =
      print_result s (gated_check_args_lines os s credential presenter context threshold nonce)
  main random elapsed s (verify credential context threshold nonce signature presenter) =
      print_result s
        (verify_lines os random s credential context threshold nonce signature presenter)
