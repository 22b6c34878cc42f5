-- ===== src/Cli/Flags.antt =====
-- What gated-check-args of crates/cli/src/bin/attest.rs prints, and the instruction of the shallow guest.
use lp_0005_private_token_ba.Prelude.{
  ℕ, ◌≡◌, ◌≤◌, refl, sym, List, [], ◌∷◌, Bytes, All, IsByte, IsU128, length, ok, arith,
}
use lp_0005_private_token_ba.Core.{PublicJournal, IsJournal}
use lp_0005_private_token_ba.Circuit.{Lee}
use lp_0005_private_token_ba.Gate.{GateArgs}
use lp_0005_private_token_ba.Gate.Shallow
use lp_0005_private_token_ba.Gate.Agreement.{shallow-check_gate, gate_inputs}
use lp_0005_private_token_ba.Kernel.Check.{check_gate_results}
use lp_0005_private_token_ba.Text.{decimal}
use lp_0005_private_token_ba.Text.Decimal.{read_numbers, read_numbers-decimal, read_numbers-join}
use lp_0005_private_token_ba.Sdk.{sign, sign_digest}
use lp_0005_private_token_ba.Sdk.Credential.{sign-Answers}
use lp_0005_private_token_ba.Cli.{
  Platform, Documented, context_id_from, bytes_as_csv, load_presenter,
}
use lp_0005_private_token_ba.Cli.Readers.{quoted, bare, gated_check_args_lines}
use lp_0005_private_token_ba.Cli.Session.{Holds, signed_challenge-encode}

-- Every array of a journal is an array of bytes.
pub record IsBytesJournal (j : PublicJournal) : Type 0 where
  pub root_bytes : All IsByte j.merkle_root
  pub context_bytes : All IsByte j.context_id
  pub pubkey_bytes : All IsByte j.presenter_pubkey
  pub nullifier_bytes : All IsByte j.nullifier

module _ (os : Platform) where
  -- A flag whose value is the hexadecimal text of some bytes, the list of their decimals, or a number.
  abbrev pub ReadsHex : Bytes → Bytes → Type 0
  ReadsHex text b = os.hex.decode text ≡ ok b

  abbrev pub ReadsList : Bytes → List ℕ → Type 0
  ReadsList text numbers = read_numbers 0 text ≡ numbers

  -- The lines are the nine flags of the instruction, in order, and their values read back as its
  -- arguments.
  pub record Flags (lines : List Bytes) (args : GateArgs) : Type 0 where
    pub root : Bytes
    pub threshold : Bytes
    pub context : Bytes
    pub pubkey : Bytes
    pub nullifier : Bytes
    pub nonce : Bytes
    pub signature : Bytes
    pub expected : Bytes
    pub floor : Bytes
    pub lines_eq : lines ≡ (
        quoted os "--merkle-root" root
        ∷ bare os "--threshold" threshold
        ∷ quoted os "--context-id" context
        ∷ quoted os "--presenter-pubkey" pubkey
        ∷ quoted os "--nullifier" nullifier
        ∷ quoted os "--presenter-nonce" nonce
        ∷ quoted os "--presenter-signature-der" signature
        ∷ quoted os "--expected-context-id" expected
        ∷ bare os "--minimum-threshold" floor
        ∷ [])
    pub reads_root : ReadsHex root args.merkle_root
    pub reads_threshold : ReadsList threshold (args.threshold ∷ [])
    pub reads_context : ReadsHex context args.context_id
    pub reads_pubkey : ReadsList pubkey args.presenter_pubkey
    pub reads_nullifier : ReadsHex nullifier args.nullifier
    pub reads_nonce : ReadsHex nonce args.presenter_nonce
    pub reads_signature : ReadsList signature args.presenter_signature_der
    pub reads_expected : ReadsHex expected args.expected_context_id
    pub reads_floor : ReadsList floor (args.minimum_threshold ∷ [])

-- A text of bytes reads back where it is not empty.
bytes_as_csv_reads :
    (bytes : Bytes)
    → 1 ≤ length bytes
    → All IsByte bytes
    → read_numbers 0 (bytes_as_csv bytes) ≡ bytes
unfolding bytes_as_csv
bytes_as_csv_reads [] size h = absurd (omega arith)
bytes_as_csv_reads (b ∷ bytes) size (range, h) = read_numbers-join b bytes range h

module _ (os : Platform) (laws : Documented os) (s : os.fs.State)
    (credential presenter : os.fs.FilePath) (j : PublicJournal) (key : os.signer.SigningKey) where
  -- The instruction for a signed challenge on the journal.
  abbrev pub challenge_args : (nonce context : Bytes) (floor : ℕ) → GateArgs
  challenge_args nonce context floor = record {
    merkle_root = j.merkle_root;
    threshold = j.threshold;
    context_id = j.context_id;
    presenter_pubkey = j.presenter_pubkey;
    nullifier = j.nullifier;
    presenter_nonce = nonce;
    presenter_signature_der = sign os.signer os.sha key nonce j;
    expected_context_id = context_id_from os.sha context;
    minimum_threshold = floor;
  }

  -- For a credential whose journal has the key of the presenter's file, a 32-byte nonce in
  -- hexadecimal, the journal's context and a floor up to its threshold, `gated-check-args` prints
  -- the nine flags of an instruction; their values read back as its arguments, and the shallow guest
  -- accepts it from any account.
  pub gated_check_args_accepted :
      (nonce context : Bytes) (floor : ℕ) (lee : Lee) (account : lee.AccountWithMetadata)
      → Holds os s credential j
      → load_presenter os s presenter ≡ ok key
      → j.presenter_pubkey ≡ os.signer.public key
      → IsJournal j
      → IsBytesJournal j
      → All IsByte nonce
      → length nonce ≡ 32
      → j.context_id ≡ context_id_from os.sha context
      → floor ≤ j.threshold
      → (lines : List Bytes) × (gated_check_args_lines os s credential presenter context floor
            (os.hex.encode nonce)
          ≡ ok lines)
        × Flags os lines (challenge_args nonce context floor)
        × (Shallow.gated_check os.sha os.ec lee account (challenge_args nonce context floor)
            ≡ ok (record { accounts = lee.account account ∷ []; chained = [] }))
  unfolding gated_check_args_lines
  gated_check_args_accepted nonce context floor lee account holds loaded same_key sizes bytes range
        size same enough =
      let args = challenge_args nonce context floor in
      let signed =
        signed_challenge-encode os laws s credential presenter j key holds loaded same_key nonce
          range size in
      let answers = sign-Answers os.sha os.signer key nonce j same_key in
      let small : IsU128 floor = omega (arith, enough, sizes.threshold_u128) in
      let signature_text : ReadsList os (bytes_as_csv args.presenter_signature_der)
          args.presenter_signature_der =
        unfold sign sign_digest in
        bytes_as_csv_reads args.presenter_signature_der (omega (arith, laws.signature_length key _))
          (laws.signature_bytes key _) in
      (
        _,
        rw signed refl,
        record {
          root = os.hex.encode j.merkle_root;
          threshold = decimal j.threshold;
          context = os.hex.encode j.context_id;
          pubkey = bytes_as_csv j.presenter_pubkey;
          nullifier = os.hex.encode j.nullifier;
          nonce = os.hex.encode nonce;
          signature = bytes_as_csv args.presenter_signature_der;
          expected = os.hex.encode (context_id_from os.sha context);
          floor = decimal floor;
          lines_eq = refl;
          reads_root = os.hex.decode_encode j.merkle_root bytes.root_bytes;
          reads_threshold = read_numbers-decimal j.threshold sizes.threshold_u128;
          reads_context = os.hex.decode_encode j.context_id bytes.context_bytes;
          reads_pubkey =
              bytes_as_csv_reads j.presenter_pubkey (omega (arith, sizes.pubkey_length))
                bytes.pubkey_bytes;
          reads_nullifier = os.hex.decode_encode j.nullifier bytes.nullifier_bytes;
          reads_nonce = os.hex.decode_encode nonce range;
          reads_signature = signature_text;
          reads_expected =
              os.hex.decode_encode (context_id_from os.sha context)
                (rw (sym same) bytes.context_bytes);
          reads_floor = read_numbers-decimal floor small;
        },
        (shallow-check_gate os.sha os.ec lee account args _).1 (
          sizes.pubkey_length,
          (check_gate_results os.sha os.ec (gate_inputs args)).0.1 (same, enough, answers),
          refl,
        ),
      )
