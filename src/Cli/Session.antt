-- ===== src/Cli/Session.antt =====
-- Runs of crates/cli/src/bin/attest.rs one after the other: prove, and then verify in both of its modes.
use lp_0005_private_token_ba.Prelude.{
  ℕ, ◌≡◌, ◌≢◌, ◌≤◌, refl, ◌∙◌, List, [], ◌∷◌, ◌++◌, Bytes, codes, Bool, true, false, All, IsByte,
  length, Option, some, none, ok,
}
use lp_0005_private_token_ba.Text.Trim.{trim-digits}
use lp_0005_private_token_ba.Core.{PublicJournal, leaf_hash, witness_commitment}
use lp_0005_private_token_ba.Core.Attest.{witness_root}
use lp_0005_private_token_ba.Offchain.{verify_credential}
use lp_0005_private_token_ba.Offchain.Results.{verify_receipt-ok, verify_credential-ok}
use lp_0005_private_token_ba.Text.{decimal}
use lp_0005_private_token_ba.Sdk.{
  AttestationProof, ProveRequest, ReceiptKind, composite, groth16, private_inputs, journal_stub,
  sign_digest, prove_with_kind, sign, precompute_leaf, synthetic_merkle_path,
}
use lp_0005_private_token_ba.Sdk.Credential.{Proves, guest_main-stub, sign-Answers}
use lp_0005_private_token_ba.Sdk.Errors.{prove_checked, prove_groth16_checked}
use lp_0005_private_token_ba.Cli.{
  Platform, Documented, context_id_from, load_presenter, load_receipt,
}
use lp_0005_private_token_ba.Cli.Readers.{
  resolve, verify_lines, signed_challenge, sign_challenge_lines,
}
use lp_0005_private_token_ba.Cli.Commands.{prove_request, run_prover, prove_cmd}
use lp_0005_private_token_ba.Cli.Files.{
  Writable, parse_nonce-encode, load_receipt_written, load_presenter_other,
}

module _ (os : Platform) where
  abbrev kind_of : Bool → ReceiptKind
  kind_of true = groth16
  kind_of false = composite

  run_prover-ok :
      (wrap : Bool) (req : ProveRequest) (p : AttestationProof os.zk)
      → prove_with_kind os.sha os.prover req (kind_of wrap) ≡ ok p
      → run_prover os wrap req ≡ ok p
  unfolding run_prover prove_checked prove_groth16_checked
  run_prover-ok true req p proved = rw proved refl
  run_prover-ok false req p proved = rw proved refl

  -- The path of the demo request leads to its root.
  prove_request-witness_root :
      (pubkey : Bytes) (balance threshold : ℕ) (context_id : Bytes)
      → witness_root os.sha (private_inputs (prove_request os pubkey balance threshold context_id))
        ≡ (prove_request os pubkey balance threshold context_id).merkle_root
  unfolding prove_request precompute_leaf synthetic_merkle_path witness_root leaf_hash
      witness_commitment
  prove_request-witness_root pubkey balance threshold context_id = refl

  -- What is asked of the prover and the codec: a proof of what the guest commits, and an encoding of
  -- every receipt.
  abbrev pub Works : Type 0
  Works =
      Proves os.sha os.zk os.prover os.attestation_id
      × ((r : os.zk.Receipt) → (b : Bytes) × (os.codec.encode_to_vec r ≡ ok b))

  -- The journal that the demo request asks for.
  abbrev pub demo_journal :
      os.signer.SigningKey → (balance threshold : ℕ) (context : Bytes) → PublicJournal
  demo_journal key balance threshold context =
      journal_stub os.sha
        (prove_request os (os.signer.public key) balance threshold (context_id_from os.sha context))

  -- A file with a credential that verifies and has this journal.
  abbrev pub Holds : os.fs.State → os.fs.FilePath → PublicJournal → Type 0
  Holds s out j =
      (r : os.zk.Receipt) × (load_receipt os s out ≡ ok r)
      × (os.zk.verify r os.attestation_id ≡ ok tt)
      × (os.zk.decode_journal r ≡ ok j)

  module _ (laws : Documented os) (works : Works) where
    -- What `prove` leaves: no error, the credential in its file, and the key's file as it was.
    pub prove_cmd-Holds :
        (elapsed : Bytes) (s : os.fs.State) (presenter out : os.fs.FilePath)
        (key : os.signer.SigningKey) (balance threshold : ℕ) (context : Bytes) (wrap : Bool)
        → load_presenter os s presenter ≡ ok key
        → out ≢ presenter
        → Writable os laws s out
        → threshold ≤ balance
        → (let done = prove_cmd os elapsed s presenter balance threshold context wrap out in
            (done.outcome ≡ ok tt)
            × Holds done.files out (demo_journal key balance threshold context)
            × (load_presenter os done.files presenter ≡ ok key))
    unfolding prove_cmd
    prove_cmd-Holds elapsed s presenter out key balance threshold context wrap loaded apart writable
          reaches =
        let req =
          prove_request os (os.signer.public key) balance threshold
            (context_id_from os.sha context) in
        let j = journal_stub os.sha req in
        let (r, proved, verified, decoded) = works.0 (kind_of wrap) (private_inputs req) j j (
          guest_main-stub os.sha req (prove_request-witness_root _ balance threshold _)
            (unfold prove_request in reaches)) in
        let (b, encoded) = works.1 r in
        let (s', written) = writable b in
        let ran =
          run_prover-ok wrap req (record { receipt = r; journal = j })
            (unfold prove_with_kind in rw (proved, decoded) refl) in
        (
          rw (loaded, ran, encoded, written) refl,
          rw (loaded, ran, encoded, written)
              (r, load_receipt_written os laws s s' out r b encoded written, verified, decoded),
          rw (loaded, ran, encoded, written)
              (load_presenter_other os laws s s' out presenter b apart written ∙ loaded),
        )

  -- What `verify` prints for a journal.
  abbrev pub verified_lines : PublicJournal → List Bytes
  verified_lines j =
      codes "verified."
      ∷ (codes "threshold attested: " ++ decimal j.threshold)
      ∷ (codes "context_id:         0x" ++ os.hex.encode j.context_id)
      ∷ (codes "nullifier:          0x" ++ os.hex.encode j.nullifier)
      ∷ []

  module _ (laws : Documented os) (s : os.fs.State) (credential presenter : os.fs.FilePath)
      (j : PublicJournal) (key : os.signer.SigningKey) (holds : Holds s credential j)
      (loaded : load_presenter os s presenter ≡ ok key)
      (same_key : j.presenter_pubkey ≡ os.signer.public key) where
    accepted :
        (nonce context : Bytes) (floor : ℕ)
        → j.context_id ≡ context_id_from os.sha context
        → floor ≤ j.threshold
        → verify_credential os.zk os.attestation_id os.sha os.ec holds.0 nonce
            (sign os.signer os.sha key nonce j)
            (context_id_from os.sha context)
            floor
          ≡ ok j
    accepted nonce context floor same enough =
        let (r, stored, verified, decoded) = holds in
        (verify_credential-ok os.zk os.attestation_id os.sha os.ec r nonce
            (sign os.signer os.sha key nonce j) (context_id_from os.sha context) floor j).1
          (verified, decoded, same, enough, sign-Answers os.sha os.signer key nonce j same_key)

    pub verify_lines-presenter :
        (random context : Bytes) (floor : ℕ)
        → j.context_id ≡ context_id_from os.sha context
        → floor ≤ j.threshold
        → verify_lines os random s credential context floor none none (some presenter)
          ≡ ok (verified_lines j)
    unfolding verify_lines resolve
    verify_lines-presenter random context floor same enough =
        let (r, stored, verified, decoded) = holds in
        let received = (verify_receipt-ok os.zk os.attestation_id r j).1 (verified, decoded) in
        rw (stored, loaded, received, accepted random context floor same enough) refl

    pub signed_challenge-encode :
        (nonce : Bytes)
        → All IsByte nonce
        → length nonce ≡ 32
        → signed_challenge os s credential presenter (os.hex.encode nonce)
          ≡ ok (j, nonce, sign os.signer os.sha key nonce j)
    unfolding signed_challenge
    signed_challenge-encode nonce range size =
        let (r, stored, verified, decoded) = holds in
        rw (loaded, stored, decoded, parse_nonce-encode os laws nonce range size) refl

    -- A challenge in hexadecimal, answered by `sign-challenge` and checked by `verify`.
    pub challenge_response :
        (random nonce context : Bytes) (floor : ℕ) (other : Option os.fs.FilePath)
        → All IsByte nonce
        → length nonce ≡ 32
        → j.context_id ≡ context_id_from os.sha context
        → floor ≤ j.threshold
        → (answer : Bytes) × (sign_challenge_lines os s credential presenter (os.hex.encode nonce)
            ≡ ok (answer ∷ []))
          × (verify_lines os random s credential context floor
                (some (os.hex.encode nonce))
                (some answer)
                other
              ≡ ok (verified_lines j))
    unfolding sign_challenge_lines verify_lines resolve
    challenge_response random nonce context floor other range size same enough =
        let (r, stored, verified, decoded) = holds in
        let sig = sign os.signer os.sha key nonce j in
        let read =
          os.hex.decode_encode sig (unfold sign sign_digest in laws.signature_bytes key _) in
        (
          os.hex.encode sig,
          rw (signed_challenge-encode nonce range size) refl,
          rw
              (
                stored,
                parse_nonce-encode os laws nonce range size,
                trim-digits (os.hex.encode sig) (os.hex.encode-IsHexDigit sig),
                read,
                accepted nonce context floor same enough,
              )
              refl,
        )
