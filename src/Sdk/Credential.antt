-- ===== src/Sdk/Credential.antt =====
-- Requests of crates/sdk/src/lib.rs, from the prover to the off-chain verifier.
use lp_0005_private_token_ba.Prelude.{
  ℕ, zero, suc, ◌≡◌, ◌≤◌, refl, ap, ◌∙◌, List, Bytes, length, ok,
}
use lp_0005_private_token_ba.Crypto.{Sha256, Ecdsa, Signer}
use lp_0005_private_token_ba.Core.{PrivateInputs, PublicJournal, leaf_hash, witness_commitment}
use lp_0005_private_token_ba.Core.Attest.{
  attest_results, witness_root, witness_nullifier, witness_id,
}
use lp_0005_private_token_ba.Circuit.{guest_main}
use lp_0005_private_token_ba.Circuit.Agreement.{guest_main-attest, statement_of}
use lp_0005_private_token_ba.Kernel
use lp_0005_private_token_ba.Kernel.Check.{Answers}
use lp_0005_private_token_ba.Offchain
use lp_0005_private_token_ba.Offchain.{Risc0, verify_credential}
use lp_0005_private_token_ba.Offchain.Results.{verify_credential-ok}
use lp_0005_private_token_ba.Sdk.{
  AttestationProof, ProveRequest, ReceiptKind, Prover, sign_digest, sign, private_inputs,
  journal_stub, prove_with_kind, precompute_leaf, synthetic_path_from, synthetic_merkle_path,
  DemoFixture, into_request,
}

module _ (sha : Sha256) where
  -- The guest, on a true request, commits the journal stub itself.
  pub guest_main-stub :
      (req : ProveRequest)
      → witness_root sha (private_inputs req) ≡ req.merkle_root
      → req.threshold ≤ req.balance
      → guest_main sha (private_inputs req) (journal_stub sha req) ≡ ok (journal_stub sha req)
  unfolding witness_nullifier witness_id
  guest_main-stub req folds reaches =
      let w = private_inputs req in
      let s = statement_of (journal_stub sha req) in
      guest_main-attest sha w (journal_stub sha req)
      ∙ rw ((attest_results sha w s (witness_nullifier sha w s)).0.1 (folds, reaches, refl)) refl

  -- What a prover does with a guest that commits a journal: a receipt of that journal, which verifies
  -- under the guest's image.
  abbrev pub Proves : (zk : Risc0) → Prover zk → List ℕ → Type 0
  Proves zk prover image =
      (kind : ReceiptKind) (w : PrivateInputs) (stub j : PublicJournal)
      → guest_main sha w stub ≡ ok j
      → (r : zk.Receipt) × (prover.prove_with_opts kind w stub ≡ ok r)
        × (zk.verify r image ≡ ok tt)
        × (zk.decode_journal r ≡ ok j)

  module _ {ec : Ecdsa} (signer : Signer ec) where
    pub sign-Answers :
        (key : signer.SigningKey) (nonce : Bytes) (j : PublicJournal)
        → j.presenter_pubkey ≡ signer.public key
        → Answers sha ec j nonce (sign signer sha key nonce j)
    unfolding sign sign_digest Offchain.presenter_challenge_digest Kernel.presenter_challenge_digest
    sign-Answers key nonce j same = (
      signer.verifying_key key,
      signer.signature key _,
      rw same (signer.public_parses key),
      signer.signature_parses key _,
      signer.signature_verifies key _,
    )

    -- A request whose path leads to its root and whose balance reaches its threshold, made with the
    -- public half of a signing key, is proved, with the host's journal in the receipt; and whatever nonce
    -- a verifier draws, the credential with the key's signature is accepted in the request's context at
    -- every floor up to the threshold. The prover proves what the guest commits, and the signature
    -- scheme accepts its own signatures.
    pub prove-verify_credential :
        (zk : Risc0) (prover : Prover zk) (image : List ℕ) (req : ProveRequest) (kind : ReceiptKind)
        (key : signer.SigningKey) (nonce : Bytes) (floor : ℕ)
        → Proves zk prover image
        → witness_root sha (private_inputs req) ≡ req.merkle_root
        → req.threshold ≤ req.balance
        → req.presenter_pubkey ≡ signer.public key
        → floor ≤ req.threshold
        → (p : AttestationProof zk) × (prove_with_kind sha prover req kind ≡ ok p)
          × (p.journal ≡ journal_stub sha req)
          × (verify_credential zk image sha ec p.receipt nonce
                (sign signer sha key nonce p.journal)
                req.context_id
                floor
              ≡ ok p.journal)
    unfolding prove_with_kind
    prove-verify_credential zk prover image req kind key nonce floor proves folds reaches same_key
          enough =
        let j = journal_stub sha req in
        let (r, proved, verified, decoded) =
          proves kind (private_inputs req) j j (guest_main-stub req folds reaches) in
        (
          record { receipt = r; journal = j },
          rw (proved, decoded) refl,
          refl,
          (verify_credential-ok zk image sha ec r nonce (sign signer sha key nonce j) req.context_id
                floor j).1
              (verified, decoded, refl, enough, sign-Answers key nonce j same_key),
        )

  length-synthetic_path_from : (i depth : ℕ) → length (synthetic_path_from sha i depth) ≡ depth
  unfolding synthetic_path_from
  length-synthetic_path_from i zero = refl
  length-synthetic_path_from i (suc depth) = ap suc (length-synthetic_path_from (suc i) depth)

  -- A demo fixture becomes a request whose path, of the fixture's depth, leads from its own leaf to its
  -- own root: the host's helpers and the guest agree on the leaf.
  pub into_request-witness_root :
      (fixture : DemoFixture)
      → (witness_root sha (private_inputs (into_request sha fixture))
          ≡ (into_request sha fixture).merkle_root)
        × (length (into_request sha fixture).merkle_path ≡ fixture.tree_depth)
  unfolding into_request precompute_leaf synthetic_merkle_path witness_root leaf_hash
      witness_commitment
  into_request-witness_root fixture = (refl, length-synthetic_path_from 0 fixture.tree_depth)
