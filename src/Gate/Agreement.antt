-- ===== src/Gate/Agreement.antt =====
-- The guests of crates/verifier-program-spel/methods beside the kernel and the off-chain verifier.
use lp_0005_private_token_ba.Prelude.{
  ℕ, ◌≡◌, ◌≢◌, ◌≤◌, ◌↔◌, ◌⊎◌, inl, inr, ap, [], ◌∷◌, ◌++◌, Bytes, length, length-append, le_bytes,
  concat, ok, arith, bytes_eq_iff, bytes_eq_cases,
}
use lp_0005_private_token_ba.Crypto.{Sha256, Ecdsa, Signer, Collision, hash_parts}
use lp_0005_private_token_ba.Core.{PublicJournal, IsJournal, IsHash}
use lp_0005_private_token_ba.Kernel
use lp_0005_private_token_ba.Kernel.{challenge_prefix, GateInputs, check_gate, verify_presenter}
use lp_0005_private_token_ba.Offchain
use lp_0005_private_token_ba.Circuit.{Lee}
use lp_0005_private_token_ba.Gate.{SpelOutput, GateArgs}
use lp_0005_private_token_ba.Gate.Shallow
use lp_0005_private_token_ba.Gate.Chained
use lp_0005_private_token_ba.Gate.Deep
use lp_0005_private_token_ba.Gate.Deep.Acceptance.{journal_of}

abbrev pub gate_inputs : GateArgs → GateInputs
gate_inputs args = record {
  attested = journal_of args;
  expected_context_id = args.expected_context_id;
  minimum_threshold = args.minimum_threshold;
  challenge_nonce = args.presenter_nonce;
  presenter_signature_der = args.presenter_signature_der;
}

module _ (sha : Sha256) (ec : Ecdsa) where
  -- One signature serves everywhere: the kernel, the off-chain verifier, the shallow and the deep
  -- guest accept the same answers to a challenge on a journal.
  pub presenter_checks_agree :
      (j : PublicJournal) (nonce sig_der : Bytes)
      → ((verify_presenter sha ec j nonce sig_der ≡ ok tt)
          ↔ (Offchain.verify_presenter_signature sha ec j nonce sig_der ≡ ok tt))
        × ((verify_presenter sha ec j nonce sig_der ≡ ok tt) ↔ (
            Shallow.verify_presenter_signature ec
              (Shallow.presenter_challenge_digest sha nonce j.merkle_root j.threshold j.context_id
                j.presenter_pubkey j.nullifier)
              j.presenter_pubkey
              sig_der
            ≡ ok tt))
        × ((verify_presenter sha ec j nonce sig_der ≡ ok tt) ↔ (
            Deep.verify_presenter_signature ec
              (Deep.presenter_challenge_digest sha nonce j.merkle_root j.threshold j.context_id
                j.presenter_pubkey j.nullifier)
              j.presenter_pubkey
              sig_der
            ≡ ok tt))
  unfolding verify_presenter Kernel.presenter_challenge_digest Offchain.verify_presenter_signature
      Offchain.presenter_challenge_digest Shallow.verify_presenter_signature
      Shallow.presenter_challenge_digest Deep.verify_presenter_signature
      Deep.presenter_challenge_digest
  presenter_checks_agree j nonce sig_der = (ground arith, ground arith, ground arith)

  -- The shallow guest accepts exactly what the kernel's gate accepts with a 33-byte key; it then
  -- returns the presenter's account and calls no other program.
  pub shallow-check_gate :
      (lee : Lee) (presenter : lee.AccountWithMetadata) (args : GateArgs)
      (out : SpelOutput lee lee.Account Bytes)
      → (Shallow.gated_check sha ec lee presenter args ≡ ok out) ↔ (
          (length args.presenter_pubkey ≡ 33)
          × (check_gate sha ec (gate_inputs args) ≡ ok tt)
          × (out ≡ record { accounts = lee.account presenter ∷ []; chained = [] }))
  unfolding Shallow.gated_check Shallow.verify_presenter_signature
      Shallow.presenter_challenge_digest check_gate verify_presenter
      Kernel.presenter_challenge_digest
  shallow-check_gate lee presenter args out = ground arith

  -- The shallow guest looks at no attestation: whoever holds a key of their own passes it with any
  -- root, any nullifier and any threshold that reaches the floor, in the expected context, where the
  -- signer's keys and signatures are the ones of the signature scheme.
  pub shallow_needs_no_attestation :
      (signer : Signer ec) (sk : signer.SigningKey) (lee : Lee)
      (presenter : lee.AccountWithMetadata) (root ctx nullifier nonce : Bytes) (threshold floor : ℕ)
      → floor ≤ threshold
      → Shallow.gated_check sha ec lee presenter (record {
        merkle_root = root;
        threshold = threshold;
        context_id = ctx;
        presenter_pubkey = signer.public sk;
        nullifier = nullifier;
        presenter_nonce = nonce;
        presenter_signature_der = signer.sign_der sk (
            Shallow.presenter_challenge_digest sha nonce root threshold ctx
              (signer.public sk)
              nullifier);
        expected_context_id = ctx;
        minimum_threshold = floor;
      })
        ≡ ok (record { accounts = lee.account presenter ∷ []; chained = [] })
  unfolding Shallow.gated_check Shallow.verify_presenter_signature
  shallow_needs_no_attestation signer sk lee presenter root ctx nullifier nonce threshold floor h =
      let digest =
        Shallow.presenter_challenge_digest sha nonce root threshold ctx (signer.public sk)
          nullifier in
      ground (
        arith,
        bytes_eq_iff ctx ctx,
        signer.length-public sk,
        signer.public_parses sk,
        signer.signature_parses sk digest,
        signer.signature_verifies sk digest,
      )

shorter :
    (nonce h fields : Bytes)
    → IsHash nonce
    → IsHash h
    → (nonce ++ h) ≢ (challenge_prefix ++ (nonce ++ fields))
shorter nonce h fields hn hh e =
    omega (arith, ap length e, length-append {0} nonce h, length-append {0} nonce fields)

module _ (sha : Sha256) where
  -- For a 32-byte nonce and a journal with fields of the sizes of their Rust types, the v2 guest checks
  -- the signature on another digest than the kernel computes for the same nonce and journal, unless
  -- SHA-256 collides.
  pub chained-digest-ne :
      (j : PublicJournal) (nonce : Bytes)
      → IsJournal j
      → IsHash nonce
      → (Chained.challenge_digest sha nonce (
            Chained.canonical_journal_bytes j.merkle_root j.threshold j.context_id
              j.presenter_pubkey j.nullifier)
          ≢ Kernel.presenter_challenge_digest sha nonce j)
        ⊎ Collision sha
  unfolding Chained.challenge_digest Kernel.presenter_challenge_digest hash_parts
  chained-digest-ne j nonce hj hn =
      let journal_hash : Bytes = sha.digest (
        Chained.canonical_journal_bytes j.merkle_root j.threshold j.context_id j.presenter_pubkey
          j.nullifier) in
      let fields : Bytes = concat (
        j.merkle_root
        ∷ le_bytes 16 j.threshold
        ∷ j.context_id
        ∷ j.presenter_pubkey
        ∷ j.nullifier
        ∷ []) in
      elim (bytes_eq_cases (sha.digest (nonce ++ journal_hash))
        (sha.digest (challenge_prefix ++ (nonce ++ fields)))) [
          | inl same ↦ inr (
            _,
            _,
            λ e. absurd (shorter nonce journal_hash fields hn (sha.length-digest _) e),
            same,
          )
          | inr differ ↦ inl differ
        ]
