-- ===== src/Tests/Replies.antt =====
-- A reply to a relay, made of a proof for a demo fixture.
use lp_0005_private_token_ba.Prelude.{
  ℕ, zero, suc, ◌≡◌, refl, [], ◌∷◌, ◌++◌, Bytes, codes, length, replicate, true, ok, arith,
}
use lp_0005_private_token_ba.Core.{PublicJournal}
use lp_0005_private_token_ba.Sdk.{
  AttestationProof, ProveRequest, DemoFixture, into_request, composite, prove_with_kind, sign,
}
use lp_0005_private_token_ba.Sdk.Credential.{into_request-witness_root}
use lp_0005_private_token_ba.Nostr.{Decoders, context_id_for_relay, verify_nip42_with_lp0005}
use lp_0005_private_token_ba.Nostr.Reply.{Encoders}
use lp_0005_private_token_ba.Services.{relay, service_context}
use lp_0005_private_token_ba.Services.Served.{prove_served}
use lp_0005_private_token_ba.Tests.Fixtures.{test_sha, test_ecdsa, test_risc0, test_signer, npk}
use lp_0005_private_token_ba.Tests.Client.{test_prover, test_prover-Proves}

-- A part of a blob stands behind its length.
abbrev split_at : ℕ → Bytes → Bytes × Bytes
split_at zero text = ([], text)
split_at (suc n) [] = ([], [])
split_at (suc n) (b ∷ text) = let (front, rest) = split_at n text in (b ∷ front, rest)

split_at-append : (xs ys : Bytes) → split_at (length xs) (xs ++ ys) ≡ (xs, ys)
split_at-append [] ys = refl
split_at-append (x ∷ xs) ys = rw (split_at-append xs ys) refl

unfoldable unframe : Bytes → Bytes × Bytes
unframe [] = ([], [])
unframe (n ∷ text) = split_at n text

abbrev frame : Bytes → Bytes → Bytes
frame part rest = length part ∷ (part ++ rest)

unframe-frame : (part rest : Bytes) → unframe (frame part rest) ≡ (part, rest)
unfolding unframe
unframe-frame part rest = split_at-append part rest

abbrev journal_blob : PublicJournal → Bytes
journal_blob j =
    j.threshold
    ∷ frame j.merkle_root (frame j.context_id (frame j.presenter_pubkey (frame j.nullifier [])))

abbrev blob_journal : Bytes → PublicJournal
blob_journal [] = record {
  merkle_root = [];
  threshold = 0;
  context_id = [];
  presenter_pubkey = [];
  nullifier = [];
}
blob_journal (threshold ∷ text) =
    let (root, text') = unframe text in
    let (ctx, text'') = unframe text' in
    let (pubkey, text''') = unframe text'' in
    record {
      merkle_root = root;
      threshold = threshold;
      context_id = ctx;
      presenter_pubkey = pubkey;
      nullifier = (unframe text''').0;
    }

blob_journal-journal_blob : (j : PublicJournal) → blob_journal (journal_blob j) ≡ j
blob_journal-journal_blob j = rw (unframe-frame, unframe-frame, unframe-frame, unframe-frame) refl

abbrev relay_decoders : Decoders test_risc0
relay_decoders = record {
  base64_decode = λ b. ok b;
  receipt_decode = λ b. ok (blob_journal b);
  hex_decode = λ b. ok b;
}

abbrev client_encoders : Encoders test_risc0 relay_decoders
client_encoders = record {
  tag_of = λ r nonce sig_der. record {
    credential_b64 = journal_blob r;
    nonce_hex = nonce;
    signature_hex = sig_der;
  };
  reads_back = λ r nonce sig_der long. record {
    blob = journal_blob r;
    credential = refl;
    receipt = rw (blob_journal-journal_blob r) refl;
    nonce_read = refl;
    nonce_length = long;
    signature_read = refl;
  };
}

abbrev relay_url : Bytes
relay_url = codes "wss://relay.example"

abbrev fixture : DemoFixture
fixture = record {
  npk = npk;
  identifier = 42;
  program_owner = replicate 8 1;
  balance = 1_000;
  nonce = 7;
  data_seed = codes "seed";
  leaf_index = 3;
  tree_depth = 2;
  threshold = 500;
  context_id = context_id_for_relay test_sha relay_url;
  presenter_pubkey = test_signer.public 77;
}

abbrev reply_request : ProveRequest
reply_request = into_request test_sha fixture

-- The presenter's own choice.
abbrev chosen : Bytes
chosen = replicate 32 5

prove_served_example :
    (p : AttestationProof test_risc0) × (prove_with_kind test_sha test_prover reply_request
        composite
      ≡ ok p)
    × (verify_nip42_with_lp0005 test_sha test_ecdsa test_risc0
          (5 ∷ [])
          relay_decoders
          (client_encoders.tag_of p.receipt chosen (sign test_signer test_sha 77 chosen p.journal))
          relay_url
          400
        ≡ ok p.journal)
unfolding into_request service_context
prove_served_example =
    prove_served test_sha test_ecdsa test_risc0 (5 ∷ []) relay_decoders client_encoders test_signer
      test_prover (relay relay_url) reply_request composite 77 chosen 400 true test_prover-Proves
      (into_request-witness_root test_sha fixture).0 (omega arith) refl refl (omega arith) refl
