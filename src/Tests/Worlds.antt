-- ===== src/Tests/Worlds.antt =====
-- Services used side by side, at the fixtures, with receipts that are the runs themselves.
use lp_0005_private_token_ba.Prelude.{
  ◌≡◌, ◌⊎◌, refl, [], true, ap, ◌∙◌, ◌++◌, Bytes, bytes_eq_refl, codes, contains, ok, arith,
}
use mathlib.Core.Path.{subst}
use lp_0005_private_token_ba.Crypto.{length-hash_parts}
use lp_0005_private_token_ba.Core.{PublicJournal, IsJournal, IsHash, compute_nullifier}
use lp_0005_private_token_ba.Core.Binding.{length-compute_nullifier}
use lp_0005_private_token_ba.Core.Merkle.{length-root}
use lp_0005_private_token_ba.Core.Attest.{
  commitment_root, attest_results, witness_nullifier, witness_id,
}
use lp_0005_private_token_ba.Circuit.{guest_main}
use lp_0005_private_token_ba.Circuit.Agreement.{guest_main-attest, statement_of}
use lp_0005_private_token_ba.Kernel
use lp_0005_private_token_ba.Kernel.Check.{Answers}
use lp_0005_private_token_ba.Offchain.{Risc0, verify_credential}
use lp_0005_private_token_ba.Offchain.Results.{verify_credential-ok}
use lp_0005_private_token_ba.Offchain.Holders.{Attested, Sound}
use lp_0005_private_token_ba.Chat.{group_context_id, new_roster, admit, admit_verified}
use lp_0005_private_token_ba.Chat.Members
use lp_0005_private_token_ba.Chat.Members.{admit_verified-fresh}
use lp_0005_private_token_ba.Premium.{pro, context_id}
use lp_0005_private_token_ba.Premium.Sessions
use lp_0005_private_token_ba.Governance.{governance_context_id, new_proposal, Vote, cast_vote}
use lp_0005_private_token_ba.Services.{group, Broken}
use lp_0005_private_token_ba.Services.World.{
  World, IsSpent, Reached, start, admits, activates, votes, spent_once,
}
use lp_0005_private_token_ba.Tests.Fixtures.{
  test_sha, test_ecdsa, accounts, witness, statement, pubkey, nonce, holder_id,
}
use lp_0005_private_token_ba.Tests.Attestation.{witness-IsWitness, witness_proved}
use lp_0005_private_token_ba.Tests.Integrations.{image}

-- A receipt is a journal with the run that committed it.
abbrev pub transparent : Risc0
transparent = record {
  Receipt = (j : PublicJournal) × Attested test_sha j;
  verify = λ r image_id. ok tt;
  decode_journal = λ r. ok r.0;
}

pub transparent-Sound : Sound test_sha transparent image
transparent-Sound r j verified decoded = subst (Attested test_sha) (cc decoded) r.1

-- The holder's journal in a context, and the answer to its challenge.
abbrev pub held_journal : Bytes → PublicJournal
held_journal ctx = record {
  merkle_root = commitment_root test_sha accounts;
  threshold = 100_000;
  context_id = ctx;
  presenter_pubkey = pubkey;
  nullifier = compute_nullifier test_sha pubkey ctx holder_id;
}

abbrev pub held_answer : Bytes → Bytes
held_answer ctx = pubkey ++ Kernel.presenter_challenge_digest test_sha nonce (held_journal ctx)

held_journal-IsJournal : (ctx : Bytes) → IsHash ctx → IsJournal (held_journal ctx)
unfolding commitment_root
held_journal-IsJournal ctx context = record {
  root_hash = length-root test_sha _;
  threshold_u128 = omega arith;
  context_hash = context;
  pubkey_length = refl;
  nullifier_hash = length-compute_nullifier test_sha _ _ _;
}

held_run : (ctx : Bytes) → guest_main test_sha witness (held_journal ctx) ≡ ok (held_journal ctx)
unfolding witness_nullifier witness_id
held_run ctx =
    let anchored = ((attest_results test_sha witness statement _).0.0 witness_proved).0 in
    guest_main-attest test_sha witness (held_journal ctx)
    ∙ rw
        ((attest_results test_sha witness (statement_of (held_journal ctx)) _).0.1
          (anchored, omega arith, refl))
        refl

held : (ctx : Bytes) → IsHash ctx → Attested test_sha (held_journal ctx)
held ctx context = record {
  witness = witness;
  stub = held_journal ctx;
  sized = witness-IsWitness;
  stub_sized = held_journal-IsJournal ctx context;
  committed = held_run ctx;
}

abbrev rust_context : Bytes
rust_context = group_context_id test_sha (codes "rust")

rust_context-IsHash : IsHash rust_context
unfolding group_context_id
rust_context-IsHash = length-hash_parts test_sha _

abbrev credential : transparent.Receipt
credential = (held_journal rust_context, held rust_context rust_context-IsHash)

answered : Answers test_sha test_ecdsa credential.0 nonce (held_answer rust_context)
answered = (pubkey, held_answer rust_context, refl, refl, bytes_eq_refl (held_answer rust_context))

credential_accepted :
    verify_credential transparent image test_sha test_ecdsa credential nonce
      (held_answer rust_context)
      rust_context
      50_000
    ≡ ok (held_journal rust_context)
credential_accepted =
    (verify_credential-ok transparent image test_sha test_ecdsa credential nonce
        (held_answer rust_context) rust_context 50_000 (held_journal rust_context)).1
      (refl, refl, refl, omega arith, answered)

abbrev request : Members.Request test_sha test_ecdsa transparent image
request = record {
  receipt = credential;
  presenter_nonce = nonce;
  presenter_signature_der = held_answer rust_context;
}

abbrev pro_context : Bytes
pro_context = context_id test_sha pro

pro_context-IsHash : IsHash pro_context
unfolding context_id
pro_context-IsHash = length-hash_parts test_sha _

abbrev pro_request : Sessions.Request test_sha test_ecdsa transparent image
pro_request = record {
  tier = pro;
  receipt = (held_journal pro_context, held pro_context pro_context-IsHash);
  presenter_nonce = nonce;
  presenter_signature_der = held_answer pro_context;
}

abbrev pub holders_vote : Vote
holders_vote = record {
  attestation = held_journal governance_context_id;
  presenter_nonce = nonce;
  presenter_signature_der = held_answer governance_context_id;
  minimum_stake = 1;
  vote_yes = true;
}

-- The holder joins the group, takes a tier and votes.
abbrev used_world : World
used_world = record {
  roster =
      (Members.admit_on test_sha test_ecdsa transparent image (new_roster (codes "rust") 50_000)
        request).1;
  features =
      (Sessions.activate_on test_sha test_ecdsa transparent image (record { active_sessions = [] })
        pro_request).1;
  proposal = (cast_vote test_sha test_ecdsa new_proposal holders_vote).1;
}

joins :
    Members.admit_on test_sha test_ecdsa transparent image
      (new_roster (codes "rust") 50_000)
      request
    ≡ (
      ok (held_journal rust_context),
      Members.joined (new_roster (codes "rust") 50_000) (held_journal rust_context),
    )
unfolding admit contains
joins =
    ap (admit_verified (new_roster (codes "rust") 50_000)) credential_accepted
    ∙ admit_verified-fresh (new_roster (codes "rust") 50_000) (held_journal rust_context) refl

IsSpent-in_rust : IsSpent used_world (group (codes "rust")) (held_journal rust_context).nullifier
unfolding IsSpent contains
IsSpent-in_rust = rw joins (refl, rw (bytes_eq_refl (held_journal rust_context).nullifier) refl)

used_world-Reached : Reached test_sha test_ecdsa transparent image (codes "rust") 50_000 used_world
used_world-Reached =
    votes (activates (admits start request) pro_request) holders_vote
      (held governance_context_id refl)

spent_once_example : (group (codes "rust") ≡ group (codes "rust")) ⊎ Broken test_sha
spent_once_example =
    spent_once test_sha test_ecdsa transparent image (codes "rust") 50_000 used_world
      (group (codes "rust")) (group (codes "rust")) (held_journal rust_context).nullifier
      transparent-Sound used_world-Reached IsSpent-in_rust IsSpent-in_rust
