-- ===== src/Tests/Crossing.antt =====
-- A chat group's credential at the other services, at the fixtures.
use lp_0005_private_token_ba.Prelude.{◌≡◌, ◌⊎◌, refl, [], Bytes, codes, true, ok, err, arith}
use lp_0005_private_token_ba.Core.{PublicJournal}
use lp_0005_private_token_ba.Kernel
use lp_0005_private_token_ba.Offchain.{context_mismatch, verify_credential}
use lp_0005_private_token_ba.Chat.{group_context_id, new_roster, GroupRoster, admit}
use lp_0005_private_token_ba.Chat
use lp_0005_private_token_ba.Premium.{pro, FeatureService, activate}
use lp_0005_private_token_ba.Premium
use lp_0005_private_token_ba.Nostr.{Lp0005AuthTag, Decoders, verify_nip42_with_lp0005}
use lp_0005_private_token_ba.Nostr
use lp_0005_private_token_ba.Governance.{new_proposal, Vote, cast_vote}
use lp_0005_private_token_ba.Governance
use lp_0005_private_token_ba.Services.{group, relay, tier, governance, service_context, Broken}
use lp_0005_private_token_ba.Services.Refusals.{accepted_elsewhere}
use lp_0005_private_token_ba.Nostr.Reply.{Carries}
use lp_0005_private_token_ba.Tests.Fixtures.{test_sha, test_ecdsa, test_risc0, nonce}
use lp_0005_private_token_ba.Tests.Integrations.{image, journal_in, answer_in, credential_in}

abbrev rust : Bytes
rust = codes "rust"

abbrev rust_context : Bytes
rust_context = group_context_id test_sha rust

abbrev member : PublicJournal
member = journal_in rust_context

-- Decoders that take the base64 and the hex of a text to be the text, and every blob to be the member's
-- receipt.
abbrev plain : Decoders test_risc0
plain = record {
  base64_decode = λ b. ok b;
  receipt_decode = λ b. ok member;
  hex_decode = λ b. ok b;
}

abbrev reply : Lp0005AuthTag
reply = record { credential_b64 = []; nonce_hex = nonce; signature_hex = answer_in rust_context }

reply-Carries : Carries test_risc0 plain reply member nonce (answer_in rust_context)
reply-Carries = record {
  blob = [];
  credential = refl;
  receipt = refl;
  nonce_read = refl;
  nonce_length = refl;
  signature_read = refl;
}

accepted_in_rust :
    verify_credential test_risc0 image test_sha test_ecdsa member nonce
      (answer_in rust_context)
      (service_context test_sha (group rust))
      50_000
    ≡ ok member
unfolding service_context
accepted_in_rust = credential_in rust_context 50_000 (omega arith)

abbrev other_group : GroupRoster
other_group = new_roster (codes "go") 1

abbrev features : FeatureService
features = record { active_sessions = [] }

abbrev vote : Vote
vote = record {
  attestation = member;
  presenter_nonce = nonce;
  presenter_signature_der = answer_in rust_context;
  minimum_stake = 1;
  vote_yes = true;
}

accepted_elsewhere_example :
    ((admit test_sha test_ecdsa test_risc0 image other_group member nonce (answer_in rust_context)
        ≡ (err (Chat.verify context_mismatch), other_group))
      ⊎ (group rust ≡ group (codes "go"))
      ⊎ Broken test_sha)
    × ((activate test_sha test_ecdsa test_risc0 image features pro member nonce
            (answer_in rust_context)
          ≡ (err (Premium.verify context_mismatch), features))
        ⊎ (group rust ≡ tier pro)
        ⊎ Broken test_sha)
    × ((verify_nip42_with_lp0005 test_sha test_ecdsa test_risc0 image plain reply rust 1
          ≡ err (Nostr.verify context_mismatch))
        ⊎ (group rust ≡ relay rust)
        ⊎ Broken test_sha)
    × ((cast_vote test_sha test_ecdsa new_proposal vote
          ≡ (err (Governance.gate Kernel.context_mismatch), new_proposal))
        ⊎ (group rust ≡ governance)
        ⊎ Broken test_sha)
accepted_elsewhere_example =
    accepted_elsewhere test_sha test_ecdsa test_risc0 image plain (group rust) member member nonce
      (answer_in rust_context) nonce (answer_in rust_context) 50_000 1 other_group features pro
      reply rust vote new_proposal accepted_in_rust reply-Carries refl
