-- ===== src/Tests/Groups.antt =====
-- The chat gate and the relay gate at the fixtures.
use lp_0005_private_token_ba.Prelude.{
  ◌≡◌, refl, ap, ◌∙◌, Bytes, bytes_eq_refl, codes, contains, insert, true, ok, arith,
}
use lp_0005_private_token_ba.Chat
use lp_0005_private_token_ba.Chat.{group_context_id, new_roster, GroupRoster}
use lp_0005_private_token_ba.Chat.Members
use lp_0005_private_token_ba.Chat.Members.{members-Backed, admit_effect, group_context_id-injective}
use lp_0005_private_token_ba.Tests.Fixtures.{test_sha, test_ecdsa, test_risc0, pubkey, nonce}
use lp_0005_private_token_ba.Tests.Integrations.{image, journal_in, answer_in, credential_in}

abbrev group : Bytes
group = codes "rust"

abbrev group_request : Members.Request test_sha test_ecdsa test_risc0 image
group_request = record {
  receipt = journal_in (group_context_id test_sha group);
  presenter_nonce = nonce;
  presenter_signature_der = answer_in (group_context_id test_sha group);
}

abbrev roster : GroupRoster
roster =
    (Members.admit_on test_sha test_ecdsa test_risc0 image (new_roster group 50_000)
      group_request).1

admitted :
    contains
      (Chat.admit_verified
        (new_roster group 50_000)
        (ok (journal_in (group_context_id test_sha group)))).1.members
      pubkey
    ≡ true
unfolding contains Chat.admit_verified insert
admitted = rw (bytes_eq_refl pubkey) refl

joined_member : contains roster.members pubkey ≡ true
unfolding Chat.admit
joined_member =
    ap (λ v. contains (Chat.admit_verified (new_roster group 50_000) v).1.members pubkey)
      (credential_in (group_context_id test_sha group) 50_000 (omega arith))
    ∙ admitted

members-Backed_example : Members.Backed test_sha test_ecdsa test_risc0 image group 50_000 pubkey
members-Backed_example =
    members-Backed test_sha test_ecdsa test_risc0 image group 50_000 roster pubkey
      (Members.next Members.start group_request) joined_member
