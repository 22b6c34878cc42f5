-- ===== src/Tests/Failures.antt =====
-- The errors of the SDK at a prover that reports the asserts of the guest.
use lp_0005_private_token_ba.Prelude.{
  Bool-cases, ltb, ltb→lt, ltb→ge, inl, inr, ◌^◌, ByteMap, put, [], ◌∷◌, replicate, le_bytes, Bytes,
  ◌≤◌, ◌⊎◌, ◌≡◌, ◌≢◌, ◌<◌, refl, String, codes, true, false, Result, ok, err,
}
use lp_0005_private_token_ba.Core.{
  PublicJournal, Panic, not_anchored, below_threshold, zero_nullifier,
}
use lp_0005_private_token_ba.Circuit.{guest_main}
use lp_0005_private_token_ba.Core.Attest.{witness_root}
use lp_0005_private_token_ba.Cli.{json_macro_panic}
use lp_0005_private_token_ba.Cli.Readers.{journal_lines}
use lp_0005_private_token_ba.Cli.Session.{Holds}
use lp_0005_private_token_ba.Cli.Files.{load_receipt_written}
use lp_0005_private_token_ba.Cli.Journal.{NumberLimit, ShowsHex, journal_lines_results}
use lp_0005_private_token_ba.Sdk.{Prover, ProveRequest, private_inputs}
use lp_0005_private_token_ba.Sdk.Errors.{ErrorText, statement_false, anchor_marker, below_marker}
use lp_0005_private_token_ba.Sdk.Errors.Classified.{
  Reports, FailsWith, assert_message, prove_checked-FailsWith,
}
use lp_0005_private_token_ba.Text.{contains_text}
use lp_0005_private_token_ba.Cli.Commands.{prove_request}
use lp_0005_private_token_ba.Tests.Fixtures.{test_sha, test_risc0}
use lp_0005_private_token_ba.Tests.Platform.{os, os-Documented, put_journal}

-- A prover whose error is the message of the assert.
abbrev failed : Result Panic PublicJournal → Result String PublicJournal
failed (ok j) = ok j
failed (err p) = err (assert_message p)

abbrev honest_prover : Prover test_risc0
honest_prover = record { prove_with_opts = λ kind w stub. failed (guest_main test_sha w stub) }

abbrev texts : ErrorText
texts = record { alternate = λ e. codes e; to_lowercase = λ b. b }

no_other_message :
    (p q : Panic)
    → p ≢ q
    → contains_text (codes (assert_message p)) (codes (assert_message q)) ≡ false
unfolding contains_text
no_other_message not_anchored not_anchored ne = absurd (ne refl)
no_other_message not_anchored below_threshold ne = refl
no_other_message not_anchored zero_nullifier ne = refl
no_other_message below_threshold not_anchored ne = refl
no_other_message below_threshold below_threshold ne = absurd (ne refl)
no_other_message below_threshold zero_nullifier ne = refl
no_other_message zero_nullifier not_anchored ne = refl
no_other_message zero_nullifier below_threshold ne = refl
no_other_message zero_nullifier zero_nullifier ne = absurd (ne refl)

own_message :
    (p : Panic) → contains_text (codes (assert_message p)) (codes (assert_message p)) ≡ true
unfolding contains_text
own_message not_anchored = refl
own_message below_threshold = refl
own_message zero_nullifier = refl

honest_prover-Reports : Reports test_sha texts honest_prover
honest_prover-Reports kind w stub p panics =
    (assert_message p, rw panics refl, own_message p, no_other_message p)

abbrev poor : ProveRequest
poor = prove_request os (le_bytes 33 9) 3 7 (replicate 32 1)

prove_checked-FailsWith_example :
    ((witness_root test_sha (private_inputs poor) ≡ poor.merkle_root)
      × (poor.threshold ≤ poor.balance))
    ⊎ ((witness_root test_sha (private_inputs poor) ≢ poor.merkle_root)
        × FailsWith test_sha texts honest_prover poor (statement_false (codes anchor_marker)))
    ⊎ ((witness_root test_sha (private_inputs poor) ≡ poor.merkle_root)
        × (poor.balance < poor.threshold)
        × FailsWith test_sha texts honest_prover poor (statement_false (codes below_marker)))
prove_checked-FailsWith_example =
    prove_checked-FailsWith test_sha texts honest_prover poor honest_prover-Reports

number_limit : NumberLimit os
number_limit n = elim (Bool-cases (ltb n (2 ^ 64))) [
  | inl fits ↦ inl (ltb→lt n (2 ^ 64) fits, n ∷ [], rw fits refl)
  | inr large ↦ inr (ltb→ge n (2 ^ 64) large, "number out of range", rw large refl)
]

-- A journal with the least threshold that is too large.
abbrev large : PublicJournal
large = record {
  merkle_root = replicate 32 1;
  threshold = 2 ^ 64;
  context_id = replicate 32 3;
  presenter_pubkey = le_bytes 33 9;
  nullifier = replicate 32 2;
}

abbrev stored : ByteMap Bytes
stored = put [] (codes "cred") (put_journal large)

stored-Holds : Holds os stored (codes "cred") large
stored-Holds = (
  large,
  load_receipt_written os os-Documented [] stored (codes "cred") large (put_journal large) refl
      refl,
  refl,
  refl,
)

journal_lines_results_example :
    ((large.threshold < 2 ^ 64)
      × (line : Bytes) × (v : Bytes) × (journal_lines os stored (codes "cred") ≡ ok (line ∷ []))
      × (os.json_text.from_str line ≡ ok v)
      × ShowsHex os v "merkle_root" large.merkle_root
      × ShowsHex os v "context_id" large.context_id
      × ShowsHex os v "presenter_pubkey" large.presenter_pubkey
      × ShowsHex os v "nullifier" large.nullifier)
    ⊎ ((2 ^ 64 ≤ large.threshold)
        × (e : String) × (journal_lines os stored (codes "cred") ≡ err (json_macro_panic e)))
journal_lines_results_example =
    journal_lines_results os os-Documented number_limit stored (codes "cred") large stored-Holds
