-- ===== src/Sdk/Errors/Classified.antt =====
-- Requests of crates/sdk/src/lib.rs that are not true, through prove_checked and prove_groth16_checked.
use lp_0005_private_token_ba.Prelude.{
  ◌≤◌, ◌⊎◌, inl, inr, Bool-cases, ltb, ltb→ge, ltb→lt, bytes_eq_cases, ◌≡◌, ◌≢◌, ◌<◌, refl, ap, ◌∙◌,
  String, codes, true, false, err,
}
use lp_0005_private_token_ba.Crypto.{Sha256}
use lp_0005_private_token_ba.Core.{
  PrivateInputs, PublicJournal, Panic, not_anchored, below_threshold, zero_nullifier,
}
use lp_0005_private_token_ba.Core.Attest.{attest_results, witness_root, witness_nullifier}
use lp_0005_private_token_ba.Circuit.{guest_main}
use lp_0005_private_token_ba.Circuit.Agreement.{guest_main-attest, statement_of}
use lp_0005_private_token_ba.Offchain.{Risc0}
use lp_0005_private_token_ba.Text.{contains_text}
use lp_0005_private_token_ba.Sdk.{
  ProveRequest, ReceiptKind, composite, groth16, Prover, private_inputs, journal_stub,
  prove_with_kind,
}
use lp_0005_private_token_ba.Sdk.Errors.{
  ErrorText, ProveError, statement_false, below_marker, anchor_marker, first_marker, classify,
  prove_checked, prove_groth16_checked,
}

-- The message of the guest's assert.
abbrev pub assert_message : Panic → String
assert_message not_anchored = anchor_marker
assert_message below_threshold = below_marker
assert_message zero_nullifier = "nullifier must be non-zero for the caller's PDA seed"

-- What a prover does with a guest that panics: an error whose text has the message of the assert that
-- failed, and of no other.
abbrev pub Reports : (sha : Sha256) (texts : ErrorText) {zk : Risc0} → Prover zk → Type 0
Reports sha texts prover =
    (kind : ReceiptKind) (w : PrivateInputs) (stub : PublicJournal) (p : Panic)
    → guest_main sha w stub ≡ err p
    → (e : String) × (prover.prove_with_opts kind w stub ≡ err e)
      × (contains_text (texts.alternate e) (codes (assert_message p)) ≡ true)
      × ((q : Panic) → p ≢ q → contains_text (texts.alternate e) (codes (assert_message q)) ≡ false)

module _ (sha : Sha256) (texts : ErrorText) where
  classify_below :
      (e : String)
      → contains_text (texts.alternate e) (codes below_marker) ≡ true
      → classify texts e ≡ statement_false (codes below_marker)
  unfolding classify first_marker
  classify_below e found = rw found refl

  classify_anchor :
      (e : String)
      → contains_text (texts.alternate e) (codes anchor_marker) ≡ true
      → contains_text (texts.alternate e) (codes below_marker) ≡ false
      → classify texts e ≡ statement_false (codes anchor_marker)
  unfolding classify first_marker
  classify_anchor e found no_other = rw (found, no_other) refl

  -- What both checked forms return.
  abbrev pub FailsWith : {zk : Risc0} → Prover zk → ProveRequest → ProveError → Type 0
  FailsWith prover req e =
      (prove_checked sha texts prover req ≡ err e)
      × (prove_groth16_checked sha texts prover req ≡ err e)

  panic-FailsWith :
      {zk : Risc0} (prover : Prover zk) (req : ProveRequest) (p : Panic) (e : ProveError)
      → Reports sha texts prover
      → guest_main sha (private_inputs req) (journal_stub sha req) ≡ err p
      → ((x : String)
          → contains_text (texts.alternate x) (codes (assert_message p)) ≡ true
          → ((q : Panic)
              → p ≢ q
              → contains_text (texts.alternate x) (codes (assert_message q)) ≡ false)
          → classify texts x ≡ e)
      → FailsWith prover req e
  unfolding prove_checked prove_groth16_checked prove_with_kind
  panic-FailsWith prover req p e reports panics known =
      let (x, failed, found, alone) =
        reports composite (private_inputs req) (journal_stub sha req) p panics in
      let (y, failed', found', alone') =
        reports groth16 (private_inputs req) (journal_stub sha req) p panics in
      (rw failed (ap err (known x found alone)), rw failed' (ap err (known y found' alone')))

  -- A request is true, or fails in both checked forms with a false statement that names its cause: the
  -- path where it does not lead to the root, and otherwise the balance below the threshold. The
  -- prover's error has the text of the guest's assert.
  pub prove_checked-FailsWith :
      {zk : Risc0} (prover : Prover zk) (req : ProveRequest)
      → Reports sha texts prover
      → ((witness_root sha (private_inputs req) ≡ req.merkle_root) × (req.threshold ≤ req.balance))
        ⊎ ((witness_root sha (private_inputs req) ≢ req.merkle_root)
            × FailsWith prover req (statement_false (codes anchor_marker)))
        ⊎ ((witness_root sha (private_inputs req) ≡ req.merkle_root)
            × (req.balance < req.threshold)
            × FailsWith prover req (statement_false (codes below_marker)))
  prove_checked-FailsWith prover req reports =
      let w = private_inputs req in
      let j = journal_stub sha req in
      let s = statement_of j in
      let results = attest_results sha w s (witness_nullifier sha w s) in
      let ran = guest_main-attest sha w j in
      elim (bytes_eq_cases (witness_root sha w) req.merkle_root) [
        | inr unanchored ↦ inr (
            inl (
              unanchored,
              panic-FailsWith prover req not_anchored _ reports
                  (ran ∙ rw (results.1.1 unanchored) refl)
                  (λ x found alone. classify_anchor x found (alone below_threshold (λ e. cc e))),
            ))
        | inl folds ↦ elim (Bool-cases (ltb req.balance req.threshold)) [
          | inr enough ↦ inl (folds, ltb→ge req.balance req.threshold enough)
          | inl low ↦
              let below = ltb→lt req.balance req.threshold low in
              inr (
                inr (
                  folds,
                  below,
                  panic-FailsWith prover req below_threshold _ reports
                      (ran ∙ rw (results.2.1 (folds, below)) refl)
                      (λ x found alone. classify_below x found),
                ))
        ]
      ]
