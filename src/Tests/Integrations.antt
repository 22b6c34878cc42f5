-- ===== src/Tests/Integrations.antt =====
-- The governance gate and the premium features at the fixtures.
use lp_0005_private_token_ba.Prelude.{
  ℕ, ◌≡◌, ◌≢◌, ◌≤◌, ◌⊎◌, refl, ap, ◌∙◌, List, [], ◌∷◌, ◌++◌, Bytes, bytes_eq, bytes_eq_ne,
  bytes_eq_refl, length, replicate, contains, lookup, put, contains_key, true, false, some, ok,
  arith,
}
use lp_0005_private_token_ba.Crypto.{Collision}
use lp_0005_private_token_ba.Core.{PublicJournal, compute_nullifier}
use lp_0005_private_token_ba.Kernel
use lp_0005_private_token_ba.Kernel.{GateError, check_gate, GateInputs}
use lp_0005_private_token_ba.Kernel.Check.{Answers}
use lp_0005_private_token_ba.Offchain.{verify_credential}
use lp_0005_private_token_ba.Offchain.Results.{verify_credential-ok}
use lp_0005_private_token_ba.Governance.{governance_context_id, new_proposal, Vote}
use lp_0005_private_token_ba.Governance.Tally.{
  IsTally, cast_votes, cast_votes-IsTally, two_keys_two_nullifiers,
}
use lp_0005_private_token_ba.Premium
use lp_0005_private_token_ba.Premium.{
  FeatureService, Tier, pro, free, minimum_balance, context_id, tier_for,
}
use lp_0005_private_token_ba.Premium.Sessions
use lp_0005_private_token_ba.Premium.Sessions.{
  sessions-Backed, activate_effect, context_id-injective,
}
use lp_0005_private_token_ba.Tests.Fixtures.{
  test_sha, test_ecdsa, test_risc0, journal, pubkey, nonce, holder_id,
}

abbrev pub image : List ℕ
image = 5 ∷ []

-- The fixtures' journal in another context, and the answer to its challenge.
abbrev pub journal_in : Bytes → PublicJournal
journal_in ctx = record journal { context_id = ctx }

abbrev pub answer_in : Bytes → Bytes
answer_in ctx = pubkey ++ Kernel.presenter_challenge_digest test_sha nonce (journal_in ctx)

pub answered_in : (ctx : Bytes) → Answers test_sha test_ecdsa (journal_in ctx) nonce (answer_in ctx)
answered_in ctx = (pubkey, answer_in ctx, refl, refl, bytes_eq_refl (answer_in ctx))

pub credential_in :
    (ctx : Bytes) (floor : ℕ)
    → floor ≤ 100_000
    → verify_credential test_risc0 image test_sha test_ecdsa
        (journal_in ctx)
        nonce
        (answer_in ctx)
        ctx
        floor
      ≡ ok (journal_in ctx)
credential_in ctx floor reaches =
    (verify_credential-ok test_risc0 image test_sha test_ecdsa (journal_in ctx) nonce
        (answer_in ctx) ctx floor (journal_in ctx)).1
      (refl, refl, refl, reaches, answered_in ctx)

-- Two votes of one key: the second is refused.
abbrev pub vote : Vote
vote = record {
  attestation = journal_in governance_context_id;
  presenter_nonce = nonce;
  presenter_signature_der = answer_in governance_context_id;
  minimum_stake = 50_000;
  vote_yes = true;
}

cast_votes-IsTally_example :
    IsTally (cast_votes test_sha test_ecdsa new_proposal (vote ∷ vote ∷ []))
    × (length (cast_votes test_sha test_ecdsa new_proposal (vote ∷ vote ∷ [])).used_nullifiers ≤ 2)
cast_votes-IsTally_example = cast_votes-IsTally test_sha test_ecdsa (vote ∷ vote ∷ []) (omega arith)

other_key : pubkey ≢ replicate 33 3
unfolding bytes_eq
other_key = bytes_eq_ne _ _ refl

two_keys_two_nullifiers_example :
    (contains
        (compute_nullifier test_sha pubkey governance_context_id holder_id ∷ [])
        (compute_nullifier test_sha (replicate 33 3) governance_context_id holder_id)
      ≡ false)
    ⊎ Collision test_sha
two_keys_two_nullifiers_example =
    two_keys_two_nullifiers test_sha pubkey (replicate 33 3) holder_id refl refl other_key

-- A request for the pro tier on a new service.
abbrev pro_request : Sessions.Request test_sha test_ecdsa test_risc0 image
pro_request = record {
  tier = pro;
  receipt = journal_in (context_id test_sha pro);
  presenter_nonce = nonce;
  presenter_signature_der = answer_in (context_id test_sha pro);
}

abbrev new_service : FeatureService
new_service = record { active_sessions = [] }

abbrev pro_service : FeatureService
pro_service = (Sessions.activate_on test_sha test_ecdsa test_risc0 image new_service pro_request).1

opened :
    tier_for
      (Premium.open_session new_service pro (ok (journal_in (context_id test_sha pro)))).1
      journal.nullifier
    ≡ some pro
unfolding tier_for Premium.open_session contains_key lookup put
opened = rw (bytes_eq_refl journal.nullifier) refl

pro_active : tier_for pro_service journal.nullifier ≡ some pro
unfolding Premium.activate minimum_balance
pro_active =
    ap (λ v. tier_for (Premium.open_session new_service pro v).1 journal.nullifier)
      (credential_in (context_id test_sha pro) 10_000 (omega arith))
    ∙ opened

sessions-Backed_example : Sessions.Backed test_sha test_ecdsa test_risc0 image journal.nullifier pro
sessions-Backed_example =
    sessions-Backed test_sha test_ecdsa test_risc0 image pro_service journal.nullifier pro
      (Sessions.next Sessions.start pro_request) pro_active
