-- ===== src/Tests/Demo.antt =====
-- The token gate over two nodes, at concrete nodes and a concrete network.
use mathlib.Core.Path.{subst}
use lp_0005_private_token_ba.Prelude.{
  ℕ, ◌≡◌, ◌≢◌, ◌<◌, refl, sym, ap, ◌∙◌, List, [], ◌∷◌, Bytes, codes, false, bytes_eq, bytes_eq_ne,
  le_bytes, length-le_bytes, zero, suc, ◌+◌, some, none, ok, err, arith,
}
use lp_0005_private_token_ba.Crypto.{hash_parts, Sha256}
use lp_0005_private_token_ba.Circuit.{guest_main}
use lp_0005_private_token_ba.Core.{PublicJournal}
use lp_0005_private_token_ba.Offchain.{
  threshold_too_low, signature_rejected, presenter_challenge_digest,
}
use lp_0005_private_token_ba.Json.{Json}
use lp_0005_private_token_ba.Transport.{CredentialEnvelope, Bincode}
use lp_0005_private_token_ba.Transport.Base64.{b64_encode}
use lp_0005_private_token_ba.Transport.Waku.{Node, accepted, messages}
use lp_0005_private_token_ba.Transport.Waku.Admin.{NodeAdmin, info, health, subscribe}
use lp_0005_private_token_ba.Sdk.{groth16, Prover, private_inputs}
use lp_0005_private_token_ba.Sdk.Credential.{guest_main-stub, Proves}
use lp_0005_private_token_ba.Chat.{verify, nullifier_reused}
use lp_0005_private_token_ba.Chat.Demo.{rand_nonce, demo_main, demo_request}
use lp_0005_private_token_ba.Chat.Demo.Flow.{
  request, demo_stub, demo_request-witness_root, Distinguishes, signed,
}
use lp_0005_private_token_ba.Chat.Demo.Admission.{Carries, demo_main_admits}
use lp_0005_private_token_ba.Tests.Fixtures.{test_ecdsa, test_signer, test_risc0}
use lp_0005_private_token_ba.Tests.Client.{prover_result}

abbrev at : ℕ → Bytes → ℕ
at i [] = 0
at zero (b ∷ bytes) = b
at (suc i) (b ∷ bytes) = at i bytes

-- A digest that looks at the first byte behind two prefixes: of a moment, and of a nonce.
abbrev demo_sha : Sha256
demo_sha = record {
  digest = λ b. le_bytes 32 (at 20 b + at 33 b);
  length-digest = λ b. length-le_bytes 32 _;
}

abbrev demo_prover : Prover test_risc0
demo_prover = record { prove_with_opts = λ kind w stub. prover_result (guest_main demo_sha w stub) }

demo_prover-Proves : Proves demo_sha test_risc0 demo_prover (5 ∷ [])
demo_prover-Proves kind w stub j committed = (j, rw committed refl, refl, refl)

-- A value is a text, and the array of itself.
abbrev json : Json
json = record {
  Value = Bytes;
  Object = Bytes;
  as_object = λ v. some v;
  get = λ o k. some o;
  as_u64 = λ v. none;
  as_str = λ v. some v;
  as_array = λ v. some (v ∷ []);
  null = [];
  is_null = λ v. false;
}

abbrev admin : Bytes → NodeAdmin json
admin peer = record {
  get_info = info peer;
  post_subscription = λ topics. ok tt;
  delete_subscription = λ topics. ok tt;
}

abbrev stub : PublicJournal
stub = demo_stub demo_sha test_signer 77

abbrev envelope : CredentialEnvelope test_risc0
envelope = signed demo_sha test_signer 77 {zk = test_risc0} stub stub (rand_nonce demo_sha 1)

abbrev bincode : Bincode test_risc0
bincode = record {
  receipt_bytes = λ r. [];
  encode_to_vec = λ e. ok (7 ∷ []);
  decode_from_slice = λ b. ok envelope;
}

abbrev sending : Node json
sending = record { post = λ payload topic. accepted; messages_of = λ topic. messages [] }

-- The message is there from the third poll on.
abbrev held_at : ℕ → List Bytes
held_at zero = []
held_at (suc zero) = []
held_at (suc (suc n)) = b64_encode (7 ∷ []) ∷ []

abbrev receiving : ℕ → Node json
receiving n = record {
  post = λ payload topic. accepted;
  messages_of = λ topic. messages (held_at n);
}

nothing_before : (n : ℕ) → n < 2 → (receiving n).messages_of [] ≡ messages []
nothing_before zero early = refl
nothing_before (suc zero) early = refl
nothing_before (suc (suc n)) early = absurd (omega arith)

same_receipt :
    (r : PublicJournal)
    → demo_prover.prove_with_opts groth16 (private_inputs (request demo_sha test_signer 77)) stub
      ≡ ok r
    → stub ≡ r
same_receipt r proved =
    let committed =
      guest_main-stub demo_sha (request demo_sha test_signer 77)
        (demo_request-witness_root demo_sha test_signer 77) (unfold demo_request in omega arith) in
    let returned : prover_result (ok stub) ≡ ok r = ap prover_result (sym committed) ∙ proved in
    cc returned

carries :
    (r : PublicJournal)
    → demo_prover.prove_with_opts groth16 (private_inputs (request demo_sha test_signer 77)) stub
      ≡ ok r
    → Carries test_risc0 bincode json sending receiving 2
        (signed demo_sha test_signer 77 r stub (rand_nonce demo_sha 1))
carries r proved =
    subst
      (λ x.
        Carries test_risc0 bincode json sending receiving 2
          (signed demo_sha test_signer 77 x stub (rand_nonce demo_sha 1)))
      (same_receipt r proved)
      (record {
        bytes = 7 ∷ [];
        encoded = refl;
        range = omega arith;
        decoded = refl;
        taken = refl;
        before = nothing_before;
        held = (b64_encode (7 ∷ []), [], refl, refl);
      })

distinct :
    Distinguishes demo_sha test_signer 77
      (presenter_challenge_digest demo_sha (rand_nonce demo_sha 1) stub)
      (presenter_challenge_digest demo_sha (rand_nonce demo_sha 2) stub)
unfolding presenter_challenge_digest rand_nonce hash_parts le_bytes bytes_eq
distinct = refl

peers_differ : codes "a" ≢ codes "b"
unfolding bytes_eq
peers_differ = bytes_eq_ne (codes "a") (codes "b") refl

demo_main_admits_example :
    demo_main demo_sha test_ecdsa test_risc0
      (5 ∷ [])
      bincode
      test_signer
      demo_prover
      (λ r. ok 1)
      (admin (codes "a"))
      (admin (codes "b"))
      sending
      receiving
      77
      1
      2
    ≡ ok (record {
      journal = stub;
      replay = err nullifier_reused;
      stolen = err (verify signature_rejected);
      under = err (verify threshold_too_low);
    })
demo_main_admits_example =
    demo_main_admits demo_sha test_risc0 (5 ∷ []) test_signer 77 demo_prover bincode (λ r. ok 1)
      (admin (codes "a")) (admin (codes "b")) sending receiving 1 2 2 (codes "a") (codes "b")
      (unfold health in refl) (unfold health in refl) peers_differ (unfold subscribe in refl)
      demo_prover-Proves (λ r. (1, refl)) (omega arith) carries distinct
