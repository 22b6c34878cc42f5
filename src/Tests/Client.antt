-- ===== src/Tests/Client.antt =====
-- The SDK, the transports and the sequencer client at concrete inputs.
use mathlib.Core.Path.{subst}
use lp_0005_private_token_ba.Prelude.{
  ◌≡◌, ◌↔◌, refl, List, [], ◌∷◌, ◌++◌, Bytes, All, IsByte, codes, String, true, false, replicate,
  some, none, Result, ok, err, arith,
}
use lp_0005_private_token_ba.Core.{PublicJournal, Panic, fold_merkle_path, leaf_hash}
use lp_0005_private_token_ba.Circuit.{guest_main}
use lp_0005_private_token_ba.Sdk.{Prover}
use lp_0005_private_token_ba.Sdk.Credential.{Proves}
use lp_0005_private_token_ba.Json.{Json}
use lp_0005_private_token_ba.Transport.{CredentialEnvelope, Bincode, encode_envelope}
use lp_0005_private_token_ba.Transport.Base64.{b64_encode, b64_decode, symbol}
use lp_0005_private_token_ba.Transport.Base64.RoundTrip.{b64_decode-b64_encode}
use lp_0005_private_token_ba.Transport.Bus.Order.{
  Call, sends, receives, pending, run, sent, received, received-pending,
}
use lp_0005_private_token_ba.Transport.Waku
use lp_0005_private_token_ba.Transport.Waku.{Node, accepted, messages, publish_result}
use lp_0005_private_token_ba.Transport.Waku.Exchange.{recv-send}
use lp_0005_private_token_ba.Sequencer.{MembershipProof, Server}
use lp_0005_private_token_ba.Sequencer.Root.{get_proof_for_commitment, is_root_current}
use lp_0005_private_token_ba.Sequencer.Root.Current.{is_root_current_iff}
use lp_0005_private_token_ba.Tests.Fixtures.{test_sha, test_risc0, journal, npk, nonce, signature}

-- A prover that runs the guest; its receipt is the journal.
abbrev pub prover_result : Result Panic PublicJournal → Result String PublicJournal
prover_result (ok j) = ok j
prover_result (err e) = err "Guest panicked"

abbrev pub test_prover : Prover test_risc0
test_prover = record { prove_with_opts = λ kind w stub. prover_result (guest_main test_sha w stub) }

pub test_prover-Proves : Proves test_sha test_risc0 test_prover (5 ∷ [])
test_prover-Proves kind w stub j committed = (j, rw committed refl, refl, refl)

b64_decode-b64_encode_example : b64_decode (b64_encode (codes "hello")) ≡ ok (codes "hello")
b64_decode-b64_encode_example = b64_decode-b64_encode (codes "hello") (omega arith)

known_vector : b64_encode (codes "hello-lp0005") ≡ codes "aGVsbG8tbHAwMDA1"
unfolding b64_encode symbol
known_vector = refl

abbrev envelope : CredentialEnvelope test_risc0
envelope = record {
  receipt = journal;
  challenge_nonce = nonce;
  presenter_signature_der = signature;
  app_meta = codes "1";
}

abbrev later : CredentialEnvelope test_risc0
later = record envelope { app_meta = codes "2" }

-- Two sends to one topic around one to another, and two receives.
abbrev calls : List (Call test_risc0)
calls =
    sends (codes "a") envelope
    ∷ sends (codes "b") later
    ∷ sends (codes "a") later
    ∷ receives (codes "a")
    ∷ receives (codes "b")
    ∷ []

received-pending_example :
    received test_risc0 [] (codes "a") calls
      ++ pending test_risc0 (run test_risc0 [] calls) (codes "a")
    ≡ pending test_risc0 [] (codes "a") ++ sent test_risc0 (codes "a") calls
received-pending_example = received-pending test_risc0 [] (codes "a") calls

-- A JSON value that is everything at once: its bytes.
abbrev pub test_json : Json
test_json = record {
  Value = Bytes;
  Object = Bytes;
  as_object = λ v. some v;
  get = λ o k. some o;
  as_u64 = λ v. some 1;
  as_str = λ v. some v;
  as_array = λ v. some [];
  null = [];
  is_null = λ v. false;
}

abbrev test_bincode : Bincode test_risc0
test_bincode = record {
  receipt_bytes = λ r. [];
  encode_to_vec = λ e. ok (7 ∷ []);
  decode_from_slice = λ b. ok envelope;
}

abbrev sender : Node test_json
sender = record { post = λ payload topic. accepted; messages_of = λ topic. messages [] }

abbrev receiver : Bytes → Node test_json
receiver payload = record {
  post = λ p topic. accepted;
  messages_of = λ topic. messages (payload ∷ []);
}

sent_ok : Waku.send test_risc0 test_bincode test_json sender (codes "a") envelope ≡ ok tt
unfolding Waku.send encode_envelope publish_result
sent_ok = refl

recv-send_example :
    (payload : Bytes) × (sender.post payload (codes "a") ≡ accepted)
    × (Waku.recv test_risc0 test_bincode test_json (receiver payload) (codes "a")
        ≡ ok (some envelope))
recv-send_example =
    recv-send test_risc0 test_bincode test_json sender receiver (codes "a") envelope
      (λ bytes e. let same : 7 ∷ [] ≡ bytes = cc e in (subst (All IsByte) same (omega arith), refl))
      (λ payload e. (payload, [], refl, refl)) sent_ok

-- A sequencer whose proof of every commitment is the index 1 and no siblings.
abbrev pub test_server : Server test_json
test_server = record {
  post = λ method params. ok (record { result = some (9 ∷ []); error = none });
}

abbrev pub no_hex : Bytes → Result String Bytes
no_hex text = err "no hex"

is_root_current_iff_example :
    (is_root_current test_json no_hex test_server test_sha (replicate 32 1) npk ≡ ok true) ↔ (
      (proof : MembershipProof) × (get_proof_for_commitment test_json no_hex test_server npk
        ≡ ok (some proof))
      × (fold_merkle_path test_sha (leaf_hash test_sha npk) proof.leaf_index proof.siblings
          ≡ replicate 32 1))
is_root_current_iff_example =
    is_root_current_iff test_sha test_json no_hex test_server (replicate 32 1) npk
