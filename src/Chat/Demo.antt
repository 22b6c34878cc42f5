-- ===== src/Chat/Demo.antt =====
-- integrations/chat-gate/examples/waku_token_gate.rs: admission to a group over two Waku nodes. The
-- clock, the key that is generated, and what the receiver's node holds at each poll are arguments.
pub mod Flow
pub mod Admission
use lp_0005_private_token_ba.Prelude.{
  ℕ, zero, suc, ◌+◌, List, [], ◌∷◌, Bytes, String, codes, Bool, bytes_eq, le_bytes, length,
  replicate, Option, some, none, Result, ok, err, ok_or, map_err, fail_if, ◌>>=◌, ◌>>◌,
}
use lp_0005_private_token_ba.Crypto.{Sha256, Ecdsa, Signer, hash_parts}
use lp_0005_private_token_ba.Core.{PublicJournal}
use lp_0005_private_token_ba.Offchain.{Risc0}
use lp_0005_private_token_ba.Json.{Json}
use lp_0005_private_token_ba.Transport.{CredentialEnvelope, Bincode, TransportError}
use lp_0005_private_token_ba.Transport.Waku.{Node, content_topic_for, send, recv}
use lp_0005_private_token_ba.Transport.Waku.Admin.{NodeAdmin, health, subscribe}
use lp_0005_private_token_ba.Sdk.{
  AttestationProof, ProveRequest, Prover, prove_groth16, sign, precompute_leaf,
  synthetic_merkle_path,
}
use lp_0005_private_token_ba.Sequencer.{Server, ClientError}
use lp_0005_private_token_ba.Sequencer.Root.{is_root_current}
use lp_0005_private_token_ba.Chat.{AdmissionError, GroupRoster, new_roster, group_context_id, admit}

abbrev pub group : Bytes
group = codes "premium-lounge"

abbrev pub min_stake : ℕ
min_stake = 100_000

abbrev pub demo_balance : ℕ
demo_balance = 1_000_000

-- `Box<dyn Error>`, by where it comes from.
pub data DemoError : Type 0 where
  transport : TransportError → DemoError
  message proving encoding : String → DemoError
  refused : AdmissionError → DemoError

-- The request's threshold is the constant, not the argument.
unfoldable pub demo_request : Sha256 → (pubkey context_id : Bytes) (balance : ℕ) → ProveRequest
demo_request sha pubkey context_id balance =
    let req : ProveRequest = record {
      npk = replicate 32 7;
      identifier = 1;
      program_owner = replicate 8 11;
      balance = balance;
      nonce = 3;
      data_hash = hash_parts sha [];
      merkle_path = [];
      leaf_index = 0;
      merkle_root = replicate 32 0;
      threshold = min_stake;
      context_id = context_id;
      presenter_pubkey = pubkey;
    } in
    let leaf_hash = (precompute_leaf sha req).1 in
    let synthetic = synthetic_merkle_path sha leaf_hash req.leaf_index 3 in
    record req { merkle_path = synthetic.0; merkle_root = synthetic.1 }

-- The nonce of a moment, in nanoseconds.
unfoldable pub rand_nonce : Sha256 → ℕ → Bytes
rand_nonce sha nanos = hash_parts sha (codes "/lp-0005/demo/nonce/" ∷ le_bytes 16 nanos ∷ [])

-- `poll`, from the try `i` on: the first credential that arrives.
abbrev pub or_poll_again :
    {A : Type 0} → Option A → Result TransportError (Option A) → Result TransportError (Option A)
or_poll_again (some a) again = ok (some a)
or_poll_again none again = again

unfoldable pub poll_from :
    {A : Type 0}
    → (receive : ℕ → Result TransportError (Option A)) → ℕ
    → (tries : ℕ) → Result TransportError (Option A)
poll_from receive i zero = ok none
poll_from receive i (suc tries) =
    let again = poll_from receive (suc i) tries in
    receive i >>= λ arrived. or_poll_again arrived again

-- What the operator decides on the credential, and on the three further tries.
pub record Decisions : Type 0 where
  pub journal : PublicJournal
  pub replay : Result AdmissionError PublicJournal
  pub stolen : Result AdmissionError PublicJournal
  pub under : Result AdmissionError PublicJournal

module _ (sha : Sha256) (ec : Ecdsa) (zk : Risc0) (attestation_id : List ℕ) where
  unfoldable pub decide :
      (fresh_nonce : Bytes) → CredentialEnvelope zk → Result AdmissionError Decisions
  decide fresh_nonce received =
      let try = λ (roster : GroupRoster) (nonce : Bytes).
        admit sha ec zk attestation_id roster received.receipt nonce
          received.presenter_signature_der in
      let first = try (new_roster group min_stake) received.challenge_nonce in
      let replayed = try first.1 received.challenge_nonce in
      let stolen = try (new_roster group min_stake) fresh_nonce in
      let under = try (new_roster group (demo_balance + 1)) received.challenge_nonce in
      do
        admitted ← first.0
        ok (record { journal = admitted; replay = replayed.0; stolen = stolen.0; under = under.0 })

  -- The candidate's half: the proof, and its envelope for a nonce.
  unfoldable pub make_envelope :
      {ec' : Ecdsa} (signer : Signer ec')
      → Prover zk
      → (receipt_size : zk.Receipt → Result String ℕ) → signer.SigningKey
      → (nonce : Bytes) → Result DemoError (CredentialEnvelope zk)
  make_envelope signer prover receipt_size key nonce = do
    let req = demo_request sha (signer.public key) (group_context_id sha group) demo_balance
    proof ← map_err proving (prove_groth16 sha prover req)
    size ← map_err encoding (receipt_size proof.receipt)
    ok (record {
      receipt = proof.receipt;
      challenge_nonce = nonce;
      presenter_signature_der = sign signer sha key nonce proof.journal;
      app_meta = group;
    })

  module _ {json : Json} (bincode : Bincode zk) (signer : Signer ec) (prover : Prover zk)
      (receipt_size : zk.Receipt → Result String ℕ) (sender receiver : NodeAdmin json) where
    -- `main`, up to the check of the root: the moments are those of its two nonces.
    unfoldable pub demo_main :
        (sending : Node json) (receiving : ℕ → Node json)
        → signer.SigningKey
        → (moment later : ℕ) → Result DemoError Decisions
    demo_main sending receiving key moment later = do
      let topic = content_topic_for group
      sender_peer ← map_err transport (health json sender)
      receiver_peer ← map_err transport (health json receiver)
      fail_if (bytes_eq sender_peer receiver_peer)
          (message "both endpoints point at the same node; the hop would be meaningless")
      map_err transport (subscribe json receiver topic)
      envelope ← make_envelope signer prover receipt_size key (rand_nonce sha moment)
      map_err transport (send zk bincode json sending topic envelope)
      arrived ← map_err transport (poll_from (λ i. recv zk bincode json (receiving i) topic) 0 20)
      received ← ok_or arrived (message "nothing arrived on the receiver node within the timeout")
      map_err refused (decide (rand_nonce sha later) received)

abbrev pub known_commitment : Bytes
known_commitment =
    0x74 ∷ 0x09 ∷ 0xcd ∷ 0x5c ∷ 0xac ∷ 0x88 ∷ 0xe3 ∷ 0x1f ∷ 0xfd ∷ 0xe8 ∷ 0x2a ∷ 0x9e ∷ 0x5d ∷ 0x4a
    ∷ 0x2a ∷ 0x8f ∷ 0xef ∷ 0xdd ∷ 0x89 ∷ 0xfa ∷ 0xca ∷ 0x05 ∷ 0x06 ∷ 0xb2 ∷ 0x32 ∷ 0x3d ∷ 0xd8
    ∷ 0x55 ∷ 0x5e ∷ 0x3f ∷ 0xd6 ∷ 0x68 ∷ []

-- Against the server of the public testnet.
unfoldable pub check_root_freshness :
    (sha : Sha256) (json : Json) (decode_hex : Bytes → Result String Bytes)
    → Server json
    → Bytes
    → Result ClientError Bool
check_root_freshness sha json decode_hex testnet merkle_root =
    is_root_current json decode_hex testnet sha merkle_root known_commitment
