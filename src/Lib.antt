-- ===== src/Lib.antt =====
-- Private token balance attestation.
--
-- A holder of a private account proves, in a zkVM guest, that an account committed under a Merkle root
-- has a balance of at least some threshold; the proof's journal carries a nullifier of the presenter's
-- key, the context and the account. Verifiers off chain check the receipt; gates on chain check the
-- journal's fields, a signed challenge and, in the deep gate, a chained proof and the signer's account.
-- Four integrations build on the verifiers, and a command line runs the holder's and the verifier's side.
--
-- Parts, and the code that each file is about:
--   Prelude      shared: tests, lists, bytes and their little-endian words, results, sets and maps
--   Crypto       sha2 and k256 as interfaces, and what a hash over parts binds
--   Core         crates/attestation-core/src/lib.rs: derive_account_id, compute_commitment,
--                fold_merkle_path, compute_nullifier, compute_gate_tag, attest. Below it: Layout and
--                Binding (the preimages), Separation (the prefixes), Merkle (the fold against trees; with
--                empty slots, as docs/recon.md has them, in Core.Merkle.Padded), Attest (what a success
--                means; over a chain with empty slots in Core.Attest.Padded)
--   Circuit      crates/attestation-circuit/methods: the two guests' main, as guest_main and lez_main;
--                crates/attestation-circuit/src/bin/baseline.rs (Circuit.Baseline)
--   Kernel       crates/verifier-program/src: check_gate, verify_presenter, the challenge digest
--   Offchain     crates/verifier-offchain/src/lib.rs: verify_receipt, verify_credential; the accounts
--                behind the receipts of the standalone guest (Offchain.Holders)
--   Gate         crates/verifier-program-spel/methods: the instruction gated_check of the shallow guest
--                (Gate.Shallow), of the v2 guest (Gate.Chained) and of the deep guest (Gate.Deep), and of
--                crates/verifier-program-spel/src/lib.rs (Gate.Skeleton)
--   Governance   integrations/governance-gate/src/lib.rs: cast_vote. Below it: the tally of a sequence
--                of votes, what the calls count beside a count of the votes (Governance.Count over
--                Governance.Occurs), their order, where a proposal is also taken up to the order of its
--                set (Governance.Order), a holder's second vote (Governance.Once), and votes cast again elsewhere
--                (Governance.Replay)
--   Premium      integrations/premium-features/src/lib.rs: activate, tier_for
--   Chat         integrations/chat-gate/src/lib.rs: admit; the run over two Waku nodes of
--                integrations/chat-gate/examples/waku_token_gate.rs (Chat.Demo)
--   Nostr        integrations/nostr-auth-gate/src/lib.rs: verify_nip42_with_lp0005
--   Services     the four integrations and the command line's contexts side by side: what each expects
--                (Services.Contexts), a proof at the service it is for (Services.Served) and at another
--                (Services.Refusals), and their states under interleaved calls (Services.World)
--   Sdk          crates/sdk/src/lib.rs: prove_with_kind, sign, precompute_leaf, into_request; the
--                classification of a prover's errors (Sdk.Errors)
--   Cli          crates/cli/src/bin/attest.rs: the commands that write files and main (Cli.Commands),
--                those that read (Cli.Readers), and the helpers (Cli)
--   Bench        crates/cu-bench/src/main.rs: bs58_encode (Bench.Base58), and the inputs and cycles of a
--                replayed instruction (Bench.Replay)
--   Transport    crates/delivery-transport/src: the envelope, the in-memory bus (Transport.Bus), base64
--                (Transport.Base64), send and recv over Waku (Transport.Waku), health and subscriptions
--                (Transport.Waku.Admin), and the Qt bridge, which refuses both (Transport.Qt)
--   Sequencer    crates/sequencer-client/src/lib.rs: decode_proof_tuple, fold_membership_proof,
--                is_root_current, the calls that serde decodes (Sequencer.Calls), and a credential whose
--                root is current (Sequencer.Anchored)
--   Text         what the programs use of str and String, on UTF-8 bytes, and the hex crate as an interface
--   Json         the accessors of serde_json that the transport and the sequencer client call
--   Tests        the parameters at concrete functions, and the theorems at concrete inputs
--
-- The model. A byte array is a list of numbers; IsHash, IsWitness and IsJournal state the
-- lengths and ranges that the Rust types guarantee, and a theorem that needs them has them as
-- hypotheses. A u128 is a number, written out as 16 little-endian bytes where it is hashed. Vote counters
-- wrap at 2^64, as in a release build. A failed assert is a Panic, an error is the err of a Result, and
-- a function that takes &mut self returns the state after it beside its result. The Merkle fold
-- recurses on the list of siblings. Two loops run on fuel: the carry of bs58_encode has one more than the
-- carry, which at least halves at each turn, and a decimal text has 39 digits, enough for a u128. The
-- poll of the token gate makes its twenty tries. Files are a state that a command takes and returns;
-- random bytes, the clock and what a node holds at each poll are arguments.
--
-- Parameters. SHA-256 is any function to 32 bytes: collision resistance is nowhere assumed, and a
-- theorem that rests on it has a collision as its other case. The context of the governance gate is a
-- constant, so a theorem that tells it from hashed contexts also has, as a case, an input that hashes to
-- it. ECDSA is a pair of parsers and a check; a theorem in which a key signs assumes that its signatures
-- verify. One that reaches from a receipt to an account assumes what risc0 promises, that a receipt which
-- verifies under an image is of a run of that guest, and, where a root is compared with the chain's, that
-- a sequencer's proof of a commitment is the path of its slot. The trees of Core.Merkle and Core.Attest
-- have a commitment at every leaf. The chain's tree of Sequencer.Anchored may have empty slots anywhere;
-- the value of an empty slot's node, which lez keeps in DEFAULT_VALUES, is a parameter of 32 bytes, the
-- same for every empty slot, and the value of a larger empty subtree is the hash of its halves. The check of a risc0 receipt, its prover
-- and the decoders (journal, witness words, the integrations' base64, bincode, hex, serde_json's) are
-- parameters, as are the account types of the lee_core crate, the HTTP endpoints and JSON values.
--
-- Not modelled: the account constraints that the framework's macro generates from the instructions'
-- attributes, the zkVM itself, the parsing of command lines by clap, the Qt plugin and the scripts. Of
-- the cycle benchmark the reading of its files, the image id and its printed table are left out, of the
-- baseline the times, and of the clients how reqwest and ureq are built. The JSON text of a value, the
-- lower case of a text, and the parsing of a secret key belong to the crates.
pub mod Prelude
pub mod Crypto
pub mod Core
pub mod Circuit
pub mod Kernel
pub mod Offchain
pub mod Gate
pub mod Governance
pub mod Premium
pub mod Chat
pub mod Nostr
pub mod Json
pub mod Sdk
pub mod Sequencer
pub mod Transport
pub mod Bench
pub mod Text
pub mod Cli
pub mod Services
pub mod Tests
