-- ===== src/Tests/Anchors.antt =====
-- A credential over a chain of two slots, of which one is empty, whose root the sequencer holds.
use lp_0005_private_token_ba.Prelude.{
  ◌≡◌, ◌⊎◌, refl, [], ◌∷◌, ◌++◌, Bytes, String, codes, replicate, bytes_eq, bytes_eq_refl, true,
  false, if◌then◌else◌, Option, none, some, Result, ok, arith,
}
use mathlib.Core.Path.{subst}
use lp_0005_private_token_ba.Crypto.{length-hash_parts}
use lp_0005_private_token_ba.Core.{
  PrivateInputs, PublicJournal, IsWitness, IsJournal, compute_nullifier, leaf_hash,
  fold_merkle_path,
}
use lp_0005_private_token_ba.Core.Binding.{length-compute_nullifier}
use lp_0005_private_token_ba.Core.Merkle.{Tree, leaf, node, get_leaf, map_tree}
use lp_0005_private_token_ba.Core.Merkle.Padded.{
  slot_node, padded_root, padded_path, fold_merkle_path-padded_root,
}
use lp_0005_private_token_ba.Core.Attest.{Account, account_commitment}
use lp_0005_private_token_ba.Core.Attest.Padded.{
  AreSlots, slot_commitment, chain_root, BrokenPadding,
}
use lp_0005_private_token_ba.Circuit.{guest_main}
use lp_0005_private_token_ba.Circuit.Agreement.{guest_main_results}
use lp_0005_private_token_ba.Kernel
use lp_0005_private_token_ba.Offchain.{verify_credential}
use lp_0005_private_token_ba.Offchain.Results.{verify_credential-ok}
use lp_0005_private_token_ba.Offchain.Holders.{HeldIn}
use lp_0005_private_token_ba.Json.{Json}
use lp_0005_private_token_ba.Sequencer.{MembershipProof, Server, open_envelope, call}
use lp_0005_private_token_ba.Sequencer.Decode.{
  decode_proof_tuple, decode_object, decode_hash_array, decode_hashes_from, sibling_bytes,
}
use lp_0005_private_token_ba.Sequencer.Root.{
  get_proof_for_commitment, is_root_current, decode_optional,
}
use lp_0005_private_token_ba.Sequencer.Root.Current.{is_root_current_iff}
use lp_0005_private_token_ba.Sequencer.Anchored.{Serves, current_credential-HeldIn}
use lp_0005_private_token_ba.Tests.Fixtures.{
  test_sha, test_ecdsa, holder, witness, pubkey, nonce, holder_id, context,
}
use lp_0005_private_token_ba.Tests.Attestation.{witness-IsWitness, accounts-AreAccounts}
use lp_0005_private_token_ba.Tests.Integrations.{image}
use lp_0005_private_token_ba.Tests.Worlds.{transparent, transparent-Sound}

-- The chain's two slots: the holder's account and an empty one.
abbrev chain : Tree (Option Account)
chain = node (leaf (some holder)) (leaf none)

abbrev empty_slot : Bytes
empty_slot = replicate 32 0

abbrev only_witness : PrivateInputs
only_witness = record witness { leaf_index = 0; merkle_path = empty_slot ∷ [] }

chain-AreSlots : AreSlots chain
chain-AreSlots = (accounts-AreAccounts.1, tt)

only_witness-IsWitness : IsWitness only_witness
only_witness-IsWitness =
    let w = witness-IsWitness in
    record {
      npk_hash = w.npk_hash;
      identifier_u128 = w.identifier_u128;
      owner_id = w.owner_id;
      balance_u128 = w.balance_u128;
      nonce_u128 = w.nonce_u128;
      data_hash = w.data_hash;
      path_hashes = (refl, tt);
    }

abbrev anchored : PublicJournal
anchored = record {
  merkle_root = chain_root test_sha empty_slot chain;
  threshold = 100_000;
  context_id = context;
  presenter_pubkey = pubkey;
  nullifier = compute_nullifier test_sha pubkey context holder_id;
}

folds :
    fold_merkle_path test_sha
      (leaf_hash test_sha (account_commitment test_sha holder))
      0
      (empty_slot ∷ [])
    ≡ chain_root test_sha empty_slot chain
unfolding chain_root map_tree slot_commitment padded_path padded_root slot_node get_leaf
folds =
    fold_merkle_path-padded_root test_sha empty_slot (map_tree (slot_commitment test_sha) chain)
      (account_commitment test_sha holder) 0 1 refl

anchored_run : guest_main test_sha only_witness anchored ≡ ok anchored
unfolding account_commitment
anchored_run =
    (guest_main_results test_sha only_witness anchored anchored).0.1 (folds, omega arith, refl)

anchored-IsJournal : IsJournal anchored
unfolding chain_root map_tree padded_root
anchored-IsJournal = record {
  root_hash = length-hash_parts test_sha _;
  threshold_u128 = omega arith;
  context_hash = refl;
  pubkey_length = refl;
  nullifier_hash = length-compute_nullifier test_sha _ _ _;
}

abbrev receipt : transparent.Receipt
receipt = (
  anchored,
  record {
    witness = only_witness;
    stub = anchored;
    sized = only_witness-IsWitness;
    stub_sized = anchored-IsJournal;
    committed = anchored_run;
  },
)

abbrev answer : Bytes
answer = pubkey ++ Kernel.presenter_challenge_digest test_sha nonce anchored

accepted :
    verify_credential transparent image test_sha test_ecdsa receipt nonce answer context 50_000
    ≡ ok anchored
accepted =
    (verify_credential-ok transparent image test_sha test_ecdsa receipt nonce answer context 50_000
        anchored).1
      (refl, refl, refl, omega arith, (pubkey, answer, refl, refl, bytes_eq_refl answer))

-- A JSON value whose fields are their keys: the index is 0 and the siblings are one text.
abbrev proof_json : Json
proof_json = record {
  Value = Bytes;
  Object = Bytes;
  as_object = λ v. some v;
  get = λ o k. some k;
  as_u64 = λ v. some 0;
  as_str = λ v. some v;
  as_array = λ v. if bytes_eq v (codes "siblings") then some ([] ∷ []) else none;
  null = [];
  is_null = λ v. false;
}

abbrev proof_server : Server proof_json
proof_server = record {
  post = λ method params. ok (record { result = some (9 ∷ []); error = none });
}

-- The hex of the empty slot's value, whatever the text.
abbrev empty_hex : Bytes → Result String Bytes
empty_hex digits = ok empty_slot

abbrev holder_proof : MembershipProof
holder_proof = record { leaf_index = 0; siblings = empty_slot ∷ [] }

answers_proof :
    (c : Bytes)
    → get_proof_for_commitment proof_json empty_hex proof_server c ≡ ok (some holder_proof)
unfolding get_proof_for_commitment call open_envelope decode_optional decode_proof_tuple
    decode_object decode_hash_array decode_hashes_from sibling_bytes bytes_eq
answers_proof c = refl

served :
    Serves test_sha empty_slot proof_json empty_hex proof_server chain
      (account_commitment test_sha holder)
unfolding get_leaf map_tree slot_commitment padded_path padded_root slot_node
served proof answered =
    let same : holder_proof ≡ proof =
      cc (answers_proof (account_commitment test_sha holder), answered) in
    let slots = map_tree (slot_commitment test_sha) chain in
    subst
      (λ (k : MembershipProof).
        (depth : _) × (get_leaf slots k.leaf_index depth
          ≡ some (some (account_commitment test_sha holder)))
        × (k.siblings ≡ padded_path test_sha empty_slot slots k.leaf_index depth))
      same (1, refl, refl)

current :
    is_root_current proof_json empty_hex proof_server test_sha anchored.merkle_root
      (account_commitment test_sha holder)
    ≡ ok true
current =
    (is_root_current_iff test_sha proof_json empty_hex proof_server anchored.merkle_root
        (account_commitment test_sha holder)).1
      (holder_proof, answers_proof _, folds)

current_credential-HeldIn_example :
    (HeldIn test_sha chain anchored 50_000 × (context ≡ context))
    ⊎ BrokenPadding test_sha empty_slot
current_credential-HeldIn_example =
    current_credential-HeldIn test_sha empty_slot proof_json empty_hex proof_server test_ecdsa
      transparent image chain receipt nonce answer context 50_000 anchored
      (account_commitment test_sha holder) transparent-Sound refl chain-AreSlots served accepted
      current
