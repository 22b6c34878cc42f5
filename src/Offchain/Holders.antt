-- ===== src/Offchain/Holders.antt =====
-- verify_credential of crates/verifier-offchain/src/lib.rs over receipts of the standalone guest of
-- crates/attestation-circuit: the accounts behind the credentials.
use lp_0005_private_token_ba.Prelude.{
  ℕ, ◌≡◌, ◌≤◌, ◌⊎◌, sym, ◌∙◌, List, Bytes, Option, some, ok, arith, bind_inverse,
}
use mathlib.Core.Path.{subst}
use lp_0005_private_token_ba.Crypto.{Sha256, Ecdsa, or_collision_map}
use lp_0005_private_token_ba.Core.{
  PrivateInputs, PublicJournal, IsWitness, IsJournal, IsHash, compute_nullifier, attest,
  derive_account_id,
}
use lp_0005_private_token_ba.Core.Merkle.{Tree, get_leaf}
use lp_0005_private_token_ba.Core.Binding.{length-compute_nullifier, length-derive_account_id}
use lp_0005_private_token_ba.Core.Attest.{Account, witness_id, witness_nullifier, attest_results}
use lp_0005_private_token_ba.Core.Attest.Padded.{
  AreSlots, chain_root, BrokenPadding, attest-chain_root,
}
use lp_0005_private_token_ba.Circuit.{guest_main}
use lp_0005_private_token_ba.Circuit.Agreement.{guest_main-attest, statement_of}
use lp_0005_private_token_ba.Offchain.{Risc0, verify_credential}
use lp_0005_private_token_ba.Offchain.Results.{verify_credential-ok}

module _ (sha : Sha256) where
  -- The guest committed the journal, in a run on inputs of its Rust types.
  pub record Attested (j : PublicJournal) : Type 0 where
    pub witness : PrivateInputs
    pub stub : PublicJournal
    pub sized : IsWitness witness
    pub stub_sized : IsJournal stub
    pub committed : guest_main sha witness stub ≡ ok j

  -- What risc0 promises of a receipt that verifies under the guest's image: the guest ran and committed
  -- the receipt's journal.
  abbrev pub Sound : (zk : Risc0) → List ℕ → Type 0
  Sound zk image =
      (r : zk.Receipt) (j : PublicJournal)
      → zk.verify r image ≡ ok tt
      → zk.decode_journal r ≡ ok j
      → Attested j

  -- The stub that a committed journal completes, and the statement that was attested.
  completes :
      (j : PublicJournal) (h : Attested j)
      → (n : Bytes) × (attest sha h.witness (statement_of h.stub) ≡ ok n)
        × (record h.stub { nullifier = n } ≡ j)
  completes j h =
      let (n, attested, made) =
        bind_inverse (attest sha h.witness (statement_of h.stub)) _
          (sym (guest_main-attest sha h.witness h.stub) ∙ h.committed) in
      (n, attested, cc made)

  -- For an account id, the nullifier of a journal is that of its own presenter key and context.
  abbrev pub NullifierOf : PublicJournal → Bytes → Type 0
  NullifierOf j account =
      j.nullifier ≡ compute_nullifier sha j.presenter_pubkey j.context_id account

  -- The guest hands on the fields of its stub, and the nullifier is of its key and context.
  pub Attested-IsJournal :
      (j : PublicJournal)
      → Attested j
      → IsJournal j × ((account : Bytes) × IsHash account × NullifierOf j account)
  unfolding witness_nullifier witness_id
  Attested-IsJournal j h =
      let (n, attested, same) = completes j h in
      let own = ((attest_results sha h.witness (statement_of h.stub) n).0.0 attested).2 in
      let sizes = h.stub_sized in
      subst (λ k. IsJournal k × ((account : Bytes) × IsHash account × NullifierOf k account)) same
        (
          record {
            root_hash = sizes.root_hash;
            threshold_u128 = sizes.threshold_u128;
            context_hash = sizes.context_hash;
            pubkey_length = sizes.pubkey_length;
            nullifier_hash = subst IsHash own (length-compute_nullifier sha _ _ _);
          },
          (
            derive_account_id sha h.witness.npk h.witness.identifier,
            length-derive_account_id sha _ _,
            sym own,
          ),
        )

  -- A slot of the chain holds an account that reaches the threshold, and the nullifier is its own.
  abbrev pub HeldIn : Tree (Option Account) → PublicJournal → ℕ → Type 0
  HeldIn t j floor =
      (a : Account) × (index : ℕ) × (depth : ℕ) × (get_leaf t index depth ≡ some (some a))
      × (floor ≤ a.balance)
      × NullifierOf j a.account_id

  Attested-HeldIn :
      (empty_node : Bytes) (t : Tree (Option Account)) (j : PublicJournal)
      → IsHash empty_node
      → AreSlots t
      → chain_root sha empty_node t ≡ j.merkle_root
      → Attested j
      → HeldIn t j j.threshold ⊎ BrokenPadding sha empty_node
  Attested-HeldIn empty_node t j he slots anchor h =
      let (n, attested, same) = completes j h in
      subst
        (λ k.
          chain_root sha empty_node t ≡ k.merkle_root
          → HeldIn t k k.threshold ⊎ BrokenPadding sha empty_node)
        same
        (λ rooted.
          or_collision_map
            (attest-chain_root sha empty_node t h.witness (statement_of h.stub) n he slots h.sized
              rooted attested)
            λ (a, found, id, reaches, own). (a, h.witness.leaf_index, _, found, reaches, own))
        anchor

  -- Where the root of a credential's journal is the chain's, an accepted credential means that one of
  -- the chain's accounts holds at least the floor, and that the journal's nullifier is the account's,
  -- for the presenter's key in the expected context, unless the value of an empty slot is a hash that
  -- it should not be or SHA-256 collides. A receipt that verifies is of a run of the guest.
  pub verify_credential-HeldIn :
      (ec : Ecdsa) (zk : Risc0) (attestation_id : List ℕ) (empty_node : Bytes)
      (t : Tree (Option Account)) (r : zk.Receipt) (nonce sig_der ctx : Bytes) (floor : ℕ)
      (j : PublicJournal)
      → Sound zk attestation_id
      → IsHash empty_node
      → AreSlots t
      → verify_credential zk attestation_id sha ec r nonce sig_der ctx floor ≡ ok j
      → chain_root sha empty_node t ≡ j.merkle_root
      → (HeldIn t j floor × (j.context_id ≡ ctx)) ⊎ BrokenPadding sha empty_node
  verify_credential-HeldIn ec zk attestation_id empty_node t r nonce sig_der ctx floor j sound he
        slots accepted anchor =
      let (verified, decoded, context, reaches, answered) =
        (verify_credential-ok zk attestation_id sha ec r nonce sig_der ctx floor j).0 accepted in
      or_collision_map (Attested-HeldIn empty_node t j he slots anchor (sound r j verified decoded))
        λ (a, index, depth, found, holds, own).
          ((a, index, depth, found, omega (arith, reaches, holds), own), context)
