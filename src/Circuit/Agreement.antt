-- ===== src/Circuit/Agreement.antt =====
-- The two guests of crates/attestation-circuit/methods beside `attest` of attestation-core.
use lp_0005_private_token_ba.Prelude.{
  ◌≡◌, ◌≢◌, ◌≤◌, ◌<◌, ◌↔◌, Bytes, replicate, map, ok, err, bytes_eq, bytes_eq_iff, bytes_eq_ne,
  ne_bytes_eq, arith, bind_inverse, ap, sym, ◌>>=◌, Bool-cases, inl, inr,
}
use lp_0005_private_token_ba.Crypto.{Sha256}
use lp_0005_private_token_ba.Core.{
  PrivateInputs, PublicJournal, AttestStatement, AttestInstruction, attest, not_anchored,
  below_threshold, derive_account_id, compute_commitment, compute_nullifier, fold_merkle_path,
  leaf_hash,
}
use lp_0005_private_token_ba.Circuit.{Lee, ProgramInput, ProgramOutput, guest_main, lez_main}

-- The statement that a journal makes.
abbrev pub statement_of : PublicJournal → AttestStatement
statement_of j = record {
  merkle_root = j.merkle_root;
  threshold = j.threshold;
  context_id = j.context_id;
  presenter_pubkey = j.presenter_pubkey;
}

module _ (sha : Sha256) where
  -- The standalone guest commits the stub with the nullifier of `attest`, and panics where `attest`
  -- does, with the same message; whatever nullifier the stub held is ignored.
  pub guest_main-attest :
      (w : PrivateInputs) (j : PublicJournal)
      → guest_main sha w j
        ≡ (attest sha w (statement_of j) >>= λ n. ok (record j { nullifier = n }))
  unfolding guest_main attest
  guest_main-attest w j = ground arith

  -- The standalone guest commits a journal exactly where the path of the witness leads to the stub's root
  -- and the balance reaches its threshold; the journal is then the stub with the nullifier of the
  -- stub's key and context for the account id that the witness's key and identifier derive,
  -- whatever nullifier the host wrote. A wrong root is reported before a low balance.
  pub guest_main_results :
      (w : PrivateInputs) (stub j : PublicJournal)
      → let account_id = derive_account_id sha w.npk w.identifier in
        let commitment =
          compute_commitment sha account_id w.program_owner w.balance w.nonce w.data_hash in
        let recovered =
          fold_merkle_path sha (leaf_hash sha commitment) w.leaf_index w.merkle_path in
        ((guest_main sha w stub ≡ ok j) ↔ (
          (recovered ≡ stub.merkle_root)
          × (stub.threshold ≤ w.balance)
          × (j ≡ record stub {
            nullifier = compute_nullifier sha stub.presenter_pubkey stub.context_id account_id;
          })))
        × ((guest_main sha w stub ≡ err not_anchored) ↔ (recovered ≢ stub.merkle_root))
        × ((guest_main sha w stub ≡ err below_threshold)
            ↔ ((recovered ≡ stub.merkle_root) × (w.balance < stub.threshold)))
  unfolding guest_main
  guest_main_results w stub j = ground (
    arith,
    bytes_eq_iff
        (fold_merkle_path sha
          (leaf_hash sha (
            compute_commitment sha (derive_account_id sha w.npk w.identifier) w.program_owner
              w.balance w.nonce w.data_hash))
          w.leaf_index w.merkle_path)
        stub.merkle_root,
  )

  -- The LEZ-native program writes an output exactly where `attest` returns a nullifier other than
  -- 32 zero bytes; the output echoes the input and leaves every account as it was.
  pub lez_main-attest :
      (lee : Lee) (input : ProgramInput lee AttestInstruction) (out : ProgramOutput lee)
      → (lez_main sha lee input ≡ ok out) ↔ (
          ((n : Bytes) × (attest sha input.instruction.witness input.instruction.statement ≡ ok n)
            × (n ≢ replicate 32 0))
          × (out ≡ record {
            self_program_id = input.self_program_id;
            caller_program_id = input.caller_program_id;
            instruction_words = input.instruction_words;
            pre_states = input.pre_states;
            post_states = map (λ pre. lee.post_state (lee.account pre)) input.pre_states;
          }))
  unfolding lez_main
  lez_main-attest lee input out = (
    λ written.
        let (n, proved, rest) =
          bind_inverse (attest sha input.instruction.witness input.instruction.statement) _
            written in
        elim (Bool-cases (bytes_eq n (replicate 32 0))) [
          | inl zero ↦ absurd (cc ((rw zero at rest)))
          | inr nonzero ↦ ((n, proved, bytes_eq_ne n _ nonzero), cc ((rw nonzero at rest)))
        ],
    λ ((n, proved, nonzero), shape). rw (proved, ne_bytes_eq n _ nonzero) (ap ok (sym shape)),
  )
