-- ===== src/Gate/Deep/Marker.antt =====
-- The marker of an accepted deep gate call (attestation_verifier_deep.rs), and the chained proof.
use mathlib.Core.Path.{subst}
use lp_0005_private_token_ba.Prelude.{
  ℕ, ◌≡◌, ◌≢◌, ◌≤◌, sym, ap, ◌∙◌, List, [], ◌∷◌, Option, some, Bytes, IsU128, length, replicate, ok,
  arith, ◌⊎◌,
}
use lp_0005_private_token_ba.Crypto.{Sha256, Ecdsa, Collision, or_collision_map}
use lp_0005_private_token_ba.Core.{
  PrivateInputs, AttestInstruction, IsHash, IsWitness, attest, compute_gate_tag,
}
use lp_0005_private_token_ba.Core.Binding.{compute_gate_tag-binding}
use lp_0005_private_token_ba.Core.Merkle.{Tree, get_leaf}
use lp_0005_private_token_ba.Core.Attest.{
  Account, AreAccounts, commitment_root, attest_results, attest_sound, witness_nullifier,
  witness_id,
}
use lp_0005_private_token_ba.Circuit.{Lee, ProgramInput, ProgramOutput, lez_main}
use lp_0005_private_token_ba.Circuit.Agreement.{lez_main-attest}
use lp_0005_private_token_ba.Gate.{SpelOutput, ChainedCall}
use lp_0005_private_token_ba.Gate.Deep.{
  DeepArgs, gated_check, authenticated_transfer_program_id, statement_of,
}
use lp_0005_private_token_ba.Gate.Deep.Acceptance.{gated_check-accepted}

declared_instruction :
    {lee : Lee} (out : SpelOutput lee lee.AccountWithMetadata AttestInstruction)
    (call made : ChainedCall lee AttestInstruction)
    → out.chained ≡ made ∷ []
    → out.chained ≡ call ∷ []
    → call.instruction ≡ made.instruction
declared_instruction out call made e f = let same : call ≡ made = cc in ap (λ c. c.instruction) same

module _ (sha : Sha256) (ec : Ecdsa) (lee : Lee) (from_slice : List ℕ → Option PrivateInputs)
    (gate_marker presenter : lee.AccountWithMetadata) (args : DeepArgs)
    {out : SpelOutput lee lee.AccountWithMetadata AttestInstruction}
    (accepted : gated_check sha ec lee from_slice gate_marker presenter args ≡ ok out) where
  -- The marker of an accepted call, where it stands at the address for a nullifier, a floor and a context,
  -- was earned by a call that enforced this floor in this context for this nullifier, and whose signer
  -- held the floor under the pinned program, unless SHA-256 collides. The nullifiers are of 32 bytes and
  -- the floors below 2^128.
  pub gate_tag-policy :
      (nf : Bytes) (floor : ℕ) (ctx : Bytes)
      → IsHash nf
      → IsU128 floor
      → IsHash args.nullifier
      → IsU128 args.minimum_threshold
      → args.gate_tag ≡ compute_gate_tag sha nf floor ctx
      → ((args.nullifier ≡ nf)
          × (args.minimum_threshold ≡ floor)
          × (args.context_id ≡ ctx)
          × (floor ≤ lee.balance (lee.account presenter))
          × (lee.program_owner (lee.account presenter) ≡ authenticated_transfer_program_id))
        ⊎ Collision sha
  gate_tag-policy nf floor ctx hn hf hn' hm at_address =
      let (w, a, shape) =
        gated_check-accepted sha ec lee from_slice gate_marker presenter args out accepted in
      or_collision_map
        (compute_gate_tag-binding sha args.nullifier nf args.minimum_threshold floor
          args.expected_context_id ctx hn' hn hm hf (a.tag ∙ at_address))
        λ same. (same.0, same.1, a.context ∙ same.2, rw (← same.1) a.anchored, a.native)

  pub gated_check-composed :
      (input : ProgramInput lee AttestInstruction) (callee : ProgramOutput lee)
      (call : ChainedCall lee AttestInstruction)
      → out.chained ≡ call ∷ []
      → input.instruction ≡ call.instruction
      → lez_main sha lee input ≡ ok callee
      → (w : PrivateInputs) × (from_slice args.witness_words ≡ some w)
        × (attest sha w (statement_of args) ≡ ok args.nullifier)
        × (args.minimum_threshold ≤ args.threshold)
        × (args.threshold ≤ w.balance)
        × (args.nullifier ≢ replicate 32 0)
        × (lee.account_id presenter ≡ witness_id sha w)
  unfolding witness_nullifier witness_id
  gated_check-composed input callee call declared instructed returned =
      let (w, a, shape) =
        gated_check-accepted sha ec lee from_slice gate_marker presenter args out accepted in
      let ((n, proved, nonzero), echo) = (lez_main-attest sha lee input callee).0 returned in
      let instruction_is : input.instruction
          ≡ record { witness = w; statement = statement_of args } =
        instructed ∙ declared_instruction out call _ (ap (λ o. o.chained) shape) declared in
      let proved_here : attest sha w (statement_of args) ≡ ok n =
        subst (λ k. attest sha k.witness k.statement ≡ ok n) instruction_is proved in
      let (anchored, reaches, is_nullifier) =
        (attest_results sha w (statement_of args) n).0.0 proved_here in
      let same : n ≡ args.nullifier = sym is_nullifier ∙ a.nullifier in
      (
        w,
        a.decoded,
        proved_here ∙ ap ok same,
        a.floor,
        reaches,
        (λ z. nonzero (same ∙ z)),
        a.attested,
      )

  -- Where the gate accepts, the attestation program called as it declared returns, and the stated root is
  -- that of a tree of well-formed committed accounts, one of these accounts is the signer's own, and its
  -- committed balance reaches the floor, unless SHA-256 collides. The decoder yields witnesses with
  -- fields of the sizes of their Rust types.
  pub gated_check-committed :
      (t : Tree Account) (input : ProgramInput lee AttestInstruction) (callee : ProgramOutput lee)
      (call : ChainedCall lee AttestInstruction)
      → ((words : List ℕ) (w : PrivateInputs) → from_slice words ≡ some w → IsWitness w)
      → AreAccounts t
      → commitment_root sha t ≡ args.merkle_root
      → out.chained ≡ call ∷ []
      → input.instruction ≡ call.instruction
      → lez_main sha lee input ≡ ok callee
      → ((a : Account) × (i : ℕ) × (d : ℕ) × (get_leaf t i d ≡ some a)
          × (a.account_id ≡ lee.account_id presenter)
          × (args.minimum_threshold ≤ a.balance))
        ⊎ Collision sha
  gated_check-committed t input callee call decodes accounts root_is declared instructed returned =
      let (w, decoded, proved, floor, reaches, nonzero, attested) =
        gated_check-composed input callee call declared instructed returned in
      or_collision_map
        (attest_sound sha t w (statement_of args) args.nullifier accounts
          (decodes args.witness_words w decoded) root_is proved)
        λ (a, found, same_id, holds, nullifier_of).
          (a, w.leaf_index, length w.merkle_path, found, same_id ∙ sym attested, omega arith)
