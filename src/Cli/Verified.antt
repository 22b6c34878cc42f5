-- ===== src/Cli/Verified.antt =====
-- verify of crates/cli/src/bin/attest.rs, in every mode, beside the off-chain verifier.
use lp_0005_private_token_ba.Prelude.{
  ℕ, ◌≡◌, refl, List, Bytes, Option, some, none, ok, err, map_err, map_err-ok, bind_inverse,
}
use lp_0005_private_token_ba.Core.{PublicJournal}
use lp_0005_private_token_ba.Offchain.{verify_credential}
use lp_0005_private_token_ba.Cli.{Platform, verify_failed, usage, context_id_from, load_receipt}
use lp_0005_private_token_ba.Cli.Readers.{resolve, verify_lines}
use lp_0005_private_token_ba.Cli.Session.{verified_lines}

module _ (os : Platform) where
  -- Where `verify` prints anything, the credential's file decodes to a receipt that the off-chain verifier
  -- accepts in the context and at the floor that were asked for, under the nonce and the signature of
  -- the mode; the lines are those of the journal that it returns.
  pub verify_lines_sound :
      (random : Bytes) (s : os.fs.State) (credential : os.fs.FilePath) (context : Bytes) (floor : ℕ)
      (nonce signature : Option Bytes) (presenter : Option os.fs.FilePath) (lines : List Bytes)
      → verify_lines os random s credential context floor nonce signature presenter ≡ ok lines
      → (r : os.zk.Receipt) × (n : Bytes) × (sig : Bytes) × (j : PublicJournal) × (load_receipt os s
            credential
          ≡ ok r)
        × (resolve os random s r nonce signature presenter ≡ ok (n, sig))
        × (verify_credential os.zk os.attestation_id os.sha os.ec r n sig
              (context_id_from os.sha context)
              floor
            ≡ ok j)
        × (lines ≡ verified_lines os j)
  unfolding verify_lines
  verify_lines_sound random s credential context floor nonce signature presenter lines printed =
      let (r, loaded, rest) = bind_inverse (load_receipt os s credential) _ printed in
      let ((n, sig), resolved, rest') =
        bind_inverse (resolve os random s r nonce signature presenter) _ rest in
      let (j, verified, rest'') = bind_inverse (map_err verify_failed _) _ rest' in
      (r, n, sig, j, loaded, resolved, map_err-ok verify_failed _ verified, cc rest'')

  -- What `verify` signs itself is signed by the key of the presenter's file on the random nonce; without both
  -- a nonce and a signature, or neither and a presenter's file, it is a usage error, and a file beside a
  -- nonce and a signature is not read.
  pub resolve_modes :
      (random : Bytes) (s : os.fs.State) (r : os.zk.Receipt) (n_hex s_hex : Bytes)
      (path : Option os.fs.FilePath)
      → (resolve os random s r (some n_hex) none path ≡ err usage)
        × (resolve os random s r none (some s_hex) path ≡ err usage)
        × (resolve os random s r none none none ≡ err usage)
        × (resolve os random s r (some n_hex) (some s_hex) path
            ≡ resolve os random s r (some n_hex) (some s_hex) none)
  unfolding resolve
  resolve_modes random s r n_hex s_hex path = (refl, refl, refl, refl)
