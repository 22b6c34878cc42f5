-- ===== src/Cli/EndToEnd.antt =====
-- main of crates/cli/src/bin/attest.rs, command after command.
use lp_0005_private_token_ba.Prelude.{
  ℕ, ◌≡◌, ◌≢◌, ◌≤◌, refl, [], ◌∷◌, Bytes, Bool, All, IsByte, length, some, none, ok,
}
use lp_0005_private_token_ba.Cli.{Platform, Documented, load_presenter}
use lp_0005_private_token_ba.Cli.Commands.{
  keygen, prove_to, sign_challenge, verify, finish, prove_request, main,
}
use lp_0005_private_token_ba.Cli.Files.{Writable, keygen_cmd-load_presenter}
use lp_0005_private_token_ba.Cli.Session.{
  Works, demo_journal, verified_lines, prove_cmd-Holds, verify_lines-presenter, challenge_response,
}

module _ (os : Platform) (laws : Documented os) (works : Works os)
    (writable : (s : os.fs.State) (p : os.fs.FilePath) → Writable os laws s p) where
  -- On a platform that behaves as its crates document, whose files can be written and whose prover
  -- proves what the guest commits: after `keygen` with random bytes that are a key, `prove` with a balance
  -- that reaches the threshold and another file for the credential, `verify` with the key's file
  -- accepts in the same context at every floor up to the threshold. No command fails, and `verify` prints the
  -- journal's threshold, context and nullifier.
  pub main-keygen_prove_verify :
      (random drawn elapsed context : Bytes) (s : os.fs.State)
      (key_file credential : os.fs.FilePath) (key : os.signer.SigningKey)
      (balance threshold floor : ℕ) (wrap : Bool)
      → All IsByte random
      → length random ≡ 32
      → os.key_from_bytes random ≡ ok key
      → credential ≢ key_file
      → threshold ≤ balance
      → floor ≤ threshold
      → (let made = main os random elapsed s (keygen key_file) in
          let proved =
            main os random elapsed made.files
              (prove_to key_file balance threshold context wrap credential) in
          (made.outcome ≡ ok tt)
          × (proved.outcome ≡ ok tt)
          × (main os drawn elapsed proved.files
                (verify credential context floor none none (some key_file))
              ≡ finish os proved.files
                  (verified_lines os (demo_journal os key balance threshold context))))
  unfolding main prove_request
  main-keygen_prove_verify random drawn elapsed context s key_file credential key balance threshold
        floor wrap range size valid apart reaches enough =
      let (made, loaded) =
        keygen_cmd-load_presenter os laws random s key_file key range size valid
          (writable s key_file) in
      let files = (main os random elapsed s (keygen key_file)).files in
      let (proved, holds, kept) =
        prove_cmd-Holds os laws works elapsed files key_file credential key balance threshold
          context wrap loaded apart (writable files credential) reaches in
      let verified =
        verify_lines-presenter os laws _ credential key_file
          (demo_journal os key balance threshold context) key holds kept refl drawn context floor
          refl enough in
      (made, proved, rw verified refl)

  -- With a key's file and the credential that `prove` wrote with it: for every 32-byte nonce of a verifier,
  -- `sign-challenge` on the nonce in hexadecimal prints one line, and `verify` with that nonce and
  -- that line accepts, in the same context at every floor up to the threshold.
  pub main-challenge_response :
      (nonce drawn elapsed context : Bytes) (s : os.fs.State) (key_file credential : os.fs.FilePath)
      (key : os.signer.SigningKey) (balance threshold floor : ℕ) (wrap : Bool)
      → load_presenter os s key_file ≡ ok key
      → credential ≢ key_file
      → threshold ≤ balance
      → floor ≤ threshold
      → All IsByte nonce
      → length nonce ≡ 32
      → (let proved =
            main os drawn elapsed s (prove_to key_file balance threshold context wrap credential) in
          (answer : Bytes) × (main os drawn elapsed proved.files
              (sign_challenge credential key_file (os.hex.encode nonce))
            ≡ finish os proved.files (answer ∷ []))
          × (main os drawn elapsed proved.files
                (verify credential context floor (some (os.hex.encode nonce)) (some answer) none)
              ≡ finish os proved.files
                  (verified_lines os (demo_journal os key balance threshold context))))
  unfolding main prove_request
  main-challenge_response nonce drawn elapsed context s key_file credential key balance threshold
        floor wrap loaded apart reaches enough range size =
      let (proved, holds, kept) =
        prove_cmd-Holds os laws works elapsed s key_file credential key balance threshold context
          wrap loaded apart (writable s credential) reaches in
      let (answer, signed, verified) =
        challenge_response os laws _ credential key_file
          (demo_journal os key balance threshold context) key holds kept refl drawn nonce context
          floor none range size refl enough in
      (answer, rw signed refl, rw verified refl)
