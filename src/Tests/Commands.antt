-- ===== src/Tests/Commands.antt =====
-- The command line and the errors of the SDK at a concrete platform.
use lp_0005_private_token_ba.Prelude.{
  ◌≡◌, ◌≢◌, refl, List, [], ◌∷◌, Bytes, codes, true, bytes_eq_ne, bytes_eq, ◌∙◌, le_bytes,
  le_bytes-IsByte, length-le_bytes, replicate, ByteMap, put, some, none, ok, arith,
}
use lp_0005_private_token_ba.Core.{PublicJournal, IsJournal}
use lp_0005_private_token_ba.Crypto.{hash_parts}
use lp_0005_private_token_ba.Offchain.{verify_credential}
use lp_0005_private_token_ba.Gate.Shallow
use lp_0005_private_token_ba.Gate.Deep
use lp_0005_private_token_ba.Cli.{load_presenter, load_receipt, context_id_from}
use lp_0005_private_token_ba.Cli.Commands.{keygen, prove_to, sign_challenge, verify, finish, main}
use lp_0005_private_token_ba.Cli.Readers.{gated_check_args_lines, resolve, verify_lines}
use lp_0005_private_token_ba.Cli.Session.{
  Works, verify_lines-presenter, Holds, demo_journal, verified_lines,
}
use lp_0005_private_token_ba.Cli.Files.{
  keygen_cmd-load_presenter, load_receipt_written, load_presenter_other,
}
use lp_0005_private_token_ba.Cli.EndToEnd.{main-keygen_prove_verify, main-challenge_response}
use lp_0005_private_token_ba.Cli.Flags.{
  Flags, IsBytesJournal, challenge_args, gated_check_args_accepted,
}
use lp_0005_private_token_ba.Cli.Verified.{verify_lines_sound}
use lp_0005_private_token_ba.Tests.Fixtures.{test_sha, test_risc0, test_lee, presenter}
use lp_0005_private_token_ba.Tests.Client.{test_prover-Proves}
use lp_0005_private_token_ba.Tests.Texts.{test_hex}
use lp_0005_private_token_ba.Tests.Platform.{os, os-Documented, put_journal}

works : Works os
works = (test_prover-Proves, λ r. (_, refl))

writable :
    (s : ByteMap Bytes) (p : Bytes) (b : Bytes) → (s' : ByteMap Bytes) × (os.fs.write s p b ≡ ok s')
writable s p b = (put s p b, refl)

abbrev random : Bytes
random = replicate 32 9

abbrev key_file : Bytes
key_file = codes "key"

abbrev credential : Bytes
credential = codes "cred"

apart : credential ≢ key_file
unfolding bytes_eq
apart = bytes_eq_ne credential key_file refl

abbrev made : ByteMap Bytes
made = (main os random [] [] (keygen key_file)).files

abbrev proved : ByteMap Bytes
proved = (main os random [] made (prove_to key_file 10 7 (codes "gov") true credential)).files

main-keygen_prove_verify_example :
    ((main os random [] [] (keygen key_file)).outcome ≡ ok tt)
    × ((main os random [] made (prove_to key_file 10 7 (codes "gov") true credential)).outcome
        ≡ ok tt)
    × (main os (codes "n") [] proved (verify credential (codes "gov") 5 none none (some key_file))
        ≡ finish os proved (verified_lines os (demo_journal os 9 10 7 (codes "gov"))))
main-keygen_prove_verify_example =
    main-keygen_prove_verify os os-Documented works writable random (codes "n") [] (codes "gov") []
      key_file credential 9 10 7 5 true (omega arith) refl refl apart (omega arith) (omega arith)

loaded : load_presenter os made key_file ≡ ok 9
unfolding main
loaded =
    (keygen_cmd-load_presenter os os-Documented random [] key_file 9 (omega arith) refl refl
      (writable [] key_file)).1

main-challenge_response_example :
    (answer : Bytes) × (main os random [] proved
        (sign_challenge credential key_file (test_hex.encode random))
      ≡ finish os proved (answer ∷ []))
    × (main os random [] proved
          (verify credential (codes "gov") 5 (some (test_hex.encode random)) (some answer) none)
        ≡ finish os proved (verified_lines os (demo_journal os 9 10 7 (codes "gov"))))
main-challenge_response_example =
    main-challenge_response os os-Documented works writable random random [] (codes "gov") made
      key_file credential 9 10 7 5 true loaded apart (omega arith) (omega arith) (omega arith) refl

-- A credential that was not made here: its journal, in a file beside the key's.
abbrev j : PublicJournal
j = record {
  merkle_root = replicate 32 1;
  threshold = 7;
  context_id = context_id_from test_sha (codes "gov");
  presenter_pubkey = le_bytes 33 9;
  nullifier = replicate 32 2;
}

abbrev stored : ByteMap Bytes
stored = put made credential (put_journal j)

stored-Holds : Holds os stored credential j
stored-Holds = (
  j,
  load_receipt_written os os-Documented made stored credential j (put_journal j) refl refl,
  refl,
  refl,
)

stored_key : load_presenter os stored key_file ≡ ok 9
stored_key =
    load_presenter_other os os-Documented made stored credential key_file (put_journal j) apart refl
    ∙ loaded

j-IsJournal : IsJournal j
unfolding context_id_from hash_parts
j-IsJournal = record {
  root_hash = refl;
  threshold_u128 = omega arith;
  context_hash = length-le_bytes 32 _;
  pubkey_length = length-le_bytes 33 9;
  nullifier_hash = refl;
}

j-IsBytesJournal : IsBytesJournal j
unfolding context_id_from hash_parts
j-IsBytesJournal = record {
  root_bytes = omega arith;
  context_bytes = le_bytes-IsByte 32 _;
  pubkey_bytes = le_bytes-IsByte 33 9;
  nullifier_bytes = omega arith;
}

gated_check_args_accepted_example :
    (lines : List Bytes) × (gated_check_args_lines os stored credential key_file
        (codes "gov")
        5
        (test_hex.encode random)
      ≡ ok lines)
    × Flags os lines
        (challenge_args os os-Documented stored credential key_file j 9 random (codes "gov") 5)
    × (Shallow.gated_check os.sha os.ec test_lee presenter
          (challenge_args os os-Documented stored credential key_file j 9 random (codes "gov") 5)
        ≡ ok (record { accounts = test_lee.account presenter ∷ []; chained = [] }))
gated_check_args_accepted_example =
    gated_check_args_accepted os os-Documented stored credential key_file j 9 random (codes "gov") 5
      test_lee presenter stored-Holds stored_key refl j-IsJournal j-IsBytesJournal (omega arith)
      refl refl (omega arith)

verified :
    verify_lines os [] stored credential (codes "gov") 5 none none (some key_file)
    ≡ ok (verified_lines os j)
verified =
    verify_lines-presenter os os-Documented stored credential key_file j 9 stored-Holds stored_key
      refl [] (codes "gov") 5 refl (omega arith)

verify_lines_sound_example :
    (r : PublicJournal) × (n : Bytes) × (sig : Bytes) × (k : PublicJournal) × (load_receipt os
        stored credential
      ≡ ok r)
    × (resolve os [] stored r none none (some key_file) ≡ ok (n, sig))
    × (verify_credential test_risc0
          (5 ∷ [])
          test_sha
          os.ec
          r
          n
          sig
          (context_id_from test_sha (codes "gov"))
          5
        ≡ ok k)
    × (verified_lines os j ≡ verified_lines os k)
verify_lines_sound_example =
    verify_lines_sound os [] stored credential (codes "gov") 5 none none (some key_file)
      (verified_lines os j) verified

abbrev fields : Bytes
fields = replicate 32 1

abbrev digest : Bytes
digest = Deep.presenter_challenge_digest test_sha random fields 7 fields (le_bytes 33 9) fields
