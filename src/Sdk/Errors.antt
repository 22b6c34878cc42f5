-- ===== src/Sdk/Errors.antt =====
-- The errors of crates/sdk/src/lib.rs: what `classify` makes of the text of a prover's error, which it
-- searches for the causes it knows, and the checked forms of prove and prove_groth16.
pub mod Classified
use lp_0005_private_token_ba.Prelude.{
  List, [], ◌∷◌, Bytes, String, codes, Bool, true, false, ◌||◌, if◌then◌else◌, Option, some, none,
  Result, map_err,
}
use lp_0005_private_token_ba.Crypto.{Sha256}
use lp_0005_private_token_ba.Offchain.{Risc0}
use lp_0005_private_token_ba.Text.{contains_text, second_part, trim}
use lp_0005_private_token_ba.Sdk.{AttestationProof, ProveRequest, Prover, prove, prove_groth16}

pub data ProveError : Type 0 where
  statement_false : (reason : Bytes) → ProveError
  prover_unavailable groth16_unavailable session_limit other : Bytes → ProveError

-- The text of an error with its causes, `{e:#}`, and the lower case of a text.
pub record ErrorText : Type 0 where
  pub alternate : String → Bytes
  pub to_lowercase : Bytes → Bytes

-- The first of the markers that a message contains.
unfoldable pub first_marker : List String → Bytes → Option Bytes
first_marker [] msg = none
first_marker (marker ∷ markers) msg =
    let later = first_marker markers msg in
    if contains_text msg (codes marker) then some (codes marker) else later

abbrev pub below_marker : String
below_marker = "balance is below the attested threshold"

abbrev pub anchor_marker : String
anchor_marker = "merkle path does not anchor to the claimed root"

unfoldable pub panic_reason : Bytes → Bytes
panic_reason msg = elim (second_part (codes "Guest panicked:") msg) [
  | none ↦ trim msg
  | some reason ↦ trim reason
]

-- The causes that are searched for in lower case.
unfoldable pub classify_low : Bytes → Bytes → ProveError
classify_low msg low =
    if contains_text low (codes "guest panicked")
    then statement_false (panic_reason msg)
    else if contains_text low (codes "session limit") || contains_text low (codes "cycle limit")
    then session_limit msg
    else if contains_text low (codes "groth16")
        || contains_text low (codes "stark2snark")
        || contains_text low (codes "docker")
    then groth16_unavailable msg
    else if contains_text low (codes "r0vm")
        || contains_text low (codes "no such file")
        || contains_text low (codes "not found")
    then prover_unavailable msg
    else other msg

-- With the marker that was found, if any.
abbrev pub classify_marked : Option Bytes → Bytes → Bytes → ProveError
classify_marked (some marker) msg low = statement_false marker
classify_marked none msg low = classify_low msg low

unfoldable pub classify : ErrorText → String → ProveError
classify texts e =
    let msg = texts.alternate e in
    classify_marked (first_marker (below_marker ∷ anchor_marker ∷ []) msg) msg
      (texts.to_lowercase msg)

module _ (sha : Sha256) (texts : ErrorText) {zk : Risc0} (prover : Prover zk) where
  unfoldable pub prove_checked : ProveRequest → Result ProveError (AttestationProof zk)
  prove_checked req = map_err (classify texts) (prove sha prover req)

  unfoldable pub prove_groth16_checked : ProveRequest → Result ProveError (AttestationProof zk)
  prove_groth16_checked req = map_err (classify texts) (prove_groth16 sha prover req)
