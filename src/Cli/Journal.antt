-- ===== src/Cli/Journal.antt =====
-- journal of crates/cli/src/bin/attest.rs, and the numbers that a JSON value can hold.
use lp_0005_private_token_ba.Prelude.{
  ℕ, ◌≡◌, ◌≤◌, ◌<◌, ◌^◌, ◌⊎◌, inl, inr, refl, [], ◌∷◌, Bytes, bytes_eq, codes, ByteMap, lookup,
  some, ok, err, String,
}
use lp_0005_private_token_ba.Core.{PublicJournal}
use lp_0005_private_token_ba.Offchain.Results.{verify_receipt-ok}
use lp_0005_private_token_ba.Cli.{Platform, Documented, index_value, json_macro_panic}
use lp_0005_private_token_ba.Cli.Files.{index_value-text}
use lp_0005_private_token_ba.Cli.Readers.{journal_lines}
use lp_0005_private_token_ba.Cli.Session.{Holds}

module _ (os : Platform) where
  -- A `u128` is a JSON number where it fits 64 bits.
  abbrev pub NumberLimit : Type 0
  NumberLimit =
      (n : ℕ)
      → ((n < 2 ^ 64) × (v : os.json.Value) × (os.json_text.number n ≡ ok v))
        ⊎ ((2 ^ 64 ≤ n) × (e : String) × (os.json_text.number n ≡ err e))

  -- A text that parses to an object with this text under a key.
  abbrev pub ShowsHex : os.json.Value → String → Bytes → Type 0
  ShowsHex v key b = os.json.as_str (index_value os v (codes key)) ≡ some (os.hex.encode b)

  -- For a credential whose receipt verifies, `journal` prints one text, a JSON object with the journal's
  -- arrays in hexadecimal, where the threshold fits 64 bits; where it does not, it panics in json!.
  pub journal_lines_results :
      (laws : Documented os) (limit : NumberLimit) (s : os.fs.State) (credential : os.fs.FilePath)
      (j : PublicJournal)
      → Holds os s credential j
      → ((j.threshold < 2 ^ 64)
          × (line : Bytes) × (v : os.json.Value) × (journal_lines os s credential ≡ ok (line ∷ []))
          × (os.json_text.from_str line ≡ ok v)
          × ShowsHex v "merkle_root" j.merkle_root
          × ShowsHex v "context_id" j.context_id
          × ShowsHex v "presenter_pubkey" j.presenter_pubkey
          × ShowsHex v "nullifier" j.nullifier)
        ⊎ ((2 ^ 64 ≤ j.threshold)
            × (e : String) × (journal_lines os s credential ≡ err (json_macro_panic e)))
  unfolding journal_lines bytes_eq lookup
  journal_lines_results laws limit s credential j (r, stored, verified, decoded) =
      let received = (verify_receipt-ok os.zk os.attestation_id r j).1 (verified, decoded) in
      elim (limit j.threshold) [
        | inr (large, e, refused) ↦ inr (large, e, rw (stored, received, refused) refl)
        | inl (small, threshold, number) ↦
            let hex_text = λ (b : Bytes). os.json_text.text (os.hex.encode b) in
            let fields : ByteMap os.json.Value =
              (codes "merkle_root", hex_text j.merkle_root)
              ∷ (codes "threshold", threshold)
              ∷ (codes "context_id", hex_text j.context_id)
              ∷ (codes "presenter_pubkey", hex_text j.presenter_pubkey)
              ∷ (codes "nullifier", hex_text j.nullifier)
              ∷ [] in
            let (line, printed, utf8, parsed) = laws.print_parse (os.json_text.object fields) in
            inl (
              small,
              line,
              os.json_text.object fields,
              rw (stored, received, number, printed) refl,
              parsed,
              index_value-text os laws fields (codes "merkle_root") (os.hex.encode j.merkle_root)
                  refl,
              index_value-text os laws fields (codes "context_id") (os.hex.encode j.context_id)
                  refl,
              index_value-text os laws fields (codes "presenter_pubkey")
                  (os.hex.encode j.presenter_pubkey) refl,
              index_value-text os laws fields (codes "nullifier") (os.hex.encode j.nullifier) refl,
            )
      ]
