-- ===== src/Chat.antt =====
-- integrations/chat-gate/src/lib.rs: admission to a chat group by a credential. A group's identifier
-- is the list of its UTF-8 bytes.
pub mod Members
pub mod Demo
use lp_0005_private_token_ba.Prelude.{
  ℕ, List, [], ◌∷◌, Bytes, codes, ByteSet, insert, Result, ok, err, if◌then◌else◌,
}
use lp_0005_private_token_ba.Crypto.{Sha256, hash_parts, Ecdsa}
use lp_0005_private_token_ba.Core.{PublicJournal}
use lp_0005_private_token_ba.Offchain.{Risc0, VerifyError, verify_credential}

pub data AdmissionError : Type 0 where
  verify : VerifyError → AdmissionError
  nullifier_reused wrong_group : AdmissionError

unfoldable pub group_context_id : Sha256 → Bytes → Bytes
group_context_id sha group_id =
    hash_parts sha (codes "/lp-0005/integ/chat-gate-v1/" ∷ group_id ∷ [])

pub record GroupRoster : Type 0 where
  pub group_id : Bytes
  pub members : ByteSet
  pub used_nullifiers : ByteSet
  pub minimum_stake : ℕ

abbrev pub new_roster : Bytes → ℕ → GroupRoster
new_roster group_id minimum_stake = record {
  group_id = group_id;
  members = [];
  used_nullifiers = [];
  minimum_stake = minimum_stake;
}

-- After the verification: the nullifier is spent and the key joins.
unfoldable pub admit_verified :
    GroupRoster
    → Result VerifyError PublicJournal
    → Result AdmissionError PublicJournal × GroupRoster
admit_verified roster (err e) = (err (verify e), roster)
admit_verified roster (ok journal) =
    let (used, fresh) = insert roster.used_nullifiers journal.nullifier in
    if fresh
    then (
      ok journal,
      record roster {
        used_nullifiers = used;
        members = (insert roster.members journal.presenter_pubkey).0;
      },
    )
    else (err nullifier_reused, record roster { used_nullifiers = used })

unfoldable pub admit :
    (sha : Sha256) (ec : Ecdsa) (zk : Risc0) (attestation_id : List ℕ)
    → GroupRoster
    → zk.Receipt
    → Bytes
    → Bytes
    → Result AdmissionError PublicJournal × GroupRoster
admit sha ec zk attestation_id roster receipt presenter_nonce presenter_signature_der =
    admit_verified roster (
      verify_credential zk attestation_id sha ec receipt presenter_nonce presenter_signature_der
        (group_context_id sha roster.group_id) roster.minimum_stake)
