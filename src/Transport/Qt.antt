-- ===== src/Transport/Qt.antt =====
-- crates/delivery-transport/src/qt_bridge.rs: the transport over a helper process, of which the spawn is
-- there and both operations are refused. The helper's path is read from the environment.
use lp_0005_private_token_ba.Prelude.{
  Bytes, String, codes, Option, some, none, Result, ok, err, map_err,
}
use lp_0005_private_token_ba.Offchain.{Risc0}
use lp_0005_private_token_ba.Transport.{
  CredentialEnvelope, TransportError, upstream, text, spawn_failed,
}

-- By the variable `LOGOS_DELIVERY_HELPER`.
abbrev pub helper_path : Option Bytes → Bytes
helper_path none = codes "logos-delivery-helper"
helper_path (some path) = path

-- The process behind its lock.
pub record QtBridgeTransport (Child : Type 0) : Type 0 where
  pub child : Child

module _ {Child : Type 0} where
  abbrev pub of_child :
      Result TransportError Child → Result TransportError (QtBridgeTransport Child)
  of_child (ok child) = ok (record { child = child })
  of_child (err e) = err e

  unfoldable pub spawn :
      (run : Bytes → Result String Child)
      → Option Bytes
      → Result TransportError (QtBridgeTransport Child)
  spawn run variable =
      of_child (map_err (λ e. upstream (spawn_failed e)) (run (helper_path variable)))

  unfoldable pub qt_send :
      {zk : Risc0}
      → QtBridgeTransport Child
      → Bytes
      → CredentialEnvelope zk
      → Result TransportError (Unit {0})
  qt_send bridge topic envelope = err (upstream (text "qt-bridge not wired up yet (task #16)"))

  unfoldable pub qt_recv :
      {zk : Risc0}
      → QtBridgeTransport Child
      → Bytes
      → Result TransportError (Option (CredentialEnvelope zk))
  qt_recv bridge topic = err (upstream (text "qt-bridge not wired up yet (task #16)"))
