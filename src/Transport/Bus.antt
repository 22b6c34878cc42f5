-- ===== src/Transport/Bus.antt =====
-- crates/delivery-transport/src/inmem.rs: the in-process bus, one channel for each topic. The map keeps
-- both ends of every channel, so that a send never fails and no channel closes; a `recv` on an empty
-- channel waits.
pub mod Order
use lp_0005_private_token_ba.Prelude.{
  List, [], ◌∷◌, ◌++◌, Bytes, ByteMap, lookup, put, Option, some, none, Result, ok,
}
use lp_0005_private_token_ba.Offchain.{Risc0}
use lp_0005_private_token_ba.Transport.{CredentialEnvelope, TransportError}

module _ (zk : Risc0) where
  -- The channels, each as the envelopes sent and not yet received.
  abbrev pub InMemoryTransport : Type 0
  InMemoryTransport = ByteMap (List (CredentialEnvelope zk))

  pub data Recv : Type 0 where
    waits : Recv
    returns : Result TransportError (Option (CredentialEnvelope zk)) → Recv

  -- The entry of a topic: its channel, or a new one put into the map.
  abbrev pub or_insert :
      InMemoryTransport
      → Bytes
      → Option (List (CredentialEnvelope zk))
      → List (CredentialEnvelope zk) × InMemoryTransport
  or_insert bus topic none = ([], put bus topic [])
  or_insert bus topic (some channel) = (channel, bus)

  unfoldable pub channel_for :
      InMemoryTransport → Bytes → List (CredentialEnvelope zk) × InMemoryTransport
  channel_for bus topic = or_insert bus topic (lookup bus topic)

  unfoldable pub send :
      InMemoryTransport
      → Bytes
      → CredentialEnvelope zk
      → Result TransportError (Unit {0}) × InMemoryTransport
  send bus topic envelope =
      let (channel, bus') = channel_for bus topic in
      (ok tt, put bus' topic (channel ++ (envelope ∷ [])))

  unfoldable pub take_first :
      InMemoryTransport → Bytes → List (CredentialEnvelope zk) → Recv × InMemoryTransport
  take_first bus topic [] = (waits, bus)
  take_first bus topic (envelope ∷ later) = (returns (ok (some envelope)), put bus topic later)

  unfoldable pub recv : InMemoryTransport → Bytes → Recv × InMemoryTransport
  recv bus topic = let (channel, bus') = channel_for bus topic in take_first bus' topic channel
