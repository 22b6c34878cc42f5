-- ===== src/Transport/Bus/Order.antt =====
-- Sequences of calls on the in-memory bus of crates/delivery-transport/src/inmem.rs.
use mathlib.Core.Path.{subst}
use lp_0005_private_token_ba.Prelude.{
  ◌≡◌, refl, sym, ap, ◌∙◌, List, [], ◌∷◌, ◌++◌, append-nil, append_assoc, Bytes, bytes_eq,
  bytes_eq_iff, Bool-cases, inl, inr, lookup, put, lookup-put, Option, Option-cases, some, none, ok,
  err, if◌then◌else◌,
}
use lp_0005_private_token_ba.Offchain.{Risc0}
use lp_0005_private_token_ba.Transport.{CredentialEnvelope}
use lp_0005_private_token_ba.Transport.Bus.{
  InMemoryTransport, Recv, waits, returns, or_insert, channel_for, send, take_first, recv,
}

module _ (zk : Risc0) where
  abbrev Envelope : Type 0
  Envelope = CredentialEnvelope zk

  -- The calls on a bus, in the order in which they take its lock.
  pub data Call : Type 0 where
    sends : Bytes → Envelope → Call
    receives : Bytes → Call

  pending_of : Option (List Envelope) → List Envelope
  pending_of none = []
  pending_of (some channel) = channel

  -- What waits in a topic's channel.
  unfoldable pub pending : InMemoryTransport zk → Bytes → List Envelope
  unfolding pending_of
  pending bus topic = pending_of (lookup bus topic)

  abbrev got : Recv zk → List Envelope
  got waits = []
  got (returns (ok (some envelope))) = envelope ∷ []
  got (returns (ok none)) = []
  got (returns (err e)) = []

  abbrev after : InMemoryTransport zk → Call → InMemoryTransport zk
  after bus (sends topic envelope) = (send zk bus topic envelope).1
  after bus (receives topic) = (recv zk bus topic).1

  unfoldable pub run : InMemoryTransport zk → List Call → InMemoryTransport zk
  run bus [] = bus
  run bus (call ∷ calls) = run (after bus call) calls

  -- The envelopes that a call sends to a topic, and that it receives from it.
  abbrev sent_by : Bytes → Call → List Envelope
  sent_by t (sends topic envelope) = if bytes_eq topic t then envelope ∷ [] else []
  sent_by t (receives topic) = []

  abbrev received_by : InMemoryTransport zk → Bytes → Call → List Envelope
  received_by bus t (sends topic envelope) = []
  received_by bus t (receives topic) = if bytes_eq topic t then got (recv zk bus topic).0 else []

  unfoldable pub sent : Bytes → List Call → List Envelope
  sent t [] = []
  sent t (call ∷ calls) = sent_by t call ++ sent t calls

  unfoldable pub received : InMemoryTransport zk → Bytes → List Call → List Envelope
  received bus t [] = []
  received bus t (call ∷ calls) = received_by bus t call ++ received (after bus call) t calls

  pending-put :
      (bus : InMemoryTransport zk) (topic t : Bytes) (channel : List Envelope)
      → pending (put bus topic channel) t ≡ (if bytes_eq topic t then channel else pending bus t)
  unfolding pending
  pending-put bus topic t channel = elim (Bool-cases (bytes_eq topic t)) [
    | inl e ↦ rw (lookup-put bus topic t channel, e) refl
    | inr e ↦ rw (lookup-put bus topic t channel, e) refl
  ]

  -- Finding the channel changes nothing that waits.
  channel_for-pending :
      (bus : InMemoryTransport zk) (topic : Bytes)
      → ((channel_for zk bus topic).0 ≡ pending bus topic)
        × ((t : Bytes) → pending (channel_for zk bus topic).1 t ≡ pending bus t)
  unfolding channel_for pending
  channel_for-pending bus topic = elim (Option-cases (lookup bus topic)) [
    | inr (channel, e) ↦
        let found = ap (or_insert zk bus topic) e in
        (ap (λ p. p.0) found ∙ sym (ap pending_of e), λ t. ap (λ p. pending p.1 t) found)
    | inl e ↦
        let made = ap (or_insert zk bus topic) e in
        (
          ap (λ p. p.0) made ∙ sym (ap pending_of e),
          λ t.
              ap (λ p. pending p.1 t) made
              ∙ pending-put bus topic t []
              ∙ elim (Bool-cases (bytes_eq topic t)) [
                | inr other ↦ rw other refl
                | inl same ↦ rw same (
                    sym (
                      ap pending_of
                        (subst (λ k. lookup bus k ≡ none) ((bytes_eq_iff topic t).0 same) e)))
              ],
        )
  ]

  pending-send :
      (bus : InMemoryTransport zk) (topic t : Bytes) (envelope : Envelope)
      → pending (send zk bus topic envelope).1 t
        ≡ pending bus t ++ (if bytes_eq topic t then envelope ∷ [] else [])
  unfolding send
  pending-send bus topic t envelope =
      let (channel, others) = channel_for-pending bus topic in
      pending-put (channel_for zk bus topic).1 topic t
        ((channel_for zk bus topic).0 ++ (envelope ∷ []))
      ∙ elim (Bool-cases (bytes_eq topic t)) [
        | inl same ↦ rw same (
            ap (λ c. c ++ (envelope ∷ []))
              (channel ∙ ap (pending bus) ((bytes_eq_iff topic t).0 same)))
        | inr other ↦ rw other (others t ∙ sym (append-nil (pending bus t)))
      ]

  take_first-pending :
      (bus : InMemoryTransport zk) (topic t : Bytes) (channel : List Envelope)
      → pending bus topic ≡ channel
      → (if bytes_eq topic t then got (take_first zk bus topic channel).0 else [])
          ++ pending (take_first zk bus topic channel).1 t
        ≡ pending bus t
  unfolding take_first
  take_first-pending bus topic t [] e = elim (Bool-cases (bytes_eq topic t)) [
    | inl same ↦ rw same refl
    | inr other ↦ rw other refl
  ]
  take_first-pending bus topic t (envelope ∷ later) e = elim (Bool-cases (bytes_eq topic t)) [
    | inl same ↦
        rw (pending-put bus topic t later, same)
          (sym e ∙ ap (pending bus) ((bytes_eq_iff topic t).0 same))
    | inr other ↦ rw (pending-put bus topic t later, other) refl
  ]

  -- What a call receives from a topic is what waited first.
  pending-recv :
      (bus : InMemoryTransport zk) (topic t : Bytes)
      → (if bytes_eq topic t then got (recv zk bus topic).0 else [])
          ++ pending (recv zk bus topic).1 t
        ≡ pending bus t
  unfolding recv
  pending-recv bus topic t =
      let (channel, others) = channel_for-pending bus topic in
      take_first-pending (channel_for zk bus topic).1 topic t (channel_for zk bus topic).0
        (others topic ∙ sym channel)
      ∙ others t

  -- Whatever calls come, in whatever order, what is received from a topic, followed by what still waits
  -- in it, is what waited there followed by what was sent to it, in the order in which it was sent:
  -- nothing is lost, repeated, reordered or taken from another topic.
  pub received-pending :
      (bus : InMemoryTransport zk) (t : Bytes) (calls : List Call)
      → received bus t calls ++ pending (run bus calls) t ≡ pending bus t ++ sent t calls
  unfolding received run sent
  received-pending bus t [] = sym (append-nil (pending bus t))
  received-pending bus t (sends topic envelope ∷ calls) =
      received-pending (send zk bus topic envelope).1 t calls
      ∙ ap (λ p. p ++ sent t calls) (pending-send bus topic t envelope)
      ∙ append_assoc (pending bus t) (sent_by t (sends topic envelope)) (sent t calls)
  received-pending bus t (receives topic ∷ calls) =
      append_assoc (received_by bus t (receives topic)) (received (recv zk bus topic).1 t calls)
        (pending (run (recv zk bus topic).1 calls) t)
      ∙ ap (λ p. received_by bus t (receives topic) ++ p)
          (received-pending (recv zk bus topic).1 t calls)
      ∙ sym (
          append_assoc (received_by bus t (receives topic)) (pending (recv zk bus topic).1 t)
            (sent t calls))
      ∙ ap (λ p. p ++ sent t calls) (pending-recv bus topic t)
