-- ===== src/Node/Publish.antt =====
-- Publishing of RelinkNode (relink.hpp): every known peer of a topic gets a copy, and so does the relay.
-- `sent_ok` is what `sendto` answers for an address; the node has been started.
use relink_com.Base.{
  Option, none, some, ℕ, Bool, true, false, not, ◌&&◌, ◌||◌, none, some, List, [], ◌∷◌, ◌++◌, ◌==◌,
  if◌then◌else◌, find, nat_key, length,
}
use relink_com.Transport.{next_seq, publish_seq}
use relink_com.Node.{
  PeerAddr, Node, relay_peer, declare_advertised, transport_for, transport_at, update_transport,
}

abbrev pub Datagrams : Type 0
Datagrams = List (PeerAddr × List ℕ)

-- A payload that no frame can carry is not sent.
unfoldable pub send_frame : (PeerAddr → Bool) → PeerAddr → Option (List ℕ) → Bool × Datagrams
send_frame sent_ok peer none = (false, [])
send_frame sent_ok peer (some bytes) = (sent_ok peer, (peer, bytes) ∷ [])

unfoldable pub send_one : (PeerAddr → Bool) → ℕ → List ℕ → ℕ → PeerAddr → Bool × Datagrams
send_one sent_ok topic payload seq peer = send_frame sent_ok peer (publish_seq topic payload seq)

-- The loop over the peers; `all_ok` so far.
unfoldable pub send_peers :
    (PeerAddr → Bool) → ℕ → List ℕ → ℕ → Bool → List PeerAddr → Bool × Datagrams
send_peers sent_ok topic payload seq all_ok [] = (all_ok, [])
send_peers sent_ok topic payload seq all_ok (p ∷ ps) =
    let (is_sent, datagram) = send_one sent_ok topic payload seq p in
    let (result, more) = send_peers sent_ok topic payload seq (is_sent && all_ok) ps in
    (result, datagram ++ more)

module _ {H : Type 0} where
  unfoldable pub peers_for_topic : ℕ → Node H → List PeerAddr
  peers_for_topic topic n = elim (find topic n.peers) [ none ↦ [] | some peers ↦ peers ]

  unfoldable pub send_relay : (PeerAddr → Bool) → ℕ → List ℕ → ℕ → Node H → Bool × Datagrams
  send_relay sent_ok topic payload seq n =
      if n.relay_enabled then send_one sent_ok topic payload seq (relay_peer n) else (false, [])

  -- publish_raw, and publish of a message that is no image: the new state, what is returned and what is sent.
  unfoldable pub publish_raw : (PeerAddr → Bool) → ℕ → List ℕ → Node H → Node H × Bool × Datagrams
  publish_raw sent_ok topic payload n0 =
      let n = declare_advertised topic n0 in
      let peers = peers_for_topic topic n in
      let (via, n1) = transport_for topic n in
      let (t, seq) = next_seq (transport_at via n1) in
      let n2 = update_transport via t n1 in
      let (all_ok, direct) = send_peers sent_ok topic payload seq true peers in
      let (relay_ok, relayed) = send_relay sent_ok topic payload seq n in
      (n2, (all_ok && not (length peers == 0)) || relay_ok, direct ++ relayed)
