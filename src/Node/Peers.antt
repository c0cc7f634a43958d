-- ===== src/Node/Peers.antt =====
-- What RelinkNode (relink.hpp) learns from rlcore, and what it tells it: the first registration in ensure_started,
-- the ticks of start_rlcore_reregister_thread, and the announcements.
use relink_com.Base.{
  ℕ, ◌+◌, ◌%◌, Bool, true, false, not, ◌&&◌, ◌||◌, Option, none, some, List, [], ◌∷◌, ◌++◌, ◌==◌,
  if◌then◌else◌, find, put, nat_key, length,
}
use relink_com.Register.{RegisterAckPeer}
use relink_com.TopicDir.{
  TopicDirEntry, encode_topic_dir_announce, chunk_topic_dir_entries, topic_dir_max_packet,
}
use relink_com.Roles.{
  RoleAnnounceEntry, encode_role_announce, chunk_role_announce_entries, role_max_packet,
}
use relink_com.RelayWire.{encode_relay_register}
use relink_com.Node.{PeerAddr, Node, Topics}
use relink_com.Node.Publish.{peers_for_topic}

unfoldable pub same_addr : PeerAddr → PeerAddr → Bool
same_addr a b = (a.0 == b.0) && (a.1 == b.1)

-- The LAN candidate of a peer counts where there is one and it is not the address itself.
unfoldable pub has_lan : RegisterAckPeer → Bool
has_lan p = not (p.lan_ip == 0) && not ((p.lan_ip == p.ip) && (p.lan_port == p.port))

unfoldable pub in_list : PeerAddr → List PeerAddr → Bool
in_list a [] = false
in_list a (x ∷ xs) = same_addr x a || in_list a xs

unfoldable pub contains : ℕ → Topics → Bool
contains t topics = elim (find t topics) [ none ↦ false | some u ↦ true ]

unfoldable pub or_skipped : Option (List ℕ) → List (List ℕ) → List (List ℕ)
or_skipped none rest = rest
or_skipped (some bytes) rest = bytes ∷ rest

-- One packet per chunk; one that cannot be encoded is not sent.
unfoldable pub packets : {E : Type 0} → (E → Option (List ℕ)) → List E → List (List ℕ)
packets encode [] = []
packets encode (c ∷ cs) = or_skipped (encode c) (packets encode cs)

unfoldable pub name_entries : List (ℕ × List ℕ) → List TopicDirEntry
name_entries [] = []
name_entries ((topic, name) ∷ names) = record { topic_id = topic; name = name } ∷ name_entries names

-- The packets of register_all_topics_with_relay for one transport.
unfoldable pub relay_registers : List ℕ → List (List ℕ)
relay_registers topics = packets (λ topic. encode_relay_register topic 8) topics

-- An address that is punched if it is new.
unfoldable pub new_addr : Bool → PeerAddr → List PeerAddr → List PeerAddr
new_addr true addr rest = addr ∷ rest
new_addr false addr rest = rest

module _ {H : Type 0} where
  -- `peers_[topic_id].push_back(addr)`
  unfoldable pub push_peer : ℕ → PeerAddr → Node H → Node H
  push_peer topic addr n = record n {
    peers = put topic (peers_for_topic topic n ++ (addr ∷ [])) n.peers;
  }

  -- The peers of the first registration are appended.
  unfoldable pub learn_first : List RegisterAckPeer → Node H → Node H
  learn_first [] n = n
  learn_first (p ∷ ps) n =
      let n1 = push_peer p.topic_id (p.ip, p.port) n in
      let n2 = push_peer p.topic_id (p.lan_ip, p.lan_port) n1 in
      let more = learn_first ps in more (if has_lan p then n2 else n1)

  unfoldable pub add_if_new : ℕ → PeerAddr → Node H → Node H × Bool
  add_if_new topic addr n =
      if in_list addr (peers_for_topic topic n)
      then (record n { peers = put topic (peers_for_topic topic n) n.peers }, false)
      else (push_peer topic addr n, true)

  -- One entry of an ack: the address and the LAN candidate; what is new is punched afterwards.
  unfoldable pub merge_peer : RegisterAckPeer → Node H → Node H × List PeerAddr
  merge_peer p n =
      let (n1, is_new) = add_if_new p.topic_id (p.ip, p.port) n in
      let (n2, lan_is_new) = add_if_new p.topic_id (p.lan_ip, p.lan_port) n1 in
      if has_lan p
      then (n2, new_addr is_new (p.ip, p.port) (new_addr lan_is_new (p.lan_ip, p.lan_port) []))
      else (n1, new_addr is_new (p.ip, p.port) [])

  unfoldable pub merge_peers : List RegisterAckPeer → Node H → Node H × List PeerAddr
  merge_peers [] n = (n, [])
  merge_peers (p ∷ ps) n =
      let (n1, new) = merge_peer p n in let (n2, more) = merge_peers ps n1 in (n2, new ++ more)

  -- The topics of a group without a peer.
  unfoldable pub pending : List ℕ → Node H → List ℕ
  pending [] n = []
  pending (t ∷ ts) n =
      let rest = pending ts n in if length (peers_for_topic t n) == 0 then t ∷ rest else rest

  -- The topics of a group that a tick registers; none is no request.
  unfoldable pub to_register : ℕ → List ℕ → Node H → List ℕ
  to_register tick topics n = if tick % 10 == 0 then topics else pending topics n

  unfoldable pub role_of : ℕ → Node H → ℕ
  role_of topic n =
      (if contains topic n.advertised_topics then 1 else 0)
      + (if contains topic n.subscribed_topics then 2 else 0)

  unfoldable pub role_entries : List ℕ → Node H → List RoleAnnounceEntry
  role_entries [] n = []
  role_entries (t ∷ ts) n =
      let rest = role_entries ts n in
      if role_of t n == 0 then rest else record { topic_id = t; role = role_of t n } ∷ rest

  -- The role announce of one group.
  unfoldable pub role_packets : List ℕ → Node H → List (List ℕ)
  role_packets topics n =
      packets (λ c. encode_role_announce c role_max_packet)
        (chunk_role_announce_entries (role_entries topics n))

  -- announce_topic_names_to_rlcore
  unfoldable pub name_packets : Node H → List (List ℕ)
  name_packets n =
      packets (λ c. encode_topic_dir_announce c topic_dir_max_packet)
        (chunk_topic_dir_entries (name_entries n.topic_names))
