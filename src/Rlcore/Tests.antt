-- ===== src/Rlcore/Tests.antt =====
-- The registry's theorems at two nodes.
use relink_com.TopicIds.{write_ids, id_at}
use relink_com.Base.{
  ℕ, ◌≤◌, refl, sym, subst, arith, false, le32, le16, u32_at, put, tabulate, length, All, is_in,
  ◌≡◌, true, false, not, ◌&&◌, ◌||◌, none, List, [], ◌∷◌, find, nat_key, pair_key,
}
use relink_com.Register.{
  RegisterAckPeer, DecodedRegisterRequest, DecodedRegisterAck, ok, decoded, encode_register_request,
  decode_register_ack, register_ack_peer_at, register_request_topic_at,
}
use relink_com.Register.Ack.{PeerFits}
use relink_com.Rlcore.{PeerEntry, RlCore, prune_stale}
use relink_com.Rlcore.Dispatch.{
  Flags, same_peer, peers_of, request_topics, register_node, record_topics, all_peers, topic_peers,
  ack_peer, lan_address, Datagram, topic_step,
}
use relink_com.Rlcore.Pruned.{has, is_live, registered, registered-prune_stale}
use relink_com.Rlcore.Acks.{lists, listed}
use relink_com.Rlcore.Replies.{register_node-replies}
use relink_com.Rlcore.Swallowed.{topic_step-swallows}

abbrev first : PeerEntry
first = (3232235777, 4000)

abbrev second : PeerEntry
second = (3232235778, 4001)

abbrev registry : RlCore
registry = record {
  table = (7, (first, tt) ∷ []) ∷ [];
  lan_of = (first, first) ∷ [];
  last_seen = ((7, first), 1000) ∷ [];
  role_table = [];
  role_last_seen = [];
  relay_groups = [];
  topic_names = [];
}

abbrev flags : Flags
flags = record { nat_mode = false; relay_mode = true; cipher = none }

abbrev request : DecodedRegisterRequest
request = record {
  node_ip = 3232235778;
  node_port = 4001;
  topic_count = 1;
  topic_ids_raw = 7 ∷ 0 ∷ 0 ∷ 0 ∷ [];
}

registered-prune_stale_example :
    registered 7 first (prune_stale true 4000001000 registry).table
    ≡ (registered 7 first registry.table && is_live 4000001000 (find (7, first) registry.last_seen))
registered-prune_stale_example = registered-prune_stale true 4000001000 registry 7 first

only_first : List RegisterAckPeer
only_first =
    record { ip = 3232235777; port = 4000; topic_id = 7; lan_ip = 3232235777; lan_port = 4000 } ∷ []

listed_lem : listed flags 2000 second request registry ≡ only_first
unfolding only_first register_node record_topics request_topics register_request_topic_at id_at
    u32_at all_peers topic_peers ack_peer lan_address peers_of find put same_peer
listed_lem = refl

only_first_fits : (length only_first ≤ 4092) × All PeerFits only_first
unfolding only_first
only_first_fits = (
  omega arith,
  (
    record {
      ip = omega arith;
      port = omega arith;
      topic_id = omega arith;
      lan_ip = omega arith;
      lan_port = omega arith;
    },
    tt,
  ),
)

listed_fits :
    (length (listed flags 2000 second request registry) ≤ 4092)
    × All PeerFits (listed flags 2000 second request registry)
listed_fits =
    subst (λ (ps : List RegisterAckPeer). (length ps ≤ 4092) × All PeerFits ps) (sym listed_lem)
      only_first_fits

register_node-replies_example :
    ((t : ℕ) (p : PeerEntry)
      → has p (peers_of t (register_node flags 2000 second request registry).0.table) ≡ (
          (is_in t (request_topics request) && same_peer second p)
          || has p (peers_of t registry.table)))
    × (bytes : List ℕ) × (ack : DecodedRegisterAck) × ((register_node flags 2000 second request
          registry).1
        ≡ record { dest = second; bytes = bytes } ∷ [])
    × (decode_register_ack bytes ≡ decoded ack)
    × (ack.status ≡ 0)
    × ((t : ℕ) (p : PeerEntry)
        → lists t p (tabulate (register_ack_peer_at ack) ack.peer_count) ≡ (
            is_in t (request_topics request)
            && (not (same_peer p second) && has p (peers_of t registry.table))))
register_node-replies_example =
    register_node-replies flags 2000 second request registry refl listed_fits.0 listed_fits.1

-- 192.168.1.35 registers for topic 7.
abbrev like_frame : List ℕ
like_frame = 35 ∷ 1 ∷ 168 ∷ 192 ∷ 161 ∷ 15 ∷ 1 ∷ 0 ∷ 7 ∷ 0 ∷ 0 ∷ 0 ∷ []

like_frame_lem : encode_register_request 3232235811 4001 (7 ∷ []) 65507 ≡ ok like_frame
unfolding encode_register_request write_ids le32 le16
like_frame_lem = refl

topic_step-swallows_example :
    ((topic_step flags 2000 second like_frame registry).0 ≡ registry)
    × All
        (λ (d : Datagram). (d.bytes ≡ like_frame) × (same_peer d.dest second ≡ false))
        (topic_step flags 2000 second like_frame registry).1
topic_step-swallows_example =
    topic_step-swallows flags 2000 second 3232235811 4001 65507 7 [] like_frame registry refl
      like_frame_lem (omega arith)
