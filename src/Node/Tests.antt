-- ===== src/Node/Tests.antt =====
-- The examples at which the theorems on nodes are applied.
use relink_com.Base.{
  is_in, keep, if◌then◌else◌, ℕ, ◌≡◌, ◌↔◌, ◌⊎◌, refl, arith, true, false, not, ◌&&◌, ◌||◌, ◌==◌,
  none, some, List, [], ◌∷◌, ◌++◌, map, length, All, find, put, nat_key,
}
use relink_com.TopicHash.{fnv1a32, fnv1a32_from, mix}
use relink_com.Transport.{
  set_topic_handler, Transport, recv_and_dispatch, is_recent_duplicate, check_window, scan,
  window_of,
}
use relink_com.Transport.Window.{IsWindow, new_window-IsWindow}
use relink_com.Register.{RegisterAckPeer}
use relink_com.Node.{
  subscribe_raw, subscribed, register_pair, with_pair, declare_subscribed, make_transport,
  update_transport, PeerAddr, Node, new_node, new_transport, shared, dedicated, group_key,
  transport_for, topic_id_for, with_known_name, transport_at, declare_advertised,
}
use relink_com.Node.Start.{
  groups, topic_routes, route_topics, dedicated_groups, by_transport, add_topic, topics_at,
  topics_of, shared_group, leftover, has_transport, is_made,
}
use relink_com.Node.Routes.{topic_routes-groups}
use relink_com.Node.Subscribed.{subscribe_raw-handler}
use relink_com.Node.Names.{topic_ids_for, Answered, topic_ids_for-names}
use relink_com.Node.Sockets.{transport_for-shared}
use relink_com.Node.Publish.{peers_for_topic, publish_raw}
use relink_com.Node.Delivery.{all_sent, relays, publish_raw-copies}
use relink_com.Node.Peers.{merge_peers}
use relink_com.Node.Merged.{occurrences, offered, once, merge_peers-once}

abbrev odom : List ℕ
odom = b'o' ∷ b'd' ∷ b'o' ∷ b'm' ∷ []

abbrev scan_name : List ℕ
scan_name = b's' ∷ b'c' ∷ b'a' ∷ b'n' ∷ []

abbrev named : Node ℕ
named = record new_node { topic_names = (fnv1a32 scan_name, scan_name) ∷ (fnv1a32 odom, odom) ∷ [] }

ids_found :
    topic_ids_for (odom ∷ scan_name ∷ []) new_node
    ≡ some (named, fnv1a32 odom ∷ fnv1a32 scan_name ∷ [])
unfolding topic_ids_for topic_id_for with_known_name fnv1a32 fnv1a32_from mix find put new_node
ids_found = refl

topic_ids_for-names_example :
    (fnv1a32 odom ∷ fnv1a32 scan_name ∷ [] ≡ map fnv1a32 (odom ∷ scan_name ∷ []))
    × All (Answered named) (odom ∷ scan_name ∷ [])
topic_ids_for-names_example =
    topic_ids_for-names (odom ∷ scan_name ∷ []) new_node named
      (fnv1a32 odom ∷ fnv1a32 scan_name ∷ []) ids_found

abbrev topic_five : ℕ
topic_five = 5

-- Topics 5 and 6 are paired under 7, which is a topic too.
abbrev demultiplexed : Node ℕ
demultiplexed = record new_node { multiplex = false; topic_pair_id = (5, 7) ∷ (6, 7) ∷ [] }

transport_for-shared_example :
    (demultiplexed.multiplex ≡ true → (transport_for 5 demultiplexed).0 ≡ shared)
    × (demultiplexed.multiplex ≡ false
        → ((transport_for 5 demultiplexed).0 ≡ (transport_for 6 demultiplexed).0) ↔ (
            (topic_five ≡ 6)
            ⊎ ((pair : ℕ) × (find 5 demultiplexed.topic_pair_id ≡ some pair)
                × (find 6 demultiplexed.topic_pair_id ≡ some pair))))
transport_for-shared_example =
    transport_for-shared topic_five 6 demultiplexed (omega arith) (omega arith)

abbrev known_peer : PeerAddr
known_peer = (167772161, 5000)

abbrev publisher : Node ℕ
publisher = record new_node {
  peers = (5, known_peer ∷ []) ∷ [];
  relay_enabled = true;
  relay_ip = 167772170;
  relay_port = 8446;
}

abbrev receiver : Transport ℕ
receiver = record {
  seq_counter = 0;
  handlers = (5, 1) ∷ [];
  dedup_enabled = true;
  recent_seqs = [];
  register_replies = [];
}

receiver-IsWindow : IsWindow (window_of 5 receiver.recent_seqs)
unfolding window_of find
receiver-IsWindow = new_window-IsWindow

publish_raw-copies_example :
    (frame : List ℕ) × ((publish_raw (λ p. true) 5 (1 ∷ 2 ∷ []) publisher).2
      ≡ map (λ p. (p, frame)) (peers_for_topic 5 publisher ++ relays publisher))
    × ((publish_raw (λ p. true) 5 (1 ∷ 2 ∷ []) publisher).1 ≡ (
        (all_sent (λ p. true) (peers_for_topic 5 publisher)
          && not (length (peers_for_topic 5 publisher) == 0))
        || (publisher.relay_enabled && true)))
    × ((recv_and_dispatch frame receiver).1 ≡ (true, some (1, 1 ∷ 2 ∷ [])))
    × ((recv_and_dispatch frame (recv_and_dispatch frame receiver).0).1 ≡ (true, none))
unfolding find window_of is_recent_duplicate check_window scan transport_for transport_at new_node
    declare_advertised new_transport
publish_raw-copies_example =
    publish_raw-copies (λ p. true) 5 (1 ∷ 2 ∷ []) publisher receiver 1 (omega arith) (omega arith)
      (omega arith) refl refl receiver-IsWindow refl

abbrev ack : List RegisterAckPeer
ack =
    record { ip = 167772161; port = 5000; topic_id = 5; lan_ip = 3232235777; lan_port = 4000 }
    ∷ record { ip = 167772163; port = 5000; topic_id = 5; lan_ip = 167772163; lan_port = 5000 }
    ∷ []

merge_peers-once_example :
    occurrences (3232235777, 4000) (peers_for_topic 5 (merge_peers ack publisher).0)
    ≡ once
        (occurrences (3232235777, 4000) (peers_for_topic 5 publisher))
        (offered 5 (3232235777, 4000) ack)
merge_peers-once_example = merge_peers-once (3232235777, 4000) 5 ack publisher

-- Topics 5 and 6 are paired and have a socket; 8 has none of its own.
abbrev declared : Node ℕ
declared = record new_node {
  multiplex = false;
  declared_topics = (5, tt) ∷ (6, tt) ∷ (8, tt) ∷ [];
  topic_pair_id = (5, 7) ∷ (6, 7) ∷ [];
  topic_transports = (4294967303, new_transport) ∷ [];
}

paired_routed : find 6 (topic_routes (groups declared) []) ≡ some (dedicated 4294967303)
unfolding find put topic_routes route_topics groups dedicated_groups by_transport add_topic
    topics_at topics_of shared_group leftover keep has_transport is_made group_key new_node
    new_transport
paired_routed = refl

topic_routes-groups_example : find 8 (topic_routes (groups declared) []) ≡ (
    if is_in 8 (topics_of declared.declared_topics)
    then some (
        if declared.multiplex || has_transport declared 8
        then (transport_for 8 declared).0
        else shared)
    else none)
topic_routes-groups_example = topic_routes-groups declared 8

-- Topic 5 under the pair id 7, with sockets of their own.
abbrev apart : Node ℕ
apart = record new_node { multiplex = false }

abbrev listening : Node ℕ
listening = record new_node {
  multiplex = false;
  declared_topics = (5, tt) ∷ [];
  subscribed_topics = (5, tt) ∷ [];
  topic_pair_id = (5, 7) ∷ [];
  topic_transports = (4294967303, record new_transport { handlers = (5, 42) ∷ [] }) ∷ [];
}

apart_subscribes : subscribe_raw 5 42 true 7 apart ≡ some listening
unfolding subscribe_raw subscribed register_pair with_pair declare_subscribed transport_for
    make_transport update_transport transport_at set_topic_handler group_key find put new_node
    new_transport
apart_subscribes = refl

subscribe_raw-handler_example :
    find 5 (transport_at (transport_for 5 listening).0 listening).handlers ≡ some 42
subscribe_raw-handler_example = subscribe_raw-handler 5 42 true 7 apart listening apart_subscribes
