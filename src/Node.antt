-- ===== src/Node.antt =====
-- The RelinkNode class of cpp/include/relink/relink.hpp: its variables, the choice of a discovery method, topic ids,
-- and which socket a topic has. An operation that throws answers `none`. Sockets of their own (set_multiplex(false))
-- are bound by the system; here such a transport starts as a new one.
pub mod Names
pub mod Publish
pub mod Peers
pub mod Sockets
pub mod Merged
pub mod Delivery
pub mod Start
pub mod Subscribed
pub mod Groups
pub mod Routes
mod Tests
use relink_com.Base.{
  ℕ, zero, suc, ◌+◌, Bool, true, false, not, ◌&&◌, ◌||◌, Option, none, some, List, [], ◌∷◌, ◌==◌,
  if◌then◌else◌, find, put, nat_key, bytes_eq, u32_mod, ◌>>=◌,
}
use relink_com.TopicHash.{fnv1a32}
use relink_com.Transport.{Transport, set_topic_handler}

pub data DiscoveryMode : Type 0 where
  no_mode rl_core multicast : DiscoveryMode

abbrev pub PeerAddr : Type 0
PeerAddr = ℕ × ℕ

abbrev pub Topics : Type 0
Topics = List (ℕ × Unit {0})

pub record Node (H : Type 0) : Type 0 where
  pub mode : DiscoveryMode
  pub declared_topics : Topics
  pub advertised_topics : Topics
  pub subscribed_topics : Topics
  pub peers : List (ℕ × List PeerAddr)
  pub topic_names : List (ℕ × List ℕ)
  pub transport : Transport H
  pub multiplex : Bool
  pub topic_pair_id : List (ℕ × ℕ)
  pub topic_transports : List (ℕ × Transport H)
  pub relay_enabled : Bool
  pub relay_ip : ℕ
  pub relay_port : ℕ

abbrev pub nat_punch_topic_id : ℕ
nat_punch_topic_id = 0xFFFFFFFF

abbrev pub pair_key_tag : ℕ
pair_key_tag = u32_mod

-- A transport that was just made.
unfoldable pub new_transport : {H : Type 0} → Transport H
new_transport = record {
  seq_counter = 0;
  handlers = [];
  dedup_enabled = false;
  recent_seqs = [];
  register_replies = [];
}

unfoldable pub new_node : {H : Type 0} → Node H
new_node = record {
  mode = no_mode;
  declared_topics = [];
  advertised_topics = [];
  subscribed_topics = [];
  peers = [];
  topic_names = [];
  transport = new_transport;
  multiplex = true;
  topic_pair_id = [];
  topic_transports = [];
  relay_enabled = false;
  relay_ip = 0;
  relay_port = 8446;
}

unfoldable pub same_mode : DiscoveryMode → DiscoveryMode → Bool
same_mode no_mode no_mode = true
same_mode rl_core rl_core = true
same_mode multicast multicast = true
same_mode _ _ = false

module _ {H : Type 0} where
  unfoldable pub select_mode : DiscoveryMode → Node H → Option (Node H)
  select_mode requested n =
      if not (same_mode n.mode no_mode) && not (same_mode n.mode requested)
      then none
      else some (record n { mode = requested })

  unfoldable pub set_multiplex : Bool → Node H → Node H
  set_multiplex enabled n = record n { multiplex = enabled }

  unfoldable pub set_relay : ℕ → ℕ → Node H → Node H
  set_relay ip port n = record n { relay_enabled = true; relay_ip = ip; relay_port = port }

  unfoldable pub relay_peer : Node H → PeerAddr
  relay_peer n = (n.relay_ip, n.relay_port)

  -- What is done with the name that an id has already, if it has one.
  unfoldable pub with_known_name : ℕ → List ℕ → Node H → Option (List ℕ) → Option (Node H × ℕ)
  with_known_name id name n none = some (record n { topic_names = put id name n.topic_names }, id)
  with_known_name id name n (some known) = if bytes_eq known name then some (n, id) else none

  unfoldable pub topic_id_for : List ℕ → Node H → Option (Node H × ℕ)
  topic_id_for name n =
      let id = fnv1a32 name in
      if id == nat_punch_topic_id then none else with_known_name id name n (find id n.topic_names)

  -- The empty name where none is known.
  unfoldable pub topic_name_for : ℕ → Node H → List ℕ
  topic_name_for topic n = elim (find topic n.topic_names) [ none ↦ [] | some name ↦ name ]

  unfoldable pub with_pair : ℕ → Bool → ℕ → Node H → Option ℕ → Option (Node H)
  with_pair topic false pair_id n none = some n
  with_pair topic false pair_id n (some known) = none
  with_pair topic true pair_id n none =
      some (record n { topic_pair_id = put topic pair_id n.topic_pair_id })
  with_pair topic true pair_id n (some known) =
      if not (known == pair_id)
      then none
      else some (record n { topic_pair_id = put topic pair_id n.topic_pair_id })

  unfoldable pub register_pair : ℕ → Bool → ℕ → Node H → Option (Node H)
  register_pair topic pair pair_id n = with_pair topic pair pair_id n (find topic n.topic_pair_id)

  -- `kPairKeyTag | pair_id`, with a pair id below 2^32.
  unfoldable pub group_key : ℕ → Node H → ℕ
  group_key topic n = elim (find topic n.topic_pair_id) [
    | none ↦ topic
    | some pair_id ↦ pair_key_tag + pair_id
  ]

-- Which transport a topic has: the shared one, or that of a key.
pub data Via : Type 0 where
  shared : Via
  dedicated : ℕ → Via

module _ {H : Type 0} where
  unfoldable pub make_transport : ℕ → Option (Transport H) → Node H → Node H
  make_transport key none n = record n {
    topic_transports = put key new_transport n.topic_transports;
  }
  make_transport key (some t) n = n

  unfoldable pub transport_for : ℕ → Node H → Via × Node H
  transport_for topic n =
      let key = group_key topic n in
      if n.multiplex
      then (shared, n)
      else (dedicated key, make_transport key (find key n.topic_transports) n)

  unfoldable pub transport_at : Via → Node H → Transport H
  transport_at shared n = n.transport
  transport_at (dedicated key) n = elim (find key n.topic_transports) [
    | none ↦ new_transport
    | some t ↦ t
  ]

  unfoldable pub update_transport : Via → Transport H → Node H → Node H
  update_transport shared t n = record n { transport = t }
  update_transport (dedicated key) t n = record n {
    topic_transports = put key t n.topic_transports;
  }

  unfoldable pub declare_advertised : ℕ → Node H → Node H
  declare_advertised topic n = record n {
    declared_topics = put topic tt n.declared_topics;
    advertised_topics = put topic tt n.advertised_topics;
  }

  unfoldable pub declare_subscribed : ℕ → Node H → Node H
  declare_subscribed topic n = record n {
    declared_topics = put topic tt n.declared_topics;
    subscribed_topics = put topic tt n.subscribed_topics;
  }

  -- advertise_raw, and advertise of a message that is no image.
  unfoldable pub advertise_raw : ℕ → Bool → ℕ → Node H → Option (Node H)
  advertise_raw topic pair pair_id n = do
    n1 ← register_pair topic pair pair_id n
    some (declare_advertised topic (transport_for topic n1).1)

  -- What subscribe_raw does once the pair is registered.
  unfoldable pub subscribed : ℕ → H → Node H → Node H
  subscribed topic cb n =
      let (via, n1) = transport_for topic n in
      let n2 = declare_subscribed topic n1 in
      update_transport via (set_topic_handler topic cb (transport_at via n2)) n2

  -- subscribe_raw, and subscribe of a message that is no image, whose handler also checks the length.
  unfoldable pub subscribe_raw : ℕ → H → Bool → ℕ → Node H → Option (Node H)
  subscribe_raw topic cb pair pair_id n = do
    n1 ← register_pair topic pair pair_id n
    some (subscribed topic cb n1)
