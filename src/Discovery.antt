-- ===== src/Discovery.antt =====
-- cpp/include/relink/multicast_discovery.hpp: what a node sends to the multicast group, what it learns from a
-- datagram that comes from it, and how a network's id chooses the group. Sockets, threads and the pauses
-- between beacons are left out: one call of `send_beacon_once` and one datagram of `listener_loop` are one step.
mod Table
mod Learns
mod Sends
mod Domains
mod Tests
use relink_com.Base.{
  ℕ, zero, suc, ◌+◌, ◌-◌, ◌*◌, ◌/◌, ◌%◌, Bool, true, false, not, ◌&&◌, ◌||◌, Option, none, some,
  List, [], ◌∷◌, ◌++◌, ltb, ◌==◌, if◌then◌else◌, length, take, find, put, nat_key, pair_key,
  tabulate, u16_mod,
}
use relink_com.Beacon.{
  DecodedBeacon, BeaconEncodeResult, BeaconDecodeResult, ok, decoded, encode_beacon_packet,
  decode_beacon_packet, beacon_topic_at,
}
use relink_com.TopicDir.{
  TopicDirEntry, TopicDirKind, topic_dir_packet_kind, encode_topic_dir_reply, topic_dir_max_packet,
}

abbrev pub default_multicast_port : ℕ
default_multicast_port = 7400

-- The last two bytes of the group's address, which starts with 239.255.
unfoldable pub multicast_group : ℕ → ℕ × ℕ
multicast_group network_id =
    if network_id == 0 then (0, 1) else ((network_id + 1) / 256 % 256, (network_id + 1) % 256)

-- `%u` of a byte.
unfoldable pub decimal : ℕ → List ℕ
decimal b =
    if ltb b 10
    then (48 + b) ∷ []
    else if ltb b 100
    then (48 + b / 10) ∷ (48 + b % 10) ∷ []
    else (48 + b / 100) ∷ (48 + b / 10 % 10) ∷ (48 + b % 10) ∷ []

-- "239.255.%u.%u"; the default group is 239.255.0.1.
unfoldable pub derive_multicast_group : ℕ → List ℕ
derive_multicast_group network_id =
    let (hi, lo) = multicast_group network_id in
    50 ∷ 51 ∷ 57 ∷ 46 ∷ 50 ∷ 53 ∷ 53 ∷ 46 ∷ decimal hi ++ (46 ∷ decimal lo)

unfoldable pub derive_multicast_port : ℕ → ℕ
derive_multicast_port network_id =
    let range = 65535 - default_multicast_port in
    if network_id == 0
    then default_multicast_port
    else (default_multicast_port + (network_id % range + 1)) % u16_mod

-- An address, and the peers of one topic: each is entered with `true`.
abbrev pub Address : Type 0
Address = ℕ × ℕ

abbrev pub Peers : Type 0
Peers = List (Address × Bool)

pub record PeerInfo : Type 0 where
  pub ip : ℕ
  pub port : ℕ
  pub pid : ℕ
  pub shm_capable : Bool

pub record PortGroup : Type 0 where
  pub port : ℕ
  pub topics : List ℕ

pub record Config : Type 0 where
  pub self_ip : ℕ
  pub self_pid : ℕ
  pub shm_capable : Bool
  pub port_groups : List PortGroup

pub record Discovery : Type 0 where
  pub cfg : Config
  pub local_topics : List (ℕ × Unit {0})
  pub self_ports : List (ℕ × Unit {0})
  pub table : List (ℕ × Peers)
  pub network_topics : List (ℕ × Unit {0})

unfoldable pub insert_all : List ℕ → List (ℕ × Unit {0}) → List (ℕ × Unit {0})
insert_all [] set = set
insert_all (t ∷ ts) set = insert_all ts (put t tt set)

unfoldable pub insert_groups : List PortGroup → Discovery → Discovery
insert_groups [] d = d
insert_groups (g ∷ gs) d = insert_groups gs (record d {
  self_ports = put g.port tt d.self_ports;
  local_topics = insert_all g.topics d.local_topics;
})

unfoldable pub multicast_discovery : Config → Discovery
multicast_discovery cfg =
    insert_groups cfg.port_groups
      (record { cfg = cfg; local_topics = []; self_ports = []; table = []; network_topics = [] })

-- The size of the buffers that a beacon is encoded into and a datagram received into.
abbrev pub buffer_size : ℕ
buffer_size = 512

-- The number of topics is cut to 16 bits on its way to the encoder.
unfoldable pub beacon_of : Config → PortGroup → BeaconEncodeResult
beacon_of cfg g =
    encode_beacon_packet cfg.self_ip g.port (take (length g.topics % u16_mod) g.topics) buffer_size
      cfg.self_pid cfg.shm_capable

-- A group that cannot be encoded is skipped.
unfoldable pub send_if_ok : BeaconEncodeResult → List (List ℕ) → List (List ℕ)
send_if_ok (ok bytes) rest = bytes ∷ rest
send_if_ok _ rest = rest

-- One beacon per port group.
unfoldable pub send_beacons : Config → List PortGroup → List (List ℕ)
send_beacons cfg [] = []
send_beacons cfg (g ∷ gs) = send_if_ok (beacon_of cfg g) (send_beacons cfg gs)

unfoldable pub send_beacon_once : Discovery → List (List ℕ)
send_beacon_once d = send_beacons d.cfg d.cfg.port_groups

unfoldable pub contains : {V : Type 0} → ℕ → List (ℕ × V) → Bool
contains k m = elim (find k m) [ none ↦ false | some v ↦ true ]

-- `table_[topic]`, or the set that `operator[]` makes.
unfoldable pub peers_of : ℕ → List (ℕ × Peers) → Peers
peers_of topic table = elim (find topic table) [ none ↦ [] | some peers ↦ peers ]

unfoldable pub has_peer : Address → Peers → Bool
has_peer p peers = elim (find p peers) [ none ↦ false | some b ↦ true ]

unfoldable pub addresses : Peers → List Address
addresses [] = []
addresses ((p, b) ∷ peers) = p ∷ addresses peers

-- The addresses only: a `PeerInfo` of the answer has no process id and no flag.
unfoldable pub peers_for_topic : ℕ → Discovery → List Address
peers_for_topic topic d = addresses (peers_of topic d.table)

-- What `listener_loop` does for the callers' view: the callbacks it makes.
abbrev pub Callbacks : Type 0
Callbacks = List (ℕ × PeerInfo)

-- One topic of a beacon.
unfoldable pub learn_topic : PeerInfo → ℕ → Discovery → Discovery × Callbacks
learn_topic peer topic d0 =
    let d = record d0 { network_topics = put topic tt d0.network_topics } in
    let peer_set = peers_of topic d.table in
    let is_new = not (has_peer (peer.ip, peer.port) peer_set) in
    if not (contains topic d.local_topics)
    then (d, [])
    else if is_new
    then (
      record d { table = put topic (put (peer.ip, peer.port) true peer_set) d.table },
      (topic, peer) ∷ [],
    )
    else (record d { table = put topic peer_set d.table }, [])

unfoldable pub learn_topics : PeerInfo → List ℕ → Discovery → Discovery × Callbacks
learn_topics peer [] d = (d, [])
learn_topics peer (t ∷ ts) d =
    let (d', calls) = learn_topic peer t d in
    let (d'', more) = learn_topics peer ts d' in (d'', calls ++ more)

unfoldable pub learn_beacon : DecodedBeacon → Discovery → Discovery × Callbacks
learn_beacon b d =
    let is_same_host = b.node_ip == d.cfg.self_ip in
    let peer : PeerInfo = record {
      ip = b.node_ip;
      port = b.node_port;
      pid = b.node_pid;
      shm_capable = b.shm_capable && is_same_host;
    } in
    if is_same_host && contains b.node_port d.self_ports
    then (d, [])
    else learn_topics peer (tabulate (beacon_topic_at b) b.topic_count) d

-- The answer to a query for names, where there is a provider.
unfoldable pub answer_query : Option (List TopicDirEntry) → List (List ℕ)
answer_query none = []
answer_query (some entries) = elim (encode_topic_dir_reply entries topic_dir_max_packet) [
  | none ↦ []
  | some bytes ↦ bytes ∷ []
]

-- A datagram by its kind; what it decodes to as a beacon counts where it is none of the directory's packets.
unfoldable pub handle :
    Option (List TopicDirEntry)
    → TopicDirKind
    → BeaconDecodeResult
    → Discovery
    → Discovery × List (List ℕ) × Callbacks
handle names TopicDirKind.query result d = (d, answer_query names, [])
handle names TopicDirKind.announce result d = (d, [], [])
handle names TopicDirKind.reply result d = (d, [], [])
handle names TopicDirKind.unknown (decoded b) d =
    let (d', calls) = learn_beacon b d in (d', [], calls)
handle names TopicDirKind.unknown _ d = (d, [], [])

-- One turn of `listener_loop` with a datagram, of which the buffer takes 512 bytes: the new state, what is sent
-- back and the callbacks. `names` is what the provider of names answers.
unfoldable pub listen :
    Option (List TopicDirEntry) → List ℕ → Discovery → Discovery × List (List ℕ) × Callbacks
listen names datagram d =
    let buf = take buffer_size datagram in
    if length buf == 0
    then (d, [], [])
    else handle names (topic_dir_packet_kind buf) (decode_beacon_packet buf) d

-- The listener over the datagrams that come, each with what the provider answers at that time: the state at the
-- end and all callbacks.
unfoldable pub listener_loop :
    List (Option (List TopicDirEntry) × List ℕ) → Discovery → Discovery × Callbacks
listener_loop [] d = (d, [])
listener_loop ((names, datagram) ∷ rest) d =
    let (d', sent, calls) = listen names datagram d in
    let (d'', more) = listener_loop rest d' in (d'', calls ++ more)
