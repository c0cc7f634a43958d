-- ===== src/Discovery/Tests.antt =====
-- The examples at which the theorems on discovery are applied.
use relink_com.Base.{
  ℕ, ◌≡◌, ◌≢◌, ◌↔◌, ◌≤◌, refl, arith, true, false, ◌&&◌, ◌||◌, Option, none, List, [], ◌∷◌, length,
  tabulate, keep, is_in, le32, bytes_eq,
}
use relink_com.Beacon.{ok}
use relink_com.TopicDir.{TopicDirEntry, TopicDirKind, topic_dir_packet_kind}
use relink_com.Discovery.{
  PortGroup, Config, multicast_discovery, listener_loop, listen, contains, beacon_of, send_beacons,
  derive_multicast_group, derive_multicast_port, insert_groups,
}
use relink_com.Discovery.Table.{known, count, one_if, same_address}
use relink_com.Discovery.Learns.{listener_loop-once}
use relink_com.Discovery.Sends.{small_enough, listen-beacon_of, length-send_beacons}
use relink_com.Discovery.Domains.{network_ids_apart}

-- 10.0.0.1 and 10.0.0.2, on the same topic.
abbrev camera : Config
camera = record {
  self_ip = 167772161;
  self_pid = 7;
  shm_capable = true;
  port_groups = record { port = 5000; topics = 11 ∷ 12 ∷ [] } ∷ [];
}

abbrev viewer : Config
viewer = record {
  self_ip = 167772162;
  self_pid = 8;
  shm_capable = false;
  port_groups = record { port = 6000; topics = 12 ∷ [] } ∷ [];
}

abbrev camera_beacon : List ℕ
camera_beacon =
    1 ∷ 0 ∷ 0 ∷ 10 ∷ 136 ∷ 19 ∷ 2 ∷ 0 ∷ 11 ∷ 0 ∷ 0 ∷ 0 ∷ 12 ∷ 0 ∷ 0 ∷ 0 ∷ 7 ∷ 0 ∷ 0 ∷ 0 ∷ 1 ∷ 0 ∷ 0
    ∷ 0 ∷ []

abbrev twice : List (Option (List TopicDirEntry) × List ℕ)
twice = (none, camera_beacon) ∷ (none, camera_beacon) ∷ []

listener_loop-once_example :
    (count 12 (167772161, 5000) (listener_loop twice (multicast_discovery viewer)).1
      ≡ one_if
          (known 12 (167772161, 5000) (listener_loop twice (multicast_discovery viewer)).0.table))
    × (known 12 (167772161, 5000) (listener_loop twice (multicast_discovery viewer)).0.table ≡ true
        → contains 12 (multicast_discovery viewer).local_topics ≡ true)
listener_loop-once_example = listener_loop-once viewer twice 12 (167772161, 5000)

abbrev camera_group : PortGroup
camera_group = record { port = 5000; topics = 11 ∷ 12 ∷ [] }

no_magic : topic_dir_packet_kind (le32 167772161) ≡ TopicDirKind.unknown
unfolding topic_dir_packet_kind le32 bytes_eq
no_magic = refl

listen-beacon_of_example :
    (bytes : List ℕ) × (beacon_of camera camera_group ≡ ok bytes)
    × (known 12 (167772161, 5000) (listen none bytes (multicast_discovery viewer)).0.table ≡ (
        (is_in 12 (11 ∷ 12 ∷ [])
          && (same_address (167772161, 5000) (167772161, 5000)
              && contains 12 (multicast_discovery viewer).local_topics))
        || known 12 (167772161, 5000) (multicast_discovery viewer).table))
unfolding multicast_discovery insert_groups
listen-beacon_of_example =
    listen-beacon_of camera camera_group none (multicast_discovery viewer) 12 (167772161, 5000)
      (omega arith) (omega arith) (omega arith) (omega arith) (omega arith) no_magic refl

abbrev groups : List PortGroup
groups = record { port = 5000; topics = tabulate (λ i. i) 125 } ∷ camera_group ∷ []

length-send_beacons_example :
    length (send_beacons camera groups) ≡ length (keep small_enough groups)
length-send_beacons_example = length-send_beacons camera groups (omega arith)

abbrev network_one : ℕ
network_one = 1

network_ids_apart_example :
    (derive_multicast_group 1 ≢ derive_multicast_group 58135)
    × (1 ≤ 58135 → 58135 ≤ 58135 → derive_multicast_port 1 ≢ derive_multicast_port 58135)
    × (7400 ≤ derive_multicast_port 1)
    × (derive_multicast_port 1 ≤ 65535)
    × ((derive_multicast_port 1 ≡ 7400) ↔ (network_one ≡ 0))
network_ids_apart_example =
    network_ids_apart network_one 58135 (omega arith) (omega arith) (omega arith)
