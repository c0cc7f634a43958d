-- ===== src/Beacon.antt =====
-- cpp/include/relink/beacon.hpp and BeaconPacketHeader of wire.hpp: the multicast beacon.
pub mod RoundTrip
mod Tests
use Prim.Native.Nat.{bit_and}
use relink_com.Base.{
  ℕ, ◌+◌, ◌*◌, Bool, true, false, not, List, ◌++◌, ltb, leb, ◌==◌, if◌then◌else◌, length, drop,
  le16, le32, u16_at, u32_at,
}
use relink_com.TopicIds.{write_ids, id_at}

abbrev pub max_beacon_topics : ℕ
max_beacon_topics = 128

abbrev pub cap_flag_shm_local_ipc : ℕ
cap_flag_shm_local_ipc = 1

pub data BeaconEncodeResult : Type 0 where
  ok : List ℕ → BeaconEncodeResult
  too_many_topics buffer_too_small : BeaconEncodeResult

-- sizeof(BeaconPacketHeader)
abbrev pub beacon_header_size : ℕ
beacon_header_size = 8

-- The array `topic_ids` is the list of its `topic_count` elements.
unfoldable pub encode_beacon_packet : ℕ → ℕ → List ℕ → ℕ → ℕ → Bool → BeaconEncodeResult
encode_beacon_packet node_ip node_port topic_ids out_capacity node_pid shm_capable =
    let topic_count = length topic_ids in
    let needed = beacon_header_size + topic_count * 4 + 8 in
    let flags : ℕ = if shm_capable then cap_flag_shm_local_ipc else 0 in
    if ltb max_beacon_topics topic_count
    then too_many_topics
    else if ltb out_capacity needed
    then buffer_too_small
    else ok (
        le32 node_ip
        ++ (le16 node_port
            ++ (le16 topic_count ++ (write_ids topic_ids ++ (le32 node_pid ++ le32 flags)))))

-- `topic_ids_raw` points into the buffer: the bytes from there on.
pub record DecodedBeacon : Type 0 where
  pub node_ip : ℕ
  pub node_port : ℕ
  pub topic_count : ℕ
  pub topic_ids_raw : List ℕ
  pub node_pid : ℕ
  pub shm_capable : Bool

pub data BeaconDecodeResult : Type 0 where
  decoded : DecodedBeacon → BeaconDecodeResult
  too_short length_mismatch : BeaconDecodeResult

unfoldable pub decode_beacon_packet : List ℕ → BeaconDecodeResult
decode_beacon_packet buf =
    let len = length buf in
    let topic_count = u16_at buf 6 in
    let needed = beacon_header_size + topic_count * 4 in
    let extended = leb (needed + 8) len in
    if ltb len beacon_header_size
    then too_short
    else if ltb len needed
    then length_mismatch
    else decoded (record {
      node_ip = u32_at buf 0;
      node_port = u16_at buf 4;
      topic_count = topic_count;
      topic_ids_raw = drop beacon_header_size buf;
      node_pid = if extended then u32_at buf needed else 0;
      shm_capable =
          if extended
          then not (bit_and (u32_at buf (needed + 4)) cap_flag_shm_local_ipc == 0)
          else false;
    })

unfoldable pub beacon_topic_at : DecodedBeacon → ℕ → ℕ
beacon_topic_at b i = id_at b.topic_ids_raw i
