-- ===== src/Register.antt =====
-- cpp/include/relink/register.hpp, and RegisterRequestHeader, RegisterAckHeader and RegisterAckPeer of
-- wire.hpp: the packets of the registration daemon.
pub mod Request
pub mod Ack
mod Tests
use relink_com.Base.{
  ℕ, ◌+◌, ◌*◌, not, List, [], ◌∷◌, ◌++◌, ltb, ◌==◌, if◌then◌else◌, length, get_or, drop, le16, le32,
  u16_at, u32_at,
}
use relink_com.TopicIds.{write_ids, id_at}

abbrev pub max_register_topics : ℕ
max_register_topics = 16374

pub data RegisterEncodeResult : Type 0 where
  ok : List ℕ → RegisterEncodeResult
  too_many_topics buffer_too_small : RegisterEncodeResult

pub data RegisterDecodeResult {ℓ} (A : Type ℓ) : Type ℓ where
  decoded : A → RegisterDecodeResult A
  too_short length_mismatch : RegisterDecodeResult A

-- sizeof(RegisterRequestHeader), sizeof(RegisterAckHeader), sizeof(RegisterAckPeer)
abbrev pub request_header_size : ℕ
request_header_size = 8

abbrev pub ack_header_size : ℕ
ack_header_size = 3

abbrev pub ack_peer_size : ℕ
ack_peer_size = 16

-- The array `topic_ids` is the list of its `topic_count` elements.
unfoldable pub encode_register_request : ℕ → ℕ → List ℕ → ℕ → RegisterEncodeResult
encode_register_request node_ip node_port topic_ids out_capacity =
    let topic_count = length topic_ids in
    let needed = request_header_size + topic_count * 4 in
    if ltb max_register_topics topic_count
    then too_many_topics
    else if ltb out_capacity needed
    then buffer_too_small
    else ok (le32 node_ip ++ (le16 node_port ++ (le16 topic_count ++ write_ids topic_ids)))

-- `topic_ids_raw` points into the buffer: the bytes from there on.
pub record DecodedRegisterRequest : Type 0 where
  pub node_ip : ℕ
  pub node_port : ℕ
  pub topic_count : ℕ
  pub topic_ids_raw : List ℕ

unfoldable pub decode_register_request : List ℕ → RegisterDecodeResult DecodedRegisterRequest
decode_register_request buf =
    let topic_count = u16_at buf 6 in
    if ltb (length buf) request_header_size
    then too_short
    else if not (length buf == request_header_size + topic_count * 4)
    then length_mismatch
    else decoded (record {
      node_ip = u32_at buf 0;
      node_port = u16_at buf 4;
      topic_count = topic_count;
      topic_ids_raw = drop request_header_size buf;
    })

unfoldable pub register_request_topic_at : DecodedRegisterRequest → ℕ → ℕ
register_request_topic_at req i = id_at req.topic_ids_raw i

pub record RegisterAckPeer : Type 0 where
  pub ip : ℕ
  pub port : ℕ
  pub topic_id : ℕ
  pub lan_ip : ℕ
  pub lan_port : ℕ

-- The packed struct, as `memcpy` of it writes and reads it.
unfoldable pub peer_bytes : RegisterAckPeer → List ℕ
peer_bytes p = le32 p.ip ++ (le16 p.port ++ (le32 p.topic_id ++ (le32 p.lan_ip ++ le16 p.lan_port)))

unfoldable pub peer_at : List ℕ → ℕ → RegisterAckPeer
peer_at raw off = record {
  ip = u32_at raw off;
  port = u16_at raw (off + 4);
  topic_id = u32_at raw (off + 6);
  lan_ip = u32_at raw (off + 10);
  lan_port = u16_at raw (off + 14);
}

unfoldable pub write_peers : List RegisterAckPeer → List ℕ
write_peers [] = []
write_peers (p ∷ ps) = peer_bytes p ++ write_peers ps

-- The array `peers` is the list of its `peer_count` elements.
unfoldable pub encode_register_ack : ℕ → List RegisterAckPeer → ℕ → RegisterEncodeResult
encode_register_ack status peers out_capacity =
    let peer_count = length peers in
    if ltb out_capacity (ack_header_size + peer_count * ack_peer_size)
    then buffer_too_small
    else ok (status ∷ (le16 peer_count ++ write_peers peers))

pub record DecodedRegisterAck : Type 0 where
  pub status : ℕ
  pub peer_count : ℕ
  pub peers_raw : List ℕ

unfoldable pub decode_register_ack : List ℕ → RegisterDecodeResult DecodedRegisterAck
decode_register_ack buf =
    let peer_count = u16_at buf 1 in
    if ltb (length buf) ack_header_size
    then too_short
    else if not (length buf == ack_header_size + peer_count * ack_peer_size)
    then length_mismatch
    else decoded (record {
      status = get_or buf 0 0;
      peer_count = peer_count;
      peers_raw = drop ack_header_size buf;
    })

unfoldable pub register_ack_peer_at : DecodedRegisterAck → ℕ → RegisterAckPeer
register_ack_peer_at ack i = peer_at ack.peers_raw (i * ack_peer_size)
