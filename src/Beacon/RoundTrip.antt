-- ===== src/Beacon/RoundTrip.antt =====
-- Beacons with and without the trailing extension.
use relink_com.Base.{
  ℕ, ◌+◌, ◌*◌, ◌<◌, ◌≤◌, ◌≡◌, refl, ap₂, ◌∙◌, Bool, true, false, List, ◌++◌, arith, length, drop,
  All, le16, le32, u16_at, u32_at, u16_mod, u32_mod, length-append, u32_at-append, tabulate,
  if◌then◌else◌, leb, ◌==◌, not, length-le32,
}
use Prim.Native.Nat.{bit_and}
use relink_com.TopicIds.{write_ids, IsId, length-write_ids, ids-write_ids}
use relink_com.Beacon.{
  DecodedBeacon, ok, decoded, max_beacon_topics, encode_beacon_packet, decode_beacon_packet,
  beacon_topic_at,
}

-- The fixed header and the array of a beacon, without the extension.
abbrev pub beacon_bytes : ℕ → ℕ → List ℕ → List ℕ → List ℕ
beacon_bytes ip port ids more =
    le32 ip ++ (le16 port ++ (le16 (length ids) ++ (write_ids ids ++ more)))

beacon_fields :
    (ip port : ℕ) (ids more : List ℕ)
    → ip < u32_mod
    → port < u16_mod
    → length ids < u16_mod
    → (u32_at (beacon_bytes ip port ids more) 0 ≡ ip)
      × (u16_at (beacon_bytes ip port ids more) 4 ≡ port)
      × (u16_at (beacon_bytes ip port ids more) 6 ≡ length ids)
unfolding le32 le16 u32_at u16_at
beacon_fields ip port ids more hi hp hc = omega arith

beacon_head : ℕ → ℕ → List ℕ → List ℕ
beacon_head ip port ids = (le32 ip ++ (le16 port ++ le16 (length ids))) ++ write_ids ids

beacon_split :
    (ip port : ℕ) (ids more : List ℕ)
    → (beacon_bytes ip port ids more ≡ beacon_head ip port ids ++ more)
      × (length (beacon_head ip port ids) ≡ 8 + length ids * 4)
      × (drop 8 (beacon_bytes ip port ids more) ≡ write_ids ids ++ more)
      × (length (beacon_bytes ip port ids more) ≡ 8 + length ids * 4 + length more)
unfolding le32 le16 beacon_head
beacon_split ip port ids more = (
  refl,
  omega (arith, length-write_ids ids),
  refl,
  omega (arith, length-write_ids ids, length-append (write_ids ids) more),
)

-- A field behind the array.
after_ids :
    (ip port : ℕ) (ids more : List ℕ) (i : ℕ)
    → u32_at (beacon_bytes ip port ids more) (8 + length ids * 4 + i) ≡ u32_at more i
after_ids ip port ids more i =
    let (split, size, _, _) = beacon_split ip port ids more in
    ap₂ u32_at split (omega arith) ∙ u32_at-append (beacon_head ip port ids) more i

-- What `decode_beacon_packet` makes of any bytes behind the array.
decode-beacon_bytes :
    (ip port : ℕ) (ids more : List ℕ)
    → ip < u32_mod
    → port < u16_mod
    → length ids < u16_mod
    → decode_beacon_packet (beacon_bytes ip port ids more)
      ≡ decoded (record {
        node_ip = ip;
        node_port = port;
        topic_count = length ids;
        topic_ids_raw = write_ids ids ++ more;
        node_pid = if leb 8 (length more) then u32_at more 0 else 0;
        shm_capable = if leb 8 (length more) then not (bit_and (u32_at more 4) 1 == 0) else false;
      })
unfolding decode_beacon_packet
decode-beacon_bytes ip port ids more hi hp hc = ground (
  arith,
  beacon_split ip port ids more,
  beacon_fields ip port ids more hi hp hc,
  after_ids ip port ids more 0,
  after_ids ip port ids more 4,
)

-- The topic ids that `beacon_topic_at` reads out of a decoded beacon, in order.
abbrev pub topics_of : DecodedBeacon → List ℕ
topics_of b = tabulate (beacon_topic_at b) b.topic_count

extension_read :
    (pid : ℕ) (shm : Bool)
    → pid < u32_mod
    → (u32_at (le32 pid ++ le32 (if shm then 1 else 0)) 0 ≡ pid)
      × (not (bit_and (u32_at (le32 pid ++ le32 (if shm then 1 else 0)) 4) 1 == 0) ≡ shm)
unfolding le32 u32_at
extension_read pid true h = (omega arith, refl)
extension_read pid false h = (omega arith, refl)

-- A beacon of at most 128 topics that fits its buffer decodes to what was encoded: address, port,
-- the list of topic ids, process id and capability flag.
pub decode_beacon-encode_beacon :
    (ip port : ℕ) (ids : List ℕ) (capacity pid : ℕ) (shm : Bool)
    → ip < u32_mod
    → port < u16_mod
    → All IsId ids
    → length ids ≤ max_beacon_topics
    → 16 + length ids * 4 ≤ capacity
    → pid < u32_mod
    → (bytes : List ℕ) × (b : DecodedBeacon) × (encode_beacon_packet ip port ids capacity pid shm
        ≡ ok bytes)
      × (decode_beacon_packet bytes ≡ decoded b)
      × (b.node_ip ≡ ip)
      × (b.node_port ≡ port)
      × (topics_of b ≡ ids)
      × (b.node_pid ≡ pid)
      × (b.shm_capable ≡ shm)
unfolding encode_beacon_packet beacon_topic_at
decode_beacon-encode_beacon ip port ids capacity pid shm hi hp hids hn hcap hpid = (
  beacon_bytes ip port ids (le32 pid ++ le32 (if shm then 1 else 0)),
  _,
  ground arith,
  decode-beacon_bytes ip port ids _ hi hp (omega arith),
  refl,
  refl,
  ids-write_ids ids _ hids,
  ground (
    arith,
    extension_read pid shm hpid,
    length-le32 pid,
    length-le32 (if shm then 1 else 0),
    length-append (le32 pid) (le32 (if shm then 1 else 0)),
  ),
  ground (
    arith,
    extension_read pid shm hpid,
    length-le32 pid,
    length-le32 (if shm then 1 else 0),
    length-append (le32 pid) (le32 (if shm then 1 else 0)),
  ),
)

-- A beacon from a peer that sends no extension, or less than the 8 bytes of it, still decodes to its
-- address, port and topics, with process id 0 and no shared memory.
pub decode_beacon-without_extension :
    (ip port : ℕ) (ids more : List ℕ)
    → ip < u32_mod
    → port < u16_mod
    → All IsId ids
    → length ids < u16_mod
    → length more < 8
    → (b : DecodedBeacon) × (decode_beacon_packet (beacon_bytes ip port ids more) ≡ decoded b)
      × (b.node_ip ≡ ip)
      × (b.node_port ≡ port)
      × (topics_of b ≡ ids)
      × (b.node_pid ≡ 0)
      × (b.shm_capable ≡ false)
unfolding beacon_topic_at
decode_beacon-without_extension ip port ids more hi hp hids hc hm = (
  _,
  decode-beacon_bytes ip port ids more hi hp hc,
  refl,
  refl,
  ids-write_ids ids more hids,
  ground arith,
  ground arith,
)
