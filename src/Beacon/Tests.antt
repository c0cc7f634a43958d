-- ===== src/Beacon/Tests.antt =====
-- The beacon theorems at a beacon of two topics.
use relink_com.Base.{ℕ, ◌≡◌, refl, arith, true, List, [], ◌∷◌, le16, le32}
use relink_com.Beacon.{DecodedBeacon, ok, decoded, encode_beacon_packet, decode_beacon_packet}
use relink_com.Beacon.RoundTrip.{topics_of, decode_beacon-encode_beacon}
use relink_com.TopicIds.{write_ids}

abbrev two_topics : List ℕ
two_topics = 7 ∷ 70000 ∷ []

beacon_run :
    encode_beacon_packet 0x0a000001 5000 (7 ∷ []) 512 9 true
    ≡ ok (1 ∷ 0 ∷ 0 ∷ 10 ∷ 136 ∷ 19 ∷ 1 ∷ 0 ∷ 7 ∷ 0 ∷ 0 ∷ 0 ∷ 9 ∷ 0 ∷ 0 ∷ 0 ∷ 1 ∷ 0 ∷ 0 ∷ 0 ∷ [])
unfolding encode_beacon_packet le16 le32 write_ids
beacon_run = refl

decode_beacon-encode_beacon_example :
    (bytes : List ℕ) × (b : DecodedBeacon) × (encode_beacon_packet 1 2 two_topics 512 9 true
      ≡ ok bytes)
    × (decode_beacon_packet bytes ≡ decoded b)
    × (b.node_ip ≡ 1)
    × (b.node_port ≡ 2)
    × (topics_of b ≡ two_topics)
    × (b.node_pid ≡ 9)
    × (b.shm_capable ≡ true)
decode_beacon-encode_beacon_example =
    decode_beacon-encode_beacon 1 2 two_topics 512 9 true (omega arith) (omega arith) (omega arith)
      (omega arith) (omega arith) (omega arith)
