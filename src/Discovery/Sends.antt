-- ===== src/Discovery/Sends.antt =====
-- What send_beacon_once of multicast_discovery.hpp sends, and what a listener makes of it.
use relink_com.Base.{
  ℕ, suc, ◌+◌, ◌*◌, ◌%◌, ◌≤◌, ◌<◌, ◌≡◌, refl, sym, ap, ap₂, ◌⊎◌, ◌∙◌, inl, inr, Bool, true, false,
  ◌&&◌, ◌||◌, Bool-cases, Option, List, [], ◌∷◌, ◌++◌, arith, ◌==◌, ltb, leb, if◌then◌else◌, is_in,
  length, take, take-length, length-append, length-le32, length-le16, le16, All, le32, keep,
  u16_mod, u32_mod,
}
use relink_com.TopicIds.{IsId, write_ids, length-write_ids}
use relink_com.Beacon.{
  DecodedBeacon, ok, too_many_topics, buffer_too_small, decoded, encode_beacon_packet,
  decode_beacon_packet,
}
use relink_com.Beacon.RoundTrip.{topics_of, decode_beacon-encode_beacon}
use relink_com.TopicDir.{TopicDirEntry, TopicDirKind, topic_dir_packet_kind}
use relink_com.Discovery.{
  Address, PortGroup, Config, Discovery, contains, learn_beacon, listen, handle, beacon_of,
  send_beacons, send_if_ok, buffer_size,
}
use relink_com.Discovery.Table.{same_address, known}
use relink_com.Discovery.Learns.{is_own, learn_beacon-Learned}

-- The answer of the encoder is `ok` only past both of its tests.
past_tests :
    (many small : Bool) (bs bytes : List ℕ)
    → (if many then too_many_topics else if small then buffer_too_small else ok bs) ≡ ok bytes
    → (small ≡ false) × (bs ≡ bytes)
past_tests true small bs bytes e = cc
past_tests false true bs bytes e = cc
past_tests false false bs bytes e = (refl, cc)

encoded_shape :
    (ip port : ℕ) (ids : List ℕ) (room pid : ℕ) (shm : Bool) (bytes : List ℕ)
    → encode_beacon_packet ip port ids room pid shm ≡ ok bytes
    → (length bytes ≤ room) × (more : List ℕ) × (bytes ≡ le32 ip ++ more)
unfolding encode_beacon_packet
encoded_shape ip port ids room pid shm bytes e =
    let t = past_tests (ltb 128 (length ids)) (ltb room (8 + length ids * 4 + 8)) _ bytes e in
    (omega (arith, ap length (sym t.1), sizes (if shm then 1 else 0), fits _ t.0), _, sym t.1)
  where
    fits : (n : ℕ) → ltb room n ≡ false → n ≤ room
    fits n h = ground arith

    sizes :
        (flags : ℕ)
        → length (
            le32 ip
            ++ (le16 port ++ (le16 (length ids) ++ (write_ids ids ++ (le32 pid ++ le32 flags)))))
          ≡ 8 + length ids * 4 + 8
    sizes flags = omega (
      arith,
      length-append (le32 ip)
          (le16 port ++ (le16 (length ids) ++ (write_ids ids ++ (le32 pid ++ le32 flags)))),
      length-append (le16 port) (le16 (length ids) ++ (write_ids ids ++ (le32 pid ++ le32 flags))),
      length-append (le16 (length ids)) (write_ids ids ++ (le32 pid ++ le32 flags)),
      length-append (write_ids ids) (le32 pid ++ le32 flags),
      length-append (le32 pid) (le32 flags),
      length-le32 ip,
      length-le16 port,
      length-le16 (length ids),
      length-write_ids ids,
      length-le32 pid,
      length-le32 flags,
    )

-- The kind of a packet depends on its first four bytes.
kind_of_address :
    (ip : ℕ) (more : List ℕ)
    → topic_dir_packet_kind (le32 ip ++ more) ≡ topic_dir_packet_kind (le32 ip)
unfolding topic_dir_packet_kind le32
kind_of_address ip more = rw (enough (length more)) refl
  where
    enough : (n : ℕ) → ltb (suc (suc (suc (suc n)))) 4 ≡ false
    enough n = ground arith

-- The number of topics that fits into the buffer, of those that a beacon may have.
abbrev pub small_enough : PortGroup → Bool
small_enough g = leb (length g.topics) 124

listen_decoded :
    (names : Option (List TopicDirEntry)) (bytes : List ℕ) (b : DecodedBeacon) (ip : ℕ)
    (more : List ℕ) (d : Discovery)
    → length bytes ≤ 512
    → bytes ≡ le32 ip ++ more
    → topic_dir_packet_kind (le32 ip) ≡ TopicDirKind.unknown
    → decode_beacon_packet bytes ≡ decoded b
    → (listen names bytes d).0 ≡ (learn_beacon b d).0
unfolding listen handle
listen_decoded names bytes b ip more d small start kind dec =
    rw
      (
        take-length 512 bytes small,
        not_empty,
        ap topic_dir_packet_kind start ∙ kind_of_address ip more ∙ kind,
        dec,
      )
      refl
  where
    nonzero : (n k : ℕ) → n ≡ 4 + k → (n == 0) ≡ false
    nonzero n k h = ground arith

    not_empty : (length bytes == 0) ≡ false
    not_empty =
        nonzero (length bytes) (length more)
          (omega (arith, ap length start, length-append (le32 ip) more, length-le32 ip))

-- The same, for a beacon whose fields are known.
known_after :
    (b : DecodedBeacon) (d : Discovery) (ip port : ℕ) (topics : List ℕ) (t : ℕ) (p : Address)
    → b.node_ip ≡ ip
    → b.node_port ≡ port
    → topics_of b ≡ topics
    → ((ip == d.cfg.self_ip) && contains port d.self_ports) ≡ false
    → known t p (learn_beacon b d).0.table ≡ (
        (is_in t topics && (same_address (ip, port) p && contains t d.local_topics))
        || known t p d.table)
known_after b d ip port topics t p eip eport etopics own =
    (learn_beacon-Learned b d t p (own_lem ∙ own)).entered
    ∙ ap₂
        (λ (a : Address) (ts : List ℕ).
          (is_in t ts && (same_address a p && contains t d.local_topics)) || known t p d.table)
        (ap₂ (λ (x y : ℕ). (x, y)) eip eport) etopics
  where
    own_lem : is_own b d ≡ ((ip == d.cfg.self_ip) && contains port d.self_ports)
    own_lem =
        unfold is_own in
        ap₂ (λ (x y : ℕ). (x == d.cfg.self_ip) && contains y d.self_ports) eip eport

-- A listener enters a node for exactly those of its own topics that the node's beacon lists: where the beacon's
-- address is not one of the listener's own, the group has at most 124 topics, all numbers fit their fields, and the
-- IP address does not read as one of the topic directory's magic words.
pub listen-beacon_of :
    (cfg : Config) (g : PortGroup) (names : Option (List TopicDirEntry)) (d : Discovery) (t : ℕ)
    (p : Address)
    → cfg.self_ip < u32_mod
    → cfg.self_pid < u32_mod
    → g.port < u16_mod
    → All IsId g.topics
    → length g.topics ≤ 124
    → topic_dir_packet_kind (le32 cfg.self_ip) ≡ TopicDirKind.unknown
    → ((cfg.self_ip == d.cfg.self_ip) && contains g.port d.self_ports) ≡ false
    → (bytes : List ℕ) × (beacon_of cfg g ≡ ok bytes)
      × (known t p (listen names bytes d).0.table ≡ (
          (is_in t g.topics && (same_address (cfg.self_ip, g.port) p && contains t d.local_topics))
          || known t p d.table))
unfolding beacon_of
listen-beacon_of cfg g names d t p hip hpid hport hids hn hk hown =
    let all_topics : take (length g.topics % u16_mod) g.topics ≡ g.topics =
      take-length _ g.topics (omega arith) in
    let (bytes, b, enc, dec, eip, eport, etopics, _, _) =
      decode_beacon-encode_beacon cfg.self_ip g.port g.topics buffer_size cfg.self_pid
        cfg.shm_capable hip hport hids (omega arith) (omega arith) hpid in
    let (size, more, start) =
      encoded_shape cfg.self_ip g.port g.topics buffer_size cfg.self_pid cfg.shm_capable bytes
        enc in
    (
      bytes,
      rw all_topics enc,
      ap (λ (e : Discovery). known t p e.table)
            (listen_decoded names bytes b cfg.self_ip more d size start hk dec)
          ∙ known_after b d cfg.self_ip g.port g.topics t p eip eport etopics hown,
    )

beacon_of_small :
    (cfg : Config) (g : PortGroup)
    → length g.topics < u16_mod
    → (small_enough g ≡ true → (bytes : List ℕ) × (beacon_of cfg g ≡ ok bytes))
      × (small_enough g ≡ false
          → (beacon_of cfg g ≡ too_many_topics) ⊎ (beacon_of cfg g ≡ buffer_too_small))
unfolding beacon_of encode_beacon_packet
beacon_of_small cfg g h =
    let all_topics : take (length g.topics % u16_mod) g.topics ≡ g.topics =
      take-length _ g.topics (omega arith) in
    rw all_topics ((λ s. (_, sent (length g.topics) s)), (λ s. unsent _ (length g.topics) s))
  where
    sent :
        {bs : List ℕ} (n : ℕ)
        → leb n 124 ≡ true
        → (if ltb 128 n
            then too_many_topics
            else if ltb 512 (8 + n * 4 + 8)
            then buffer_too_small
            else ok bs)
          ≡ ok bs
    sent n s = ground arith

    unsent :
        (bs : List ℕ) (n : ℕ)
        → leb n 124 ≡ false
        → ((if ltb 128 n
              then too_many_topics
              else if ltb 512 (8 + n * 4 + 8)
              then buffer_too_small
              else ok bs)
            ≡ too_many_topics)
          ⊎ ((if ltb 128 n
                then too_many_topics
                else if ltb 512 (8 + n * 4 + 8)
                then buffer_too_small
                else ok bs)
              ≡ buffer_too_small)
    unsent bs n s = elim (Bool-cases (ltb 128 n)) [
      | inl many ↦ inl (rw many refl)
      | inr few ↦ inr (rw few (ground arith))
    ]

-- send_beacon_once sends one beacon for each port group of at most 124 topics and none for a larger one, although
-- encode_beacon_packet takes up to 128: the buffer of 512 bytes is too small for them. The groups have less
-- than 65536 topics.
pub length-send_beacons :
    (cfg : Config) (gs : List PortGroup)
    → All (λ g. length g.topics < u16_mod) gs
    → length (send_beacons cfg gs) ≡ length (keep small_enough gs)
unfolding send_beacons send_if_ok keep
length-send_beacons cfg [] h = refl
length-send_beacons cfg (g ∷ gs) h =
    let rest = length-send_beacons cfg gs h.1 in
    let s = beacon_of_small cfg g h.0 in
    elim (Bool-cases (small_enough g)) [
      | inl e ↦ ap (λ r. length (send_if_ok r (send_beacons cfg gs))) (s.0 e).1 ∙ rw e (ap suc rest)
      | inr e ↦ elim (s.1 e) [
        | inl many ↦ ap (λ r. length (send_if_ok r (send_beacons cfg gs))) many ∙ rw e rest
        | inr small ↦ ap (λ r. length (send_if_ok r (send_beacons cfg gs))) small ∙ rw e rest
      ]
    ]
