-- ===== src/Rlcore/Dispatch.antt =====
-- The receive loop of relink_rlcore.cpp: what one datagram does, and what is sent.
-- The flags are those of the command line. Sealing and opening with the key are an interface, `Cipher`.
use relink_com.Base.{
  ℕ, ◌%◌, Bool, ◌&&◌, Option, none, some, List, [], ◌∷◌, ◌++◌, ◌==◌, if◌then◌else◌, find, put, take,
  length, nat_key, pair_key, u16_mod, tabulate,
}
use relink_com.TopicDir.{
  TopicDirEntry, TopicDirKind, topic_dir_packet_kind, encode_topic_dir_reply,
  chunk_topic_dir_entries, decode_topic_dir_entries,
}
use relink_com.Roles.{
  RoleDirKind, RoleAnnounceEntry, RolePeerEntry, role_packet_kind, decode_role_announce,
  chunk_role_peer_entries, encode_role_reply,
}
use relink_com.RelayWire.{decode_relay_register, peek_frame_topic_id}
use relink_com.Register.{
  RegisterAckPeer, DecodedRegisterRequest, RegisterEncodeResult, ok, decoded,
  decode_register_request, register_request_topic_at, encode_register_ack,
}
use relink_com.Rlcore.{PeerEntry, PeerSet, Registration, Table, RelayGroups, RlCore, prune_stale}

-- aes256gcm_open and aes256gcm_seal under the daemon's key; sealing draws a nonce.
pub record Cipher : Type 0 where
  pub open_blob : List ℕ → Option (List ℕ)
  pub seal_blob : List ℕ → Option (List ℕ)

pub record Flags : Type 0 where
  pub nat_mode : Bool
  pub relay_mode : Bool
  -- `some` where an encryption key was given
  pub cipher : Option Cipher

pub record Datagram : Type 0 where
  pub dest : PeerEntry
  pub bytes : List ℕ

-- The size of `send_buf`.
abbrev pub buffer_size : ℕ
buffer_size = 65507

-- `table[topic]`, or the set that `operator[]` makes.
unfoldable pub peers_of : ℕ → Table → PeerSet
peers_of topic table = elim (find topic table) [ none ↦ [] | some peers ↦ peers ]

-- RLNM: every entry's name is remembered.
unfoldable pub learn_names : List TopicDirEntry → List (ℕ × List ℕ) → List (ℕ × List ℕ)
learn_names [] names = names
learn_names (e ∷ es) names = learn_names es (put e.topic_id e.name names)

-- The entries of the answer to RLNQ: the registered topics, an empty name where none is known.
unfoldable pub named_topics : List (ℕ × List ℕ) → Table → List TopicDirEntry
named_topics names [] = []
named_topics names ((topic, peers) ∷ table) =
    record { topic_id = topic; name = elim (find topic names) [ none ↦ [] | some name ↦ name ] }
    ∷ named_topics names table

-- One packet per chunk; a chunk that cannot be encoded is skipped, and no chunk is one empty packet.
unfoldable pub send_all :
    {E : Type 0} → (List E → ℕ → Option (List ℕ)) → PeerEntry → List (List E) → List Datagram
send_all encode src [] = []
send_all encode src (c ∷ cs) =
    let rest = send_all encode src cs in
    elim (encode c buffer_size) [
      | none ↦ rest
      | some bytes ↦ record { dest = src; bytes = bytes } ∷ rest
    ]

unfoldable pub or_empty : {E : Type 0} → List (List E) → List (List E)
or_empty [] = [] ∷ []
or_empty (c ∷ cs) = c ∷ cs

-- RLPA: the observed address has these roles.
unfoldable pub learn_roles : PeerEntry → ℕ → List RoleAnnounceEntry → RlCore → RlCore
learn_roles observed now [] st = st
learn_roles observed now (e ∷ es) st = learn_roles observed now es (record st {
  role_table = put (e.topic_id, observed) e.role st.role_table;
  role_last_seen = put (e.topic_id, observed) now st.role_last_seen;
})

unfoldable pub role_entries : List (Registration × ℕ) → List RolePeerEntry
role_entries [] = []
role_entries ((key, role) ∷ roles) =
    record { topic_id = key.0; role = role; ip = key.1.0; port = key.1.1 } ∷ role_entries roles

unfoldable pub same_peer : PeerEntry → PeerEntry → Bool
same_peer a b = (a.0 == b.0) && (a.1 == b.1)

-- The relay's forwarding loop.
unfoldable pub forward_to : PeerEntry → List ℕ → List (PeerEntry × ℕ) → List Datagram
forward_to src bytes [] = []
forward_to src bytes ((member, seen) ∷ members) =
    let rest = forward_to src bytes members in
    if same_peer member src then rest else record { dest = member; bytes = bytes } ∷ rest

unfoldable pub members_of : ℕ → RelayGroups → List (PeerEntry × ℕ)
members_of topic groups = elim (find topic groups) [ none ↦ [] | some members ↦ members ]

-- A REGISTER packet of the relay, or a frame to forward; `none` where it is neither.
unfoldable pub relay_step : ℕ → PeerEntry → List ℕ → RlCore → Option (RlCore × List Datagram)
relay_step now src bytes st = elim (decode_relay_register bytes) [
  | some topic ↦ some (
    record st {
      relay_groups = put topic (put src now (members_of topic st.relay_groups)) st.relay_groups;
    },
    [],
  )
  | none ↦ elim (peek_frame_topic_id bytes) [
    | some topic ↦ some (st, forward_to src bytes (members_of topic st.relay_groups))
    | none ↦ none
  ]
]

-- The topics of a request, in order.
unfoldable pub request_topics : DecodedRegisterRequest → List ℕ
request_topics req = tabulate (register_request_topic_at req) req.topic_count

-- The loop that records the node under each of its topics.
unfoldable pub record_topics : PeerEntry → ℕ → List ℕ → RlCore → RlCore
record_topics self now [] st = st
record_topics self now (topic ∷ topics) st = record_topics self now topics (record st {
  table = put topic (put self tt (peers_of topic st.table)) st.table;
  last_seen = put (topic, self) now st.last_seen;
})

-- The address that a node gave itself, or zeros.
unfoldable pub lan_address : List (PeerEntry × PeerEntry) → PeerEntry → PeerEntry
lan_address lan_of peer = elim (find peer lan_of) [ none ↦ (0, 0) | some lan ↦ lan ]

unfoldable pub ack_peer : List (PeerEntry × PeerEntry) → ℕ → PeerEntry → RegisterAckPeer
ack_peer lan_of topic peer =
    let lan = lan_address lan_of peer in
    record { ip = peer.0; port = peer.1; topic_id = topic; lan_ip = lan.0; lan_port = lan.1 }

-- The peers of one topic but the requester itself.
unfoldable pub topic_peers :
    List (PeerEntry × PeerEntry) → PeerEntry → ℕ → PeerSet → List RegisterAckPeer
topic_peers lan_of self topic [] = []
topic_peers lan_of self topic ((peer, u) ∷ peers) =
    let rest = topic_peers lan_of self topic peers in
    if same_peer peer self then rest else ack_peer lan_of topic peer ∷ rest

unfoldable pub all_peers : RlCore → PeerEntry → List ℕ → List RegisterAckPeer
all_peers st self [] = []
all_peers st self (topic ∷ topics) =
    topic_peers st.lan_of self topic (peers_of topic st.table) ++ all_peers st self topics

-- The number of peers is cut to 16 bits on its way to the encoder.
unfoldable pub ack_bytes : List RegisterAckPeer → RegisterEncodeResult
ack_bytes peers = encode_register_ack 0 (take (length peers % u16_mod) peers) buffer_size

-- The reply, sealed where there is a key.
unfoldable pub reply_to : Option Cipher → PeerEntry → List RegisterAckPeer → List Datagram
reply_to cipher src peers = elim (ack_bytes peers) [
  | ok bytes ↦ elim cipher [
    | none ↦ record { dest = src; bytes = bytes } ∷ []
    | some c ↦ elim (c.seal_blob bytes) [
      | none ↦ []
      | some sealed ↦ record { dest = src; bytes = sealed } ∷ []
    ]
  ]
  | _ ↦ []
]

-- A decoded RegisterRequest.
unfoldable pub register_node :
    Flags → ℕ → PeerEntry → DecodedRegisterRequest → RlCore → RlCore × List Datagram
register_node flags now src req st =
    let self = if flags.nat_mode then src else (req.node_ip, req.node_port) in
    let st' =
      record_topics self now (request_topics req)
        (record st { lan_of = put self (req.node_ip, req.node_port) st.lan_of }) in
    (st', reply_to flags.cipher src (all_peers st' self (request_topics req)))

-- The request itself: what came, or what was sealed in it.
unfoldable pub plain_request : Option Cipher → List ℕ → Option (List ℕ)
plain_request none bytes = some bytes
plain_request (some c) bytes = c.open_blob bytes

unfoldable pub register_step : Flags → ℕ → PeerEntry → List ℕ → RlCore → RlCore × List Datagram
register_step flags now src bytes st = elim (plain_request flags.cipher bytes) [
  | none ↦ (st, [])
  | some request ↦ elim (decode_register_request request) [
    | decoded req ↦ register_node flags now src req st
    | _ ↦ (st, [])
  ]
]

-- What follows the topic directory and the roles.
unfoldable pub other_step : Flags → ℕ → PeerEntry → List ℕ → RlCore → RlCore × List Datagram
other_step flags now src bytes st =
    let relayed = if flags.relay_mode then relay_step now src bytes st else none in
    elim relayed [ none ↦ register_step flags now src bytes st | some result ↦ result ]

unfoldable pub role_step : Flags → ℕ → PeerEntry → List ℕ → RlCore → RlCore × List Datagram
role_step flags now src bytes st = elim (role_packet_kind bytes) [
  | RoleDirKind.announce ↦ elim (decode_role_announce bytes) [
    | none ↦ (st, [])
    | some entries ↦ (learn_roles src now entries st, [])
  ]
  | RoleDirKind.query ↦ (
    st,
    send_all encode_role_reply src
        (or_empty (chunk_role_peer_entries (role_entries st.role_table))),
  )
  | RoleDirKind.reply ↦ (st, [])
  | RoleDirKind.unknown ↦ other_step flags now src bytes st
]

unfoldable pub topic_step : Flags → ℕ → PeerEntry → List ℕ → RlCore → RlCore × List Datagram
topic_step flags now src bytes st = elim (topic_dir_packet_kind bytes) [
  | TopicDirKind.announce ↦ elim (decode_topic_dir_entries bytes) [
    | none ↦ (st, [])
    | some entries ↦ (record st { topic_names = learn_names entries st.topic_names }, [])
  ]
  | TopicDirKind.query ↦ (
    st,
    send_all encode_topic_dir_reply src
        (or_empty (chunk_topic_dir_entries (named_topics st.topic_names st.table))),
  )
  | TopicDirKind.reply ↦ (st, [])
  | TopicDirKind.unknown ↦ role_step flags now src bytes st
]

-- One round of the loop: `received` is what `recvfrom` gave, if not a timeout or an error. The clock is read
-- once for `prune_stale` and again for what the datagram does.
unfoldable pub round : Flags → ℕ → ℕ → Option (PeerEntry × List ℕ) → RlCore → RlCore × List Datagram
round flags now later received st0 =
    let st = prune_stale flags.relay_mode now st0 in
    elim received [
      | none ↦ (st, [])
      | some (src, []) ↦ (st, [])
      | some (src, b ∷ bytes) ↦ topic_step flags later src (b ∷ bytes) st
    ]
