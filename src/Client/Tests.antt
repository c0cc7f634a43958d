-- ===== src/Client/Tests.antt =====
-- The examples at which the theorems on registration are applied: two nodes and a daemon with a key.
use relink_com.Base.{
  ℕ, zero, suc, inr, bytes_eq, ◌≤◌, ◌<◌, ◌≡◌, ◌⊎◌, refl, sym, true, false, not, ◌&&◌, none, some,
  List, [], ◌∷◌, arith, replicate, length, take, All, is_in, subst, find, put, nat_key, pair_key,
  le16, le32,
}
use relink_com.TopicIds.{write_ids}
use relink_com.Register.{
  RegisterAckPeer, DecodedRegisterRequest, decoded, encode_register_request,
  decode_register_request,
}
use relink_com.Register.Ack.{PeerFits}
use relink_com.Rlcore.{PeerEntry, RlCore}
use relink_com.Rlcore.Dispatch.{
  Flags, same_peer, peers_of, topic_peers, ack_peer, lan_address, all_peers, request_topics,
  record_topics, register_node, register_step, topic_step,
}
use relink_com.Rlcore.Pruned.{has}
use relink_com.Rlcore.Acks.{lists, listed}
use relink_com.Gcm.{aes256gcm_seal}
use relink_com.Client.{Attempt, failed, buffer_size, wire_request, register_with_rlcore_on_socket}
use relink_com.Client.Answered.{IsAnswered, IsLost}
use relink_com.Client.Answers.{attempts, register-attempts}
use relink_com.Client.Registered.{
  Agree, encrypted, plain, IsRequest, first_reply, register-topic_step,
}
use relink_com.TopicDir.{topic_dir_packet_kind}
use relink_com.Roles.{role_packet_kind}
use relink_com.RelayWire.{decode_relay_register, peek_frame_topic_id}
use relink_com.Client.Key.{key_cipher, key_cipher-Pairs, register_step-sealed}

-- 192.168.1.1 is registered for topic 7; 192.168.1.2 registers.
abbrev first : PeerEntry
first = (3232235777, 4000)

abbrev second : PeerEntry
second = (3232235778, 4001)

abbrev registry : RlCore
registry = record {
  table = (7, (first, tt) ∷ []) ∷ [];
  lan_of = (first, first) ∷ [];
  last_seen = ((7, first), 1000) ∷ [];
  role_table = [];
  role_last_seen = [];
  relay_groups = [];
  topic_names = [];
}

abbrev key : List ℕ
key = replicate 32 5

abbrev nonce : List ℕ
nonce = replicate 12 1

abbrev nonce' : List ℕ
nonce' = replicate 12 2

abbrev flags : Flags
flags = record { nat_mode = true; relay_mode = false; cipher = some (key_cipher key nonce') }

-- The ack that lists nobody.
abbrev empty_ack : List ℕ
empty_ack = 0 ∷ 0 ∷ 0 ∷ []

-- The second attempt is answered.
abbrev network : ℕ → Attempt
network zero = record { sent = true; reply = none }
network (suc k) = record { sent = true; reply = some empty_ack }

abbrev request : List ℕ
request = 2 ∷ 1 ∷ 168 ∷ 192 ∷ 161 ∷ 15 ∷ 1 ∷ 0 ∷ 7 ∷ 0 ∷ 0 ∷ 0 ∷ []

request_encoded :
    wire_request none (encode_register_request 3232235778 4001 (7 ∷ []) buffer_size) ≡ some request
unfolding wire_request encode_register_request write_ids le32 le16
request_encoded = refl

register-attempts_example :
    ((k : ℕ) × (peers : List RegisterAckPeer) × (k < 3)
      × IsAnswered none (network k) peers
      × ((j : ℕ) → j < k → IsLost none (network j))
      × (register_with_rlcore_on_socket none 3232235778 4001 (7 ∷ []) 3 500 network
          ≡ some (record { ok = true; peers = peers }, attempts request 500 (suc k))))
    ⊎ (((j : ℕ) → j < 3 → IsLost none (network j))
        × (register_with_rlcore_on_socket none 3232235778 4001 (7 ∷ []) 3 500 network
            ≡ some (failed, attempts request 500 3)))
register-attempts_example =
    register-attempts none 3232235778 4001 (7 ∷ []) request 3 500 network request_encoded
      (omega arith)

-- A node and a daemon with the same key understand each other.
sealed-Agree : Agree (some (key_cipher key nonce)) (some (key_cipher key nonce'))
sealed-Agree =
    encrypted (key_cipher key nonce) (key_cipher key nonce')
      (key_cipher-Pairs key nonce nonce' refl refl)

-- A daemon with --nat, which implies --relay, and without a key.
abbrev nat_flags : Flags
nat_flags = record { nat_mode = true; relay_mode = true; cipher = none }

listed_lem :
    (req : DecodedRegisterRequest)
    → req.node_ip ≡ 3232235778
    → req.node_port ≡ 4001
    → request_topics req ≡ 7 ∷ []
    → listed nat_flags 2000 second req registry
      ≡ record { ip = 3232235777; port = 4000; topic_id = 7; lan_ip = 3232235777; lan_port = 4000 }
        ∷ []
unfolding register_node record_topics all_peers topic_peers ack_peer lan_address peers_of find put
    same_peer
listed_lem req eip eport etopics = rw etopics refl

first_fits :
    PeerFits
      (record { ip = 3232235777; port = 4000; topic_id = 7; lan_ip = 3232235777; lan_port = 4000 })
first_fits = record {
  ip = omega arith;
  port = omega arith;
  topic_id = omega arith;
  lan_ip = omega arith;
  lan_port = omega arith;
}

listed_fits :
    (req : DecodedRegisterRequest)
    → req.node_ip ≡ 3232235778
    → req.node_port ≡ 4001
    → request_topics req ≡ 7 ∷ []
    → (length (listed nat_flags 2000 second req registry) ≤ 4092)
      × All PeerFits (listed nat_flags 2000 second req registry)
listed_fits req eip eport etopics =
    subst (λ (ps : List RegisterAckPeer). (length ps ≤ 4092) × All PeerFits ps)
      (sym (listed_lem req eip eport etopics)) (omega arith, (first_fits, tt))

request-IsRequest : IsRequest nat_flags request
unfolding topic_dir_packet_kind role_packet_kind bytes_eq decode_relay_register peek_frame_topic_id
request-IsRequest = record { no_names = refl; no_roles = refl; no_relay = inr (refl, refl) }

-- The first attempt is lost, and the daemon's answer to the second one comes back.
abbrev nat_network : ℕ → Attempt
nat_network zero = record { sent = true; reply = none }
nat_network (suc k) = record {
  sent = true;
  reply = first_reply (topic_step nat_flags 2000 second request registry).1;
}

first-IsLost : (j : ℕ) → j < 1 → IsLost none (nat_network j)
first-IsLost zero lt peers h = absurd (cc (h.came))
first-IsLost (suc j) lt peers h = absurd (omega arith)

register-topic_step_example :
    (req : DecodedRegisterRequest) × (reply : List ℕ) × (req.node_ip ≡ 3232235778)
    × (req.node_port ≡ 4001)
    × (request_topics req ≡ 7 ∷ [])
    × (topic_step nat_flags 2000 second request registry ≡ (
      (register_node nat_flags 2000 second req registry).0,
      record { dest = second; bytes = reply } ∷ [],
    ))
    × (register_with_rlcore_on_socket none 3232235778 4001 (7 ∷ []) 3 500 nat_network
        ≡ some (
          record { ok = true; peers = listed nat_flags 2000 second req registry },
          attempts request 500 2,
        ))
    × ((t : ℕ) (p : PeerEntry)
        → lists t p (listed nat_flags 2000 second req registry)
          ≡ (is_in t (7 ∷ []) && (not (same_peer p second) && has p (peers_of t registry.table))))
register-topic_step_example =
    register-topic_step none nat_flags 3232235778 4001 (7 ∷ []) request 3 500 1 2000 second registry
      nat_network plain (omega arith) (omega arith) (omega arith, tt) (omega arith) listed_fits
      request_encoded request-IsRequest (omega arith) (omega arith) first-IsLost refl

register_step-sealed_example :
    (register_step flags 2000 second request registry ≡ (registry, []))
    ⊎ ((request' : List ℕ) × (req : DecodedRegisterRequest) × (aes256gcm_seal key
            (take 12 request)
            request'
            (length request)
          ≡ some request)
        × (decode_register_request request' ≡ decoded req))
register_step-sealed_example =
    register_step-sealed flags 2000 second request key nonce' registry refl
