-- ===== src/Relay.antt =====
-- cpp/rlcore/relink_relay.cpp: the relay daemon. One datagram after the other goes to `handle_packet`,
-- whether it came by `recvfrom` or by the AF_XDP path; what the daemon sends is returned.
pub mod Groups
pub mod Forwarding
pub mod History
mod Tests
use relink_com.Base.{
  ℕ, ◌-◌, Bool, not, ◌&&◌, Option, none, some, List, [], ◌∷◌, map, ltb, ◌==◌, if◌then◌else◌, find,
  put, keep, nat_key,
}
use relink_com.RelayWire.{decode_relay_register, peek_frame_topic_id}

-- `sockaddr_in`: address and port.
pub record SockAddr : Type 0 where
  pub ip : ℕ
  pub port : ℕ

pub record Member : Type 0 where
  pub addr : SockAddr
  pub last_seen : ℕ

-- A datagram that goes out.
pub record Send : Type 0 where
  pub dest : SockAddr
  pub bytes : List ℕ

abbrev pub Groups : Type 0
Groups = List (ℕ × List Member)

-- The daemon's variables.
pub record Relay : Type 0 where
  pub groups : Groups
  pub last_sweep : ℕ

abbrev pub member_ttl_seconds : ℕ
member_ttl_seconds = 30

unfoldable pub same_addr : SockAddr → SockAddr → Bool
same_addr a b = (a.ip == b.ip) && (a.port == b.port)

-- groups[topic_id], which is empty where the topic is new.
unfoldable pub members_of : ℕ → Groups → List Member
members_of topic groups = elim (find topic groups) [ none ↦ [] | some ms ↦ ms ]

-- The loop that looks for the sender and renews it, and the `push_back` where it is not found.
unfoldable pub renew : SockAddr → ℕ → List Member → List Member
renew src now [] = record { addr = src; last_seen = now } ∷ []
renew src now (m ∷ ms) =
    if same_addr m.addr src then record m { last_seen = now } ∷ ms else m ∷ renew src now ms

-- The loop that sends the frame on, never back to the sender.
unfoldable pub forward : SockAddr → List ℕ → List Member → List Send
forward src buf [] = []
forward src buf (m ∷ ms) =
    let rest = forward src buf ms in
    if same_addr m.addr src then rest else record { dest = m.addr; bytes = buf } ∷ rest

unfoldable pub is_fresh : ℕ → Member → Bool
is_fresh now m = not (ltb member_ttl_seconds (now - m.last_seen))

unfoldable pub sweep : ℕ → Groups → Groups
sweep now [] = []
sweep now ((topic, ms) ∷ groups) = (topic, keep (is_fresh now) ms) ∷ sweep now groups

unfoldable pub sweep_if_due : ℕ → Relay → Relay
sweep_if_due now r =
    if not (now == r.last_sweep)
    then record { groups = sweep now r.groups; last_sweep = now }
    else r

-- The groups after the datagram and what is sent, before the sweep.
unfoldable pub receive : ℕ → List ℕ → SockAddr → Groups → Groups × List Send
receive now buf src groups = elim (decode_relay_register buf) [
  | some topic ↦ (put topic (renew src now (members_of topic groups)) groups, [])
  | none ↦ elim (peek_frame_topic_id buf) [
    | some topic ↦ (groups, forward src buf (members_of topic groups))
    | none ↦ (groups, [])
  ]
]

-- `now` is what `std::time` answers.
unfoldable pub handle_packet : Relay → ℕ → List ℕ → SockAddr → Relay × List Send
handle_packet r now buf src =
    let (groups, sent) = receive now buf src r.groups in
    (sweep_if_due now (record r { groups = groups }), sent)
