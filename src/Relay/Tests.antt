-- ===== src/Relay/Tests.antt =====
-- A relay with two members, and the relay's theorems there.
use relink_com.Base.{ℕ, ◌≡◌, refl, List, [], ◌∷◌, All, u32_at, keep, put, find, nat_key}
use relink_com.Relay.{
  SockAddr, Send, Relay, same_addr, members_of, renew, forward, is_fresh, sweep, sweep_if_due,
  receive, handle_packet,
}
use relink_com.Relay.Groups.{IsValid, seen, handle_packet-IsValid}
use relink_com.Relay.Forwarding.{copies, wanted, handle_packet-forwards}
use relink_com.Relay.History.{Datagram, Justified, after, run-Justified}
use relink_com.RelayWire.{decode_relay_register, peek_frame_topic_id}

abbrev alice : SockAddr
alice = record { ip = 1; port = 10 }

abbrev bob : SockAddr
bob = record { ip = 2; port = 20 }

abbrev join : List ℕ
join = 0x52 ∷ 1 ∷ 7 ∷ 0 ∷ 0 ∷ 0 ∷ []

abbrev frame : List ℕ
frame = 0x23 ∷ 7 ∷ 0 ∷ 0 ∷ 0 ∷ 0 ∷ 0 ∷ 0 ∷ 0 ∷ 0 ∷ 0x0a ∷ []

abbrev both : Relay
both = record {
  groups =
      (7, record { addr = alice; last_seen = 100 } ∷ record { addr = bob; last_seen = 105 } ∷ [])
      ∷ [];
  last_sweep = 105;
}

both-IsValid : IsValid both
unfolding seen same_addr is_fresh
both-IsValid = record { distinct = ((refl, (refl, tt)), tt); fresh = ((refl, (refl, tt)), tt) }

abbrev log : List Datagram
log =
    record { now = 105; buf = join; src = bob } ∷ record { now = 100; buf = join; src = alice } ∷ []

abbrev from_alice : Datagram
from_alice = record { now = 106; buf = frame; src = alice }

alice_sends :
    (handle_packet (after 99 log) 106 frame alice).1 ≡ record { dest = bob; bytes = frame } ∷ []
unfolding after handle_packet receive sweep_if_due sweep keep is_fresh forward members_of renew
    same_addr decode_relay_register peek_frame_topic_id u32_at put find
alice_sends = refl

handle_packet-IsValid_example :
    IsValid (handle_packet both 140 frame alice).0
    × ((handle_packet both 140 frame alice).0.last_sweep ≡ 140)
handle_packet-IsValid_example = handle_packet-IsValid both 140 frame alice both-IsValid

handle_packet-forwards_example :
    (copies bob (handle_packet both 106 frame alice).1
      ≡ wanted alice bob (members_of 7 both.groups))
    × All (λ (s : Send). s.bytes ≡ frame) (handle_packet both 106 frame alice).1
    × ((handle_packet both 106 frame alice).0 ≡ sweep_if_due 106 both)
unfolding peek_frame_topic_id u32_at
handle_packet-forwards_example = handle_packet-forwards both 106 frame alice 7 bob both-IsValid refl

run-Justified_example :
    All
      (Justified 7 from_alice log (after 99 log).last_sweep)
      (handle_packet (after 99 log) 106 frame alice).1
unfolding peek_frame_topic_id u32_at
run-Justified_example = run-Justified 99 log from_alice 7 refl
