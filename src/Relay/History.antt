-- ===== src/Relay/History.antt =====
-- Whole runs of the relay: who can receive what.
use relink_com.Base.{
  ℕ, ◌-◌, ◌≤◌, ◌≡◌, refl, sym, subst, inl, inr, false, Bool-cases, some, List, [], ◌∷◌, arith, ltb,
  ◌==◌, keep-All, All, nat_key, Option-cases, put, ==_iff, find,
}
use relink_com.Relay.{
  SockAddr, Member, Send, Groups, Relay, same_addr, members_of, renew, is_fresh, sweep,
  sweep_if_due, receive, handle_packet, forward,
}
use relink_com.Relay.Groups.{same_addr_iff, IsValid, IsFresh, handle_packet-IsValid, All-members}
use relink_com.Relay.Forwarding.{receive-frame, receive-register, receive-other}
use relink_com.RelayWire.{decode_relay_register, peek_frame_topic_id}

-- A datagram as `recvfrom` hands it over.
pub record Datagram : Type 0 where
  pub now : ℕ
  pub buf : List ℕ
  pub src : SockAddr

-- The daemon after the datagrams of a log, the latest first, started at `t0`.
unfoldable pub after : ℕ → List Datagram → Relay
after t0 [] = record { groups = []; last_sweep = t0 }
after t0 (d ∷ log) = (handle_packet (after t0 log) d.now d.buf d.src).0

-- The log holds a REGISTER for the topic from the address, that came at time `t`.
pub data Registered (topic : ℕ) (a : SockAddr) (t : ℕ) : List Datagram → Type 0 where
  latest :
      (d : Datagram) (log : List Datagram)
      → decode_relay_register d.buf ≡ some topic
      → d.src ≡ a
      → d.now ≡ t
      → Registered topic a t (d ∷ log)
  earlier :
      (d : Datagram) (log : List Datagram)
      → Registered topic a t log
      → Registered topic a t (d ∷ log)

-- Every member of every group has registered for the topic at the time that it was last seen.
abbrev GroupKnown : List Datagram → ℕ → List Member → Type 0
GroupKnown log topic ms = All (λ (m : Member). Registered topic m.addr m.last_seen log) ms

abbrev Known : List Datagram → Groups → Type 0
Known log groups = All (λ (g : ℕ × List Member). GroupKnown log g.0 g.1) groups

group_later :
    (d : Datagram) (log : List Datagram) (topic : ℕ) (ms : List Member)
    → GroupKnown log topic ms
    → GroupKnown (d ∷ log) topic ms
group_later d log topic [] h = tt
group_later d log topic (m ∷ ms) (hm, h) = (earlier d log hm, group_later d log topic ms h)

Known-later :
    (d : Datagram) (log : List Datagram) (groups : Groups)
    → Known log groups
    → Known (d ∷ log) groups
Known-later d log [] h = tt
Known-later d log ((t, ms) ∷ groups) (hm, h) =
    (group_later d log t ms hm, Known-later d log groups h)

members-Known :
    (log : List Datagram) (topic : ℕ) (groups : Groups)
    → Known log groups
    → GroupKnown log topic (members_of topic groups)
unfolding members_of find
members-Known log topic [] h = tt
members-Known log topic ((t, ms) ∷ groups) (hm, h) = elim (Bool-cases (t == topic)) [
  | inl e ↦ rw (e, members_of) (subst (λ (x : ℕ). GroupKnown log x ms) ((==_iff t topic).0 e) hm)
  | inr e ↦ rw (e, members_of) (members-Known log topic groups h)
]

put-Known :
    (log : List Datagram) (topic : ℕ) (ms : List Member) (groups : Groups)
    → GroupKnown log topic ms
    → Known log groups
    → Known log (put topic ms groups)
unfolding put
put-Known log topic ms [] h k = (h, tt)
put-Known log topic ms ((t, ns) ∷ groups) h (kn, k) = elim (Bool-cases (t == topic)) [
  | inl e ↦ rw e (h, k)
  | inr e ↦ rw e (elim (Bool-cases (ltb topic t)) [
    | inl l ↦ rw l (h, (kn, k))
    | inr l ↦ rw l (kn, put-Known log topic ms groups h k)
  ])
]

renew-Known :
    (d : Datagram) (log : List Datagram) (topic : ℕ) (ms : List Member)
    → decode_relay_register d.buf ≡ some topic
    → GroupKnown log topic ms
    → GroupKnown (d ∷ log) topic (renew d.src d.now ms)
unfolding renew
renew-Known d log topic [] e h = (latest d log e refl refl, tt)
renew-Known d log topic (m ∷ ms) e (hm, h) = elim (Bool-cases (same_addr m.addr d.src)) [
  | inl s ↦
      rw s
        (latest d log e (sym ((same_addr_iff m.addr d.src).0 s)) refl, group_later d log topic ms h)
  | inr s ↦ rw s (earlier d log hm, renew-Known d log topic ms e h)
]

sweep-Known :
    (log : List Datagram) (now : ℕ) (groups : Groups)
    → Known log groups
    → Known log (sweep now groups)
unfolding sweep
sweep-Known log now [] h = tt
sweep-Known log now ((t, ms) ∷ groups) (hm, h) =
    (keep-All _ (is_fresh now) ms hm, sweep-Known log now groups h)

receive-Known :
    (d : Datagram) (log : List Datagram) (groups : Groups)
    → Known log groups
    → Known (d ∷ log) (receive d.now d.buf d.src groups).0
receive-Known d log groups h = elim (Option-cases (decode_relay_register d.buf)) [
  | inr (topic, e) ↦ rw (receive-register d.now d.buf d.src groups topic e) (
      put-Known (d ∷ log) topic _ groups
        (renew-Known d log topic _ e (members-Known log topic groups h))
        (Known-later d log groups h))
  | inl e ↦ elim (Option-cases (peek_frame_topic_id d.buf)) [
    | inr (topic, f) ↦
        rw (receive-frame d.now d.buf d.src groups topic f) (Known-later d log groups h)
    | inl f ↦ rw (receive-other d.now d.buf d.src groups e f) (Known-later d log groups h)
  ]
]

after-Known : (t0 : ℕ) (log : List Datagram) → Known log (after t0 log).groups
unfolding after handle_packet sweep_if_due
after-Known t0 [] = tt
after-Known t0 (d ∷ log) = elim (Bool-cases (d.now == (after t0 log).last_sweep)) [
  | inl e ↦ rw e (receive-Known d log (after t0 log).groups (after-Known t0 log))
  | inr e ↦ rw e (
      sweep-Known (d ∷ log) d.now _
        (receive-Known d log (after t0 log).groups (after-Known t0 log)))
]

after-IsValid : (t0 : ℕ) (log : List Datagram) → IsValid (after t0 log)
unfolding after
after-IsValid t0 [] = record { distinct = tt; fresh = tt }
after-IsValid t0 (d ∷ log) =
    (handle_packet-IsValid (after t0 log) d.now d.buf d.src (after-IsValid t0 log)).0

-- A datagram that the relay may send on when it receives `d` after the datagrams of the log, with its
-- last sweep at `swept`: it is `d` itself, it goes to another address than it came from, and that address
-- registered for the topic at most 30 seconds before the sweep.
pub record Justified (topic : ℕ) (d : Datagram) (log : List Datagram) (swept : ℕ) (s : Send)
    : Type 0 where
  pub raw : s.bytes ≡ d.buf
  pub elsewhere : same_addr s.dest d.src ≡ false
  pub time : ℕ
  pub registered : Registered topic s.dest time log
  pub recent : swept - time ≤ 30

forward-Justified :
    (topic : ℕ) (d : Datagram) (log : List Datagram) (swept : ℕ) (ms : List Member)
    → GroupKnown log topic ms
    → All (IsFresh swept) ms
    → All (Justified topic d log swept) (forward d.src d.buf ms)
unfolding forward is_fresh
forward-Justified topic d log swept [] k f = tt
forward-Justified topic d log swept (m ∷ ms) (km, k) (fm, f) =
    elim (Bool-cases (same_addr m.addr d.src)) [
      | inl e ↦ rw e (forward-Justified topic d log swept ms k f)
      | inr e ↦ rw e (
        record {
          raw = refl;
          elsewhere = e;
          time = m.last_seen;
          registered = km;
          recent = ground arith;
        },
        forward-Justified topic d log swept ms k f,
      )
    ]

-- Over any run from the start, whatever datagrams came: all that a data frame makes the relay send is
-- that frame, to other addresses than its sender's, each of which has sent a REGISTER for the frame's
-- topic that was at most 30 seconds old at the last sweep.
pub run-Justified :
    (t0 : ℕ) (log : List Datagram) (d : Datagram) (topic : ℕ)
    → peek_frame_topic_id d.buf ≡ some topic
    → All
        (Justified topic d log (after t0 log).last_sweep)
        (handle_packet (after t0 log) d.now d.buf d.src).1
unfolding handle_packet
run-Justified t0 log d topic h =
    rw (receive-frame d.now d.buf d.src (after t0 log).groups topic h) (
      forward-Justified topic d log (after t0 log).last_sweep
        (members_of topic (after t0 log).groups)
        (members-Known log topic (after t0 log).groups (after-Known t0 log))
        (All-members (All (IsFresh (after t0 log).last_sweep)) topic (after t0 log).groups tt
          (after-IsValid t0 log).fresh))
