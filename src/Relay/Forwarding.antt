-- ===== src/Relay/Forwarding.antt =====
-- What one datagram makes the relay send, and what a REGISTER changes.
use relink_com.Base.{
  ℕ, suc, ◌-◌, ◌≡◌, refl, inl, inr, ◌&&◌, Bool-cases, Option, none, some, List, [], ◌∷◌, arith, ltb,
  ◌==◌, if◌then◌else◌, find, put, keep, find-put, All, nat_key, ==_iff,
}
use relink_com.Relay.{
  SockAddr, Member, Send, Groups, Relay, same_addr, members_of, renew, is_fresh, sweep,
  sweep_if_due, receive, handle_packet, forward, member_ttl_seconds,
}
use relink_com.Relay.Groups.{
  same_addr_iff, seen, seen-renew, Distinct, seen-keep-none, IsValid, All-members,
}
use relink_com.Relay.Groups.{receive-Distinct}
use relink_com.RelayWire.{decode_relay_register, peek_frame_topic_id}

-- How many of the datagrams go to an address.
unfoldable pub copies : SockAddr → List Send → ℕ
copies a [] = 0
copies a (s ∷ ss) = let rest = copies a ss in if same_addr s.dest a then suc rest else rest

-- 1 for an address that a frame from `src` is sent on to: any member but `src`.
unfoldable pub wanted : SockAddr → SockAddr → List Member → ℕ
wanted src a ms = if same_addr src a then 0 else elim (seen a ms) [ none ↦ 0 | some t ↦ 1 ]

forward-copies :
    (src a : SockAddr) (buf : List ℕ) (ms : List Member)
    → Distinct ms
    → copies a (forward src buf ms) ≡ wanted src a ms
unfolding copies forward wanted seen
forward-copies src a buf [] d = ground arith
forward-copies src a buf (m ∷ ms) (new, d) = ground (
  arith,
  same_addr_iff m.addr src,
  same_addr_iff m.addr a,
  same_addr_iff src a,
  new,
  forward-copies src a buf ms d,
)

forward-raw :
    (src : SockAddr) (buf : List ℕ) (ms : List Member)
    → All (λ (s : Send). s.bytes ≡ buf) (forward src buf ms)
unfolding forward
forward-raw src buf [] = tt
forward-raw src buf (m ∷ ms) = elim (Bool-cases (same_addr m.addr src)) [
  | inl e ↦ rw e (forward-raw src buf ms)
  | inr e ↦ rw e (refl, forward-raw src buf ms)
]

-- A datagram that looks like a frame is no REGISTER.
pub frame-not_register :
    (buf : List ℕ) (topic : ℕ)
    → peek_frame_topic_id buf ≡ some topic
    → decode_relay_register buf ≡ none
unfolding peek_frame_topic_id decode_relay_register
frame-not_register buf topic h = ground arith

pub receive-frame :
    (now : ℕ) (buf : List ℕ) (src : SockAddr) (groups : Groups) (topic : ℕ)
    → peek_frame_topic_id buf ≡ some topic
    → receive now buf src groups ≡ (groups, forward src buf (members_of topic groups))
unfolding receive
receive-frame now buf src groups topic h =
    rw (frame-not_register buf topic h, receive) (rw (h, receive))

pub receive-other :
    (now : ℕ) (buf : List ℕ) (src : SockAddr) (groups : Groups)
    → decode_relay_register buf ≡ none
    → peek_frame_topic_id buf ≡ none
    → receive now buf src groups ≡ (groups, [])
unfolding receive
receive-other now buf src groups h k = rw (h, receive) (rw (k, receive))

pub receive-register :
    (now : ℕ) (buf : List ℕ) (src : SockAddr) (groups : Groups) (topic : ℕ)
    → decode_relay_register buf ≡ some topic
    → receive now buf src groups ≡ (put topic (renew src now (members_of topic groups)) groups, [])
unfolding receive
receive-register now buf src groups topic h = rw (h, receive)

-- A data frame is sent on once to every member of its topic's group except the sender, to nobody else,
-- byte for byte as it came; and it changes no group (a sweep that is due apart).
pub handle_packet-forwards :
    (r : Relay) (now : ℕ) (buf : List ℕ) (src : SockAddr) (topic : ℕ) (a : SockAddr)
    → IsValid r
    → peek_frame_topic_id buf ≡ some topic
    → (copies a (handle_packet r now buf src).1 ≡ wanted src a (members_of topic r.groups))
      × All (λ (s : Send). s.bytes ≡ buf) (handle_packet r now buf src).1
      × ((handle_packet r now buf src).0 ≡ sweep_if_due now r)
unfolding handle_packet
handle_packet-forwards r now buf src topic a v h = rw (receive-frame now buf src r.groups topic h) (
  forward-copies src a buf (members_of topic r.groups)
      (All-members Distinct topic r.groups tt v.distinct),
  forward-raw src buf (members_of topic r.groups),
  refl,
)

members_of-sweep :
    (now topic : ℕ) (groups : Groups)
    → members_of topic (sweep now groups) ≡ keep (is_fresh now) (members_of topic groups)
unfolding members_of find sweep keep
members_of-sweep now topic [] = refl
members_of-sweep now topic ((t, ms) ∷ groups) = elim (Bool-cases (t == topic)) [
  | inl e ↦ rw (e, members_of)
  | inr e ↦ rw (e, members_of) (members_of-sweep now topic groups)
]

-- A time of registration that the sweep lets pass.
unfoldable pub unless_stale : ℕ → Option ℕ → Option ℕ
unless_stale now none = none
unless_stale now (some t) = if ltb member_ttl_seconds (now - t) then none else some t

seen-keep :
    (now : ℕ) (a : SockAddr) (ms : List Member)
    → Distinct ms
    → seen a (keep (is_fresh now) ms) ≡ unless_stale now (seen a ms)
unfolding seen keep is_fresh unless_stale
seen-keep now a [] d = refl
seen-keep now a (m ∷ ms) (new, d) =
    ground
      (arith, same_addr_iff m.addr a, new, seen-keep now a ms d, seen-keep-none (is_fresh now) a ms)

members_of-put :
    (topic t : ℕ) (ms : List Member) (groups : Groups)
    → members_of t (put topic ms groups) ≡ (if topic == t then ms else members_of t groups)
unfolding members_of
members_of-put topic t ms groups = elim (Bool-cases (topic == t)) [
  | inl e ↦ rw (find-put topic t ms groups, e, members_of)
  | inr e ↦ rw (find-put topic t ms groups, e, members_of)
]

members_of-receive :
    (now : ℕ) (buf : List ℕ) (src : SockAddr) (groups : Groups) (topic t : ℕ) (a : SockAddr)
    → decode_relay_register buf ≡ some topic
    → seen a (members_of t (receive now buf src groups).0)
      ≡ (if (topic == t) && same_addr src a then some now else seen a (members_of t groups))
members_of-receive now buf src groups topic t a h =
    rw (receive-register now buf src groups topic h, members_of-put)
      (elim (Bool-cases (topic == t)) [
        | inl e ↦ let same : topic ≡ t = (==_iff topic t).0 e in rw (e, same, seen-renew) refl
        | inr e ↦ rw e refl
      ])

-- A REGISTER sends nothing. It makes its sender a member of its topic, seen now; every other membership
-- is what the sweep that is due leaves of it.
pub handle_packet-registers :
    (r : Relay) (now : ℕ) (buf : List ℕ) (src : SockAddr) (topic t : ℕ) (a : SockAddr)
    → IsValid r
    → decode_relay_register buf ≡ some topic
    → ((handle_packet r now buf src).1 ≡ [])
      × (seen a (members_of t (handle_packet r now buf src).0.groups) ≡ (
          if (topic == t) && same_addr src a
          then some now
          else seen a (members_of t (sweep_if_due now r).groups)))
unfolding handle_packet sweep_if_due
handle_packet-registers r now buf src topic t a v h = (
  rw (receive-register now buf src r.groups topic h),
  elim (Bool-cases (now == r.last_sweep)) [
    | inl e ↦ rw e (members_of-receive now buf src r.groups topic t a h)
    | inr e ↦ rw e (
        ground (
          arith,
          members_of-sweep now t (receive now buf src r.groups).0,
          members_of-sweep now t r.groups,
          seen-keep now a (members_of t (receive now buf src r.groups).0)
              (All-members Distinct t _ tt (receive-Distinct now buf src r.groups v.distinct)),
          seen-keep now a (members_of t r.groups) (All-members Distinct t _ tt v.distinct),
          members_of-receive now buf src r.groups topic t a h,
          fresh_now,
        ))
  ],
)
  where
    fresh_now : unless_stale now (some now) ≡ some now
    fresh_now = unfold unless_stale in ground arith
