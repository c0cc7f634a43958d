-- ===== src/Relay/Groups.antt =====
-- The relay's forwarding groups: what a REGISTER and a sweep do to them.
use relink_com.Base.{
  ℕ, ◌≡◌, refl, sym, subst, ◌↔◌, inl, inr, Bool, true, Bool-cases, Option, none, some, List, [],
  ◌∷◌, arith, ltb, ◌==◌, if◌then◌else◌, find, put, keep, keep-holds, All, nat_key, Option-cases,
  ==_iff,
}
use relink_com.Relay.{
  SockAddr, Member, Groups, Relay, same_addr, members_of, renew, is_fresh, sweep, sweep_if_due,
  receive, handle_packet,
}
use relink_com.RelayWire.{decode_relay_register, peek_frame_topic_id}

pub same_addr_iff : (a b : SockAddr) → (same_addr a b ≡ true) ↔ (a ≡ b)
unfolding same_addr
same_addr_iff a b = ground arith

pub same_addr_refl : (a : SockAddr) → same_addr a a ≡ true
same_addr_refl a = (same_addr_iff a a).1 refl

-- When an address was last seen in a group, if it is a member.
unfoldable pub seen : SockAddr → List Member → Option ℕ
seen a [] = none
seen a (m ∷ ms) = if same_addr m.addr a then some m.last_seen else seen a ms

-- A REGISTER makes its sender a member, seen now, and changes no other membership.
pub seen-renew :
    (src a : SockAddr) (now : ℕ) (ms : List Member)
    → seen a (renew src now ms) ≡ (if same_addr src a then some now else seen a ms)
unfolding seen renew
seen-renew src a now [] = refl
seen-renew src a now (m ∷ ms) = ground (
  arith,
  same_addr_iff m.addr src,
  same_addr_iff m.addr a,
  same_addr_iff src a,
  seen-renew src a now ms,
)

-- No address stands twice in a group.
abbrev pub Distinct : List Member → Type 0
Distinct [] = Unit
Distinct (m ∷ ms) = (seen m.addr ms ≡ none) × Distinct ms

pub renew-Distinct :
    (src : SockAddr) (now : ℕ) (ms : List Member) → Distinct ms → Distinct (renew src now ms)
unfolding seen renew
renew-Distinct src now [] d = (refl, tt)
renew-Distinct src now (m ∷ ms) (new, d) = elim (Bool-cases (same_addr m.addr src)) [
  | inl e ↦ rw e (new, d)
  | inr e ↦ rw e (
    ground (
      arith,
      seen-renew src m.addr now ms,
      same_addr_iff m.addr src,
      same_addr_iff src m.addr,
      new,
    ),
    renew-Distinct src now ms d,
  )
]

pub seen-keep-none :
    (p : Member → Bool) (a : SockAddr) (ms : List Member)
    → seen a ms ≡ none
    → seen a (keep p ms) ≡ none
unfolding seen keep
seen-keep-none p a [] h = refl
seen-keep-none p a (m ∷ ms) h = ground (arith, seen-keep-none p a ms)

keep-Distinct : (p : Member → Bool) (ms : List Member) → Distinct ms → Distinct (keep p ms)
unfolding keep
keep-Distinct p [] d = tt
keep-Distinct p (m ∷ ms) (new, d) = elim (Bool-cases (p m)) [
  | inl e ↦ rw e (seen-keep-none p m.addr ms new, keep-Distinct p ms d)
  | inr e ↦ rw e (keep-Distinct p ms d)
]

abbrev pub IsFresh : ℕ → Member → Type 0
IsFresh now m = is_fresh now m ≡ true

renew-IsFresh :
    (src : SockAddr) (now : ℕ) (ms : List Member)
    → All (IsFresh now) ms
    → All (IsFresh now) (renew src now ms)
unfolding renew is_fresh
renew-IsFresh src now [] h = (ground arith, tt)
renew-IsFresh src now (m ∷ ms) (hm, h) = elim (Bool-cases (same_addr m.addr src)) [
  | inl e ↦ rw e (ground arith, h)
  | inr e ↦ rw e (hm, renew-IsFresh src now ms h)
]

pub All-put :
    (P : List Member → Type 0) (topic : ℕ) (ms : List Member) (groups : Groups)
    → P ms
    → All (λ (g : ℕ × List Member). P g.1) groups
    → All (λ (g : ℕ × List Member). P g.1) (put topic ms groups)
unfolding put
All-put P topic ms [] h k = (h, tt)
All-put P topic ms ((t, ns) ∷ groups) h (kn, k) = elim (Bool-cases (t == topic)) [
  | inl e ↦ rw e (h, k)
  | inr e ↦ rw e (elim (Bool-cases (ltb topic t)) [
    | inl l ↦ rw l (h, (kn, k))
    | inr l ↦ rw l (kn, All-put P topic ms groups h k)
  ])
]

pub All-members :
    (P : List Member → Type 0) (topic : ℕ) (groups : Groups)
    → P []
    → All (λ (g : ℕ × List Member). P g.1) groups
    → P (members_of topic groups)
unfolding members_of find
All-members P topic [] h k = h
All-members P topic ((t, ns) ∷ groups) h (kn, k) = elim (Bool-cases (t == topic)) [
  | inl e ↦ rw (e, members_of) kn
  | inr e ↦ rw (e, members_of) (All-members P topic groups h k)
]

pub sweep-All :
    (P : List Member → Type 0) (now : ℕ) (groups : Groups)
    → ((ms : List Member) → P ms → P (keep (is_fresh now) ms))
    → All (λ (g : ℕ × List Member). P g.1) groups
    → All (λ (g : ℕ × List Member). P g.1) (sweep now groups)
unfolding sweep
sweep-All P now [] f h = tt
sweep-All P now ((t, ms) ∷ groups) f (hm, h) = (f ms hm, sweep-All P now groups f h)

sweep-IsFresh :
    (now : ℕ) (groups : Groups)
    → All (λ (g : ℕ × List Member). All (IsFresh now) g.1) (sweep now groups)
unfolding sweep
sweep-IsFresh now [] = tt
sweep-IsFresh now ((t, ms) ∷ groups) = (keep-holds (is_fresh now) ms, sweep-IsFresh now groups)

-- No address stands twice in a group, and every member was seen at most 30 seconds before the last
-- sweep.
pub record IsValid (r : Relay) : Type 0 where
  pub distinct : All (λ (g : ℕ × List Member). Distinct g.1) r.groups
  pub fresh : All (λ (g : ℕ × List Member). All (IsFresh r.last_sweep) g.1) r.groups

pub receive-Distinct :
    (now : ℕ) (buf : List ℕ) (src : SockAddr) (groups : Groups)
    → All (λ (g : ℕ × List Member). Distinct g.1) groups
    → All (λ (g : ℕ × List Member). Distinct g.1) (receive now buf src groups).0
unfolding receive
receive-Distinct now buf src groups d = elim (Option-cases (decode_relay_register buf)) [
  | inr (topic, e) ↦
      rw (e, receive)
        (All-put Distinct topic _ groups
          (renew-Distinct src now _ (All-members Distinct topic groups tt d)) d)
  | inl e ↦
      rw (e, receive)
        (elim (Option-cases (peek_frame_topic_id buf)) [
          | inr (topic, f) ↦ rw (f, receive) d
          | inl f ↦ rw (f, receive) d
        ])
]

pub receive-IsFresh :
    (now : ℕ) (buf : List ℕ) (src : SockAddr) (groups : Groups)
    → All (λ (g : ℕ × List Member). All (IsFresh now) g.1) groups
    → All (λ (g : ℕ × List Member). All (IsFresh now) g.1) (receive now buf src groups).0
unfolding receive
receive-IsFresh now buf src groups d = elim (Option-cases (decode_relay_register buf)) [
  | inr (topic, e) ↦
      rw (e, receive)
        (All-put (All (IsFresh now)) topic _ groups
          (renew-IsFresh src now _ (All-members (All (IsFresh now)) topic groups tt d)) d)
  | inl e ↦
      rw (e, receive)
        (elim (Option-cases (peek_frame_topic_id buf)) [
          | inr (topic, f) ↦ rw (f, receive) d
          | inl f ↦ rw (f, receive) d
        ])
]

-- Every datagram, of whatever content, from whomever and at whatever time, keeps the addresses of each
-- group distinct; and after it every member was seen at most 30 seconds before the last sweep, which is
-- now.
pub handle_packet-IsValid :
    (r : Relay) (now : ℕ) (buf : List ℕ) (src : SockAddr)
    → IsValid r
    → IsValid (handle_packet r now buf src).0 × ((handle_packet r now buf src).0.last_sweep ≡ now)
unfolding handle_packet sweep_if_due
handle_packet-IsValid r now buf src v = elim (Bool-cases (now == r.last_sweep)) [
  | inl e ↦
      let same : now ≡ r.last_sweep = (==_iff now r.last_sweep).0 e in
      rw e (
        record {
          distinct = receive-Distinct now buf src r.groups v.distinct;
          fresh =
              subst
                (λ (t : ℕ).
                  All (λ (g : ℕ × List Member). All (IsFresh t) g.1)
                    (receive now buf src r.groups).0)
                same (receive-IsFresh now buf src r.groups (rw same v.fresh));
        },
        sym same,
      )
  | inr e ↦ rw e (
    record {
      distinct =
          sweep-All Distinct now _ (keep-Distinct (is_fresh now))
            (receive-Distinct now buf src r.groups v.distinct);
      fresh = sweep-IsFresh now _;
    },
    refl,
  )
]
