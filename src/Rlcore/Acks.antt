-- ===== src/Rlcore/Acks.antt =====
-- What a RegisterRequest records, and which peers the answer lists.
use relink_com.Base.{
  ℕ, ◌≡◌, ◌↔◌, refl, sym, ap, ◌∙◌, inl, inr, Bool, true, false, not, ◌&&◌, ◌||◌, Option, none, some,
  List, [], ◌∷◌, ◌++◌, arith, ◌==◌, ==_iff, if◌then◌else◌, find, put, find-put, nat_key, pair_key,
  Bool-cases, is_in,
}
use relink_com.Register.{RegisterAckPeer, DecodedRegisterRequest}
use relink_com.Rlcore.{PeerEntry, PeerSet, Table, RlCore}
use relink_com.Rlcore.Dispatch.{
  Flags, same_peer, peers_of, ack_peer, topic_peers, all_peers, record_topics, request_topics,
  register_node,
}
use relink_com.Rlcore.Pruned.{has, has-cons, has-nil, is_some, is_some-if}

-- Does a list of peers have this one, for this topic?
unfoldable pub lists : ℕ → PeerEntry → List RegisterAckPeer → Bool
lists t p [] = false
lists t p (a ∷ xs) = ((a.topic_id == t) && same_peer (a.ip, a.port) p) || lists t p xs

lists-append :
    (t : ℕ) (p : PeerEntry) (xs ys : List RegisterAckPeer)
    → lists t p (xs ++ ys) ≡ (lists t p xs || lists t p ys)
unfolding lists
lists-append t p [] ys = refl
lists-append t p (a ∷ xs) ys =
    ap (λ (b : Bool). ((a.topic_id == t) && same_peer (a.ip, a.port) p) || b)
      (lists-append t p xs ys)
    ∙ or_assoc ((a.topic_id == t) && same_peer (a.ip, a.port) p) (lists t p xs) (lists t p ys)
  where
    or_assoc : (x y z : Bool) → (x || (y || z)) ≡ ((x || y) || z)
    or_assoc x y z = ground arith

same_peer_iff : (p q : PeerEntry) → (same_peer p q ≡ true) ↔ (p ≡ q)
unfolding same_peer
same_peer_iff p q = ground (arith, ==_iff p.0 q.0, ==_iff p.1 q.1)

same_peer_sym : (p q : PeerEntry) → same_peer p q ≡ same_peer q p
unfolding same_peer
same_peer_sym p q = ground arith

not_self : (e s h : Bool) → (e && (not s && ((e && s) || h))) ≡ (e && (not s && h))
not_self e s h = ground arith

-- One more peer `q` in the set: it is skipped where it is the requester.
one_peer :
    (e m s sp h : Bool)
    → (m ≡ true → s ≡ sp)
    → (s ≡ true → (e && (not sp && h)) ≡ (e && (not sp && (m || h))))
      × (s ≡ false → ((e && m) || (e && (not sp && h))) ≡ (e && (not sp && (m || h))))
one_peer e true s sp h c = ground (arith, c refl)
one_peer e false s sp h c = ground arith

-- The peers listed for one topic: those of the set, but not the requester.
lists-topic_peers :
    (lan_of : List (PeerEntry × PeerEntry)) (self : PeerEntry) (topic t : ℕ) (p : PeerEntry)
    (ps : PeerSet)
    → lists t p (topic_peers lan_of self topic ps)
      ≡ ((topic == t) && (not (same_peer p self) && has p ps))
unfolding topic_peers lists ack_peer same_peer
lists-topic_peers lan_of self topic t p [] = rw (has-nil p) (ground arith)
lists-topic_peers lan_of self topic t p ((q, u) ∷ ps) =
    let step =
      one_peer (topic == t) (same_peer q p) (same_peer q self) (same_peer p self) (has p ps)
        own_eq in
    elim (Bool-cases (same_peer q self)) [
      | inl own ↦ rw own (lists-topic_peers lan_of self topic t p ps ∙ step.0 own ∙ back)
      | inr other ↦ rw other (
          ap (λ (b : Bool). ((topic == t) && same_peer q p) || b)
            (lists-topic_peers lan_of self topic t p ps)
          ∙ step.1 other
          ∙ back)
    ]
  where
    own_eq : same_peer q p ≡ true → same_peer q self ≡ same_peer p self
    own_eq e = ap (λ (x : PeerEntry). same_peer x self) ((same_peer_iff q p).0 e)

    back :
        ((topic == t) && (not (same_peer p self) && (same_peer q p || has p ps)))
        ≡ ((topic == t) && (not (same_peer p self) && has p ((q, u) ∷ ps)))
    back =
        ap (λ (b : Bool). (topic == t) && (not (same_peer p self) && b)) (sym (has-cons p q u ps))

-- The peers of all topics of a request.
pub lists-all_peers :
    (st : RlCore) (self : PeerEntry) (topics : List ℕ) (t : ℕ) (p : PeerEntry)
    → lists t p (all_peers st self topics)
      ≡ (is_in t topics && (not (same_peer p self) && has p (peers_of t st.table)))
unfolding all_peers is_in lists
lists-all_peers st self [] t p = refl
lists-all_peers st self (x ∷ xs) t p =
    lists-append t p (topic_peers st.lan_of self x (peers_of x st.table)) (all_peers st self xs)
    ∙ ap (λ (b : Bool). b || lists t p (all_peers st self xs))
        (lists-topic_peers st.lan_of self x t p (peers_of x st.table))
    ∙ ap (λ (b : Bool). ((x == t) && (not (same_peer p self) && has p (peers_of x st.table))) || b)
        (lists-all_peers st self xs t p)
    ∙ join (x == t) (not (same_peer p self)) (has p (peers_of x st.table))
        (has p (peers_of t st.table)) (is_in t xs)
        (λ e. ap (λ (y : ℕ). has p (peers_of y st.table)) ((==_iff x t).0 e))
  where
    join :
        (e n h k r : Bool)
        → (e ≡ true → h ≡ k)
        → ((e && (n && h)) || (r && (n && k))) ≡ ((e || r) && (n && k))
    join true n h k r c = rw (c refl) (ground arith)
    join false n h k r c = refl

peers_of-put :
    (x t : ℕ) (ps : PeerSet) (table : Table)
    → peers_of t (put x ps table) ≡ (if x == t then ps else peers_of t table)
unfolding peers_of
peers_of-put x t ps table =
    ap (λ (o : Option PeerSet). elim o as (λ y. PeerSet) [ none ↦ [] | some qs ↦ qs ])
      (find-put x t ps table)
    ∙ pick (x == t) (find t table)
  where
    pick :
        (b : Bool) (o : Option PeerSet)
        → (elim (if b then some ps else o) as (λ y. PeerSet) [ none ↦ [] | some qs ↦ qs ])
          ≡ (if b then ps else (elim o as (λ y. PeerSet) [ none ↦ [] | some qs ↦ qs ]))
    pick true o = refl
    pick false o = refl

has-put :
    (self p : PeerEntry) (ps : PeerSet) → has p (put self tt ps) ≡ (same_peer self p || has p ps)
unfolding has same_peer
has-put self p ps =
    ap (λ (o : Option (Unit {0})). is_some o) (find-put self p tt ps)
    ∙ is_some-if ((self.0 == p.0) && (self.1 == p.1)) tt (find p ps)

-- What is registered after the loop over the topics.
record_topics-has :
    (self : PeerEntry) (now : ℕ) (topics : List ℕ) (st : RlCore) (t : ℕ) (p : PeerEntry)
    → has p (peers_of t (record_topics self now topics st).table)
      ≡ ((is_in t topics && same_peer self p) || has p (peers_of t st.table))
unfolding record_topics is_in
record_topics-has self now [] st t p = refl
record_topics-has self now (x ∷ xs) st t p =
    record_topics-has self now xs _ t p
    ∙ ap (λ (ps : PeerSet). (is_in t xs && same_peer self p) || has p ps)
        (peers_of-put x t (put self tt (peers_of x st.table)) st.table)
    ∙ step (x == t) (is_in t xs) (λ e. (==_iff x t).0 e)
  where
    step :
        (b r : Bool)
        → (b ≡ true → x ≡ t)
        → ((r && same_peer self p)
            || has p (if b then put self tt (peers_of x st.table) else peers_of t st.table))
          ≡ (((b || r) && same_peer self p) || has p (peers_of t st.table))
    step true r e =
        rw (e refl, has-put self p (peers_of t st.table))
          (absorb r (same_peer self p) (has p (peers_of t st.table)))
      where
        absorb : (r s h : Bool) → ((r && s) || (s || h)) ≡ (s || h)
        absorb r s h = ground arith
    step false r e = refl

-- The address under which a request is entered.
abbrev pub self_of : Flags → PeerEntry → DecodedRegisterRequest → PeerEntry
self_of flags src req = if flags.nat_mode then src else (req.node_ip, req.node_port)

-- The peers that are listed for a request.
abbrev pub listed : Flags → ℕ → PeerEntry → DecodedRegisterRequest → RlCore → List RegisterAckPeer
listed flags now src req st =
    all_peers (register_node flags now src req st).0 (self_of flags src req) (request_topics req)

-- Who is registered after a request.
pub register_node-has :
    (flags : Flags) (now : ℕ) (src : PeerEntry) (req : DecodedRegisterRequest) (st : RlCore) (t : ℕ)
    (p : PeerEntry)
    → has p (peers_of t (register_node flags now src req st).0.table) ≡ (
        (is_in t (request_topics req) && same_peer (self_of flags src req) p)
        || has p (peers_of t st.table))
unfolding register_node
register_node-has flags now src req st t p =
    record_topics-has (self_of flags src req) now (request_topics req) _ t p

-- Who is listed in the answer.
pub all_peers-registered :
    (flags : Flags) (now : ℕ) (src : PeerEntry) (req : DecodedRegisterRequest) (st : RlCore) (t : ℕ)
    (p : PeerEntry)
    → lists t p (
        all_peers
          (register_node flags now src req st).0
          (self_of flags src req)
          (request_topics req))
      ≡ (is_in t (request_topics req)
          && (not (same_peer p (self_of flags src req)) && has p (peers_of t st.table)))
all_peers-registered flags now src req st t p =
    lists-all_peers (register_node flags now src req st).0 self topics t p
    ∙ ap (λ (b : Bool). is_in t topics && (not (same_peer p self) && b))
        (register_node-has flags now src req st t p)
    ∙ ap
        (λ (b : Bool).
          is_in t topics
          && (not (same_peer p self) && ((is_in t topics && b) || has p (peers_of t st.table))))
        (same_peer_sym self p)
    ∙ not_self (is_in t topics) (same_peer p self) (has p (peers_of t st.table))
  where
    self : PeerEntry
    self = self_of flags src req

    topics : List ℕ
    topics = request_topics req
