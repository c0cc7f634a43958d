-- ===== src/Discovery/Learns.antt =====
-- What a node learns from a beacon, by listener_loop of multicast_discovery.hpp: exactly the pairs of one of its
-- own topics and the beacon's address, each with one callback.
use relink_com.Base.{
  ℕ, ◌+◌, ◌≡◌, refl, ap, ◌∙◌, inl, inr, Bool, true, false, ◌&&◌, ◌||◌, Bool-cases, Option, List, [],
  ◌∷◌, arith, ◌==◌, is_in, length, take, find,
}
use relink_com.Beacon.{DecodedBeacon, BeaconDecodeResult, decoded, too_short, length_mismatch}
use relink_com.Beacon.RoundTrip.{topics_of}
use relink_com.TopicDir.{TopicDirEntry, TopicDirKind}
use relink_com.Discovery.{
  Address, PeerInfo, Config, Discovery, Callbacks, contains, learn_topic, learn_topics,
  learn_beacon, listen, handle, listener_loop, buffer_size, multicast_discovery, insert_groups,
  PortGroup, peers_of, has_peer,
}
use relink_com.Discovery.Table.{
  same_address, known, count, count-append, one_if, Keeps, learn_topic-TopicLearned,
}

Keeps-refl : (d : Discovery) → Keeps d d
Keeps-refl d = record { cfg = refl; local_topics = refl; self_ports = refl }

Keeps-trans : (a b c : Discovery) → Keeps a b → Keeps b c → Keeps a c
Keeps-trans a b c h k = record {
  cfg = k.cfg ∙ h.cfg;
  local_topics = k.local_topics ∙ h.local_topics;
  self_ports = k.self_ports ∙ h.self_ports;
}

-- The table and the callbacks after the topics of a beacon.
pub record Learned (a : Address) (topics : List ℕ) (d : Discovery) (t : ℕ) (p : Address)
    (r : Discovery × Callbacks) : Type 0 where
  pub entered :
      known t p r.0.table
      ≡ ((is_in t topics && (same_address a p && contains t d.local_topics)) || known t p d.table)
  pub called : count t p r.1 + one_if (known t p d.table) ≡ one_if (known t p r.0.table)
  pub keeps : Keeps d r.0

pub learn_topics-Learned :
    (peer : PeerInfo) (topics : List ℕ) (d : Discovery) (t : ℕ) (p : Address)
    → Learned (peer.ip, peer.port) topics d t p (learn_topics peer topics d)
unfolding learn_topics is_in count
learn_topics-Learned peer [] d t p = record {
  entered = refl;
  called = omega arith;
  keeps = Keeps-refl d;
}
learn_topics-Learned peer (x ∷ xs) d t p =
    let first = learn_topic-TopicLearned peer x d t p in
    let d' = (learn_topic peer x d).0 in
    let rest = learn_topics-Learned peer xs d' t p in
    record {
      entered =
          rest.entered
          ∙ ap
              (λ (m : List (ℕ × Unit {0})).
                (is_in t xs && (same_address (peer.ip, peer.port) p && contains t m))
                || known t p d'.table)
              first.keeps.local_topics
          ∙ ap
              (λ (b : Bool).
                (is_in t xs && (same_address (peer.ip, peer.port) p && contains t d.local_topics))
                || b)
              first.entered
          ∙ join (x == t) (is_in t xs)
              (same_address (peer.ip, peer.port) p && contains t d.local_topics)
              (known t p d.table);
      called = omega (
        arith,
        count-append t p (learn_topic peer x d).1 (learn_topics peer xs d').1,
        first.called,
        rest.called,
      );
      keeps = Keeps-trans d d' (learn_topics peer xs d').0 first.keeps rest.keeps;
    }
  where
    join : (e r c k : Bool) → ((r && c) || ((e && c) || k)) ≡ (((e || r) && c) || k)
    join e r c k = ground arith

-- The node's own beacon, which the group delivers to it too.
unfoldable pub is_own : DecodedBeacon → Discovery → Bool
is_own b d = (b.node_ip == d.cfg.self_ip) && contains b.node_port d.self_ports

pub learn_beacon-Learned :
    (b : DecodedBeacon) (d : Discovery) (t : ℕ) (p : Address)
    → is_own b d ≡ false
    → Learned (b.node_ip, b.node_port) (topics_of b) d t p (learn_beacon b d)
unfolding learn_beacon is_own
learn_beacon-Learned b d t p h = rw h (learn_topics-Learned _ (topics_of b) d t p)

-- What one datagram does, whatever it is.
pub record Counted (d : Discovery) (t : ℕ) (p : Address) (r : Discovery × Callbacks) : Type 0 where
  pub called : count t p r.1 + one_if (known t p d.table) ≡ one_if (known t p r.0.table)
  pub keeps : Keeps d r.0
  pub wanted :
      known t p r.0.table
      ≡ (known t p d.table || (known t p r.0.table && contains t d.local_topics))

unmoved_lem : (d : Discovery) (t : ℕ) (p : Address) → Counted d t p (d, [])
unfolding count
unmoved_lem d t p = record { called = omega arith; keeps = Keeps-refl d; wanted = ground arith }

learn_beacon-Counted :
    (b : DecodedBeacon) (d : Discovery) (t : ℕ) (p : Address) → Counted d t p (learn_beacon b d)
learn_beacon-Counted b d t p = elim (Bool-cases (is_own b d)) [
  | inl own ↦ rw (own_lem own) (unmoved_lem d t p)
  | inr other ↦
      let l = learn_beacon-Learned b d t p other in
      record {
        called = l.called;
        keeps = l.keeps;
        wanted =
            of_entered (known t p d.table) _ (is_in t (topics_of b))
              (same_address (b.node_ip, b.node_port) p) (contains t d.local_topics) l.entered;
      }
]
  where
    own_lem : is_own b d ≡ true → learn_beacon b d ≡ (d, [])
    own_lem h = unfold learn_beacon is_own in (rw h refl)

    of_entered : (k k' r s c : Bool) → k' ≡ ((r && (s && c)) || k) → k' ≡ (k || (k' && c))
    of_entered k k' r s c h = ground arith

handle-Counted :
    (names : Option (List TopicDirEntry)) (kind : TopicDirKind) (result : BeaconDecodeResult)
    (d : Discovery) (t : ℕ) (p : Address)
    → Counted d t p ((handle names kind result d).0, (handle names kind result d).2)
unfolding handle
handle-Counted names TopicDirKind.query result d t p = unmoved_lem d t p
handle-Counted names TopicDirKind.announce result d t p = unmoved_lem d t p
handle-Counted names TopicDirKind.reply result d t p = unmoved_lem d t p
handle-Counted names TopicDirKind.unknown (decoded b) d t p = learn_beacon-Counted b d t p
handle-Counted names TopicDirKind.unknown too_short d t p = unmoved_lem d t p
handle-Counted names TopicDirKind.unknown length_mismatch d t p = unmoved_lem d t p

listen-Counted :
    (names : Option (List TopicDirEntry)) (datagram : List ℕ) (d : Discovery) (t : ℕ) (p : Address)
    → Counted d t p ((listen names datagram d).0, (listen names datagram d).2)
unfolding listen
listen-Counted names datagram d t p = elim (Bool-cases (length (take buffer_size datagram) == 0)) [
  | inl nothing ↦ rw nothing (unmoved_lem d t p)
  | inr something ↦ rw something (handle-Counted names _ _ d t p)
]

listener_loop-Counted :
    (datagrams : List (Option (List TopicDirEntry) × List ℕ)) (d : Discovery) (t : ℕ) (p : Address)
    → Counted d t p (listener_loop datagrams d)
unfolding listener_loop
listener_loop-Counted [] d t p = unmoved_lem d t p
listener_loop-Counted ((names, datagram) ∷ rest) d t p =
    let first = listen-Counted names datagram d t p in
    let d' = (listen names datagram d).0 in
    let more = listener_loop-Counted rest d' t p in
    record {
      called = omega (
        arith,
        count-append t p (listen names datagram d).2 (listener_loop rest d').1,
        first.called,
        more.called,
      );
      keeps = Keeps-trans d d' (listener_loop rest d').0 first.keeps more.keeps;
      wanted =
          join (known t p d.table) _ _ (contains t d.local_topics) (contains t d'.local_topics)
            first.wanted more.wanted
            (ap (λ (m : List (ℕ × Unit {0})). contains t m) first.keeps.local_topics);
    }
  where
    join :
        (k0 k1 k2 c c' : Bool)
        → k1 ≡ (k0 || (k1 && c))
        → k2 ≡ (k1 || (k2 && c'))
        → c' ≡ c
        → k2 ≡ (k0 || (k2 && c))
    join k0 k1 k2 c c' a b e = ground arith

insert_groups_table : (gs : List PortGroup) (d : Discovery) → (insert_groups gs d).table ≡ d.table
unfolding insert_groups
insert_groups_table [] d = refl
insert_groups_table (g ∷ gs) d = insert_groups_table gs _

none_known : (t : ℕ) (p : Address) → known t p [] ≡ false
unfolding known has_peer find peers_of
none_known t p = refl

-- From the start of a node and whatever datagrams come, the callbacks are as many as the table's entries: for a
-- topic and an address one if the address is entered for the topic, else none. An address is entered only
-- for one of the node's own topics.
pub listener_loop-once :
    (cfg : Config) (datagrams : List (Option (List TopicDirEntry) × List ℕ)) (t : ℕ) (p : Address)
    → (count t p (listener_loop datagrams (multicast_discovery cfg)).1
        ≡ one_if (known t p (listener_loop datagrams (multicast_discovery cfg)).0.table))
      × (known t p (listener_loop datagrams (multicast_discovery cfg)).0.table ≡ true
          → contains t (multicast_discovery cfg).local_topics ≡ true)
unfolding multicast_discovery
listener_loop-once cfg datagrams t p =
    let c = listener_loop-Counted datagrams (multicast_discovery cfg) t p in
    let new = empty_at_start in
    (omega (arith, c.called, ap one_if new), λ h. from_wanted _ _ _ new c.wanted h)
  where
    empty_at_start : known t p (multicast_discovery cfg).table ≡ false
    empty_at_start = ap (known t p) (insert_groups_table cfg.port_groups _) ∙ none_known t p

    from_wanted : (k0 k c : Bool) → k0 ≡ false → k ≡ (k0 || (k && c)) → k ≡ true → c ≡ true
    from_wanted k0 k c a b e = ground arith
