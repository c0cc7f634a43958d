-- ===== src/Discovery/Table.antt =====
-- The peer table of multicast_discovery.hpp: who is in it after one topic of a beacon, and which callback is made.
use relink_com.Base.{
  ℕ, ◌+◌, ◌≡◌, refl, sym, ap, ◌∙◌, inl, inr, Bool, true, false, ◌&&◌, ◌||◌, Bool-cases, Option,
  none, some, List, [], ◌∷◌, ◌++◌, arith, ◌==◌, ==_iff, if◌then◌else◌, find, put, find-put, nat_key,
  pair_key,
}
use relink_com.Discovery.{
  Address, Peers, PeerInfo, Discovery, Callbacks, contains, peers_of, has_peer, learn_topic,
}

abbrev pub same_address : Address → Address → Bool
same_address a b = (a.0 == b.0) && (a.1 == b.1)

-- Is an address entered for a topic?
unfoldable pub known : ℕ → Address → List (ℕ × Peers) → Bool
known t p table = has_peer p (peers_of t table)

-- The number of callbacks for a topic and an address.
unfoldable pub count : ℕ → Address → Callbacks → ℕ
count t p [] = 0
count t p ((topic, peer) ∷ calls) =
    let rest = count t p calls in
    if (topic == t) && same_address (peer.ip, peer.port) p then rest + 1 else rest

pub count-append :
    (t : ℕ) (p : Address) (xs ys : Callbacks) → count t p (xs ++ ys) ≡ count t p xs + count t p ys
unfolding count
count-append t p [] ys = omega arith
count-append t p ((topic, peer) ∷ xs) ys = ground (arith, count-append t p xs ys)

abbrev pub one_if : Bool → ℕ
one_if b = if b then 1 else 0

peers_of-put :
    (x t : ℕ) (ps : Peers) (table : List (ℕ × Peers))
    → peers_of t (put x ps table) ≡ (if x == t then ps else peers_of t table)
unfolding peers_of
peers_of-put x t ps table =
    ap (λ (o : Option Peers). elim o as (λ y. Peers) [ none ↦ [] | some qs ↦ qs ])
      (find-put x t ps table)
    ∙ pick (x == t) (find t table)
  where
    pick :
        (b : Bool) (o : Option Peers)
        → (elim (if b then some ps else o) as (λ y. Peers) [ none ↦ [] | some qs ↦ qs ])
          ≡ (if b then ps else (elim o as (λ y. Peers) [ none ↦ [] | some qs ↦ qs ]))
    pick true o = refl
    pick false o = refl

has_peer-put :
    (a p : Address) (ps : Peers) → has_peer p (put a true ps) ≡ (same_address a p || has_peer p ps)
unfolding has_peer
has_peer-put a p ps =
    ap (λ (o : Option Bool). elim o as (λ y. Bool) [ none ↦ false | some b ↦ true ])
      (find-put a p true ps)
    ∙ pick (same_address a p) (find p ps)
  where
    pick :
        (b : Bool) (o : Option Bool)
        → (elim (if b then some true else o) as (λ y. Bool) [ none ↦ false | some b ↦ true ])
          ≡ (b || (elim o as (λ y. Bool) [ none ↦ false | some b ↦ true ]))
    pick true o = refl
    pick false o = refl

known_lem :
    (t : ℕ) (p : Address) (table : List (ℕ × Peers))
    → has_peer p (peers_of t table) ≡ known t p table
unfolding known
known_lem t p table = refl

-- The entries after a set has been stored under a topic.
known-put :
    (topic t : ℕ) (p : Address) (ps : Peers) (table : List (ℕ × Peers))
    → known t p (put topic ps table) ≡ (if topic == t then has_peer p ps else known t p table)
unfolding known
known-put topic t p ps table = ap (has_peer p) (peers_of-put topic t ps table) ∙ pick (topic == t)
  where
    pick :
        (b : Bool)
        → has_peer p (if b then ps else peers_of t table)
          ≡ (if b then has_peer p ps else has_peer p (peers_of t table))
    pick true = refl
    pick false = refl

same_address_sound : (a p : Address) → same_address a p ≡ true → a ≡ p
same_address_sound a p e = ground (arith, ==_iff a.0 p.0, ==_iff a.1 p.1)

-- What one step keeps: the configuration, the node's own topics and its own ports.
pub record Keeps (d d' : Discovery) : Type 0 where
  pub cfg : d'.cfg ≡ d.cfg
  pub local_topics : d'.local_topics ≡ d.local_topics
  pub self_ports : d'.self_ports ≡ d.self_ports

-- The table and the callbacks after one topic of a beacon.
pub record TopicLearned (peer : PeerInfo) (topic : ℕ) (d : Discovery) (t : ℕ) (p : Address)
    (r : Discovery × Callbacks) : Type 0 where
  pub entered : known t p r.0.table ≡ (
      ((topic == t) && (same_address (peer.ip, peer.port) p && contains t d.local_topics))
      || known t p d.table)
  pub called : count t p r.1 + one_if (known t p d.table) ≡ one_if (known t p r.0.table)
  pub keeps : Keeps d r.0

-- The three ways through one topic, as facts on truth values: `e` says that the topic is the one asked for, `s`
-- that the address is, `c` that the topic is the node's own, `h` that the address was known for the topic.
module _ {e s c c' h k k' : Bool} (own : e ≡ true → c' ≡ c) (same : e ≡ true → k' ≡ k)
    (there : e ≡ true → s ≡ true → h ≡ k) where
  not_own : c' ≡ false → k ≡ ((e && (s && c)) || k)
  not_own f = elim (Bool-cases e) [ inl x ↦ ground (arith, own x) | inr x ↦ ground arith ]

  known_before : c' ≡ true → h ≡ true → (if e then k' else k) ≡ ((e && (s && c)) || k)
  known_before f g = elim (Bool-cases e) [
    | inl x ↦ elim (Bool-cases s) [
      | inl y ↦ ground (arith, own x, same x, there x y)
      | inr y ↦ ground (arith, own x, same x)
    ]
    | inr x ↦ ground arith
  ]

  new_peer :
      c' ≡ true
      → h ≡ false
      → ((if e then (s || k') else k) ≡ ((e && (s && c)) || k))
        × ((if e && s then 0 + 1 else 0) + one_if k ≡ one_if (if e then (s || k') else k))
  new_peer f g = elim (Bool-cases e) [
    | inl x ↦ elim (Bool-cases s) [
      | inl y ↦ ground (arith, own x, same x, there x y)
      | inr y ↦ ground (arith, own x, same x)
    ]
    | inr x ↦ ground arith
  ]

pub learn_topic-TopicLearned :
    (peer : PeerInfo) (topic : ℕ) (d : Discovery) (t : ℕ) (p : Address)
    → TopicLearned peer topic d t p (learn_topic peer topic d)
unfolding learn_topic count
learn_topic-TopicLearned peer topic d t p = elim (Bool-cases (contains topic d.local_topics)) [
  | inr other ↦ rw other (record {
    entered = not_own own same there other;
    called = omega arith;
    keeps = record { cfg = refl; local_topics = refl; self_ports = refl };
  })
  | inl mine ↦ elim (Bool-cases (has_peer a (peers_of topic d.table))) [
    | inl old ↦
        let after =
          known-put topic t p (peers_of topic d.table) d.table
          ∙ known_before own same there mine old in
        let before =
          known-put topic t p (peers_of topic d.table) d.table ∙ unchanged (topic == t) same in
        rw (mine, old)
          (record {
            entered = after;
            called = omega (arith, ap one_if (sym before));
            keeps = record { cfg = refl; local_topics = refl; self_ports = refl };
          })
    | inr new ↦
        let facts = new_peer own same there mine new in
        let stored =
          known-put topic t p (put a true (peers_of topic d.table)) d.table
          ∙ ap (λ (b : Bool). if topic == t then b else known t p d.table)
              (has_peer-put a p (peers_of topic d.table)) in
        rw (mine, new)
          (record {
            entered = stored ∙ facts.0;
            called = facts.1 ∙ ap one_if (sym stored);
            keeps = record { cfg = refl; local_topics = refl; self_ports = refl };
          })
  ]
]
  where
    a : Address
    a = (peer.ip, peer.port)

    topic_eq : topic == t ≡ true → topic ≡ t
    topic_eq e = (==_iff topic t).0 e

    own : topic == t ≡ true → contains topic d.local_topics ≡ contains t d.local_topics
    own e = ap (λ (x : ℕ). contains x d.local_topics) (topic_eq e)

    same : topic == t ≡ true → has_peer p (peers_of topic d.table) ≡ known t p d.table
    same e = ap (λ (x : ℕ). has_peer p (peers_of x d.table)) (topic_eq e) ∙ known_lem t p d.table

    there :
        topic == t ≡ true
        → same_address a p ≡ true
        → has_peer a (peers_of topic d.table) ≡ known t p d.table
    there e f =
        ap (λ (x : Address). has_peer x (peers_of topic d.table)) (same_address_sound a p f)
        ∙ same e

    unchanged : {k' k : Bool} (e : Bool) → (e ≡ true → k' ≡ k) → (if e then k' else k) ≡ k
    unchanged true h = h refl
    unchanged false h = refl
