-- ===== src/Node/Merged.antt =====
-- The peer lists of RelinkNode (relink.hpp) after an ack has been merged by start_rlcore_reregister_thread.
use relink_com.Base.{
  ◌%◌, ℕ, ◌+◌, ◌≡◌, refl, sym, ap, ◌∙◌, inl, inr, Bool, true, false, not, ◌&&◌, ◌||◌, Bool-cases,
  Option, none, some, List, [], ◌∷◌, ◌++◌, arith, ◌==◌, ==_iff, if◌then◌else◌, find, put, find-put,
  nat_key, is_in, length,
}
use relink_com.Register.{RegisterAckPeer}
use relink_com.Node.{PeerAddr, Node}
use relink_com.Node.Publish.{peers_for_topic}
use relink_com.Node.Peers.{
  same_addr, has_lan, in_list, push_peer, add_if_new, merge_peer, merge_peers, pending, to_register,
}

-- How often an address is in a list.
unfoldable pub occurrences : PeerAddr → List PeerAddr → ℕ
occurrences a [] = 0
occurrences a (x ∷ xs) = let rest = occurrences a xs in if same_addr x a then rest + 1 else rest

-- Does an ack offer an address for a topic, as a peer's own address or as its LAN candidate?
unfoldable pub offered : ℕ → PeerAddr → List RegisterAckPeer → Bool
offered t a [] = false
offered t a (p ∷ ps) =
    ((p.topic_id == t)
      && (same_addr (p.ip, p.port) a || (has_lan p && same_addr (p.lan_ip, p.lan_port) a)))
    || offered t a ps

-- What an offer makes of the number of occurrences.
abbrev pub once : ℕ → Bool → ℕ
once c offer = if (c == 0) && offer then 1 else c

once_twice : (c : ℕ) (a b : Bool) → once (once c a) b ≡ once c (a || b)
once_twice c a b = ground arith

same_addr_sound : (a b : PeerAddr) → same_addr a b ≡ true → a ≡ b
unfolding same_addr
same_addr_sound a b h = ground (arith, ==_iff a.0 b.0, ==_iff a.1 b.1)

in_list-occurrences :
    (a : PeerAddr) (xs : List PeerAddr) → in_list a xs ≡ not (occurrences a xs == 0)
unfolding in_list occurrences
in_list-occurrences a [] = refl
in_list-occurrences a (x ∷ xs) =
    step (same_addr x a) (in_list a xs) (occurrences a xs) (in_list-occurrences a xs)
  where
    step : (s i : Bool) (c : ℕ) → i ≡ not (c == 0) → (s || i) ≡ not ((if s then c + 1 else c) == 0)
    step s i c h = ground arith

occurrences-push :
    (a x : PeerAddr) (xs : List PeerAddr)
    → occurrences a (xs ++ (x ∷ []))
      ≡ (if same_addr x a then occurrences a xs + 1 else occurrences a xs)
unfolding occurrences
occurrences-push a x [] = refl
occurrences-push a x (y ∷ xs) =
    step (same_addr y a) (same_addr x a) (occurrences a xs) _ (occurrences-push a x xs)
  where
    step :
        (s u : Bool) (c r : ℕ)
        → r ≡ (if u then c + 1 else c)
        → (if s then r + 1 else r)
          ≡ (if u then (if s then c + 1 else c) + 1 else (if s then c + 1 else c))
    step s u c r h = ground arith

module _ {H : Type 0} where
  peers_for_topic-put :
      (topic t : ℕ) (xs : List PeerAddr) (n : Node H)
      → peers_for_topic t (record n { peers = put topic xs n.peers })
        ≡ (if topic == t then xs else peers_for_topic t n)
  unfolding peers_for_topic
  peers_for_topic-put topic t xs n =
      ap
        (λ (o : Option (List PeerAddr)). elim o as (λ y. List PeerAddr) [
          | none ↦ []
          | some ps ↦ ps
        ])
        (find-put topic t xs n.peers)
      ∙ pick (topic == t) (find t n.peers)
    where
      pick :
          (b : Bool) (o : Option (List PeerAddr))
          → (elim (if b then some xs else o) as (λ y. List PeerAddr) [ none ↦ [] | some ps ↦ ps ])
            ≡ (if b then xs else (elim o as (λ y. List PeerAddr) [ none ↦ [] | some ps ↦ ps ]))
      pick true o = refl
      pick false o = refl

  -- The occurrences after a list has been stored for a topic.
  stored :
      (a : PeerAddr) (topic t : ℕ) (xs : List PeerAddr) (n : Node H)
      → occurrences a (peers_for_topic t (record n { peers = put topic xs n.peers }))
        ≡ (if topic == t then occurrences a xs else occurrences a (peers_for_topic t n))
  stored a topic t xs n = ap (occurrences a) (peers_for_topic-put topic t xs n) ∙ pick (topic == t)
    where
      pick :
          (b : Bool)
          → occurrences a (if b then xs else peers_for_topic t n)
            ≡ (if b then occurrences a xs else occurrences a (peers_for_topic t n))
      pick true = refl
      pick false = refl

  add_if_new-once :
      (a x : PeerAddr) (topic t : ℕ) (n : Node H)
      → occurrences a (peers_for_topic t (add_if_new topic x n).0)
        ≡ once (occurrences a (peers_for_topic t n)) ((topic == t) && same_addr x a)
  unfolding add_if_new push_peer
  add_if_new-once a x topic t n = elim (Bool-cases (in_list x (peers_for_topic topic n))) [
    | inl old ↦ rw old (
        stored a topic t (peers_for_topic topic n) n
        ∙ kept (topic == t) (same_addr x a) _ _ _ topic_eq addr_eq
            (sym (in_list-occurrences x (peers_for_topic topic n)) ∙ old))
    | inr new ↦ rw new (
        stored a topic t (peers_for_topic topic n ++ (x ∷ [])) n
        ∙ ap (λ (c : ℕ). if topic == t then c else occurrences a (peers_for_topic t n))
            (occurrences-push a x (peers_for_topic topic n))
        ∙ pushed (topic == t) (same_addr x a) _ _ _ topic_eq addr_eq
            (sym (in_list-occurrences x (peers_for_topic topic n)) ∙ new))
  ]
    where
      topic_eq :
          (topic == t) ≡ true
          → occurrences a (peers_for_topic topic n) ≡ occurrences a (peers_for_topic t n)
      topic_eq e = ap (λ (k : ℕ). occurrences a (peers_for_topic k n)) ((==_iff topic t).0 e)

      addr_eq :
          same_addr x a ≡ true
          → occurrences x (peers_for_topic topic n) ≡ occurrences a (peers_for_topic topic n)
      addr_eq e =
          ap (λ (k : PeerAddr). occurrences k (peers_for_topic topic n)) (same_addr_sound x a e)

      kept :
          (e s : Bool) (cx ca ct : ℕ)
          → (e ≡ true → ca ≡ ct)
          → (s ≡ true → cx ≡ ca)
          → not (cx == 0) ≡ true
          → (if e then ca else ct) ≡ once ct (e && s)
      kept true true cx ca ct p q h = ground (arith, p refl, q refl)
      kept true false cx ca ct p q h = ground (arith, p refl)
      kept false s cx ca ct p q h = ground arith

      pushed :
          (e s : Bool) (cx ca ct : ℕ)
          → (e ≡ true → ca ≡ ct)
          → (s ≡ true → cx ≡ ca)
          → not (cx == 0) ≡ false
          → (if e then (if s then ca + 1 else ca) else ct) ≡ once ct (e && s)
      pushed true true cx ca ct p q h = ground (arith, p refl, q refl)
      pushed true false cx ca ct p q h = ground (arith, p refl)
      pushed false s cx ca ct p q h = ground arith

  merge_peer-once :
      (a : PeerAddr) (t : ℕ) (p : RegisterAckPeer) (n : Node H)
      → occurrences a (peers_for_topic t (merge_peer p n).0)
        ≡ once (occurrences a (peers_for_topic t n)) (
            (p.topic_id == t)
            && (same_addr (p.ip, p.port) a || (has_lan p && same_addr (p.lan_ip, p.lan_port) a)))
  unfolding merge_peer
  merge_peer-once a t p n = elim (Bool-cases (has_lan p)) [
    | inl lan ↦ rw lan (
        add_if_new-once a (p.lan_ip, p.lan_port) p.topic_id t
          (add_if_new p.topic_id (p.ip, p.port) n).0
        ∙ ap (λ (c : ℕ). once c ((p.topic_id == t) && same_addr (p.lan_ip, p.lan_port) a)) first
        ∙ once_twice (occurrences a (peers_for_topic t n))
            ((p.topic_id == t) && same_addr (p.ip, p.port) a)
            ((p.topic_id == t) && same_addr (p.lan_ip, p.lan_port) a)
        ∙ ap (once (occurrences a (peers_for_topic t n))) (both (p.topic_id == t) _ _))
    | inr alone ↦ rw alone (
        first
        ∙ ap (once (occurrences a (peers_for_topic t n))) (
            one (p.topic_id == t) (same_addr (p.ip, p.port) a)
              (same_addr (p.lan_ip, p.lan_port) a)))
  ]
    where
      first :
          occurrences a (peers_for_topic t (add_if_new p.topic_id (p.ip, p.port) n).0)
          ≡ once
              (occurrences a (peers_for_topic t n))
              ((p.topic_id == t) && same_addr (p.ip, p.port) a)
      first = add_if_new-once a (p.ip, p.port) p.topic_id t n

      both : (e x y : Bool) → ((e && x) || (e && y)) ≡ (e && (x || (true && y)))
      both e x y = ground arith

      one : (e x y : Bool) → (e && x) ≡ (e && (x || (false && y)))
      one e x y = ground arith

  -- Merging an ack enters each address that it offers for a topic, as a peer's own address or as a LAN candidate other
  -- than 0 and the address itself, exactly once, unless the topic's list has it already. All other entries stay as
  -- often as they were, so no list gets a duplicate.
  pub merge_peers-once :
      (a : PeerAddr) (t : ℕ) (ps : List RegisterAckPeer) (n : Node H)
      → occurrences a (peers_for_topic t (merge_peers ps n).0)
        ≡ once (occurrences a (peers_for_topic t n)) (offered t a ps)
  unfolding merge_peers offered
  merge_peers-once a t [] n = none_offered (occurrences a (peers_for_topic t n))
    where
      none_offered : (c : ℕ) → c ≡ once c false
      none_offered c = ground arith
  merge_peers-once a t (p ∷ ps) n =
      merge_peers-once a t ps (merge_peer p n).0
      ∙ ap (λ (c : ℕ). once c (offered t a ps)) (merge_peer-once a t p n)
      ∙ once_twice (occurrences a (peers_for_topic t n)) _ (offered t a ps)

  pending-is_in :
      (ts : List ℕ) (t : ℕ) (n : Node H)
      → is_in t (pending ts n) ≡ (is_in t ts && (length (peers_for_topic t n) == 0))
  unfolding pending is_in
  pending-is_in [] t n = refl
  pending-is_in (x ∷ xs) t n = elim (Bool-cases (length (peers_for_topic x n) == 0)) [
    | inl empty ↦ rw empty (
        ap (λ (b : Bool). (x == t) || b) (pending-is_in xs t n)
        ∙ here (x == t) (is_in t xs) _ (λ e. sym (same e) ∙ empty))
    | inr full ↦
        rw full (pending-is_in xs t n ∙ other (x == t) (is_in t xs) _ (λ e. sym (same e) ∙ full))
  ]
    where
      same :
          (x == t) ≡ true
          → (length (peers_for_topic x n) == 0) ≡ (length (peers_for_topic t n) == 0)
      same e = ap (λ (k : ℕ). length (peers_for_topic k n) == 0) ((==_iff x t).0 e)

      here : (e i l : Bool) → (e ≡ true → l ≡ true) → (e || (i && l)) ≡ ((e || i) && l)
      here true i l h = rw (h refl) refl
      here false i l h = refl

      other : (e i l : Bool) → (e ≡ true → l ≡ false) → (i && l) ≡ ((e || i) && l)
      other true i l h = rw (h refl) (ground arith)
      other false i l h = refl

  -- The request of a tick of the re-registration thread names a topic of the group exactly if the topic has no peer yet
  -- or the tick is a multiple of ten.
  pub to_register-is_in :
      (tick : ℕ) (topics : List ℕ) (t : ℕ) (n : Node H)
      → is_in t (to_register tick topics n)
        ≡ (is_in t topics && ((tick % 10 == 0) || (length (peers_for_topic t n) == 0)))
  unfolding to_register
  to_register-is_in tick topics t n = elim (Bool-cases (tick % 10 == 0)) [
    | inl full ↦ rw full (all_of (is_in t topics))
    | inr part ↦ rw part (pending-is_in topics t n)
  ]
    where
      all_of : (b : Bool) → b ≡ (b && true)
      all_of b = ground arith
