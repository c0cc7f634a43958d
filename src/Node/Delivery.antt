-- ===== src/Node/Delivery.antt =====
-- What RelinkNode's publish_raw (relink.hpp) sends, and what becomes of its copies at a receiver.
use relink_com.Base.{
  ℕ, ◌≤◌, ◌<◌, ◌≡◌, refl, sym, ap, ap₂, ◌∙◌, inl, inr, Bool, true, false, not, ◌&&◌, ◌||◌,
  Bool-cases, none, some, List, [], ◌∷◌, ◌++◌, map, arith, ◌==◌, if◌then◌else◌, length, find,
  nat_key, u16_mod, u32_mod,
}
use relink_com.Frame.{max_payload_bytes}
use relink_com.Transport.{
  Transport, publish_seq, next_seq, recv_and_dispatch, is_recent_duplicate, window_of,
}
use relink_com.Transport.Window.{IsWindow}
use relink_com.Transport.Dispatch.{recv_and_dispatch_again, publish_raw-publish_seq}
use relink_com.Node.{PeerAddr, Node, relay_peer, declare_advertised, transport_for, transport_at}
use relink_com.Node.Publish.{
  Datagrams, send_frame, send_one, send_peers, send_relay, peers_for_topic, publish_raw,
}

-- Are all of them sent?
unfoldable pub all_sent : (PeerAddr → Bool) → List PeerAddr → Bool
all_sent sent_ok [] = true
all_sent sent_ok (p ∷ ps) = sent_ok p && all_sent sent_ok ps

-- The relay, if there is one.
unfoldable pub relays : {H : Type 0} → Node H → List PeerAddr
relays n = if n.relay_enabled then relay_peer n ∷ [] else []

module _ (sent_ok : PeerAddr → Bool) (topic : ℕ) (payload : List ℕ) (seq : ℕ) (d : List ℕ)
    (enc : publish_seq topic payload seq ≡ some d) where
  send_one_lem : (p : PeerAddr) → send_one sent_ok topic payload seq p ≡ (sent_ok p, (p, d) ∷ [])
  unfolding send_one send_frame
  send_one_lem p = ap (send_frame sent_ok p) enc

  send_peers_lem :
      (ps : List PeerAddr) (all_ok : Bool)
      → send_peers sent_ok topic payload seq all_ok ps
        ≡ (all_sent sent_ok ps && all_ok, map (λ p. (p, d)) ps)
  unfolding send_peers all_sent
  send_peers_lem [] all_ok = refl
  send_peers_lem (p ∷ ps) all_ok =
      rw (send_one_lem p, send_peers_lem ps (sent_ok p && all_ok))
        (ap (λ (b : Bool). (b, (p, d) ∷ map (λ p. (p, d)) ps))
          (swap (all_sent sent_ok ps) (sent_ok p) all_ok))
    where
      swap : (a s b : Bool) → (a && (s && b)) ≡ ((s && a) && b)
      swap a s b = ground arith

  send_relay_lem :
      {H : Type 0} (n : Node H)
      → send_relay sent_ok topic payload seq n
        ≡ (n.relay_enabled && sent_ok (relay_peer n), map (λ p. (p, d)) (relays n))
  unfolding send_relay relays relay_peer
  send_relay_lem n = elim (Bool-cases n.relay_enabled) [
    | inl on ↦ rw on (send_one_lem (relay_peer n))
    | inr off ↦ rw off refl
  ]

-- The transport that a publish takes.
abbrev pub sender : {H : Type 0} → ℕ → Node H → Transport H
sender topic n = let r = transport_for topic (declare_advertised topic n) in transport_at r.0 r.1

map-append : {A B : Type 0} (f : A → B) (xs ys : List A) → map f (xs ++ ys) ≡ map f xs ++ map f ys
map-append f [] ys = refl
map-append f (x ∷ xs) ys = ap (λ t. f x ∷ t) (map-append f xs ys)

module _ {H : Type 0} (sent_ok : PeerAddr → Bool) (topic : ℕ) (payload : List ℕ) (n : Node H)
    (d : List ℕ) (enc : publish_seq topic payload (sender topic n).seq_counter ≡ some d) where
  sends :
      (publish_raw sent_ok topic payload n).2
      ≡ map (λ p. (p, d)) (peers_for_topic topic n ++ relays n)
  unfolding publish_raw next_seq declare_advertised peers_for_topic relays relay_peer
  sends =
      ap₂ ◌++◌
        (ap (λ (r : Bool × Datagrams). r.1)
          (send_peers_lem sent_ok topic payload (sender topic n).seq_counter d enc
            (peers_for_topic topic n) true))
        (ap (λ (r : Bool × Datagrams). r.1)
          (send_relay_lem sent_ok topic payload (sender topic n).seq_counter d enc
            (declare_advertised topic n)))
      ∙ sym (map-append (λ p. (p, d)) (peers_for_topic topic n) (relays n))

  answers : (publish_raw sent_ok topic payload n).1 ≡ (
      (all_sent sent_ok (peers_for_topic topic n) && not (length (peers_for_topic topic n) == 0))
      || (n.relay_enabled && sent_ok (relay_peer n)))
  unfolding publish_raw next_seq declare_advertised peers_for_topic relay_peer
  answers =
      ap₂ (λ (a b : Bool). (a && not (length (peers_for_topic topic n) == 0)) || b)
        (ap (λ (r : Bool × Datagrams). r.0)
            (send_peers_lem sent_ok topic payload (sender topic n).seq_counter d enc
              (peers_for_topic topic n) true)
          ∙ with_true (all_sent sent_ok (peers_for_topic topic n)))
        (ap (λ (r : Bool × Datagrams). r.0)
          (send_relay_lem sent_ok topic payload (sender topic n).seq_counter d enc
            (declare_advertised topic n)))
    where
      with_true : (b : Bool) → (b && true) ≡ b
      with_true b = ground arith

-- publish_raw on a started node sends one frame, with one sequence number, to every known peer of the topic in order
-- and then to the relay if there is one. It returns true if there is a peer and all of those were sent, or if the
-- relay's copy was. A receiver that drops duplicates, has a handler for the topic and has not seen the number calls
-- the handler with the payload for the first copy and nothing for the second one, over whichever path they come.
-- The topic is below 2^32, the sender's counter below 2^16, and the payload has at most kMaxPayloadBytes.
pub publish_raw-copies :
    {H : Type 0} (sent_ok : PeerAddr → Bool) (topic : ℕ) (payload : List ℕ) (n : Node H)
    (r : Transport H) (cb : H)
    → topic < u32_mod
    → (sender topic n).seq_counter < u16_mod
    → length payload ≤ max_payload_bytes
    → find topic r.handlers ≡ some cb
    → r.dedup_enabled ≡ true
    → IsWindow (window_of topic r.recent_seqs)
    → (is_recent_duplicate topic (sender topic n).seq_counter r.recent_seqs).1 ≡ false
    → (frame : List ℕ) × ((publish_raw sent_ok topic payload n).2
        ≡ map (λ p. (p, frame)) (peers_for_topic topic n ++ relays n))
      × ((publish_raw sent_ok topic payload n).1 ≡ (
          (all_sent sent_ok (peers_for_topic topic n)
            && not (length (peers_for_topic topic n) == 0))
          || (n.relay_enabled && sent_ok (relay_peer n))))
      × ((recv_and_dispatch frame r).1 ≡ (true, some (cb, payload)))
      × ((recv_and_dispatch frame (recv_and_dispatch frame r).0).1 ≡ (true, none))
publish_raw-copies {H = H} sent_ok topic payload n r cb ht hs hp handler on w new =
    let (frame, enc, first, second) =
      recv_and_dispatch_again topic payload (sender topic n) r cb ht hs hp handler on w new in
    let made = sym (publish_raw-publish_seq topic payload (sender topic n)) ∙ enc in
    (
      frame,
      sends sent_ok topic payload n frame made,
      answers sent_ok topic payload n frame made,
      first,
      second,
    )
