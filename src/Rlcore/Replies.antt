-- ===== src/Rlcore/Replies.antt =====
-- The answer to a RegisterRequest, as the requester decodes it.
use relink_com.Base.{
  ℕ, ◌%◌, ◌≤◌, ◌≡◌, refl, ap, ◌∙◌, inl, inr, not, ◌&&◌, ◌||◌, Option, none, List, [], ◌∷◌, arith,
  length, take-length, All, u16_mod, is_in, tabulate,
}
use relink_com.Register.{
  RegisterAckPeer, DecodedRegisterRequest, DecodedRegisterAck, ok, decoded, encode_register_ack,
  decode_register_ack, register_ack_peer_at,
}
use relink_com.Register.Ack.{PeerFits, decode_ack-encode_ack}
use relink_com.Rlcore.{PeerEntry, RlCore}
use relink_com.Rlcore.Dispatch.{
  Cipher, Flags, same_peer, peers_of, request_topics, ack_bytes, reply_to, register_node,
}
use relink_com.Rlcore.Pruned.{has}
use relink_com.Rlcore.Acks.{lists, listed, self_of, register_node-has, all_peers-registered}

ack_wider :
    (peers : List RegisterAckPeer) (n : ℕ) (bytes : List ℕ)
    → n ≤ 65507
    → encode_register_ack 0 peers n ≡ ok bytes
    → encode_register_ack 0 peers 65507 ≡ ok bytes
unfolding encode_register_ack
ack_wider peers n bytes h e = ground arith

-- A list that leaves room for nonce and tag in the ack is what the ack decodes to.
pub ack_bytes-decodes :
    (peers : List RegisterAckPeer)
    → length peers ≤ 4092
    → All PeerFits peers
    → (bytes : List ℕ) × (ack : DecodedRegisterAck) × (ack_bytes peers ≡ ok bytes)
      × (length bytes ≤ 65479)
      × (decode_register_ack bytes ≡ decoded ack)
      × (ack.status ≡ 0)
      × (tabulate (register_ack_peer_at ack) ack.peer_count ≡ peers)
unfolding ack_bytes
ack_bytes-decodes peers h fits = elim (decode_ack-encode_ack 0 peers 65479 (omega arith) fits) [
  | inl small ↦ absurd (omega (arith, small.1))
  | inr (bytes, ack, enc, size, dec, status, list) ↦ (
    bytes,
    ack,
    rw (take-length (length peers % u16_mod) peers (omega arith))
        (ack_wider peers 65479 bytes (omega arith) enc),
    size,
    dec,
    status,
    list,
  )
]

answer :
    (flags : Flags) (now : ℕ) (src : PeerEntry) (req : DecodedRegisterRequest) (st : RlCore)
    → (register_node flags now src req st).1
      ≡ reply_to flags.cipher src (listed flags now src req st)
unfolding register_node
answer flags now src req st = refl

plain_reply :
    (src : PeerEntry) (peers : List RegisterAckPeer) (bytes : List ℕ)
    → ack_bytes peers ≡ ok bytes
    → reply_to none src peers ≡ record { dest = src; bytes = bytes } ∷ []
unfolding reply_to
plain_reply src peers bytes e = rw (reply_to, e) refl

-- A decoded RegisterRequest adds the requester, under its observed address in NAT mode and its own otherwise, to the
-- peers of each topic of the request, and changes nobody else's registration. Without a key what is sent is one
-- datagram to the requester, an ack of status 0 that decodes to a list which for each topic of the request and for no
-- other has the peers that were registered for it before, but never the requester itself. At most 4092 peers are
-- listed, and their numbers fit their fields.
pub register_node-replies :
    (flags : Flags) (now : ℕ) (src : PeerEntry) (req : DecodedRegisterRequest) (st : RlCore)
    → flags.cipher ≡ none
    → length (listed flags now src req st) ≤ 4092
    → All PeerFits (listed flags now src req st)
    → ((t : ℕ) (p : PeerEntry)
        → has p (peers_of t (register_node flags now src req st).0.table) ≡ (
            (is_in t (request_topics req) && same_peer (self_of flags src req) p)
            || has p (peers_of t st.table)))
      × (bytes : List ℕ) × (ack : DecodedRegisterAck) × ((register_node flags now src req st).1
          ≡ record { dest = src; bytes = bytes } ∷ [])
      × (decode_register_ack bytes ≡ decoded ack)
      × (ack.status ≡ 0)
      × ((t : ℕ) (p : PeerEntry)
          → lists t p (tabulate (register_ack_peer_at ack) ack.peer_count) ≡ (
              is_in t (request_topics req)
              && (not (same_peer p (self_of flags src req)) && has p (peers_of t st.table))))
register_node-replies flags now src req st no_key few fits =
    let (bytes, ack, enc, size, dec, status, list) =
      ack_bytes-decodes (listed flags now src req st) few fits in
    (
      register_node-has flags now src req st,
      bytes,
      ack,
      answer flags now src req st
          ∙ ap (λ (c : Option Cipher). reply_to c src (listed flags now src req st)) no_key
          ∙ plain_reply src (listed flags now src req st) bytes enc,
      dec,
      status,
      λ t p. ap (lists t p) list ∙ all_peers-registered flags now src req st t p,
    )
