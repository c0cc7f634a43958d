-- ===== src/Client/Registered.antt =====
-- A node's registration as a whole: the request of rlcore_client.hpp, rlcore's answer and what the node makes of it.
use relink_com.Base.{
  ℕ, suc, ◌*◌, ◌≤◌, ◌<◌, ◌≡◌, refl, ap, ◌∙◌, inl, inr, sym, ◌⊎◌, ◌^◌, some_injective, Bool, true,
  false, not, ◌&&◌, Option, none, some, List, [], ◌∷◌, arith, ◌==◌, if◌then◌else◌, length, All,
  u16_mod, u32_mod, is_in, tabulate,
}
use relink_com.TopicIds.{IsId}
use relink_com.TopicDir.{TopicDirKind, topic_dir_packet_kind}
use relink_com.Roles.{RoleDirKind, role_packet_kind}
use relink_com.RelayWire.{decode_relay_register, peek_frame_topic_id}
use relink_com.Register.{
  RegisterAckPeer, DecodedRegisterRequest, DecodedRegisterAck, ok, decoded, encode_register_request,
  decode_register_request, register_ack_peer_at,
}
use relink_com.Register.Request.{decode_request-encode_request}
use relink_com.Register.Ack.{PeerFits}
use relink_com.Rlcore.{PeerEntry, RlCore}
use relink_com.Rlcore.Dispatch.{
  Cipher, Flags, Datagram, same_peer, peers_of, request_topics, ack_bytes, reply_to, plain_request,
  register_node, register_step, relay_step, other_step, role_step, topic_step,
}
use relink_com.Rlcore.Pruned.{has}
use relink_com.Rlcore.Acks.{lists, listed, self_of, all_peers-registered}
use relink_com.Rlcore.Replies.{ack_bytes-decodes}
use relink_com.Client.{
  Attempt, int_limit, buffer_size, opened, accepted_ack, peers_of_reply, attempt_result,
  wire_request, register_with_rlcore_on_socket,
}
use relink_com.Client.Answered.{IsLost}
use relink_com.Client.Answers.{attempts, register-answered}

-- What the two ends of a registration need of their ciphers: what one seals the other opens, for messages that leave
-- room for a nonce and a tag.
pub record Pairs (c d : Cipher) : Type 0 where
  pub to_server :
      (bytes : List ℕ)
      → length bytes ≤ 65479
      → (sealed : List ℕ) × (c.seal_blob bytes ≡ some sealed) × (d.open_blob sealed ≡ some bytes)
  pub to_client :
      (bytes : List ℕ)
      → length bytes ≤ 65479
      → (sealed : List ℕ) × (d.seal_blob bytes ≡ some sealed) × (c.open_blob sealed ≡ some bytes)

-- A node and a daemon that both have the key, or both none.
pub data Agree : Option Cipher → Option Cipher → Type 0 where
  plain : Agree none none
  encrypted : (c d : Cipher) → Pairs c d → Agree (some c) (some d)

-- A request that is sent is what the daemon reads.
request_arrives :
    (cc dc : Option Cipher) (bytes : List ℕ)
    → Agree cc dc
    → length bytes ≤ 65479
    → (wire : List ℕ) × (wire_request cc (ok bytes) ≡ some wire)
      × (plain_request dc wire ≡ some bytes)
unfolding wire_request plain_request
request_arrives _ _ bytes plain h = (bytes, refl, refl)
request_arrives _ _ bytes (encrypted c d pairs) h = pairs.to_server bytes h

-- A reply that is sent is what the node reads.
reply_arrives :
    (cc dc : Option Cipher) (src : PeerEntry) (peers : List RegisterAckPeer) (bytes : List ℕ)
    → Agree cc dc
    → length bytes ≤ 65479
    → ack_bytes peers ≡ ok bytes
    → (wire : List ℕ) × (reply_to dc src peers ≡ record { dest = src; bytes = wire } ∷ [])
      × (opened cc (some wire) ≡ some bytes)
unfolding reply_to opened
reply_arrives _ _ src peers bytes plain h e = (bytes, rw (reply_to, e) refl, refl)
reply_arrives _ _ src peers bytes (encrypted c d pairs) h e =
    let (wire, is_sealed, is_opened) = pairs.to_client bytes h in
    (wire, rw (reply_to, e, is_sealed) refl, is_opened)

-- A larger buffer changes nothing.
request_wider :
    (ip port n : ℕ) (topics bytes : List ℕ)
    → n ≤ 65507
    → encode_register_request ip port topics n ≡ ok bytes
    → encode_register_request ip port topics 65507 ≡ ok bytes
unfolding encode_register_request
request_wider ip port n topics bytes h e = ground arith

-- The ack of a list that fits, as the node reads it.
ack_fits :
    (peers : List RegisterAckPeer)
    → length peers ≤ 4092
    → All PeerFits peers
    → (bytes : List ℕ) × (ack_bytes peers ≡ ok bytes)
      × (length bytes ≤ 65479)
      × (peers_of_reply (some bytes) ≡ some peers)
unfolding peers_of_reply accepted_ack
ack_fits peers h fits =
    let (bytes, ack, enc, size, dec, status, list) = ack_bytes-decodes peers h fits in
    (
      bytes,
      enc,
      size,
      ap accepted_ack dec
          ∙ good_status ack (tabulate (register_ack_peer_at ack) ack.peer_count) status
          ∙ ap some list,
    )
  where
    good_status :
        (ack : DecodedRegisterAck) (ps : List RegisterAckPeer)
        → ack.status ≡ 0
        → (if ack.status == 0 then some ps else none) ≡ some ps
    good_status ack ps e = ground arith

-- The request of topics that fit.
request_fits :
    (ip port : ℕ) (topics : List ℕ)
    → ip < u32_mod
    → port < u16_mod
    → All IsId topics
    → length topics ≤ 16367
    → (bytes : List ℕ) × (req : DecodedRegisterRequest) × (encode_register_request ip port topics
          buffer_size
        ≡ ok bytes)
      × (length bytes ≤ 65479)
      × (decode_register_request bytes ≡ decoded req)
      × (req.node_ip ≡ ip)
      × (req.node_port ≡ port)
      × (request_topics req ≡ topics)
unfolding request_topics
request_fits ip port topics hi hp ids h =
    elim (decode_request-encode_request ip port topics 65479 hi hp ids) [
      | inl many ↦ absurd (omega (arith, many.1))
      | inr (inl small) ↦ absurd (omega (arith, small.1))
      | inr (inr (bytes, req, enc, size, dec, eip, eport, etopics)) ↦ (
        bytes,
        req,
        request_wider ip port 65479 topics bytes (omega arith) enc,
        size,
        dec,
        eip,
        eport,
        etopics,
      )
    ]

step_of_request :
    (flags : Flags) (now : ℕ) (src : PeerEntry) (wire bytes : List ℕ) (req : DecodedRegisterRequest)
    (st : RlCore)
    → plain_request flags.cipher wire ≡ some bytes
    → decode_register_request bytes ≡ decoded req
    → register_step flags now src wire st ≡ (
      (register_node flags now src req st).0,
      reply_to flags.cipher src (listed flags now src req st),
    )
unfolding register_step register_node
step_of_request flags now src wire bytes req st e d = rw (register_step, e, d) refl

attempt_of_reply :
    (cipher : Option Cipher) (a : Attempt) (reply ack : List ℕ) (peers : List RegisterAckPeer)
    → a ≡ record { sent = true; reply = some reply }
    → opened cipher (some reply) ≡ some ack
    → peers_of_reply (some ack) ≡ some peers
    → attempt_result cipher a ≡ some peers
attempt_of_reply cipher a reply ack peers e o r = ap (attempt_result cipher) e ∙ from_socket
  where
    from_socket : attempt_result cipher (record { sent = true; reply = some reply }) ≡ some peers
    from_socket = unfold attempt_result in ap peers_of_reply o ∙ r

-- The receive loop takes a datagram for a RegisterRequest: it is no packet of the two directories, and in relay mode
-- neither a REGISTER packet nor, by its first byte and its length, a data frame.
pub record IsRequest (flags : Flags) (bytes : List ℕ) : Type 0 where
  pub no_names : topic_dir_packet_kind bytes ≡ TopicDirKind.unknown
  pub no_roles : role_packet_kind bytes ≡ RoleDirKind.unknown
  pub no_relay :
      (flags.relay_mode ≡ false)
      ⊎ ((decode_relay_register bytes ≡ none) × (peek_frame_topic_id bytes ≡ none))

relay-other_step :
    (flags : Flags) (now : ℕ) (src : PeerEntry) (bytes : List ℕ) (st : RlCore)
    → (flags.relay_mode ≡ false)
      ⊎ ((decode_relay_register bytes ≡ none) × (peek_frame_topic_id bytes ≡ none))
    → other_step flags now src bytes st ≡ register_step flags now src bytes st
unfolding other_step relay_step
relay-other_step flags now src bytes st no_relay = ap after (is_none no_relay)
  where
    after : Option (RlCore × List Datagram) → RlCore × List Datagram
    after relayed = elim relayed [
      | none ↦ register_step flags now src bytes st
      | some result ↦ result
    ]

    either_way :
        (b : Bool) → ◌≡◌ {A = Option (RlCore × List Datagram)} (if b then none else none) none
    either_way true = refl
    either_way false = refl

    is_none :
        (flags.relay_mode ≡ false)
          ⊎ ((decode_relay_register bytes ≡ none) × (peek_frame_topic_id bytes ≡ none))
        → (if flags.relay_mode then relay_step now src bytes st else none) ≡ none
    is_none (inl off) = ap (λ (b : Bool). if b then relay_step now src bytes st else none) off
    is_none (inr (no_register, no_frame)) =
        ap (λ (o : Option (RlCore × List Datagram)). if flags.relay_mode then o else none)
          (rw (relay_step, no_register, no_frame) refl)
        ∙ either_way flags.relay_mode

pub topic-register_step :
    (flags : Flags) (now : ℕ) (src : PeerEntry) (bytes : List ℕ) (st : RlCore)
    → IsRequest flags bytes
    → topic_step flags now src bytes st ≡ register_step flags now src bytes st
unfolding topic_step role_step
topic-register_step flags now src bytes st h =
    rw (topic_step, h.no_names, role_step, h.no_roles)
      (relay-other_step flags now src bytes st h.no_relay)

-- The first datagram of an answer.
unfoldable pub first_reply : List Datagram → Option (List ℕ)
first_reply [] = none
first_reply (d ∷ ds) = some d.bytes

-- A node that registers with rlcore learns the peers that are registered there. The node and the daemon have matching
-- ciphers or none, the request and the ack leave room for nonce and tag, the daemon's numbers fit their fields, and
-- the receive loop takes the datagram for a request. All attempts before number `k` are lost, attempt `k` brings back
-- what the receive loop sends on the request, and the timeout can be doubled `k` times in an `int`. Then the loop
-- registers the node and answers with one datagram, the registration succeeds, its peers are those that rlcore lists,
-- and for each topic of the request and for no other they hold the peers that were registered for it before, but not
-- the node itself.
pub register-topic_step :
    (cipher : Option Cipher) (flags : Flags) (ip port : ℕ) (topics request : List ℕ)
    (max_retries timeout k now : ℕ) (src : PeerEntry) (st : RlCore) (network : ℕ → Attempt)
    → Agree cipher flags.cipher
    → ip < u32_mod
    → port < u16_mod
    → All IsId topics
    → length topics ≤ 16367
    → ((req : DecodedRegisterRequest)
        → req.node_ip ≡ ip
        → req.node_port ≡ port
        → request_topics req ≡ topics
        → (length (listed flags now src req st) ≤ 4092)
          × All PeerFits (listed flags now src req st))
    → wire_request cipher (encode_register_request ip port topics buffer_size) ≡ some request
    → IsRequest flags request
    → k < max_retries
    → timeout * 2 ^ k < int_limit
    → ((j : ℕ) → j < k → IsLost cipher (network j))
    → network k
      ≡ record { sent = true; reply = first_reply (topic_step flags now src request st).1 }
    → (req : DecodedRegisterRequest) × (reply : List ℕ) × (req.node_ip ≡ ip)
      × (req.node_port ≡ port)
      × (request_topics req ≡ topics)
      × (topic_step flags now src request st
          ≡ ((register_node flags now src req st).0, record { dest = src; bytes = reply } ∷ []))
      × (register_with_rlcore_on_socket cipher ip port topics max_retries timeout network
          ≡ some (
            record { ok = true; peers = listed flags now src req st },
            attempts request timeout (suc k),
          ))
      × ((t : ℕ) (p : PeerEntry)
          → lists t p (listed flags now src req st) ≡ (
              is_in t topics
              && (not (same_peer p (self_of flags src req)) && has p (peers_of t st.table))))
register-topic_step cipher flags ip port topics request max_retries timeout k now src st network
      agree hi hp ids few room goes_out is_request lt doubles lost answered =
    let (plain_bytes, req, enc, size, dec, eip, eport, etopics) =
      request_fits ip port topics hi hp ids few in
    let (wire, sent_out, comes_in) = request_arrives cipher flags.cipher plain_bytes agree size in
    let same : wire ≡ request =
      some_injective (sym sent_out ∙ sym (ap (wire_request cipher) enc) ∙ goes_out) in
    let fits = room req eip eport etopics in
    let (ack, ack_enc, ack_size, ack_dec) = ack_fits (listed flags now src req st) fits.0 fits.1 in
    let (reply, sent_back, reads) =
      reply_arrives cipher flags.cipher src (listed flags now src req st) ack agree ack_size
        ack_enc in
    let stepped : topic_step flags now src request st
        ≡ ((register_node flags now src req st).0, record { dest = src; bytes = reply } ∷ []) =
      topic-register_step flags now src request st is_request
      ∙ step_of_request flags now src request plain_bytes req st
          (ap (plain_request flags.cipher) (sym same) ∙ comes_in) dec
      ∙ ap (λ (sent : List Datagram). ((register_node flags now src req st).0, sent)) sent_back in
    (
      req,
      reply,
      eip,
      eport,
      etopics,
      stepped,
      register-answered cipher request network ip port topics max_retries timeout k
          (listed flags now src req st) goes_out lt doubles lost
          (attempt_of_reply cipher (network k) reply ack (listed flags now src req st)
            (answered ∙ brought stepped) reads ack_dec),
      (λ t p.
          all_peers-registered flags now src req st t p
          ∙ ap
              (λ (ts : List ℕ).
                is_in t ts
                && (not (same_peer p (self_of flags src req)) && has p (peers_of t st.table)))
              etopics),
    )
  where
    brought :
        {st' : RlCore} {reply : List ℕ}
        → topic_step flags now src request st ≡ (st', record { dest = src; bytes = reply } ∷ [])
        → ◌≡◌ {A = Attempt}
            (record { sent = true; reply = first_reply (topic_step flags now src request st).1 })
            (record { sent = true; reply = some reply })
    brought e =
        unfold first_reply in
        ap (λ (r : RlCore × List Datagram). record { sent = true; reply = first_reply r.1 }) e
