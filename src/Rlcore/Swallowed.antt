-- ===== src/Rlcore/Swallowed.antt =====
-- Requests that relink_rlcore.cpp takes for data frames. Under --relay, and so under --nat, a datagram whose first
-- byte is that of a frame is forwarded, and a RegisterRequest begins with the last byte of the node's own address.
use relink_com.Base.{
  ℕ, ◌%◌, ◌/◌, sym, subst, ◌≤◌, ◌≡◌, refl, ap, ◌∙◌, arith, Bool, true, false, Option, none, some,
  List, [], ◌∷◌, ◌++◌, if◌then◌else◌, Bool-cases, inl, inr, length, All, bytes_eq, le32, le16,
  u32_at, nat_key,
}
use relink_com.TopicDir.{TopicDirKind, topic_dir_packet_kind}
use relink_com.Roles.{RoleDirKind, role_packet_kind}
use relink_com.RelayWire.{decode_relay_register, peek_frame_topic_id}
use relink_com.TopicIds.{write_ids}
use relink_com.Register.{ok, encode_register_request}
use relink_com.Rlcore.{PeerEntry, RlCore}
use relink_com.Rlcore.Dispatch.{
  Flags, Datagram, same_peer, forward_to, members_of, relay_step, other_step, role_step, topic_step,
  register_step,
}

-- What is forwarded are copies, and none goes back to the sender.
forward_to-others :
    (src : PeerEntry) (bytes : List ℕ) (members : List (PeerEntry × ℕ))
    → All
        (λ (d : Datagram). (d.bytes ≡ bytes) × (same_peer d.dest src ≡ false))
        (forward_to src bytes members)
unfolding forward_to
forward_to-others src bytes [] = tt
forward_to-others src bytes ((member, seen) ∷ members) = elim (Bool-cases (same_peer member src)) [
  | inl own ↦ rw own (forward_to-others src bytes members)
  | inr other ↦ rw other ((refl, other), forward_to-others src bytes members)
]

frame_no_names : (bytes : List ℕ) → topic_dir_packet_kind (0x23 ∷ bytes) ≡ TopicDirKind.unknown
unfolding topic_dir_packet_kind bytes_eq
frame_no_names bytes = ground arith

frame_no_roles : (bytes : List ℕ) → role_packet_kind (0x23 ∷ bytes) ≡ RoleDirKind.unknown
unfolding role_packet_kind bytes_eq
frame_no_roles bytes = ground arith

frame_relayed :
    (now : ℕ) (src : PeerEntry) (bytes : List ℕ) (st : RlCore)
    → 9 ≤ length bytes
    → relay_step now src (0x23 ∷ bytes) st
      ≡ some
          (st, forward_to src (0x23 ∷ bytes) (members_of (u32_at (0x23 ∷ bytes) 1) st.relay_groups))
unfolding relay_step
frame_relayed now src bytes st long = rw (relay_step, no_register, is_frame) refl
  where
    no_register : decode_relay_register (0x23 ∷ bytes) ≡ none
    no_register = unfold decode_relay_register in ground arith

    is_frame : peek_frame_topic_id (0x23 ∷ bytes) ≡ some (u32_at (0x23 ∷ bytes) 1)
    is_frame = unfold peek_frame_topic_id in ground arith

frame-other_step :
    (flags : Flags) (now : ℕ) (src : PeerEntry) (bytes : List ℕ) (st : RlCore)
    → flags.relay_mode ≡ true
    → 9 ≤ length bytes
    → other_step flags now src (0x23 ∷ bytes) st
      ≡ (st, forward_to src (0x23 ∷ bytes) (members_of (u32_at (0x23 ∷ bytes) 1) st.relay_groups))
unfolding other_step
frame-other_step flags now src bytes st on long = ap after (
    ap (λ (b : Bool). if b then relay_step now src (0x23 ∷ bytes) st else none) on
    ∙ frame_relayed now src bytes st long)
  where
    after : Option (RlCore × List Datagram) → RlCore × List Datagram
    after relayed = elim relayed [
      | none ↦ register_step flags now src (0x23 ∷ bytes) st
      | some result ↦ result
    ]

-- Any datagram of at least ten bytes that begins like a frame.
frame-topic_step :
    (flags : Flags) (now : ℕ) (src : PeerEntry) (bytes : List ℕ) (st : RlCore)
    → flags.relay_mode ≡ true
    → 9 ≤ length bytes
    → topic_step flags now src (0x23 ∷ bytes) st
      ≡ (st, forward_to src (0x23 ∷ bytes) (members_of (u32_at (0x23 ∷ bytes) 1) st.relay_groups))
unfolding topic_step role_step
frame-topic_step flags now src bytes st on long =
    rw (topic_step, frame_no_names bytes, role_step, frame_no_roles bytes)
      (frame-other_step flags now src bytes st on long)

-- A request of some topics is 0x23 and at least nine more bytes if the address ends in 35.
request_like_frame :
    (ip port capacity topic : ℕ) (topics request : List ℕ)
    → encode_register_request ip port (topic ∷ topics) capacity ≡ ok request
    → ip % 256 ≡ 0x23
    → (bytes : List ℕ) × (request ≡ 0x23 ∷ bytes) × (9 ≤ length bytes)
unfolding encode_register_request le32 le16 write_ids
request_like_frame ip port capacity topic topics request e ends = (
  ip / 256 % 256
      ∷ ip / 65536 % 256
      ∷ ip / 16777216 % 256
      ∷ (le16 port ++ (le16 (length (topic ∷ topics)) ++ write_ids (topic ∷ topics))),
  ground arith,
  omega arith,
)

-- In relay mode, and so in NAT mode, a RegisterRequest for some topics from a node whose IP address ends in .35,
-- the start byte of a frame, registers nobody and is not answered where it is sent in the clear: the receive loop
-- changes nothing, and sends only copies of the request, none of them to the node.
pub topic_step-swallows :
    (flags : Flags) (now : ℕ) (src : PeerEntry) (ip port capacity topic : ℕ)
    (topics request : List ℕ) (st : RlCore)
    → flags.relay_mode ≡ true
    → encode_register_request ip port (topic ∷ topics) capacity ≡ ok request
    → ip % 256 ≡ 0x23
    → ((topic_step flags now src request st).0 ≡ st)
      × All
          (λ (d : Datagram). (d.bytes ≡ request) × (same_peer d.dest src ≡ false))
          (topic_step flags now src request st).1
topic_step-swallows flags now src ip port capacity topic topics request st on e ends =
    let (bytes, begins, long) = request_like_frame ip port capacity topic topics request e ends in
    subst
      (λ (b : List ℕ).
        ((topic_step flags now src b st).0 ≡ st)
        × All (λ (d : Datagram). (d.bytes ≡ b) × (same_peer d.dest src ≡ false))
            (topic_step flags now src b st).1)
      (sym begins)
      (rw (frame-topic_step flags now src bytes st on long) (
        refl,
        forward_to-others src (0x23 ∷ bytes) (members_of (u32_at (0x23 ∷ bytes) 1) st.relay_groups),
      ))
