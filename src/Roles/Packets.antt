-- ===== src/Roles/Packets.antt =====
-- The role directory's packets: splitting, round trip, and what is accepted.
use relink_com.Base.{ℕ, ◌≤◌, ◌≡◌, refl, some, List, arith, length, take, All, IsByte}
use relink_com.Packet.{magic_len}
use relink_com.Packet.Wire.{encode_entries-decode_entries}
use relink_com.Packet.Chunks.{concat, chunk_entries-Travels}
use relink_com.Roles.{
  RoleAnnounceEntry, RolePeerEntry, role_announce_magic, role_reply_magic, role_max_packet,
  announce_entry, peer_entry, chunk_role_announce_entries, encode_role_announce,
  decode_role_announce, chunk_role_peer_entries, encode_role_reply, decode_role_reply,
}
use relink_com.Roles.Laws.{AnnounceFits, PeerFits, announce_entry-Laws, peer_entry-Laws}

-- A chunk can be written to a buffer of `capacity` bytes, as one packet that decodes to it.
abbrev pub DeliversAnnounce : ℕ → List RoleAnnounceEntry → Type 0
DeliversAnnounce capacity c =
    (bytes : List ℕ) × (encode_role_announce c capacity ≡ some bytes)
    × (length bytes ≤ role_max_packet)
    × (decode_role_announce bytes ≡ some c)

abbrev pub DeliversReply : ℕ → List RolePeerEntry → Type 0
DeliversReply capacity c =
    (bytes : List ℕ) × (encode_role_reply c capacity ≡ some bytes)
    × (length bytes ≤ role_max_packet)
    × (decode_role_reply bytes ≡ some c)

-- `chunk_role_announce_entries` splits any list of entries into packets that arrive: each chunk encodes
-- into any buffer of 8192 bytes or more, takes at most 8192 bytes, and decodes to the chunk; and the
-- chunks in order are the whole list.
pub chunk_role_announce-delivers :
    (es : List RoleAnnounceEntry) (capacity : ℕ)
    → All AnnounceFits es
    → role_max_packet ≤ capacity
    → All (DeliversAnnounce capacity) (chunk_role_announce_entries es)
      × (concat (chunk_role_announce_entries es) ≡ es)
unfolding chunk_role_announce_entries encode_role_announce decode_role_announce
chunk_role_announce-delivers es capacity v room =
    chunk_entries-Travels announce_entry AnnounceFits announce_entry-Laws role_announce_magic
      capacity es refl (omega arith) room v

-- `chunk_role_peer_entries` splits any list of entries into replies that arrive: each chunk encodes into
-- any buffer of 8192 bytes or more, takes at most 8192 bytes, and decodes to the chunk; and the chunks in
-- order are the whole list.
pub chunk_role_peer-delivers :
    (es : List RolePeerEntry) (capacity : ℕ)
    → All PeerFits es
    → role_max_packet ≤ capacity
    → All (DeliversReply capacity) (chunk_role_peer_entries es)
      × (concat (chunk_role_peer_entries es) ≡ es)
unfolding chunk_role_peer_entries encode_role_reply decode_role_reply
chunk_role_peer-delivers es capacity v room =
    chunk_entries-Travels peer_entry PeerFits peer_entry-Laws role_reply_magic capacity es refl
      (omega arith) room v

-- A packet of bytes that `decode_role_reply` accepts, and that starts with the reply's magic, is what
-- `encode_role_reply` writes for the decoded entries.
pub encode_role_reply-decode_role_reply :
    (buf : List ℕ) (es : List RolePeerEntry)
    → All IsByte buf
    → take magic_len buf ≡ role_reply_magic
    → decode_role_reply buf ≡ some es
    → encode_role_reply es (length buf) ≡ some buf
unfolding decode_role_reply encode_role_reply
encode_role_reply-decode_role_reply buf es b m h =
    rw m at (encode_entries-decode_entries peer_entry PeerFits peer_entry-Laws buf es b h)
