-- ===== src/Roles.antt =====
-- cpp/include/relink/topic_directory.hpp, second half: who publishes or subscribes a topic.
pub mod Laws
pub mod Packets
mod Tests
use relink_com.Base.{
  ℕ, ◌+◌, Bool, true, Option, none, some, List, [], ◌∷◌, ◌++◌, ltb, if◌then◌else◌, length, get_or,
  take, le16, le32, u16_at, u32_at, bytes_eq,
}
use relink_com.Packet.{Entry, magic_len, encode_entries, decode_entries, chunk_entries}

abbrev pub role_announce_magic : List ℕ
role_announce_magic = b'R' ∷ b'L' ∷ b'P' ∷ b'A' ∷ []

abbrev pub role_query_magic : List ℕ
role_query_magic = b'R' ∷ b'L' ∷ b'P' ∷ b'Q' ∷ []

abbrev pub role_reply_magic : List ℕ
role_reply_magic = b'R' ∷ b'L' ∷ b'P' ∷ b'R' ∷ []

abbrev pub role_publisher : ℕ
role_publisher = 1

abbrev pub role_subscriber : ℕ
role_subscriber = 2

abbrev pub role_max_entries : ℕ
role_max_entries = 2048

abbrev pub role_max_packet : ℕ
role_max_packet = 8192

pub data RoleDirKind : Type 0 where
  announce query reply unknown : RoleDirKind

unfoldable pub role_packet_kind : List ℕ → RoleDirKind
role_packet_kind buf =
    if ltb (length buf) magic_len
    then unknown
    else if bytes_eq (take magic_len buf) role_announce_magic
    then announce
    else if bytes_eq (take magic_len buf) role_query_magic
    then query
    else if bytes_eq (take magic_len buf) role_reply_magic
    then reply
    else unknown

unfoldable pub encode_role_query : ℕ → Option (List ℕ)
encode_role_query out_capacity = if ltb out_capacity magic_len then none else some role_query_magic

pub record RoleAnnounceEntry : Type 0 where
  pub topic_id : ℕ
  pub role : ℕ

pub record RolePeerEntry : Type 0 where
  pub topic_id : ℕ
  pub role : ℕ
  pub ip : ℕ
  pub port : ℕ

unfoldable pub announce_entry_bytes : RoleAnnounceEntry → List ℕ
announce_entry_bytes e = le32 e.topic_id ++ (e.role ∷ [])

-- One round of `decode_role_announce`.
unfoldable pub read_announce_entry : List ℕ → ℕ → Option (RoleAnnounceEntry × ℕ)
read_announce_entry buf off =
    if ltb (length buf) (off + 4 + 1)
    then none
    else some (record { topic_id = u32_at buf off; role = get_or buf (off + 4) 0 }, off + 5)

abbrev pub announce_entry : Entry RoleAnnounceEntry
announce_entry = record {
  max_entries = role_max_entries;
  max_packet = role_max_packet;
  admissible = λ e. true;
  entry_len = λ e. 4 + 1;
  entry_bytes = announce_entry_bytes;
  read = read_announce_entry;
}

unfoldable pub peer_entry_bytes : RolePeerEntry → List ℕ
peer_entry_bytes e = le32 e.topic_id ++ (e.role ∷ (le32 e.ip ++ le16 e.port))

-- One round of `decode_role_reply`.
unfoldable pub read_peer_entry : List ℕ → ℕ → Option (RolePeerEntry × ℕ)
read_peer_entry buf off =
    if ltb (length buf) (off + 11)
    then none
    else some (
      record {
        topic_id = u32_at buf off;
        role = get_or buf (off + 4) 0;
        ip = u32_at buf (off + 5);
        port = u16_at buf (off + 9);
      },
      off + 11,
    )

abbrev pub peer_entry : Entry RolePeerEntry
peer_entry = record {
  max_entries = role_max_entries;
  max_packet = role_max_packet;
  admissible = λ e. true;
  entry_len = λ e. 4 + 1 + 4 + 2;
  entry_bytes = peer_entry_bytes;
  read = read_peer_entry;
}

unfoldable pub chunk_role_announce_entries : List RoleAnnounceEntry → List (List RoleAnnounceEntry)
chunk_role_announce_entries = chunk_entries announce_entry

unfoldable pub encode_role_announce : List RoleAnnounceEntry → ℕ → Option (List ℕ)
encode_role_announce = encode_entries announce_entry role_announce_magic

unfoldable pub decode_role_announce : List ℕ → Option (List RoleAnnounceEntry)
decode_role_announce = decode_entries announce_entry

unfoldable pub chunk_role_peer_entries : List RolePeerEntry → List (List RolePeerEntry)
chunk_role_peer_entries = chunk_entries peer_entry

unfoldable pub encode_role_reply : List RolePeerEntry → ℕ → Option (List ℕ)
encode_role_reply = encode_entries peer_entry role_reply_magic

unfoldable pub decode_role_reply : List ℕ → Option (List RolePeerEntry)
decode_role_reply = decode_entries peer_entry
