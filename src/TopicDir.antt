-- ===== src/TopicDir.antt =====
-- cpp/include/relink/topic_directory.hpp, first half: the packets of the topic name directory.
-- A name, a `std::string`, is the list of its bytes.
pub mod Laws
mod Tests
use relink_com.Base.{
  ℕ, ◌+◌, ◌%◌, Bool, not, Option, none, some, List, [], ◌∷◌, ◌++◌, ltb, if◌then◌else◌, length,
  get_or, take, drop, le32, u32_at, bytes_eq,
}
use relink_com.Packet.{Entry, magic_len, encode_entries, decode_entries, chunk_entries}

abbrev pub announce_magic : List ℕ
announce_magic = b'R' ∷ b'L' ∷ b'N' ∷ b'M' ∷ []

abbrev pub query_magic : List ℕ
query_magic = b'R' ∷ b'L' ∷ b'N' ∷ b'Q' ∷ []

abbrev pub reply_magic : List ℕ
reply_magic = b'R' ∷ b'L' ∷ b'N' ∷ b'R' ∷ []

abbrev pub topic_dir_max_entries : ℕ
topic_dir_max_entries = 512

abbrev pub topic_dir_max_name_len : ℕ
topic_dir_max_name_len = 255

abbrev pub topic_dir_max_packet : ℕ
topic_dir_max_packet = 8192

pub record TopicDirEntry : Type 0 where
  pub topic_id : ℕ
  pub name : List ℕ

pub data TopicDirKind : Type 0 where
  announce query reply unknown : TopicDirKind

unfoldable pub topic_dir_packet_kind : List ℕ → TopicDirKind
topic_dir_packet_kind buf =
    if ltb (length buf) magic_len
    then unknown
    else if bytes_eq (take magic_len buf) announce_magic
    then announce
    else if bytes_eq (take magic_len buf) query_magic
    then query
    else if bytes_eq (take magic_len buf) reply_magic
    then reply
    else unknown

unfoldable pub encode_topic_dir_query : ℕ → Option (List ℕ)
encode_topic_dir_query out_capacity = if ltb out_capacity magic_len then none else some query_magic

-- One entry of `encode_topic_dir_entries`: the id, `name_len` in one byte, and the name.
unfoldable pub topic_entry_bytes : TopicDirEntry → List ℕ
topic_entry_bytes e =
    let name_len = length e.name % 256 in le32 e.topic_id ++ (name_len ∷ take name_len e.name)

-- One round of `decode_topic_dir_entries`.
unfoldable pub read_topic_entry : List ℕ → ℕ → Option (TopicDirEntry × ℕ)
read_topic_entry buf off =
    let name_len = get_or buf (off + 4) 0 in
    if ltb (length buf) (off + 4 + 1)
    then none
    else if ltb (length buf) (off + 5 + name_len)
    then none
    else some (
      record { topic_id = u32_at buf off; name = take name_len (drop (off + 5) buf) },
      off + 5 + name_len,
    )

unfoldable pub name_fits : TopicDirEntry → Bool
name_fits e = not (ltb topic_dir_max_name_len (length e.name))

abbrev pub topic_entry : Entry TopicDirEntry
topic_entry = record {
  max_entries = topic_dir_max_entries;
  max_packet = topic_dir_max_packet;
  admissible = name_fits;
  entry_len = λ e. 4 + 1 + length e.name;
  entry_bytes = topic_entry_bytes;
  read = read_topic_entry;
}

unfoldable pub encode_topic_dir_entries : List ℕ → List TopicDirEntry → ℕ → Option (List ℕ)
encode_topic_dir_entries = encode_entries topic_entry

unfoldable pub encode_topic_dir_announce : List TopicDirEntry → ℕ → Option (List ℕ)
encode_topic_dir_announce = encode_topic_dir_entries announce_magic

unfoldable pub encode_topic_dir_reply : List TopicDirEntry → ℕ → Option (List ℕ)
encode_topic_dir_reply = encode_topic_dir_entries reply_magic

unfoldable pub chunk_topic_dir_entries : List TopicDirEntry → List (List TopicDirEntry)
chunk_topic_dir_entries = chunk_entries topic_entry

unfoldable pub decode_topic_dir_entries : List ℕ → Option (List TopicDirEntry)
decode_topic_dir_entries = decode_entries topic_entry
