-- ===== src/TopicDir/Tests.antt =====
-- The name directory at small packets.
use relink_com.Base.{ℕ, ◌≡◌, refl, arith, none, some, List, [], ◌∷◌, All, u16_at, u32_at, bytes_eq}
use relink_com.Packet.{decode_entries, decode_loop}
use relink_com.Packet.Chunks.{concat}
use relink_com.TopicDir.{
  TopicDirEntry, announce_magic, reply_magic, read_topic_entry, decode_topic_dir_entries,
  chunk_topic_dir_entries, topic_dir_packet_kind, query,
}
use relink_com.TopicDir.Laws.{Delivers, chunk_topic_dir-Delivers}

abbrev entries : List TopicDirEntry
entries = record { topic_id = 7; name = b'/' ∷ b'a' ∷ [] } ∷ record { topic_id = 8; name = [] } ∷ []

abbrev packet : List ℕ
packet =
    b'R' ∷ b'L' ∷ b'N' ∷ b'M' ∷ 2 ∷ 0 ∷ 7 ∷ 0 ∷ 0 ∷ 0 ∷ 2 ∷ b'/' ∷ b'a' ∷ 8 ∷ 0 ∷ 0 ∷ 0 ∷ 0 ∷ []

packet_decodes : decode_topic_dir_entries packet ≡ some entries
unfolding decode_topic_dir_entries decode_entries decode_loop read_topic_entry u16_at u32_at
packet_decodes = refl

-- Trailing bytes are refused.
packet_with_rest : decode_topic_dir_entries (b'R' ∷ b'L' ∷ b'N' ∷ b'M' ∷ 0 ∷ 0 ∷ 1 ∷ []) ≡ none
unfolding decode_topic_dir_entries decode_entries decode_loop read_topic_entry u16_at u32_at
packet_with_rest = refl

query_kind : topic_dir_packet_kind (b'R' ∷ b'L' ∷ b'N' ∷ b'Q' ∷ []) ≡ query
unfolding topic_dir_packet_kind bytes_eq
query_kind = refl

chunk_topic_dir-Delivers_example :
    All (Delivers announce_magic 8192) (chunk_topic_dir_entries entries)
    × All (Delivers reply_magic 8192) (chunk_topic_dir_entries entries)
    × (concat (chunk_topic_dir_entries entries) ≡ entries)
chunk_topic_dir-Delivers_example = chunk_topic_dir-Delivers entries 8192 (omega arith) (omega arith)
