-- ===== src/Roles/Tests.antt =====
-- The role directory at small packets.
use relink_com.Base.{ℕ, ◌≡◌, refl, some, List, [], ◌∷◌, u16_at, u32_at}
use relink_com.Packet.{decode_entries, decode_loop}
use relink_com.Roles.{RolePeerEntry, read_peer_entry, decode_role_reply}

abbrev replied : List RolePeerEntry
replied = record { topic_id = 7; role = 1; ip = 3; port = 258 } ∷ []

abbrev packet : List ℕ
packet = b'R' ∷ b'L' ∷ b'P' ∷ b'R' ∷ 1 ∷ 0 ∷ 7 ∷ 0 ∷ 0 ∷ 0 ∷ 1 ∷ 3 ∷ 0 ∷ 0 ∷ 0 ∷ 2 ∷ 1 ∷ []

packet_decodes : decode_role_reply packet ≡ some replied
unfolding decode_role_reply decode_entries decode_loop read_peer_entry u16_at u32_at
packet_decodes = refl
