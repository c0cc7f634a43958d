-- ===== src/TopicHash.antt =====
-- cpp/include/relink/topic_hash.hpp: the id of a topic's name. A name is the list of its bytes.
mod Tests
use Prim.Native.Nat.{bit_xor}
use relink_com.Base.{ℕ, ◌*◌, ◌%◌, List, [], ◌∷◌, u32_mod}

-- One round: the byte is mixed in, and the product wraps around at 32 bits.
unfoldable pub mix : ℕ → ℕ → ℕ
mix hash byte = bit_xor hash byte * 0x01000193 % u32_mod

unfoldable pub fnv1a32_from : ℕ → List ℕ → ℕ
fnv1a32_from hash [] = hash
fnv1a32_from hash (b ∷ bs) = fnv1a32_from (mix hash b) bs

unfoldable pub fnv1a32 : List ℕ → ℕ
fnv1a32 name = fnv1a32_from 0x811c9dc5 name
