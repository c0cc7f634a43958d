-- ===== src/RelayWire/Laws.antt =====
-- REGISTER packets of the relay.
use relink_com.Base.{ℕ, ◌<◌, ◌≤◌, ◌≡◌, refl, some, List, ◌∷◌, arith, length, le32, u32_at, u32_mod}
use relink_com.RelayWire.{
  encode_relay_register, decode_relay_register, relay_control_magic, relay_register,
}

-- The packet of `encode_relay_register` decodes to its topic id, and fits six bytes.
pub decode_relay-encode_relay :
    (topic_id capacity : ℕ)
    → topic_id < u32_mod
    → 6 ≤ capacity
    → (bytes : List ℕ) × (encode_relay_register topic_id capacity ≡ some bytes)
      × (length bytes ≡ 6)
      × (decode_relay_register bytes ≡ some topic_id)
unfolding encode_relay_register decode_relay_register le32 u32_at
decode_relay-encode_relay topic_id capacity h room =
    (relay_control_magic ∷ relay_register ∷ le32 topic_id, ground arith, refl, ground arith)
