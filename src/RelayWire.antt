-- ===== src/RelayWire.antt =====
-- cpp/include/relink/relay_wire.hpp: the relay's REGISTER packet, and its look into a data frame.
pub mod Laws
use relink_com.Base.{
  ℕ, ◌+◌, Bool, not, ◌||◌, Option, none, some, List, [], ◌∷◌, ◌++◌, ltb, ◌==◌, if◌then◌else◌,
  length, get_or, le32, u32_at,
}
use relink_com.Frame.{start_byte, header_size}

abbrev pub relay_default_port : ℕ
relay_default_port = 8446

abbrev pub relay_control_magic : ℕ
relay_control_magic = 0x52

abbrev pub relay_register : ℕ
relay_register = 1

-- `none` is the return value 0.
unfoldable pub encode_relay_register : ℕ → ℕ → Option (List ℕ)
encode_relay_register topic_id out_cap =
    if ltb out_cap 6 then none else some (relay_control_magic ∷ relay_register ∷ le32 topic_id)

unfoldable pub decode_relay_register : List ℕ → Option ℕ
decode_relay_register buf =
    if not (length buf == 6)
      || (not (get_or buf 0 0 == relay_control_magic) || not (get_or buf 1 0 == relay_register))
    then none
    else some (u32_at buf 2)

unfoldable pub peek_frame_topic_id : List ℕ → Option ℕ
peek_frame_topic_id buf =
    if ltb (length buf) (1 + header_size) || not (get_or buf 0 0 == start_byte)
    then none
    else some (u32_at buf 1)
