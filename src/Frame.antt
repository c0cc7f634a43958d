-- ===== src/Frame.antt =====
-- cpp/include/relink/wire.hpp (RelinkHeader, the frame delimiters) and frame.hpp.
-- A buffer with its length is the list of its bytes; `encode_frame` returns what it writes to `out`.
pub mod RoundTrip
pub mod Canonical
mod Tests
use relink_com.Base.{
  ℕ, ◌+◌, ◌%◌, ◌≡◌, not, List, [], ◌∷◌, ◌++◌, ltb, leb, ◌==◌, if◌then◌else◌, length, get_or, take,
  drop, le16, le32, u16_at, u32_at, u16_mod,
}

abbrev pub start_byte : ℕ
start_byte = 0x23

abbrev pub stop_byte : ℕ
stop_byte = 0x0a

-- sizeof(RelinkHeader), packed
abbrev pub header_size : ℕ
header_size = 9

abbrev pub max_payload_bytes : ℕ
max_payload_bytes = 1400

abbrev pub max_frame_bytes : ℕ
max_frame_bytes = 1 + header_size + max_payload_bytes + 1

pub record RelinkHeader : Type 0 where
  pub topic_id : ℕ
  pub seq_num : ℕ
  pub payload_len : ℕ
  pub flags : ℕ

-- The packed struct, as `memcpy` of it writes and reads it.
unfoldable pub header_bytes : RelinkHeader → List ℕ
header_bytes h = le32 h.topic_id ++ (le16 h.seq_num ++ (le16 h.payload_len ++ (h.flags ∷ [])))

unfoldable pub header_at : List ℕ → ℕ → RelinkHeader
header_at buf off = record {
  topic_id = u32_at buf off;
  seq_num = u16_at buf (off + 4);
  payload_len = u16_at buf (off + 6);
  flags = get_or buf (off + 8) 0;
}

pub data EncodeResult : Type 0 where
  ok : List ℕ → EncodeResult
  payload_too_large : EncodeResult

-- `payload` is the pointer into the input buffer with `payload_len`: the bytes it points at.
pub record DecodedFrame : Type 0 where
  pub header : RelinkHeader
  pub payload : List ℕ
  pub payload_len : ℕ

pub data DecodeResult : Type 0 where
  decoded : DecodedFrame → DecodeResult
  too_short bad_start_byte bad_stop_byte length_mismatch : DecodeResult

unfoldable pub encode_frame : ℕ → ℕ → List ℕ → ℕ → EncodeResult
encode_frame topic_id seq_num payload out_capacity =
    let frame_len = 1 + header_size + length payload + 1 in
    let header : RelinkHeader = record {
      topic_id = topic_id;
      seq_num = seq_num;
      payload_len = length payload % u16_mod;
      flags = 0;
    } in
    if ltb max_payload_bytes (length payload)
    then payload_too_large
    else if ltb out_capacity frame_len
    then payload_too_large
    else ok (start_byte ∷ (header_bytes header ++ (payload ++ (stop_byte ∷ []))))

unfoldable pub decode_frame : List ℕ → DecodeResult
decode_frame buf =
    let len = length buf in
    let header = header_at buf 1 in
    let payload_off = 1 + header_size in
    let stop_off = payload_off + header.payload_len in
    if ltb len (1 + header_size + 1)
    then too_short
    else if not (get_or buf 0 0 == start_byte)
    then bad_start_byte
    else if not (header.flags == 0)
    then length_mismatch
    else if leb len stop_off
    then length_mismatch
    else if not (stop_off + 1 == len)
    then length_mismatch
    else if not (get_or buf stop_off 0 == stop_byte)
    then bad_stop_byte
    else decoded (record {
      header = header;
      payload = take header.payload_len (drop payload_off buf);
      payload_len = header.payload_len;
    })
