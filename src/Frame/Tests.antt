-- ===== src/Frame/Tests.antt =====
-- Runs of the framing code on small buffers, and its theorems at concrete inputs.
use relink_com.Base.{
  ℕ, ◌+◌, ◌<◌, ◌≤◌, ◌≡◌, refl, ◌⊎◌, List, [], ◌∷◌, arith, length, le16, le32, u16_at, u32_at,
}
use relink_com.Frame.{
  DecodedFrame, ok, payload_too_large, decoded, too_short, bad_stop_byte, length_mismatch,
  encode_frame, decode_frame, header_bytes, header_at, max_payload_bytes,
}
use relink_com.Frame.RoundTrip.{plain_header, decode_frame-encode_frame}
use relink_com.Frame.Canonical.{encode_frame-decode_frame}

abbrev two_bytes : List ℕ
two_bytes = 0xaa ∷ 0xbb ∷ []

-- Topic 7, sequence number 258.
abbrev small_frame : List ℕ
small_frame = 0x23 ∷ 7 ∷ 0 ∷ 0 ∷ 0 ∷ 2 ∷ 1 ∷ 2 ∷ 0 ∷ 0 ∷ 0xaa ∷ 0xbb ∷ 0x0a ∷ []

abbrev small_decoded : DecodedFrame
small_decoded = record {
  header = plain_header 7 258 two_bytes;
  payload = two_bytes;
  payload_len = 2;
}

encode_small : encode_frame 7 258 two_bytes 1411 ≡ ok small_frame
unfolding encode_frame header_bytes le16 le32
encode_small = refl

decode_small : decode_frame small_frame ≡ decoded small_decoded
unfolding decode_frame header_at u16_at u32_at
decode_small = refl

decode_short : decode_frame (0x23 ∷ 0x0a ∷ []) ≡ too_short
unfolding decode_frame header_at u16_at u32_at
decode_short = refl

decode_secure :
    decode_frame (0x23 ∷ 7 ∷ 0 ∷ 0 ∷ 0 ∷ 2 ∷ 1 ∷ 0 ∷ 0 ∷ 1 ∷ 0x0a ∷ []) ≡ length_mismatch
unfolding decode_frame header_at u16_at u32_at
decode_secure = refl

decode_no_stop : decode_frame (0x23 ∷ 7 ∷ 0 ∷ 0 ∷ 0 ∷ 2 ∷ 1 ∷ 0 ∷ 0 ∷ 0 ∷ 0x0b ∷ []) ≡ bad_stop_byte
unfolding decode_frame header_at u16_at u32_at
decode_no_stop = refl

decode_frame-encode_frame_example :
    (encode_frame 7 258 two_bytes 1411 ≡ payload_too_large)
      × ((max_payload_bytes < length two_bytes) ⊎ (1411 < length two_bytes + 11))
    ⊎ ((frame : List ℕ) × (encode_frame 7 258 two_bytes 1411 ≡ ok frame)
        × (length two_bytes ≤ max_payload_bytes)
        × (length frame ≡ length two_bytes + 11)
        × (length frame ≤ 1411)
        × (decode_frame frame ≡ decoded small_decoded))
decode_frame-encode_frame_example =
    decode_frame-encode_frame 7 258 two_bytes 1411 (omega arith) (omega arith)

encode_frame-decode_frame_example :
    encode_frame 7 258 two_bytes (length small_frame) ≡ ok small_frame
encode_frame-decode_frame_example =
    encode_frame-decode_frame small_frame small_decoded (omega arith) decode_small (omega arith)
