-- ===== src/Frame/RoundTrip.antt =====
-- What `encode_frame` writes, `decode_frame` reads.
use relink_com.Base.{
  ℕ, ◌+◌, ◌<◌, ◌≤◌, ◌≡◌, refl, ◌⊎◌, inl, inr, List, [], ◌∷◌, ◌++◌, arith, length, get_or, drop,
  le16, le32, u16_at, u32_at, u16_mod, u32_mod, length-append, get_or-append_right, get_or-drop,
  take-append,
}
use native.Mathlib.Decide.{dec_le}
use relink_com.Frame.{
  RelinkHeader, ok, payload_too_large, decoded, encode_frame, decode_frame, header_bytes, header_at,
  start_byte, stop_byte, max_payload_bytes,
}

-- The header's fields fit their widths.
pub record Fits (h : RelinkHeader) : Type 0 where
  pub topic : h.topic_id < u32_mod
  pub seq : h.seq_num < u16_mod
  pub payload : h.payload_len < u16_mod

pub length-header_bytes : (h : RelinkHeader) → length (header_bytes h) ≡ 9
unfolding header_bytes le16 le32
length-header_bytes h = refl

-- A header is read back from where it was written.
pub header_at-header_bytes :
    (h : RelinkHeader) (b : ℕ) (rest : List ℕ)
    → Fits h
    → header_at (b ∷ (header_bytes h ++ rest)) 1 ≡ h
unfolding header_bytes header_at le16 le32 u16_at u32_at
header_at-header_bytes h b rest f = ground arith

-- The bytes of a frame with the header `h`.
abbrev pub frame_bytes : RelinkHeader → List ℕ → List ℕ
frame_bytes h payload = start_byte ∷ (header_bytes h ++ (payload ++ (stop_byte ∷ [])))

pub length-frame_bytes :
    (h : RelinkHeader) (payload : List ℕ) → length (frame_bytes h payload) ≡ 11 + length payload
length-frame_bytes h payload = omega (
  arith,
  length-append (header_bytes h) (payload ++ (stop_byte ∷ [])),
  length-append payload (stop_byte ∷ []),
  length-header_bytes h,
)

drop-frame_bytes :
    (h : RelinkHeader) (payload : List ℕ)
    → drop 10 (frame_bytes h payload) ≡ payload ++ (stop_byte ∷ [])
unfolding header_bytes le16 le32
drop-frame_bytes h payload = refl

stop-frame_bytes :
    (h : RelinkHeader) (payload : List ℕ)
    → get_or (frame_bytes h payload) (10 + length payload) 0 ≡ stop_byte
stop-frame_bytes h payload = ground (
  arith,
  get_or-drop 10 (length payload) (frame_bytes h payload) 0,
  drop-frame_bytes h payload,
  get_or-append_right payload (stop_byte ∷ []) 0 0,
)

decode-frame_bytes :
    (h : RelinkHeader) (payload : List ℕ)
    → Fits h
    → h.payload_len ≡ length payload
    → h.flags ≡ 0
    → decode_frame (frame_bytes h payload)
      ≡ decoded (record { header = h; payload = payload; payload_len = length payload })
unfolding decode_frame
decode-frame_bytes h payload f len plain = ground (
  arith,
  length-frame_bytes h payload,
  header_at-header_bytes h start_byte (payload ++ (stop_byte ∷ [])) f,
  drop-frame_bytes h payload,
  stop-frame_bytes h payload,
  take-append payload (stop_byte ∷ []),
)

-- The header that `encode_frame` writes.
abbrev pub plain_header : ℕ → ℕ → List ℕ → RelinkHeader
plain_header topic_id seq_num payload = record {
  topic_id = topic_id;
  seq_num = seq_num;
  payload_len = length payload;
  flags = 0;
}

pub encode_frame-ok :
    (topic_id seq_num : ℕ) (payload : List ℕ) (capacity : ℕ)
    → length payload ≤ max_payload_bytes
    → length payload + 11 ≤ capacity
    → encode_frame topic_id seq_num payload capacity
      ≡ ok (frame_bytes (plain_header topic_id seq_num payload) payload)
unfolding encode_frame
encode_frame-ok topic_id seq_num payload capacity h k = ground arith

-- `encode_frame` refuses exactly the payloads above 1400 bytes and the buffers that the frame does
-- not fit. Otherwise it writes 11 bytes more than the payload has, which `decode_frame` reads back:
-- the topic id, the sequence number, flags 0 and the payload, byte for byte.
pub decode_frame-encode_frame :
    (topic_id seq_num : ℕ) (payload : List ℕ) (capacity : ℕ)
    → topic_id < u32_mod
    → seq_num < u16_mod
    → (encode_frame topic_id seq_num payload capacity ≡ payload_too_large)
        × ((max_payload_bytes < length payload) ⊎ (capacity < length payload + 11))
      ⊎ ((frame : List ℕ) × (encode_frame topic_id seq_num payload capacity ≡ ok frame)
          × (length payload ≤ max_payload_bytes)
          × (length frame ≡ length payload + 11)
          × (length frame ≤ capacity)
          × (decode_frame frame
              ≡ decoded (record {
                header = plain_header topic_id seq_num payload;
                payload = payload;
                payload_len = length payload;
              })))
decode_frame-encode_frame topic_id seq_num payload capacity ht hs =
    elim (dec_le (length payload) 1400) [
      | yes small ↦ elim (dec_le (length payload + 11) capacity) [
        | yes fits ↦ inr (
          frame_bytes (plain_header topic_id seq_num payload) payload,
          encode_frame-ok topic_id seq_num payload capacity small fits,
          small,
          omega (arith, length-frame_bytes (plain_header topic_id seq_num payload) payload),
          omega (arith, length-frame_bytes (plain_header topic_id seq_num payload) payload),
          decode-frame_bytes (plain_header topic_id seq_num payload) payload
              (record { topic = ht; seq = hs; payload = omega arith }) refl refl,
        )
        | no full ↦ inl (unfold encode_frame in ground arith, inr (omega arith))
      ]
      | no large ↦ inl (unfold encode_frame in ground arith, inl (omega arith))
    ]
