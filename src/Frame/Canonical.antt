-- ===== src/Frame/Canonical.antt =====
-- What `decode_frame` accepts. `encode_frame` writes the same buffers, up to its bound on the payload, which
-- `decode_frame` does not check.
use relink_com.Base.{
  ℕ, ◌+◌, ◌≤◌, ◌≡◌, ap, ◌∙◌, List, [], ◌∷◌, ◌++◌, arith, length, get_or, take, drop, All, IsByte,
  le16, le32, u16_at, u32_at, drop_byte, drop_u16, drop_u32, length-drop, length-take,
  take-append-drop, drop-drop, append_assoc, get_or-All, drop-length,
}
use relink_com.Frame.{
  DecodedFrame, ok, decoded, encode_frame, decode_frame, header_bytes, header_at, start_byte,
  stop_byte, max_payload_bytes,
}
use relink_com.Frame.RoundTrip.{
  frame_bytes, length-frame_bytes, Fits, plain_header, encode_frame-ok,
}

-- What the checks of `decode_frame` have established when it accepts.
record Accepted (buf : List ℕ) (f : DecodedFrame) : Type 0 where
  size : length buf ≡ 11 + f.header.payload_len
  start : get_or buf 0 0 ≡ start_byte
  stop : get_or buf (10 + f.header.payload_len) 0 ≡ stop_byte
  plain : f.header.flags ≡ 0
  header : f.header ≡ header_at buf 1
  payload : f.payload ≡ take f.header.payload_len (drop 10 buf)
  len : f.payload_len ≡ f.header.payload_len

decode_frame-Accepted :
    (buf : List ℕ) (f : DecodedFrame) → decode_frame buf ≡ decoded f → Accepted buf f
unfolding decode_frame
decode_frame-Accepted buf f e = ground arith

header_cut :
    (buf : List ℕ)
    → All IsByte buf
    → 10 ≤ length buf
    → drop 1 buf ≡ header_bytes (header_at buf 1) ++ drop 10 buf
unfolding header_bytes header_at
header_cut buf b h = ground (
  arith,
  drop_u32 1 buf b,
  drop_u16 5 buf b,
  drop_u16 7 buf b,
  drop_byte 9 buf,
  append_assoc (le32 (u32_at buf 1))
      (le16 (u16_at buf 5) ++ (le16 (u16_at buf 7) ++ (get_or buf 9 0 ∷ []))) (drop 10 buf),
  append_assoc (le16 (u16_at buf 5)) (le16 (u16_at buf 7) ++ (get_or buf 9 0 ∷ [])) (drop 10 buf),
  append_assoc (le16 (u16_at buf 7)) (get_or buf 9 0 ∷ []) (drop 10 buf),
)

header_at-Fits : (buf : List ℕ) → All IsByte buf → Fits (header_at buf 1)
unfolding header_at u32_at u16_at
header_at-Fits buf b = omega (
  arith,
  get_or-All buf 1 b,
  get_or-All buf 2 b,
  get_or-All buf 3 b,
  get_or-All buf 4 b,
  get_or-All buf 5 b,
  get_or-All buf 6 b,
  get_or-All buf 7 b,
  get_or-All buf 8 b,
)

tail_cut :
    (buf : List ℕ) (n : ℕ)
    → length buf ≡ 11 + n
    → get_or buf (10 + n) 0 ≡ stop_byte
    → drop 10 buf ≡ take n (drop 10 buf) ++ (stop_byte ∷ [])
tail_cut buf n len stop = ground (
  arith,
  take-append-drop n (drop 10 buf),
  drop-drop 10 n buf,
  drop_byte (10 + n) buf,
  drop-length (10 + n + 1) buf,
)

-- A buffer of bytes that `decode_frame` accepts is the start byte, the header that it returns, the
-- payload that it returns and the stop byte, and nothing else. That header is plain (flags 0), and
-- its `payload_len`, like the result's, is the length of the payload.
pub decode_frame-canonical :
    (buf : List ℕ) (f : DecodedFrame)
    → All IsByte buf
    → decode_frame buf ≡ decoded f
    → (buf ≡ frame_bytes f.header f.payload)
      × (f.header ≡ plain_header f.header.topic_id f.header.seq_num f.payload)
      × (f.payload_len ≡ length f.payload)
decode_frame-canonical buf f b e = (
  ground (arith, acc, drop_byte 0 buf, header_cut buf b, tail_cut buf f.header.payload_len),
  ground (arith, acc, paylen),
  ground (arith, acc, paylen),
)
  where
    acc : Accepted buf f
    acc = decode_frame-Accepted buf f e

    paylen : length f.payload ≡ f.header.payload_len
    paylen = ground (arith, acc, length-take f.header.payload_len (drop 10 buf), length-drop 10 buf)

-- Where the decoded payload is within the budget, `encode_frame` writes the very buffer that was
-- decoded, given room for it: no two buffers decode to one frame.
pub encode_frame-decode_frame :
    (buf : List ℕ) (f : DecodedFrame)
    → All IsByte buf
    → decode_frame buf ≡ decoded f
    → length f.payload ≤ max_payload_bytes
    → encode_frame f.header.topic_id f.header.seq_num f.payload (length buf) ≡ ok buf
encode_frame-decode_frame buf f b e small =
    let (whole, head, len) = decode_frame-canonical buf f b e in
    let size : length buf ≡ 11 + length f.payload =
      ap length whole ∙ length-frame_bytes f.header f.payload in
    encode_frame-ok f.header.topic_id f.header.seq_num f.payload (length buf) small (omega arith)
    ∙ ap ok (ground (arith, whole, head))
