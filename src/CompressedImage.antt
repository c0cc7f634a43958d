-- ===== src/CompressedImage.antt =====
-- compressed_image.hpp, and publish_compressed_image and subscribe_compressed_image of relink.hpp:
-- images whose chunks each repeat the capture time and the encoder's quality.
pub mod Delivery
mod Tests
use relink_com.Base.{
  ℕ, ◌*◌, ◌<◌, Bool, false, List, [], ◌∷◌, ◌++◌, Option, none, ltb, ◌==◌, length, if◌then◌else◌,
  get_or, le64, u64_at, u64_mod, IsByte,
}
use relink_com.Reassembly.{Chunk, Complete, Reassembler, encode_chunks, feed}
use relink_com.Reassembly.Wire.{MetaWire, Counters, settle_frame_id, publish, receive}

-- kCompressedImageChunkDataBytes: kMaxPayloadBytes less the 19 bytes of the header.
abbrev pub compressed_chunk_data : ℕ
compressed_chunk_data = 1381

abbrev pub max_compressed_bytes : ℕ
max_compressed_bytes = 65535 * compressed_chunk_data

pub record Capture : Type 0 where
  pub capture_timestamp_ns : ℕ
  pub quality : ℕ

-- A uint64_t and a uint8_t.
abbrev pub IsCapture : Capture → Type 0
IsCapture m = (m.capture_timestamp_ns < u64_mod) × IsByte m.quality

unfoldable pub write_capture : Capture → List ℕ
write_capture m = le64 m.capture_timestamp_ns ++ (m.quality ∷ [])

unfoldable pub read_capture : List ℕ → Capture
read_capture bytes = record { capture_timestamp_ns = u64_at bytes 0; quality = get_or bytes 8 0 }

abbrev pub compressed_wire : MetaWire Capture
compressed_wire = record { meta_len = 9; write = write_capture; read = read_capture }

-- A new CompressedImageReassembler.
abbrev pub compressed_reassembler : Reassembler Capture
compressed_reassembler = record {
  in_progress = false;
  current_frame_id = 0;
  received = [];
  buffer = [];
  received_count = 0;
  last_chunk_bytes = 0;
  meta = record { capture_timestamp_ns = 0; quality = 0 };
}

-- The capture time 0, which is the default, stands for the present, `now`.
unfoldable pub settle_time : ℕ → Capture → Capture
settle_time now capture =
    if capture.capture_timestamp_ns == 0
    then record capture { capture_timestamp_ns = now }
    else capture

-- The counters after publish_compressed_image, and the payloads that it sends to each peer; `none` where it returns
-- false at once.
unfoldable pub publish_compressed_image :
    ℕ → ℕ → List ℕ → ℕ → Capture → Counters → Counters × Option (List (List ℕ))
publish_compressed_image now topic image frame_id capture counters =
    if ltb max_compressed_bytes (length image)
    then (counters, none)
    else let (settled, counted) = settle_frame_id topic frame_id counters in
      (
        counted,
        publish compressed_wire compressed_chunk_data settled image (settle_time now capture),
      )

-- The handler of subscribe_compressed_image, called with one payload after the other.
unfoldable pub receive_compressed_image :
    Reassembler Capture → List (List ℕ) → Option (Reassembler Capture × List (Complete Capture))
receive_compressed_image r payloads = receive compressed_wire compressed_chunk_data r payloads

-- encode_compressed_image_chunks; `none` is `TooLarge`.
unfoldable pub encode_compressed_image_chunks : ℕ → List ℕ → Capture → Option (List (Chunk Capture))
encode_compressed_image_chunks frame_id image capture =
    encode_chunks compressed_chunk_data frame_id image capture

-- CompressedImageReassembler::on_chunk, for one chunk after the other.
unfoldable pub on_compressed_chunks :
    Reassembler Capture
    → List (Chunk Capture)
    → Option (Reassembler Capture × List (Complete Capture))
on_compressed_chunks r chunks = feed compressed_chunk_data r chunks
