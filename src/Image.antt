-- ===== src/Image.antt =====
-- image.hpp, and publish_image and subscribe_image of relink.hpp: images of arbitrary bytes, whose chunks
-- carry no metadata.
pub mod Delivery
mod Tests
use relink_com.Base.{ℕ, ◌*◌, Bool, false, List, [], Option, none, ltb, length, if◌then◌else◌}
use relink_com.Reassembly.{Chunk, Complete, Reassembler, encode_chunks, feed}
use relink_com.Reassembly.Wire.{MetaWire, Counters, settle_frame_id, publish, receive}

-- kImageChunkDataBytes: kMaxPayloadBytes less the 10 bytes of the header.
abbrev pub image_chunk_data : ℕ
image_chunk_data = 1390

abbrev pub max_image_bytes : ℕ
max_image_bytes = 65535 * image_chunk_data

-- The header ends with `chunk_bytes`.
abbrev pub image_wire : MetaWire (Unit {0})
image_wire = record { meta_len = 0; write = λ m. []; read = λ bytes. tt }

-- A new ImageReassembler.
abbrev pub image_reassembler : Reassembler (Unit {0})
image_reassembler = record {
  in_progress = false;
  current_frame_id = 0;
  received = [];
  buffer = [];
  received_count = 0;
  last_chunk_bytes = 0;
  meta = tt;
}

-- The counters after publish_image, and the payloads that it sends to each peer; `none` where it returns false at
-- once.
unfoldable pub publish_image : ℕ → List ℕ → ℕ → Counters → Counters × Option (List (List ℕ))
publish_image topic image frame_id counters =
    if ltb max_image_bytes (length image)
    then (counters, none)
    else let (settled, counted) = settle_frame_id topic frame_id counters in
      (counted, publish image_wire image_chunk_data settled image tt)

-- The handler of subscribe_image, called with one payload after the other.
unfoldable pub receive_image :
    Reassembler (Unit {0})
    → List (List ℕ)
    → Option (Reassembler (Unit {0}) × List (Complete (Unit {0})))
receive_image r payloads = receive image_wire image_chunk_data r payloads

-- encode_image_chunks; `none` is `TooLarge`.
unfoldable pub encode_image_chunks : ℕ → List ℕ → Option (List (Chunk (Unit {0})))
encode_image_chunks frame_id image = encode_chunks image_chunk_data frame_id image tt

-- ImageReassembler::on_chunk, for one chunk after the other.
unfoldable pub on_image_chunks :
    Reassembler (Unit {0})
    → List (Chunk (Unit {0}))
    → Option (Reassembler (Unit {0}) × List (Complete (Unit {0})))
on_image_chunks r chunks = feed image_chunk_data r chunks
