-- ===== src/Reassembly/Wire.antt =====
-- Image chunks on the wire: RelinkNode::publish_image and publish_compressed_image write a packed header
-- and the bytes of the chunk, and the handlers of subscribe_image and subscribe_compressed_image parse
-- them again (relink.hpp).
use relink_com.Base.{
  ℕ, ◌+◌, ◌-◌, ◌*◌, ◌%◌, min, not, Option, none, some, List, [], ◌∷◌, ◌++◌, ◌>>=◌, ltb, ◌==◌,
  if◌then◌else◌, length, take, drop, le16, le32, u16_at, u32_at, u16_mod, tabulate, u32_mod, find,
  put, nat_key,
}
use relink_com.Reassembly.{Chunk, Complete, Reassembler, chunk_count_of, on_chunk, called}

-- The part of the packed header behind `chunk_bytes`.
pub record MetaWire (M : Type 0) : Type 0 where
  pub meta_len : ℕ
  pub write : M → List ℕ
  pub read : List ℕ → M

-- frame_id, chunk_index, chunk_count, chunk_bytes
abbrev pub fixed_len : ℕ
fixed_len = 10

module _ {M : Type 0} (k : MetaWire M) (chunk_data : ℕ) where
  abbrev pub header_len : ℕ
  header_len = fixed_len + k.meta_len

  -- `ChunkHeader` as it stands in memory.
  unfoldable pub header_bytes : ℕ → ℕ → ℕ → ℕ → M → List ℕ
  header_bytes frame_id i count n meta =
      le32 frame_id ++ (le16 i ++ (le16 count ++ (le16 n ++ k.write meta)))

  -- The payload that round `i` hands to `publish_scattered`, the same for every peer.
  unfoldable pub chunk_payload : ℕ → List ℕ → M → ℕ → List ℕ
  chunk_payload frame_id image meta i =
      let offset = i * chunk_data in
      let n = min chunk_data (length image - offset) in
      header_bytes frame_id i (chunk_count_of chunk_data (length image)) (n % u16_mod) meta
      ++ take n (drop offset image)

  -- All payloads in order; `none` is the early `return false`.
  unfoldable pub publish : ℕ → List ℕ → M → Option (List (List ℕ))
  publish frame_id image meta =
      if ltb (65535 * chunk_data) (length image)
      then none
      else some
          (tabulate (chunk_payload frame_id image meta) (chunk_count_of chunk_data (length image)))

  -- The chunk that stands in a payload.
  unfoldable pub parse : List ℕ → Chunk M
  parse payload = record {
    frame_id = u32_at payload 0;
    chunk_index = u16_at payload 4;
    chunk_count = u16_at payload 6;
    chunk_bytes = u16_at payload 8;
    meta = k.read (drop fixed_len payload);
    payload = drop header_len payload;
  }

  -- The topic handler that a subscription installs.
  unfoldable pub on_payload : Reassembler M → List ℕ → Option (Reassembler M × Option (Complete M))
  on_payload r payload =
      if ltb (length payload) header_len
      then some (r, none)
      else if not (u16_at payload 8 == length payload - header_len)
      then some (r, none)
      else on_chunk chunk_data r (parse payload)

  -- One payload after the other, and the calls of the subscriber's callback.
  unfoldable pub receive :
      Reassembler M → List (List ℕ) → Option (Reassembler M × List (Complete M))
  receive r [] = some (r, [])
  receive r (p ∷ ps) = do
    (r', done) ← on_payload r p
    (r'', rest) ← receive r' ps
    some (r'', called done rest)

-- kAutoFrameId, which is the default: the node counts the frames of each topic itself.
abbrev pub auto_frame_id : ℕ
auto_frame_id = 0xFFFFFFFF

-- next_image_frame_id_ or next_compressed_image_frame_id_.
abbrev pub Counters : Type 0
Counters = List (ℕ × ℕ)

unfoldable pub counter_of : ℕ → Counters → ℕ
counter_of topic counters = elim (find topic counters) [ none ↦ 0 | some next ↦ next ]

-- The frame's id, and the counters after it.
unfoldable pub settle_frame_id : ℕ → ℕ → Counters → ℕ × Counters
settle_frame_id topic frame_id counters =
    let next = counter_of topic counters in
    if frame_id == auto_frame_id
    then (next, put topic ((next + 1) % u32_mod) counters)
    else (frame_id, counters)
