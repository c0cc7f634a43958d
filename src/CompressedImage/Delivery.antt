-- ===== src/CompressedImage/Delivery.antt =====
-- An image that is published arrives.
use relink_com.Base.{
  ℕ, ◌+◌, ◌<◌, ◌≤◌, ◌≡◌, ◌≢◌, ◌⊎◌, refl, Option, Bool-cases, ◌==◌, if◌then◌else◌, ltb, false, none,
  some, List, [], ◌∷◌, ◌++◌, arith, length, u32_mod, lt→ltb, inl, inr, length-append, length-le64,
  u64_at-le64, le64, le32, u64_mod, u64_at, ap, ◌∙◌, append_assoc, get_or,
}
use native.Mathlib.Decide.{dec_lt}
use relink_com.Reassembly.{Chunk, encode_chunks, Reassembler, chunk_count_of}
use relink_com.Reassembly.Progress.{Sizes}
use relink_com.Reassembly.Wire.{publish, Counters, counter_of, settle_frame_id}
use relink_com.Reassembly.Counted.{frame_id_of, counters_after, settle_lem, frame_id_of-lt}
use relink_com.Reassembly.Parsed.{Laws}
use relink_com.Reassembly.InOrder.{publish-receive, encode_chunks-feed}
use relink_com.CompressedImage.{
  encode_compressed_image_chunks, on_compressed_chunks, Capture, IsCapture, write_capture,
  read_capture, compressed_chunk_data, max_compressed_bytes, compressed_wire,
  publish_compressed_image, receive_compressed_image, settle_time,
}

compressed-Sizes : (len : ℕ) → len ≤ max_compressed_bytes → Sizes compressed_chunk_data len
unfolding chunk_count_of
compressed-Sizes len h = record {
  small = omega arith;
  some_chunk = ground arith;
  enough = ground arith;
  needed = ground arith;
}

time_read :
    (m : Capture) (rest : List ℕ)
    → m.capture_timestamp_ns < u64_mod
    → u64_at ((le64 m.capture_timestamp_ns ++ (m.quality ∷ [])) ++ rest) 0 ≡ m.capture_timestamp_ns
time_read m rest h =
    rw (append_assoc (le64 m.capture_timestamp_ns) (m.quality ∷ []) rest)
      (u64_at-le64 m.capture_timestamp_ns (m.quality ∷ rest) h)

quality_read :
    (m : Capture) (rest : List ℕ)
    → get_or ((le64 m.capture_timestamp_ns ++ (m.quality ∷ [])) ++ rest) 8 0 ≡ m.quality
unfolding le64 le32
quality_read m rest = refl

compressed-Laws : Laws compressed_wire IsCapture
unfolding write_capture read_capture
compressed-Laws = record {
  length_write = λ m.
      length-append (le64 m.capture_timestamp_ns) (m.quality ∷ [])
      ∙ ap (λ (k : ℕ). k + 1) (length-le64 m.capture_timestamp_ns);
  read_write = λ m rest h. rw (time_read m rest h.0, quality_read m rest);
}

-- The capture that arrives.
abbrev pub capture_of : ℕ → Capture → Capture
capture_of now capture = record {
  capture_timestamp_ns =
      if capture.capture_timestamp_ns == 0 then now else capture.capture_timestamp_ns;
  quality = capture.quality;
}

settle_time_lem : (now : ℕ) (capture : Capture) → settle_time now capture ≡ capture_of now capture
unfolding settle_time
settle_time_lem now capture = elim (Bool-cases (capture.capture_timestamp_ns == 0)) [
  | inl zero_time ↦ rw zero_time refl
  | inr given ↦ rw given refl
]

capture_of-IsCapture :
    (now : ℕ) (capture : Capture)
    → now < u64_mod
    → IsCapture capture
    → IsCapture (capture_of now capture)
capture_of-IsCapture now capture now_fits fits = (ground (arith, fits.0), fits.1)

-- publish_compressed_image refuses an image exactly when it is longer than kMaxCompressedImageBytes, and then sends
-- nothing and counts nothing. Any other image reaches a subscriber whose reassembler is idle or holds another frame:
-- the payloads, in the order sent and none lost, give one call of the callback, with the frame's id, the capture
-- time, the quality and the image byte for byte, no access outside the buffer, and a reassembler that is idle again.
-- The frame's id is the one that was asked for, or for kAutoFrameId the topic's counter, which is 0 at first and is
-- then one more, wrapping at 2^32; the capture time is the one that was given, or for 0 the present. The id that was
-- asked for and the counter are below 2^32, the times a uint64_t, and the quality a uint8_t.
pub publish_compressed_image-receive_compressed_image :
    (now topic : ℕ) (image : List ℕ) (asked : ℕ) (capture : Capture) (counters : Counters)
    (r : Reassembler Capture)
    → asked < u32_mod
    → counter_of topic counters < u32_mod
    → now < u64_mod
    → IsCapture capture
    → (r.in_progress ≡ false) ⊎ (frame_id_of topic asked counters ≢ r.current_frame_id)
    → ((max_compressed_bytes < length image)
        × (publish_compressed_image now topic image asked capture counters ≡ (counters, none)))
      ⊎ ((payloads : List (List ℕ)) × (r' : Reassembler Capture) × (length image
            ≤ max_compressed_bytes)
          × (publish_compressed_image now topic image asked capture counters
              ≡ (counters_after topic asked counters, some payloads))
          × (receive_compressed_image r payloads
              ≡ some (
                r',
                record {
                  frame_id = frame_id_of topic asked counters;
                  image = image;
                  meta = capture_of now capture;
                }
                    ∷ [],
              ))
          × (r'.in_progress ≡ false))
unfolding publish_compressed_image receive_compressed_image
publish_compressed_image-receive_compressed_image now topic image asked capture counters r
      asked_fits counter_fits now_fits fits idle =
    elim (dec_lt max_compressed_bytes (length image)) [
      | yes long ↦ inl (long, rw (lt→ltb max_compressed_bytes (length image) long) refl)
      | no short ↦
          let h : length image ≤ max_compressed_bytes = omega arith in
          let (payloads, r', sent, got, done) =
            publish-receive compressed_wire compressed_chunk_data (frame_id_of topic asked counters)
              image (capture_of now capture) (compressed-Sizes (length image) h) IsCapture
              compressed-Laws r h (frame_id_of-lt topic asked counters asked_fits counter_fits)
              (capture_of-IsCapture now capture now_fits fits) idle in
          inr (
            payloads,
            r',
            h,
            published (settle_lem topic asked counters) (ground arith) (
                ap
                  (λ (m : Capture).
                    publish compressed_wire compressed_chunk_data (frame_id_of topic asked counters)
                      image m)
                  (settle_time_lem now capture)
                ∙ sent),
            got,
            done,
          )
    ]
  where
    published :
        {payloads : List (List ℕ)}
        → settle_frame_id topic asked counters
          ≡ (frame_id_of topic asked counters, counters_after topic asked counters)
        → ltb max_compressed_bytes (length image) ≡ false
        → publish compressed_wire compressed_chunk_data
            (frame_id_of topic asked counters)
            image
            (settle_time now capture)
          ≡ some payloads
        → publish_compressed_image now topic image asked capture counters
          ≡ (counters_after topic asked counters, some payloads)
    published settled fits sent =
        rw (fits, settled)
          (ap (λ (o : Option (List (List ℕ))). (counters_after topic asked counters, o)) sent)

-- encode_compressed_image_chunks refuses an image exactly when it is longer than kMaxCompressedImageBytes. The chunks of any other image,
-- handed to an idle reassembler, or one that holds another frame, in their order, give one call of the
-- callback, with the frame's id, the capture time, the quality and the image byte for byte, and leave the reassembler idle.
pub encode_compressed_image_chunks-on_compressed_chunks :
    (frame_id : ℕ) (image : List ℕ) (capture : Capture) (r : Reassembler (Capture))
    → (r.in_progress ≡ false) ⊎ (frame_id ≢ r.current_frame_id)
    → ((max_compressed_bytes < length image)
        × (encode_compressed_image_chunks frame_id image capture ≡ none))
      ⊎ ((chunks : List (Chunk (Capture))) × (r' : Reassembler (Capture)) × (length image
            ≤ max_compressed_bytes)
          × (encode_compressed_image_chunks frame_id image capture ≡ some chunks)
          × (on_compressed_chunks r chunks
              ≡ some (r', record { frame_id = frame_id; image = image; meta = capture } ∷ []))
          × (r'.in_progress ≡ false))
unfolding encode_compressed_image_chunks on_compressed_chunks encode_chunks
encode_compressed_image_chunks-on_compressed_chunks frame_id image capture r idle =
    elim (dec_lt max_compressed_bytes (length image)) [
      | yes long ↦ inl (long, rw (lt→ltb max_compressed_bytes (length image) long))
      | no short ↦
          let h : length image ≤ max_compressed_bytes = omega arith in
          let (chunks, r', sent, got, done) =
            encode_chunks-feed compressed_wire compressed_chunk_data frame_id image capture
              (compressed-Sizes (length image) h) r h idle in
          inr (chunks, r', h, sent, got, done)
    ]
