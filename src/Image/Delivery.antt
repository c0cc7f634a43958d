-- ===== src/Image/Delivery.antt =====
-- An image that is published arrives.
use relink_com.Base.{
  ℕ, ◌<◌, ◌≤◌, ◌≡◌, ◌≢◌, ◌⊎◌, refl, ap, Option, false, none, some, List, [], ◌∷◌, arith, length,
  u32_mod, lt→ltb, inl, inr, ltb,
}
use native.Mathlib.Decide.{dec_lt}
use relink_com.Reassembly.{Chunk, encode_chunks, Reassembler, chunk_count_of}
use relink_com.Reassembly.Progress.{Sizes}
use relink_com.Reassembly.Wire.{publish, Counters, counter_of, settle_frame_id}
use relink_com.Reassembly.Counted.{frame_id_of, counters_after, settle_lem, frame_id_of-lt}
use relink_com.Reassembly.Parsed.{Laws}
use relink_com.Reassembly.InOrder.{publish-receive, encode_chunks-feed}
use relink_com.Image.{
  encode_image_chunks, on_image_chunks, image_chunk_data, max_image_bytes, image_wire,
  publish_image, receive_image,
}

image-Sizes : (len : ℕ) → len ≤ max_image_bytes → Sizes image_chunk_data len
unfolding chunk_count_of
image-Sizes len h = record {
  small = omega arith;
  some_chunk = ground arith;
  enough = ground arith;
  needed = ground arith;
}

image-Laws : Laws image_wire (λ m. Unit {0})
image-Laws = record { length_write = λ m. refl; read_write = λ m rest h. refl }

-- publish_image refuses an image exactly when it is longer than kMaxImageBytes, and then sends nothing and counts
-- nothing. Any other image reaches a subscriber whose reassembler is idle or holds another frame: the payloads, in
-- the order sent and none lost, give one call of the callback, with the frame's id and the image byte for byte, no
-- access outside the buffer, and a reassembler that is idle again. The frame's id is the one that was asked for; for
-- kAutoFrameId it is the topic's counter, which is 0 at first and is then one more, wrapping at 2^32. The id that was
-- asked for and the counter are below 2^32.
pub publish_image-receive_image :
    (topic : ℕ) (image : List ℕ) (asked : ℕ) (counters : Counters) (r : Reassembler (Unit {0}))
    → asked < u32_mod
    → counter_of topic counters < u32_mod
    → (r.in_progress ≡ false) ⊎ (frame_id_of topic asked counters ≢ r.current_frame_id)
    → ((max_image_bytes < length image)
        × (publish_image topic image asked counters ≡ (counters, none)))
      ⊎ ((payloads : List (List ℕ)) × (r' : Reassembler (Unit {0})) × (length image
            ≤ max_image_bytes)
          × (publish_image topic image asked counters
              ≡ (counters_after topic asked counters, some payloads))
          × (receive_image r payloads
              ≡ some (
                r',
                record { frame_id = frame_id_of topic asked counters; image = image; meta = tt }
                    ∷ [],
              ))
          × (r'.in_progress ≡ false))
unfolding publish_image receive_image
publish_image-receive_image topic image asked counters r asked_fits counter_fits idle =
    elim (dec_lt max_image_bytes (length image)) [
      | yes long ↦ inl (long, rw (lt→ltb max_image_bytes (length image) long) refl)
      | no short ↦
          let h : length image ≤ max_image_bytes = omega arith in
          let (payloads, r', sent, got, done) =
            publish-receive image_wire image_chunk_data (frame_id_of topic asked counters) image tt
              (image-Sizes (length image) h) (λ m. Unit {0}) image-Laws r h
              (frame_id_of-lt topic asked counters asked_fits counter_fits) tt idle in
          inr (
            payloads,
            r',
            h,
            published (settle_lem topic asked counters) (ground arith) sent,
            got,
            done,
          )
    ]
  where
    published :
        {payloads : List (List ℕ)}
        → settle_frame_id topic asked counters
          ≡ (frame_id_of topic asked counters, counters_after topic asked counters)
        → ltb max_image_bytes (length image) ≡ false
        → publish image_wire image_chunk_data (frame_id_of topic asked counters) image tt
          ≡ some payloads
        → publish_image topic image asked counters
          ≡ (counters_after topic asked counters, some payloads)
    published settled fits sent =
        rw (fits, settled)
          (ap (λ (o : Option (List (List ℕ))). (counters_after topic asked counters, o)) sent)

-- encode_image_chunks refuses an image exactly when it is longer than kMaxImageBytes. The chunks of any other image,
-- handed to an idle reassembler, or one that holds another frame, in their order, give one call of the
-- callback, with the frame's id and the image byte for byte, and leave the reassembler idle.
pub encode_image_chunks-on_image_chunks :
    (frame_id : ℕ) (image : List ℕ) (r : Reassembler (Unit {0}))
    → (r.in_progress ≡ false) ⊎ (frame_id ≢ r.current_frame_id)
    → ((max_image_bytes < length image) × (encode_image_chunks frame_id image ≡ none))
      ⊎ ((chunks : List (Chunk (Unit {0}))) × (r' : Reassembler (Unit {0})) × (length image
            ≤ max_image_bytes)
          × (encode_image_chunks frame_id image ≡ some chunks)
          × (on_image_chunks r chunks
              ≡ some (r', record { frame_id = frame_id; image = image; meta = tt } ∷ []))
          × (r'.in_progress ≡ false))
unfolding encode_image_chunks on_image_chunks encode_chunks
encode_image_chunks-on_image_chunks frame_id image r idle =
    elim (dec_lt max_image_bytes (length image)) [
      | yes long ↦ inl (long, rw (lt→ltb max_image_bytes (length image) long))
      | no short ↦
          let h : length image ≤ max_image_bytes = omega arith in
          let (chunks, r', sent, got, done) =
            encode_chunks-feed image_wire image_chunk_data frame_id image tt
              (image-Sizes (length image) h) r h idle in
          inr (chunks, r', h, sent, got, done)
    ]
