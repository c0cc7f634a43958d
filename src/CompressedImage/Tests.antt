-- ===== src/CompressedImage/Tests.antt =====
-- Three bytes of JPEG published and received.
use relink_com.Base.{
  ℕ, ◌<◌, ◌≤◌, ◌≡◌, ◌⊎◌, inl, refl, arith, false, List, [], ◌∷◌, none, some, length, u32_mod, find,
  nat_key,
}
use relink_com.Reassembly.{Reassembler}
use relink_com.Reassembly.Wire.{auto_frame_id, counter_of}
use relink_com.Reassembly.Counted.{counters_after}
use relink_com.CompressedImage.{
  Capture, max_compressed_bytes, compressed_reassembler, publish_compressed_image,
  receive_compressed_image,
}
use relink_com.CompressedImage.Delivery.{publish_compressed_image-receive_compressed_image}

abbrev pixels : List ℕ
pixels = 200 ∷ 0 ∷ 17 ∷ []

abbrev capture : Capture
capture = record { capture_timestamp_ns = 0; quality = 80 }

-- No frame of topic 3 was counted yet.
none_counted : counter_of 3 [] < u32_mod
unfolding counter_of find
none_counted = omega arith

publish_compressed_image-receive_compressed_image_example :
    ((max_compressed_bytes < length pixels)
      × (publish_compressed_image 1700000000000000000 3 pixels auto_frame_id capture []
          ≡ ([], none)))
    ⊎ ((payloads : List (List ℕ)) × (r' : Reassembler Capture) × (length pixels
          ≤ max_compressed_bytes)
        × (publish_compressed_image 1700000000000000000 3 pixels auto_frame_id capture []
            ≡ (counters_after 3 auto_frame_id [], some payloads))
        × (receive_compressed_image compressed_reassembler payloads
            ≡ some (
              r',
              record {
                frame_id = counter_of 3 [];
                image = pixels;
                meta = record { capture_timestamp_ns = 1700000000000000000; quality = 80 };
              }
                  ∷ [],
            ))
        × (r'.in_progress ≡ false))
publish_compressed_image-receive_compressed_image_example =
    publish_compressed_image-receive_compressed_image 1700000000000000000 3 pixels auto_frame_id
      capture [] compressed_reassembler (omega arith) none_counted (omega arith)
      (omega arith, omega arith) (inl refl)
