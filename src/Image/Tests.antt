-- ===== src/Image/Tests.antt =====
-- Three bytes published and received.
use relink_com.Base.{
  ℕ, ◌<◌, ◌≤◌, ◌≡◌, ◌⊎◌, inl, refl, arith, false, List, [], ◌∷◌, none, some, length, u32_mod, find,
  nat_key,
}
use relink_com.Reassembly.{Reassembler}
use relink_com.Reassembly.Wire.{Counters, auto_frame_id, counter_of}
use relink_com.Reassembly.Counted.{counters_after}
use relink_com.Image.{max_image_bytes, image_reassembler, publish_image, receive_image}
use relink_com.Image.Delivery.{publish_image-receive_image}

abbrev pixels : List ℕ
pixels = 200 ∷ 0 ∷ 17 ∷ []

-- Frame 7 is the next one of topic 3.
abbrev counters : Counters
counters = (3, 7) ∷ []

counted : counter_of 3 counters < u32_mod
unfolding counter_of find
counted = omega arith

publish_image-receive_image_example :
    ((max_image_bytes < length pixels)
      × (publish_image 3 pixels auto_frame_id counters ≡ (counters, none)))
    ⊎ ((payloads : List (List ℕ)) × (r' : Reassembler (Unit {0})) × (length pixels
          ≤ max_image_bytes)
        × (publish_image 3 pixels auto_frame_id counters
            ≡ (counters_after 3 auto_frame_id counters, some payloads))
        × (receive_image image_reassembler payloads
            ≡ some
                (r', record { frame_id = counter_of 3 counters; image = pixels; meta = tt } ∷ []))
        × (r'.in_progress ≡ false))
publish_image-receive_image_example =
    publish_image-receive_image 3 pixels auto_frame_id counters image_reassembler (omega arith)
      counted (inl refl)
