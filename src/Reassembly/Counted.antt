-- ===== src/Reassembly/Counted.antt =====
-- The ids that publish_image and publish_compressed_image of relink.hpp give to frames.
use relink_com.Base.{
  ℕ, ◌+◌, ◌%◌, ◌<◌, ◌≡◌, refl, ◌==◌, if◌then◌else◌, Bool-cases, inl, inr, put, nat_key, u32_mod,
}
use relink_com.Reassembly.Wire.{Counters, auto_frame_id, counter_of, settle_frame_id}

-- The id that the frame has: the one asked for, or the topic's counter.
abbrev pub frame_id_of : ℕ → ℕ → Counters → ℕ
frame_id_of topic asked counters =
    if asked == auto_frame_id then counter_of topic counters else asked

-- The counters afterwards.
abbrev pub counters_after : ℕ → ℕ → Counters → Counters
counters_after topic asked counters =
    if asked == auto_frame_id
    then put topic ((counter_of topic counters + 1) % u32_mod) counters
    else counters

pub settle_lem :
    (topic asked : ℕ) (counters : Counters)
    → settle_frame_id topic asked counters
      ≡ (frame_id_of topic asked counters, counters_after topic asked counters)
unfolding settle_frame_id
settle_lem topic asked counters = elim (Bool-cases (asked == auto_frame_id)) [
  | inl auto ↦ rw auto refl
  | inr given ↦ rw given refl
]

pub frame_id_of-lt :
    (topic asked : ℕ) (counters : Counters)
    → asked < u32_mod
    → counter_of topic counters < u32_mod
    → frame_id_of topic asked counters < u32_mod
frame_id_of-lt topic asked counters asked_fits counter_fits =
    elim (Bool-cases (asked == auto_frame_id)) [
      | inl auto ↦ rw auto counter_fits
      | inr given ↦ rw given asked_fits
    ]
