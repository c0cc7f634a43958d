-- ===== src/Reassembly/Published.antt =====
-- From the publisher's payloads to the subscriber's callback.
use relink_com.Base.{
  ℕ, ◌+◌, ◌<◌, ◌≡◌, ◌≢◌, ◌∙◌, ◌⊎◌, refl, false, some, List, [], ◌∷◌, ◌++◌, map, length, get_or,
  replicate, All, All-append, u32_mod, Option-cases, inl, inr,
}
use relink_com.Reassembly.{Chunk, Reassembler, chunk_count_of, feed, on_chunk}
use relink_com.Reassembly.Received.{count_true, mark}
use relink_com.Reassembly.Progress.{Sizes, chunk}
use relink_com.Reassembly.AnyOrder.{any_order}
use relink_com.Reassembly.Wire.{MetaWire, chunk_payload, receive}
use relink_com.Reassembly.Parsed.{Laws, on_payload-sent}

module _ {M : Type 0} (k : MetaWire M) (Valid : M → Type 0) (laws : Laws k Valid) (chunk_data : ℕ)
    (frame_id : ℕ) (image : List ℕ) (meta : M) (sizes : Sizes chunk_data (length image)) where
  abbrev size : ℕ
  size = chunk_count_of chunk_data (length image)

  abbrev sent : ℕ → Chunk M
  sent i = chunk chunk_data frame_id image meta sizes i

  abbrev payload_of : ℕ → List ℕ
  payload_of i = chunk_payload k chunk_data frame_id image meta i

  receive-sent :
      (r : Reassembler M) (is : List ℕ)
      → frame_id < u32_mod
      → Valid meta
      → All (λ (i : ℕ). i < size) is
      → receive k chunk_data r (map payload_of is) ≡ feed chunk_data r (map sent is)
  unfolding receive feed
  receive-sent r [] hf hm h = refl
  receive-sent r (i ∷ is) hf hm (hi, h) =
      rw (on_payload-sent k Valid laws chunk_data frame_id image meta sizes r i hf hm hi)
        (elim (Option-cases (on_chunk chunk_data r (sent i))) [
          | inl e ↦ rw e
          | inr (x, e) ↦ rw (e, receive-sent x.0 is hf hm h)
        ])

  -- A subscriber whose reassembler is idle or holds another frame gets payloads of one image in any order,
  -- any of them repeated, until just payload `j` has never come: up to there the callback is not called, and
  -- payload `j` then gives one call, with the frame's id, the metadata and the image byte for byte, and
  -- leaves the reassembler idle. The frame id is below 2^32, the metadata is valid, and `Sizes` says that the
  -- chunk count is right for the image.
  pub receive_any_order :
      (r : Reassembler M) (is : List ℕ) (j : ℕ)
      → frame_id < u32_mod
      → Valid meta
      → (r.in_progress ≡ false) ⊎ (frame_id ≢ r.current_frame_id)
      → All (λ (i : ℕ). i < size) is
      → j < size
      → get_or (mark (replicate size false) is) j false ≡ false
      → count_true (mark (replicate size false) is) + 1 ≡ size
      → (r' : Reassembler M) × (receive k chunk_data r (map payload_of (is ++ (j ∷ [])))
          ≡ some (r', record { frame_id = frame_id; image = image; meta = meta } ∷ []))
        × (r'.in_progress ≡ false)
  receive_any_order r is j hf hm idle h hj missing one =
      let (r', fed, done) =
        any_order chunk_data frame_id image meta sizes r is j idle h hj missing one in
      (
        r',
        receive-sent r (is ++ (j ∷ [])) hf hm
              (All-append (λ (i : ℕ). i < size) is (j ∷ []) h (hj, tt))
            ∙ fed,
        done,
      )
