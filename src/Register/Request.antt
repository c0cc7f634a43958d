-- ===== src/Register/Request.antt =====
-- RegisterRequest: round trip and the packets that are accepted.
use relink_com.Base.{
  ℕ, ◌+◌, ◌*◌, ◌<◌, ◌≤◌, ◌≡◌, refl, sym, ap, ◌∙◌, ◌⊎◌, inl, inr, List, [], ◌++◌, arith, length,
  drop, All, le16, le32, u16_at, u32_at, u16_mod, u32_mod, append-nil, tabulate,
}
use native.Mathlib.Decide.{dec_le}
use relink_com.TopicIds.{write_ids, id_at, IsId, length-write_ids, ids-write_ids}
use relink_com.Register.{
  DecodedRegisterRequest, ok, decoded, too_many_topics, buffer_too_small, max_register_topics,
  encode_register_request, decode_register_request, register_request_topic_at,
}

-- The topic ids that `register_request_topic_at` reads out of a decoded request, in order.
abbrev pub topics_of : DecodedRegisterRequest → List ℕ
topics_of req = tabulate (register_request_topic_at req) req.topic_count

abbrev request_bytes : ℕ → ℕ → List ℕ → List ℕ
request_bytes ip port ids = le32 ip ++ (le16 port ++ (le16 (length ids) ++ write_ids ids))

request_fields :
    (ip port : ℕ) (ids : List ℕ)
    → ip < u32_mod
    → port < u16_mod
    → length ids < u16_mod
    → (u32_at (request_bytes ip port ids) 0 ≡ ip)
      × (u16_at (request_bytes ip port ids) 4 ≡ port)
      × (u16_at (request_bytes ip port ids) 6 ≡ length ids)
      × (drop 8 (request_bytes ip port ids) ≡ write_ids ids)
      × (length (request_bytes ip port ids) ≡ 8 + length ids * 4)
unfolding le32 le16 u32_at u16_at
request_fields ip port ids hi hp hc =
    (omega arith, omega arith, omega arith, refl, omega (arith, length-write_ids ids))

-- `encode_register_request` refuses exactly the requests above 16374 topics, and the buffers that are
-- too small. Any other request decodes to the address, the port and the list of topic ids.
pub decode_request-encode_request :
    (ip port : ℕ) (ids : List ℕ) (capacity : ℕ)
    → ip < u32_mod
    → port < u16_mod
    → All IsId ids
    → (encode_register_request ip port ids capacity ≡ too_many_topics)
        × (max_register_topics < length ids)
      ⊎ (encode_register_request ip port ids capacity ≡ buffer_too_small)
        × (capacity < 8 + length ids * 4)
      ⊎ ((bytes : List ℕ) × (req : DecodedRegisterRequest) × (encode_register_request ip port ids
              capacity
            ≡ ok bytes)
          × (length bytes ≤ capacity)
          × (decode_register_request bytes ≡ decoded req)
          × (req.node_ip ≡ ip)
          × (req.node_port ≡ port)
          × (topics_of req ≡ ids))
decode_request-encode_request ip port ids capacity hi hp hids = elim (dec_le (length ids) 16374) [
  | no many ↦ inl (unfold encode_register_request in ground arith, omega arith)
  | yes few ↦ elim (dec_le (8 + length ids * 4) capacity) [
    | no small ↦ inr (inl (unfold encode_register_request in ground arith, omega arith))
    | yes room ↦ inr (
        inr (
          request_bytes ip port ids,
          record {
            node_ip = ip;
            node_port = port;
            topic_count = length ids;
            topic_ids_raw = write_ids ids;
          },
          unfold encode_register_request in ground arith,
          omega (arith, request_fields ip port ids hi hp (omega arith)),
          unfold decode_register_request in
              ground (arith, request_fields ip port ids hi hp (omega arith)),
          refl,
          refl,
          unfold register_request_topic_at in
              ap (λ (xs : List ℕ). tabulate (id_at xs) (length ids))
                (sym (append-nil (write_ids ids)))
              ∙ ids-write_ids ids [] hids,
        ))
  ]
]
