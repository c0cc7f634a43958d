-- ===== src/Register/Tests.antt =====
-- The registration packets' theorems at small packets.
use relink_com.Base.{ℕ, ◌+◌, ◌*◌, ◌<◌, ◌≤◌, ◌≡◌, ◌⊎◌, arith, List, [], ◌∷◌, length}
use relink_com.Register.{
  DecodedRegisterRequest, ok, decoded, too_many_topics, buffer_too_small, max_register_topics,
  encode_register_request, decode_register_request,
}
use relink_com.Register.Request.{topics_of, decode_request-encode_request}

abbrev ids : List ℕ
ids = 7 ∷ 70000 ∷ []

decode_request-encode_request_example :
    (encode_register_request 1 2 ids 100 ≡ too_many_topics) × (max_register_topics < length ids)
    ⊎ (encode_register_request 1 2 ids 100 ≡ buffer_too_small) × (100 < 8 + length ids * 4)
    ⊎ ((bytes : List ℕ) × (req : DecodedRegisterRequest) × (encode_register_request 1 2 ids 100
          ≡ ok bytes)
        × (length bytes ≤ 100)
        × (decode_register_request bytes ≡ decoded req)
        × (req.node_ip ≡ 1)
        × (req.node_port ≡ 2)
        × (topics_of req ≡ ids))
decode_request-encode_request_example =
    decode_request-encode_request 1 2 ids 100 (omega arith) (omega arith) (omega arith)
