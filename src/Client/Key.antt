-- ===== src/Client/Key.antt =====
-- The cipher of a shared key: aes256gcm_seal and aes256gcm_open as rlcore_client.hpp and relink_rlcore.cpp call them.
-- The nonce that sealing draws is an argument.
use relink_com.Base.{
  ℕ, ◌≤◌, ◌≡◌, refl, ap, ◌∙◌, ◌⊎◌, inl, inr, some, Option-cases, bind_inverse, List, [], arith,
  length, take,
}
use relink_com.Register.{
  DecodedRegisterRequest, RegisterDecodeResult, decoded, too_short, length_mismatch,
  decode_register_request,
}
use relink_com.Rlcore.{PeerEntry, RlCore}
use relink_com.Rlcore.Dispatch.{Cipher, Flags, plain_request, register_step}
use relink_com.Gcm.{aes256gcm_seal, aes256gcm_open}
use relink_com.Gcm.Laws.{aes256gcm_seal-aes256gcm_open, aes256gcm_open-aes256gcm_seal}
use relink_com.Client.Registered.{Pairs}

unfoldable pub key_cipher : List ℕ → List ℕ → Cipher
key_cipher key nonce = record {
  open_blob = λ bytes. aes256gcm_open key bytes 65507;
  seal_blob = λ bytes. aes256gcm_seal key nonce bytes 65507;
}

one_way :
    (key nonce nonce' bytes : List ℕ)
    → length nonce ≡ 12
    → length bytes ≤ 65479
    → (sealed : List ℕ) × ((key_cipher key nonce).seal_blob bytes ≡ some sealed)
      × ((key_cipher key nonce').open_blob sealed ≡ some bytes)
unfolding key_cipher
one_way key nonce nonce' bytes hn h =
    bind_inverse (aes256gcm_seal key nonce bytes 65507) (λ sealed. aes256gcm_open key sealed 65507)
      bytes
      (aes256gcm_seal-aes256gcm_open key nonce bytes 65507 65507 hn (omega arith) (omega arith))

-- A node and a daemon with the same key understand each other, whatever nonces of 12 bytes they draw: each opens
-- what the other seals, for every message of at most 65479 bytes.
pub key_cipher-Pairs :
    (key nonce nonce' : List ℕ)
    → length nonce ≡ 12
    → length nonce' ≡ 12
    → Pairs (key_cipher key nonce) (key_cipher key nonce')
key_cipher-Pairs key nonce nonce' h h' = record {
  to_server = λ bytes. one_way key nonce nonce' bytes h;
  to_client = λ bytes. one_way key nonce' nonce bytes h';
}

decode_cases :
    {A : Type 0} (r : RegisterDecodeResult A)
    → ((a : A) × (r ≡ decoded a)) ⊎ ((r ≡ too_short) ⊎ (r ≡ length_mismatch))
decode_cases (decoded a) = inl (a, refl)
decode_cases too_short = inr (inl refl)
decode_cases length_mismatch = inr (inr refl)

-- With a key, rlcore acts on a RegisterRequest only where the datagram is a sealed one: either nothing changes
-- and nothing is sent, or the datagram is what aes256gcm_seal makes under the key, with the datagram's first 12
-- bytes as the nonce, of bytes that decode to a RegisterRequest.
pub register_step-sealed :
    (flags : Flags) (now : ℕ) (src : PeerEntry) (bytes key nonce : List ℕ) (st : RlCore)
    → flags.cipher ≡ some (key_cipher key nonce)
    → (register_step flags now src bytes st ≡ (st, []))
      ⊎ ((request : List ℕ) × (req : DecodedRegisterRequest) × (aes256gcm_seal key
              (take 12 bytes)
              request
              (length bytes)
            ≡ some bytes)
          × (decode_register_request request ≡ decoded req))
unfolding register_step
register_step-sealed flags now src bytes key nonce st e =
    elim (Option-cases (aes256gcm_open key bytes 65507)) [
      | inl refused ↦ inl (rw (register_step, is_plain ∙ refused) refl)
      | inr (request, accepted) ↦ elim (decode_cases (decode_register_request request)) [
        | inl (req, good) ↦
            inr (request, req, aes256gcm_open-aes256gcm_seal key bytes request 65507 accepted, good)
        | inr (inl short) ↦ inl (rw (register_step, is_plain ∙ accepted, short) refl)
        | inr (inr mismatch) ↦ inl (rw (register_step, is_plain ∙ accepted, mismatch) refl)
      ]
    ]
  where
    is_plain : plain_request flags.cipher bytes ≡ aes256gcm_open key bytes 65507
    is_plain = unfold plain_request key_cipher in ap (λ c. plain_request c bytes) e
