-- ===== src/Gcm/Tests.antt =====
-- The examples at which the theorems on sealing are applied.
use relink_com.Base.{◌≡◌, refl, some, List, [], ◌∷◌, ◌>>=◌, replicate, ℕ, arith}
use relink_com.Aes.{
  encrypt_block, round_keys, expand, key_words, next_word, rot_word, sub_word, word, add_round_key,
  shift_rows, round_key_bytes, word_bytes, sub_bytes, sub_byte, rounds, mix_columns, mix_column,
  gmul, gmul_loop, xtime,
}
use relink_com.Gcm.{
  aes256gcm_seal, aes256gcm_open, gctr, gctr_loop, blocks, tag_of, ghash, ghash_loop, gf128_mul,
  mul_bytes, mul_byte, half, shift_right, padded, len_block, inc32, inc_at, first_counter,
}
use relink_com.Base.{xor_bytes, difference}
use relink_com.Gcm.Laws.{aes256gcm_seal-aes256gcm_open, aes256gcm_open-aes256gcm_seal}

abbrev zero_key : List ℕ
zero_key = replicate 32 0

abbrev zero_nonce : List ℕ
zero_nonce = replicate 12 0

abbrev message : List ℕ
message = replicate 16 0

-- Test case 14 of the specification of GCM: nonce, ciphertext and tag.
abbrev sealed : List ℕ
sealed =
    0 ∷ 0 ∷ 0 ∷ 0 ∷ 0 ∷ 0 ∷ 0 ∷ 0 ∷ 0 ∷ 0 ∷ 0 ∷ 0 ∷ 0xce ∷ 0xa7 ∷ 0x40 ∷ 0x3d ∷ 0x4d ∷ 0x60 ∷ 0x6b
    ∷ 0x6e ∷ 0x07 ∷ 0x4e ∷ 0xc5 ∷ 0xd3 ∷ 0xba ∷ 0xf3 ∷ 0x9d ∷ 0x18 ∷ 0xd0 ∷ 0xd1 ∷ 0xc8 ∷ 0xa7
    ∷ 0x99 ∷ 0x99 ∷ 0x6b ∷ 0xf0 ∷ 0x26 ∷ 0x5b ∷ 0x98 ∷ 0xb5 ∷ 0xd4 ∷ 0x8a ∷ 0xb9 ∷ 0x19 ∷ []

seal_message : aes256gcm_seal zero_key zero_nonce message 100 ≡ some sealed
unfolding aes256gcm_seal encrypt_block round_keys expand key_words next_word rot_word sub_word word
    add_round_key shift_rows round_key_bytes word_bytes sub_bytes sub_byte rounds mix_columns
    mix_column gmul gmul_loop xtime gctr gctr_loop blocks tag_of ghash ghash_loop gf128_mul
    mul_bytes mul_byte half shift_right padded len_block inc32 inc_at first_counter xor_bytes
seal_message = refl

open_message : aes256gcm_open zero_key sealed 16 ≡ some message
unfolding aes256gcm_open encrypt_block round_keys expand key_words next_word rot_word sub_word word
    add_round_key shift_rows round_key_bytes word_bytes sub_bytes sub_byte rounds mix_columns
    mix_column gmul gmul_loop xtime gctr gctr_loop blocks tag_of ghash ghash_loop gf128_mul
    mul_bytes mul_byte half shift_right padded len_block inc32 inc_at first_counter xor_bytes
    difference
open_message = refl

aes256gcm_seal-aes256gcm_open_example :
    (aes256gcm_seal zero_key zero_nonce message 100 >>= λ bytes. aes256gcm_open zero_key bytes 16)
    ≡ some message
aes256gcm_seal-aes256gcm_open_example =
    aes256gcm_seal-aes256gcm_open zero_key zero_nonce message 100 16 refl (omega arith)
      (omega arith)

aes256gcm_open-aes256gcm_seal_example : aes256gcm_seal zero_key zero_nonce message 44 ≡ some sealed
aes256gcm_open-aes256gcm_seal_example =
    aes256gcm_open-aes256gcm_seal zero_key sealed message 16 open_message
