-- ===== src/Aes/Tests.antt =====
-- Runs of the cipher on the example of FIPS-197 (appendix C.3), and of its parts.
use relink_com.Base.{ℕ, ◌≡◌, ◌≢◌, arith, refl, [], ◌∷◌, tabulate, ◌*◌, xor_bytes}
use relink_com.Aes.Spec.{affine, inverse, sub_byte-affine}
use relink_com.Aes.{
  encrypt_block, round_keys, expand, key_words, next_word, rot_word, sub_word, word, add_round_key,
  shift_rows, round_key_bytes, word_bytes, sub_bytes, sub_byte, rounds, mix_columns, mix_column,
  gmul, gmul_loop, xtime,
}

fips_c3 :
    encrypt_block (round_keys (tabulate (λ i. i) 32)) (tabulate (λ i. 0x11 * i) 16)
    ≡ 0x8e ∷ 0xa2 ∷ 0xb7 ∷ 0xca ∷ 0x51 ∷ 0x67 ∷ 0x45 ∷ 0xbf ∷ 0xea ∷ 0xfc ∷ 0x49 ∷ 0x90 ∷ 0x4b
      ∷ 0x49 ∷ 0x60 ∷ 0x89 ∷ []
unfolding encrypt_block round_keys expand key_words next_word rot_word sub_word word add_round_key
    xor_bytes shift_rows round_key_bytes word_bytes sub_bytes sub_byte rounds mix_columns mix_column
    gmul gmul_loop xtime
fips_c3 = refl

abbrev some_byte : ℕ
some_byte = 0x53

sub_byte-affine_example :
    (sub_byte some_byte ≡ affine (inverse some_byte))
    × (some_byte ≢ 0 → gmul some_byte (inverse some_byte) ≡ 1)
sub_byte-affine_example = sub_byte-affine some_byte (omega arith)
