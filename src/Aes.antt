-- ===== src/Aes.antt =====
-- The block cipher AES-256 of cpp/include/relink/crypto.hpp. A block is the list of its 16 bytes, column by
-- column; a 32-bit word is a number.
mod Spec
mod Tests
use Prim.Native.Nat.{bit_or, bit_xor}
use relink_com.Base.{
  ℕ, zero, suc, ◌+◌, ◌-◌, ◌*◌, ◌/◌, ◌%◌, List, [], ◌∷◌, ◌++◌, ◌==◌, if◌then◌else◌, length, get_or,
  tabulate, u32_mod, xor_bytes,
}

abbrev pub sbox : List ℕ
sbox =
    0x63 ∷ 0x7c ∷ 0x77 ∷ 0x7b ∷ 0xf2 ∷ 0x6b ∷ 0x6f ∷ 0xc5 ∷ 0x30 ∷ 0x01 ∷ 0x67 ∷ 0x2b ∷ 0xfe ∷ 0xd7
    ∷ 0xab ∷ 0x76 ∷ 0xca ∷ 0x82 ∷ 0xc9 ∷ 0x7d ∷ 0xfa ∷ 0x59 ∷ 0x47 ∷ 0xf0 ∷ 0xad ∷ 0xd4 ∷ 0xa2
    ∷ 0xaf ∷ 0x9c ∷ 0xa4 ∷ 0x72 ∷ 0xc0 ∷ 0xb7 ∷ 0xfd ∷ 0x93 ∷ 0x26 ∷ 0x36 ∷ 0x3f ∷ 0xf7 ∷ 0xcc
    ∷ 0x34 ∷ 0xa5 ∷ 0xe5 ∷ 0xf1 ∷ 0x71 ∷ 0xd8 ∷ 0x31 ∷ 0x15 ∷ 0x04 ∷ 0xc7 ∷ 0x23 ∷ 0xc3 ∷ 0x18
    ∷ 0x96 ∷ 0x05 ∷ 0x9a ∷ 0x07 ∷ 0x12 ∷ 0x80 ∷ 0xe2 ∷ 0xeb ∷ 0x27 ∷ 0xb2 ∷ 0x75 ∷ 0x09 ∷ 0x83
    ∷ 0x2c ∷ 0x1a ∷ 0x1b ∷ 0x6e ∷ 0x5a ∷ 0xa0 ∷ 0x52 ∷ 0x3b ∷ 0xd6 ∷ 0xb3 ∷ 0x29 ∷ 0xe3 ∷ 0x2f
    ∷ 0x84 ∷ 0x53 ∷ 0xd1 ∷ 0x00 ∷ 0xed ∷ 0x20 ∷ 0xfc ∷ 0xb1 ∷ 0x5b ∷ 0x6a ∷ 0xcb ∷ 0xbe ∷ 0x39
    ∷ 0x4a ∷ 0x4c ∷ 0x58 ∷ 0xcf ∷ 0xd0 ∷ 0xef ∷ 0xaa ∷ 0xfb ∷ 0x43 ∷ 0x4d ∷ 0x33 ∷ 0x85 ∷ 0x45
    ∷ 0xf9 ∷ 0x02 ∷ 0x7f ∷ 0x50 ∷ 0x3c ∷ 0x9f ∷ 0xa8 ∷ 0x51 ∷ 0xa3 ∷ 0x40 ∷ 0x8f ∷ 0x92 ∷ 0x9d
    ∷ 0x38 ∷ 0xf5 ∷ 0xbc ∷ 0xb6 ∷ 0xda ∷ 0x21 ∷ 0x10 ∷ 0xff ∷ 0xf3 ∷ 0xd2 ∷ 0xcd ∷ 0x0c ∷ 0x13
    ∷ 0xec ∷ 0x5f ∷ 0x97 ∷ 0x44 ∷ 0x17 ∷ 0xc4 ∷ 0xa7 ∷ 0x7e ∷ 0x3d ∷ 0x64 ∷ 0x5d ∷ 0x19 ∷ 0x73
    ∷ 0x60 ∷ 0x81 ∷ 0x4f ∷ 0xdc ∷ 0x22 ∷ 0x2a ∷ 0x90 ∷ 0x88 ∷ 0x46 ∷ 0xee ∷ 0xb8 ∷ 0x14 ∷ 0xde
    ∷ 0x5e ∷ 0x0b ∷ 0xdb ∷ 0xe0 ∷ 0x32 ∷ 0x3a ∷ 0x0a ∷ 0x49 ∷ 0x06 ∷ 0x24 ∷ 0x5c ∷ 0xc2 ∷ 0xd3
    ∷ 0xac ∷ 0x62 ∷ 0x91 ∷ 0x95 ∷ 0xe4 ∷ 0x79 ∷ 0xe7 ∷ 0xc8 ∷ 0x37 ∷ 0x6d ∷ 0x8d ∷ 0xd5 ∷ 0x4e
    ∷ 0xa9 ∷ 0x6c ∷ 0x56 ∷ 0xf4 ∷ 0xea ∷ 0x65 ∷ 0x7a ∷ 0xae ∷ 0x08 ∷ 0xba ∷ 0x78 ∷ 0x25 ∷ 0x2e
    ∷ 0x1c ∷ 0xa6 ∷ 0xb4 ∷ 0xc6 ∷ 0xe8 ∷ 0xdd ∷ 0x74 ∷ 0x1f ∷ 0x4b ∷ 0xbd ∷ 0x8b ∷ 0x8a ∷ 0x70
    ∷ 0x3e ∷ 0xb5 ∷ 0x66 ∷ 0x48 ∷ 0x03 ∷ 0xf6 ∷ 0x0e ∷ 0x61 ∷ 0x35 ∷ 0x57 ∷ 0xb9 ∷ 0x86 ∷ 0xc1
    ∷ 0x1d ∷ 0x9e ∷ 0xe1 ∷ 0xf8 ∷ 0x98 ∷ 0x11 ∷ 0x69 ∷ 0xd9 ∷ 0x8e ∷ 0x94 ∷ 0x9b ∷ 0x1e ∷ 0x87
    ∷ 0xe9 ∷ 0xce ∷ 0x55 ∷ 0x28 ∷ 0xdf ∷ 0x8c ∷ 0xa1 ∷ 0x89 ∷ 0x0d ∷ 0xbf ∷ 0xe6 ∷ 0x42 ∷ 0x68
    ∷ 0x41 ∷ 0x99 ∷ 0x2d ∷ 0x0f ∷ 0xb0 ∷ 0x54 ∷ 0xbb ∷ 0x16 ∷ []

abbrev pub rcon : List ℕ
rcon =
    0x00 ∷ 0x01 ∷ 0x02 ∷ 0x04 ∷ 0x08 ∷ 0x10 ∷ 0x20 ∷ 0x40 ∷ 0x80 ∷ 0x1b ∷ 0x36 ∷ 0x6c ∷ 0xd8 ∷ 0xab
    ∷ 0x4d ∷ []

unfoldable pub sub_byte : ℕ → ℕ
sub_byte b = get_or sbox b 0

-- A big-endian word of four bytes, and its bytes.
unfoldable pub word : ℕ → ℕ → ℕ → ℕ → ℕ
word a b c d = bit_or (bit_or (bit_or (a * 16777216) (b * 65536)) (c * 256)) d

unfoldable pub word_bytes : ℕ → List ℕ
word_bytes w = w / 16777216 % 256 ∷ w / 65536 % 256 ∷ w / 256 % 256 ∷ w % 256 ∷ []

unfoldable pub sub_word : ℕ → ℕ
sub_word w =
    word (sub_byte (w / 16777216 % 256)) (sub_byte (w / 65536 % 256)) (sub_byte (w / 256 % 256))
      (sub_byte (w % 256))

unfoldable pub rot_word : ℕ → ℕ
rot_word w = bit_or (w * 256 % u32_mod) (w / 16777216)

-- The first eight words, from the key.
unfoldable pub key_words : List ℕ → List ℕ
key_words key =
    tabulate
      (λ i.
        word (get_or key (4 * i) 0) (get_or key (4 * i + 1) 0) (get_or key (4 * i + 2) 0)
          (get_or key (4 * i + 3) 0))
      8

-- Word `i`, from those before it.
unfoldable pub next_word : ℕ → List ℕ → ℕ
next_word i w =
    let previous = get_or w (i - 1) 0 in
    let temp =
      if i % 8 == 0
      then bit_xor (sub_word (rot_word previous)) (get_or rcon (i / 8) 0 * 16777216)
      else if i % 8 == 4
      then sub_word previous
      else previous in
    bit_xor (get_or w (i - 8) 0) temp

unfoldable pub expand : ℕ → List ℕ → List ℕ
expand zero w = w
expand (suc n) w = expand n (w ++ (next_word (length w) w ∷ []))

unfoldable pub round_keys : List ℕ → List ℕ
round_keys key = expand 52 (key_words key)

-- Multiplication by x in GF(2^8), and by any byte.
unfoldable pub xtime : ℕ → ℕ
xtime x = bit_xor (x * 2) (if x / 128 % 2 == 0 then 0 else 0x1b) % 256

unfoldable pub gmul_loop : ℕ → ℕ → ℕ → ℕ → ℕ
gmul_loop zero a b p = p
gmul_loop (suc n) a b p = gmul_loop n (xtime a) (b / 2) (if b % 2 == 0 then p else bit_xor p a)

unfoldable pub gmul : ℕ → ℕ → ℕ
gmul a b = gmul_loop 8 a b 0

unfoldable pub round_key_bytes : List ℕ → ℕ → List ℕ
round_key_bytes keys round =
    word_bytes (get_or keys (round * 4) 0)
    ++ word_bytes (get_or keys (round * 4 + 1) 0)
    ++ word_bytes (get_or keys (round * 4 + 2) 0)
    ++ word_bytes (get_or keys (round * 4 + 3) 0)

unfoldable pub add_round_key : List ℕ → ℕ → List ℕ → List ℕ
add_round_key keys round s = xor_bytes s (round_key_bytes keys round)

unfoldable pub sub_bytes : List ℕ → List ℕ
sub_bytes s = tabulate (λ i. sub_byte (get_or s i 0)) 16

-- Byte `4 * c + r` comes from column `c + r` of the same row.
unfoldable pub shift_rows : List ℕ → List ℕ
shift_rows s = tabulate (λ i. get_or s (4 * ((i / 4 + i % 4) % 4) + i % 4) 0) 16

unfoldable pub mix_column : ℕ → ℕ → ℕ → ℕ → List ℕ
mix_column a0 a1 a2 a3 =
    bit_xor (bit_xor (bit_xor (gmul a0 2) (gmul a1 3)) a2) a3
    ∷ bit_xor (bit_xor (bit_xor a0 (gmul a1 2)) (gmul a2 3)) a3
    ∷ bit_xor (bit_xor (bit_xor a0 a1) (gmul a2 2)) (gmul a3 3)
    ∷ bit_xor (bit_xor (bit_xor (gmul a0 3) a1) a2) (gmul a3 2)
    ∷ []

unfoldable pub mix_columns : List ℕ → List ℕ
mix_columns (a0 ∷ a1 ∷ a2 ∷ a3 ∷ s) = mix_column a0 a1 a2 a3 ++ mix_columns s
mix_columns s = []

-- Rounds `round`, `round + 1`, … : `n` of them.
unfoldable pub rounds : List ℕ → ℕ → ℕ → List ℕ → List ℕ
rounds keys round zero s = s
rounds keys round (suc n) s =
    rounds keys (suc round) n (add_round_key keys round (mix_columns (shift_rows (sub_bytes s))))

unfoldable pub encrypt_block : List ℕ → List ℕ → List ℕ
encrypt_block keys s =
    add_round_key keys 14 (shift_rows (sub_bytes (rounds keys 1 13 (add_round_key keys 0 s))))
