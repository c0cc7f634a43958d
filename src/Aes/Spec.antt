-- ===== src/Aes/Spec.antt =====
-- The S-box of the cipher against the arithmetic of FIPS-197, section 5.1.1; the shape of a block.
use Prim.Native.Nat.{bit_or, bit_xor}
use relink_com.Base.{
  ℕ, zero, suc, ◌+◌, ◌*◌, ◌/◌, ◌%◌, ◌<◌, ◌≡◌, ◌≢◌, refl, true, ◌&&◌, ◌||◌, List, arith, ◌==◌, ltb,
  ltb→lt, length, get_or, All, IsByte, get_or-All, tabulate, passes, passes_sound, length-xor_bytes,
  xor_bytes-IsByte, ◌^◌, ◌-◌,
}
use relink_com.Aes.{
  sub_byte, sub_bytes, shift_rows, word_bytes, round_key_bytes, add_round_key, gmul, gmul_loop,
  xtime,
}

-- x to the power 254, by the repeated squares x ^ 2, x ^ 4, … x ^ 128.
unfoldable pub squares : ℕ → ℕ → ℕ → ℕ
squares zero s p = p
squares (suc n) s p = let s' = gmul s s in squares n s' (gmul p s')

unfoldable pub inverse : ℕ → ℕ
inverse x = squares 7 x 1

unfoldable pub rotate : ℕ → ℕ → ℕ
rotate b k = bit_or (b * 2 ^ k % 256) (b / 2 ^ (8 - k))

-- The affine transformation of section 5.1.1.
unfoldable pub affine : ℕ → ℕ
affine b =
    bit_xor
      (bit_xor (bit_xor (bit_xor (bit_xor b (rotate b 1)) (rotate b 2)) (rotate b 3)) (rotate b 4))
      0x63

sbox_table :
    passes (λ x. (sub_byte x == affine (inverse x)) && ((x == 0) || (gmul x (inverse x) == 1))) 256
    ≡ true
unfolding passes sub_byte affine inverse rotate squares gmul gmul_loop xtime
sbox_table = refl

-- The table kSbox is the S-box of FIPS-197: for every byte it holds the affine transformation of the byte's
-- inverse in GF(2^8), which multiplied with a byte other than 0 by gmul gives 1.
pub sub_byte-affine :
    (x : ℕ) → x < 256 → (sub_byte x ≡ affine (inverse x)) × (x ≢ 0 → gmul x (inverse x) ≡ 1)
sub_byte-affine x h = table_entry (passes_sound _ 256 sbox_table x h)
  where
    table_entry :
        (sub_byte x == affine (inverse x)) && ((x == 0) || (gmul x (inverse x) == 1)) ≡ true
        → (sub_byte x ≡ affine (inverse x)) × (x ≢ 0 → gmul x (inverse x) ≡ 1)
    table_entry e = (ground arith, λ ne. ground arith)

sub_byte_table : passes (λ x. ltb (sub_byte x) 256) 256 ≡ true
unfolding passes sub_byte
sub_byte_table = refl

tabulate-All : (f : ℕ → ℕ) (n : ℕ) → ((i : ℕ) → f i < 256) → All IsByte (tabulate f n)
tabulate-All f zero h = tt
tabulate-All f (suc n) h = (h 0, tabulate-All (λ i. f (suc i)) n (λ i. h (suc i)))

abbrev pub IsBlock : List ℕ → Type 0
IsBlock s = (length s ≡ 16) × All IsByte s

round_key_bytes-IsBlock : (keys : List ℕ) (round : ℕ) → IsBlock (round_key_bytes keys round)
unfolding round_key_bytes word_bytes
round_key_bytes-IsBlock keys round = (refl, omega arith)

add_round_key-IsBlock :
    (keys : List ℕ) (round : ℕ) (s : List ℕ) → IsBlock s → IsBlock (add_round_key keys round s)
unfolding add_round_key
add_round_key-IsBlock keys round s h =
    let k = round_key_bytes-IsBlock keys round in
    (
      omega (arith, length-xor_bytes s (round_key_bytes keys round), h.0, k.0),
      xor_bytes-IsByte s (round_key_bytes keys round) h.1 k.1,
    )

sub_byte-lt : (b : ℕ) → b < 256 → sub_byte b < 256
sub_byte-lt b h = ltb→lt _ _ (passes_sound _ 256 sub_byte_table b h)

sub_bytes-IsBlock : (s : List ℕ) → All IsByte s → IsBlock (sub_bytes s)
unfolding sub_bytes
sub_bytes-IsBlock s b =
    (refl, tabulate-All (λ i. sub_byte (get_or s i 0)) 16 (λ i. sub_byte-lt _ (get_or-All s i b)))

shift_rows-IsBlock : (s : List ℕ) → All IsByte s → IsBlock (shift_rows s)
unfolding shift_rows
shift_rows-IsBlock s b =
    (refl, tabulate-All _ 16 (λ i. get_or-All s (4 * ((i / 4 + i % 4) % 4) + i % 4) b))
