-- ===== src/Gcm/Sizes.antt =====
-- The size of GHASH and of the tag of cpp/include/relink/crypto.hpp.
use relink_com.Base.{
  ℕ, zero, suc, ◌/◌, ◌%◌, ◌≡◌, refl, ap, ◌∙◌, Bool, true, false, Bool-cases, inl, inr, get_or, ◌^◌,
  List, [], ◌∷◌, arith, ◌==◌, if◌then◌else◌, length, length-set, xor_bytes, length-xor_bytes,
}
use relink_com.Gcm.Counter.{length-encrypt_block, length-gctr}
use relink_com.Aes.{encrypt_block}
use relink_com.Gcm.{
  zero_block, shift_right, half, mul_byte, mul_bytes, gf128_mul, ghash, first_counter, tag_of,
}

length-shift_right : (carry : ℕ) (bs : List ℕ) → length (shift_right carry bs) ≡ length bs
unfolding shift_right
length-shift_right carry [] = refl
length-shift_right carry (b ∷ bs) = ap suc (length-shift_right (b % 2) bs)

length-half : (v : List ℕ) → length v ≡ 16 → length (half v) ≡ 16
unfolding half
length-half v h = elim (Bool-cases (get_or v 15 0 % 2 == 0)) [
  | inl e ↦ rw e (length-shift_right 0 v ∙ h)
  | inr e ↦ rw e (length-set (shift_right 0 v) 0 _ ∙ length-shift_right 0 v ∙ h)
]

abbrev AreBlocks : List ℕ × List ℕ → Type 0
AreBlocks zv = (length zv.0 ≡ 16) × (length zv.1 ≡ 16)

mul_byte-AreBlocks :
    (x bit : ℕ) (zv : List ℕ × List ℕ) → AreBlocks zv → AreBlocks (mul_byte x bit zv)
unfolding mul_byte
mul_byte-AreBlocks x zero (z, v) h = h
mul_byte-AreBlocks x (suc bit) (z, v) h =
    mul_byte-AreBlocks x bit (_, half v) (kept (x / 2 ^ bit % 2 == 0), length-half v h.1)
  where
    kept : (t : Bool) → length (if t then z else xor_bytes z v) ≡ 16
    kept true = h.0
    kept false = omega (arith, length-xor_bytes z v, h.0, h.1)

length-mul_bytes :
    (xs : List ℕ) (zv : List ℕ × List ℕ) → AreBlocks zv → length (mul_bytes xs zv) ≡ 16
unfolding mul_bytes
length-mul_bytes [] zv h = h.0
length-mul_bytes (x ∷ xs) zv h = length-mul_bytes xs (mul_byte x 8 zv) (mul_byte-AreBlocks x 8 zv h)

length-ghash : (h bytes : List ℕ) → length h ≡ 16 → length (ghash h bytes) ≡ 16
unfolding ghash gf128_mul
length-ghash h bytes e = length-mul_bytes _ (zero_block, h) (refl, e)

pub length-tag_of : (keys nonce ct : List ℕ) → length (tag_of keys nonce ct) ≡ 16
unfolding tag_of
length-tag_of keys nonce ct =
    length-gctr keys (first_counter nonce) (ghash (encrypt_block keys zero_block) ct)
    ∙ length-ghash (encrypt_block keys zero_block) ct (length-encrypt_block keys zero_block)
