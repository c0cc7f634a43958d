-- ===== src/Gcm.antt =====
-- AES-256-GCM of cpp/include/relink/crypto.hpp: GHASH, the counter mode, sealing and opening.
-- A buffer is the list of its bytes; the nonce, which the code draws at random, is an argument.
mod Counter
mod Sizes
pub mod Laws
mod Tests
use Prim.Native.Nat.{bit_or, bit_xor}
use relink_com.Base.{
  ℕ, zero, suc, ◌+◌, ◌-◌, ◌*◌, ◌/◌, ◌%◌, ◌^◌, Option, none, some, List, [], ◌∷◌, ◌++◌, ◌==◌, ltb,
  if◌then◌else◌, length, take, drop, replicate, get_or, set, tabulate, xor_bytes, difference,
  u64_mod,
}
use relink_com.Aes.{encrypt_block, round_keys}

abbrev pub nonce_bytes : ℕ
nonce_bytes = 12

abbrev pub tag_bytes : ℕ
tag_bytes = 16

abbrev pub zero_block : List ℕ
zero_block = replicate 16 0

-- A shift of a block to the right by one bit; `carry` is what moves into the first byte.
unfoldable pub shift_right : ℕ → List ℕ → List ℕ
shift_right carry [] = []
shift_right carry (b ∷ bs) = bit_or (b / 2) (carry * 128) ∷ shift_right (b % 2) bs

-- The step of `v`: shifted, and reduced where a bit falls out.
unfoldable pub half : List ℕ → List ℕ
half v =
    let shifted = shift_right 0 v in
    if get_or v 15 0 % 2 == 0 then shifted else set shifted 0 (bit_xor (get_or shifted 0 0) 0xe1)

-- The bits 7 to 0 of one byte of `x`.
unfoldable pub mul_byte : ℕ → ℕ → List ℕ × List ℕ → List ℕ × List ℕ
mul_byte x zero (z, v) = (z, v)
mul_byte x (suc bit) (z, v) =
    mul_byte x bit (if x / 2 ^ bit % 2 == 0 then z else xor_bytes z v, half v)

unfoldable pub mul_bytes : List ℕ → List ℕ × List ℕ → List ℕ
mul_bytes [] zv = zv.0
mul_bytes (x ∷ xs) zv = mul_bytes xs (mul_byte x 8 zv)

unfoldable pub gf128_mul : List ℕ → List ℕ → List ℕ
gf128_mul x y = mul_bytes x (zero_block, y)

-- The first bytes of the data, filled up with zeros.
unfoldable pub padded : List ℕ → List ℕ
padded data' = take 16 data' ++ replicate (16 - length (take 16 data')) 0

-- The number of turns of a loop that takes 16 bytes each.
unfoldable pub blocks : ℕ → ℕ
blocks len = (len + 15) / 16

unfoldable pub ghash_loop : ℕ → List ℕ → List ℕ → List ℕ → List ℕ
ghash_loop zero h data' y = y
ghash_loop (suc n) h data' y =
    ghash_loop n h (drop 16 data') (gf128_mul (xor_bytes y (padded data')) h)

-- 64 zero bits and the number of bits, highest byte first.
unfoldable pub len_block : ℕ → List ℕ
len_block len = replicate 8 0 ++ tabulate (λ i. len * 8 % u64_mod / 2 ^ (8 * (7 - i)) % 256) 8

unfoldable pub ghash : List ℕ → List ℕ → List ℕ
ghash h data' =
    gf128_mul
      (xor_bytes (ghash_loop (blocks (length data')) h data' zero_block) (len_block (length data')))
      h

-- Byte `i` is incremented, and the bytes before it as long as one runs over.
unfoldable pub inc_at : ℕ → ℕ → List ℕ → List ℕ
inc_at zero i block = block
inc_at (suc n) i block =
    let b = (get_or block i 0 + 1) % 256 in
    let rest = inc_at n (i - 1) (set block i b) in if b == 0 then rest else set block i b

unfoldable pub inc32 : List ℕ → List ℕ
inc32 block = inc_at 4 15 block

unfoldable pub gctr_loop : ℕ → List ℕ → List ℕ → List ℕ → List ℕ
gctr_loop zero keys counter bytes = []
gctr_loop (suc n) keys counter bytes =
    xor_bytes (take 16 bytes) (encrypt_block keys counter)
    ++ gctr_loop n keys (inc32 counter) (drop 16 bytes)

unfoldable pub gctr : List ℕ → List ℕ → List ℕ → List ℕ
gctr keys counter bytes = gctr_loop (blocks (length bytes)) keys counter bytes

-- J0 of a nonce of 12 bytes.
unfoldable pub first_counter : List ℕ → List ℕ
first_counter nonce = nonce ++ (0 ∷ 0 ∷ 0 ∷ 1 ∷ [])

-- The tag of a ciphertext.
unfoldable pub tag_of : List ℕ → List ℕ → List ℕ → List ℕ
tag_of keys nonce ct = gctr keys (first_counter nonce) (ghash (encrypt_block keys zero_block) ct)

unfoldable pub aes256gcm_seal : List ℕ → List ℕ → List ℕ → ℕ → Option (List ℕ)
aes256gcm_seal key nonce pt out_capacity =
    let keys = round_keys key in
    let ct = gctr keys (inc32 (first_counter nonce)) pt in
    if ltb out_capacity (nonce_bytes + length pt + tag_bytes)
    then none
    else some (nonce ++ (ct ++ tag_of keys nonce ct))

unfoldable pub aes256gcm_open : List ℕ → List ℕ → ℕ → Option (List ℕ)
aes256gcm_open key bytes out_capacity =
    let keys = round_keys key in
    let ct_len = length bytes - nonce_bytes - tag_bytes in
    let nonce = take nonce_bytes bytes in
    let ct = take ct_len (drop nonce_bytes bytes) in
    let tag = drop ct_len (drop nonce_bytes bytes) in
    if ltb (length bytes) (nonce_bytes + tag_bytes)
    then none
    else if ltb out_capacity ct_len
    then none
    else if difference 0 (tag_of keys nonce ct) tag == 0
    then some (gctr keys (inc32 (first_counter nonce)) ct)
    else none
