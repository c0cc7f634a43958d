-- ===== src/Gcm/Counter.antt =====
-- The counter mode of cpp/include/relink/crypto.hpp: its size, and that a second pass undoes the first.
use relink_com.Base.{
  ℕ, zero, suc, ◌*◌, ◌≤◌, ◌<◌, min, ◌≡◌, refl, ap, ◌∙◌, List, [], ◌∷◌, ◌++◌, arith, length, take,
  drop, length-append, length-take, length-drop, take-append-drop, drop-append, take-append,
  take-length, drop-length, append-nil, xor_bytes, length-xor_bytes, xor_bytes_twice,
}
use native.Mathlib.Decide.{dec_lt}
use relink_com.Aes.{
  encrypt_block, add_round_key, shift_rows, round_key_bytes, word_bytes, sub_bytes, rounds,
}
use relink_com.Gcm.{blocks, inc32, gctr_loop, gctr}

pub length-encrypt_block : (keys s : List ℕ) → length (encrypt_block keys s) ≡ 16
unfolding encrypt_block add_round_key shift_rows round_key_bytes word_bytes
length-encrypt_block keys s =
    length-xor_bytes (shift_rows (sub_bytes (rounds keys 1 13 (add_round_key keys 0 s))))
      (round_key_bytes keys 14)

gctr_loop_empty : (n : ℕ) (keys counter : List ℕ) → gctr_loop n keys counter [] ≡ []
unfolding gctr_loop xor_bytes
gctr_loop_empty zero keys counter = refl
gctr_loop_empty (suc n) keys counter = gctr_loop_empty n keys (inc32 counter)

length-gctr_loop :
    (n : ℕ) (keys counter bytes : List ℕ)
    → length bytes ≤ 16 * n
    → length (gctr_loop n keys counter bytes) ≡ length bytes
unfolding gctr_loop
length-gctr_loop zero keys counter bytes h = omega arith
length-gctr_loop (suc n) keys counter bytes h = omega (
  arith,
  length-append (xor_bytes (take 16 bytes) (encrypt_block keys counter))
      (gctr_loop n keys (inc32 counter) (drop 16 bytes)),
  length-xor_bytes (take 16 bytes) (encrypt_block keys counter),
  length-encrypt_block keys counter,
  length-take 16 bytes,
  length-drop 16 bytes,
  length-gctr_loop n keys (inc32 counter) (drop 16 bytes) (omega (arith, length-drop 16 bytes)),
)

blocks-le : (len : ℕ) → len ≤ 16 * blocks len
unfolding blocks
blocks-le len = omega arith

pub length-gctr : (keys counter bytes : List ℕ) → length (gctr keys counter bytes) ≡ length bytes
unfolding gctr
length-gctr keys counter bytes =
    length-gctr_loop (blocks (length bytes)) keys counter bytes (blocks-le (length bytes))

-- The first block of an output, and what follows it.
split_lem :
    (a b bytes : List ℕ)
    → length a ≡ min 16 (length bytes)
    → (length bytes < 16 → b ≡ [])
    → (take 16 (a ++ b) ≡ a) × (drop 16 (a ++ b) ≡ b)
split_lem a b bytes h e = elim (dec_lt (length bytes) 16) [
  | yes lt ↦
      rw
        (
          e lt,
          append-nil a,
          take-length 16 a (omega (arith, h)),
          drop-length 16 a (omega (arith, h)),
        )
        (refl, refl)
  | no ge ↦ (
    ap (λ k. take k (a ++ b)) {x = 16} (omega (arith, h)) ∙ take-append a b,
    ap (λ k. drop k (a ++ b)) {x = 16} (omega (arith, h)) ∙ drop-append a b,
  )
]

first_length :
    (keys counter bytes : List ℕ)
    → length (xor_bytes (take 16 bytes) (encrypt_block keys counter)) ≡ min 16 (length bytes)
first_length keys counter bytes = omega (
  arith,
  length-xor_bytes (take 16 bytes) (encrypt_block keys counter),
  length-encrypt_block keys counter,
  length-take 16 bytes,
)

rest_empty :
    (n : ℕ) (keys counter bytes : List ℕ)
    → length bytes < 16
    → gctr_loop n keys (inc32 counter) (drop 16 bytes) ≡ []
rest_empty n keys counter bytes lt =
    rw (drop-length 16 bytes (omega arith)) (gctr_loop_empty n keys (inc32 counter))

gctr_loop_twice :
    (n : ℕ) (keys counter bytes : List ℕ)
    → length bytes ≤ 16 * n
    → gctr_loop n keys counter (gctr_loop n keys counter bytes) ≡ bytes
unfolding gctr_loop
gctr_loop_twice zero keys counter [] h = refl
gctr_loop_twice zero keys counter (b ∷ bytes) h = absurd (omega arith)
gctr_loop_twice (suc n) keys counter bytes h =
    let first = xor_bytes (take 16 bytes) (encrypt_block keys counter) in
    let after = gctr_loop n keys (inc32 counter) (drop 16 bytes) in
    let parts =
      split_lem first after bytes (first_length keys counter bytes)
        (rest_empty n keys counter bytes) in
    rw
      (
        parts.0,
        parts.1,
        xor_bytes_twice (take 16 bytes) (encrypt_block keys counter)
            (omega (arith, length-encrypt_block keys counter, length-take 16 bytes)),
        gctr_loop_twice n keys (inc32 counter) (drop 16 bytes)
            (omega (arith, length-drop 16 bytes)),
      )
      (take-append-drop 16 bytes)

-- A second pass of the counter mode undoes the first.
pub gctr_twice : (keys counter bytes : List ℕ) → gctr keys counter (gctr keys counter bytes) ≡ bytes
unfolding gctr
gctr_twice keys counter bytes =
    ap
      (λ len.
        gctr_loop (blocks len) keys counter (gctr_loop (blocks (length bytes)) keys counter bytes))
      (length-gctr_loop (blocks (length bytes)) keys counter bytes (blocks-le (length bytes)))
    ∙ gctr_loop_twice (blocks (length bytes)) keys counter bytes (blocks-le (length bytes))
